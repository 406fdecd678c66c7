-- ===== src/Build/Raw.antt =====
-- controllers/build/raw.go: a Dockerfile given as text is kept in a config map, which the build
-- mounts into the workspace.
use cloudrun.Base.{String, ◌<>◌, true, false, Option, none, some, List, [], ◌∷◌, ◌++◌}
use cloudrun.Api.Meta.{no_type, new_meta}
use cloudrun.Api.Builder.{Builder}
use cloudrun.Cluster.Outcome.{
  Action, pure, panics, out_of_range, attempt, done, or_wrap, ◌>>=◌, ◌>>◌,
}
use cloudrun.Cluster.Workloads.{ConfigMap, Container, PodSpec, VolumeMount, config_map}
use cloudrun.Cluster.Client.{Cluster}
use cloudrun.Cluster.Client as Client
use cloudrun.Cluster.Crd.{Run, on_world}
use cloudrun.Core.Context.{Context, name, namespace, create_resource, unless_missing}
use cloudrun.Build.Names.{workspace_volume_mount_path}

unfoldable pub dockerfile_configmap_name : Context → String
dockerfile_configmap_name ctx = name ctx <> "-dockerfile"

-- `podSpec.Containers[0].VolumeMounts = append(...)`
abbrev pub mount_in_first : {S : Type 0} → VolumeMount → List Container → Action S (List Container)
mount_in_first m [] = panics out_of_range
mount_in_first m (c ∷ cs) = pure (record c { volume_mounts = c.volume_mounts ++ (m ∷ []) } ∷ cs)

abbrev pub dockerfile_configmap : Context → String → String → ConfigMap
dockerfile_configmap ctx dockerfile path = record {
  type_meta = no_type;
  meta = new_meta (dockerfile_configmap_name ctx) (namespace ctx);
  spec = record { immutable = some true; contents = (path, dockerfile) ∷ [] };
  status = tt;
}

module _ (K : Cluster) {M : Type 0} (ctx : Context) where
  unfoldable pub add_raw_dockerfile_init_containers :
      String → PodSpec → String → Action (Run K.World M) PodSpec
  add_raw_dockerfile_init_containers dockerfile p path = do
    or_wrap "create configmap for dockerfile" (
        create_resource K ctx Client.config_map (dockerfile_configmap ctx dockerfile path) true
          false)
    containers ←
        mount_in_first
          (record {
            name = "dockerfile";
            mount_path = K.join workspace_volume_mount_path path;
            sub_path = path;
          })
          p.containers
    pure (record p {
      containers = containers;
      volumes =
          p.volumes
          ++ (record { name = "dockerfile"; source = config_map (dockerfile_configmap_name ctx) }
              ∷ []);
    })

  abbrev delete_configmap : Option ConfigMap → Action (Run K.World M) (Unit {0})
  delete_configmap none = done
  delete_configmap (some cm) =
      or_wrap "failed delete dockerfile configmap" (on_world (K.delete Client.config_map cm))

  abbrev delete_for_raw : Option String → Action (Run K.World M) (Unit {0})
  delete_for_raw none = done
  delete_for_raw (some _) = do
    reply ← attempt (
        on_world (
          K.get Client.config_map
            (record { name = dockerfile_configmap_name ctx; namespace = namespace ctx })))
    found ←
        unless_missing "failed get dockerfile configmap when try to delete dockerfile configmap"
          reply
    delete_configmap found

  -- `DeleteDockerfileMapConfigmap`; no controller calls it.
  unfoldable pub delete_dockerfile_configmap : Builder → Action (Run K.World M) (Unit {0})
  delete_dockerfile_configmap b = delete_for_raw b.spec.context.raw

-- ===== src/Build/Mounts.antt =====
-- The volumes of a build's pod (controllers/build): each mount has its volume.
use cloudrun.Base.{
  ◌≡◌, refl, String, ◌===◌, Bool, true, false, ◌&&◌, ◌||◌, not, Option, none, some, List, [], ◌∷◌,
  ◌++◌,
}
use cloudrun.Api.Builder.{Builder, BuilderContextS3, BuildContextGit, BuildContextHttp, BuilderSpec}
use cloudrun.Cluster.Outcome.{ok}
use cloudrun.Cluster.Workloads.{Container, Job, PodSpec, Volume, VolumeMount, config_map}
use cloudrun.Cluster.Client.{Cluster}
use cloudrun.Cluster.Client as Client
use cloudrun.Core.Context.{Context}
use cloudrun.Build.Fetch.{
  add_git_init_containers, add_http_init_containers, add_s3_init_containers, git_command,
}
use cloudrun.Build.Job.{add_context, base_pod_spec, main_container}
use cloudrun.Build.Names.{workspace_mount, workspace_volume_mount_path}
use cloudrun.Build.Raw.{dockerfile_configmap_name}

abbrev pub declares : List Volume → String → Bool
declares [] n = false
declares (v ∷ vs) n = v.name === n || declares vs n

abbrev pub mounts_declared : List Volume → List VolumeMount → Bool
mounts_declared vs [] = true
mounts_declared vs (m ∷ ms) = declares vs m.name && mounts_declared vs ms

abbrev pub all_declared : List Volume → List Container → Bool
all_declared vs [] = true
all_declared vs (c ∷ cs) = mounts_declared vs c.volume_mounts && all_declared vs cs

abbrev pub are_distinct : List Volume → Bool
are_distinct [] = true
are_distinct (v ∷ vs) = not (declares vs v.name) && are_distinct vs

-- What the API server asks of the volumes of a pod: no two have one name, and each mount of a
-- container names one of them.
abbrev pub has_volumes : PodSpec → Bool
has_volumes p =
    are_distinct p.volumes
    && (all_declared p.volumes p.init_containers && all_declared p.volumes p.containers)

module _ (K : Cluster) where
  -- The pod with the Dockerfile of the config map.
  abbrev pub with_dockerfile : Context → BuilderSpec → String → PodSpec → PodSpec
  with_dockerfile ctx spec path p =
      let main = main_container K spec path in
      record p {
        containers =
            record main {
              volume_mounts =
                  main.volume_mounts
                  ++ (record {
                    name = "dockerfile";
                    mount_path = K.join workspace_volume_mount_path path;
                    sub_path = path;
                  }
                      ∷ []);
            }
            ∷ [];
        volumes =
            p.volumes
            ++ (record { name = "dockerfile"; source = config_map (dockerfile_configmap_name ctx) }
                ∷ []);
      }

  -- A pod with the main container that is ready for the Dockerfile.
  pub record Fetched (ctx : Context) (spec : BuilderSpec) (path : String) (p : PodSpec)
      : Type 0 where
    pub main : p.containers ≡ main_container K spec path ∷ []
    pub mounted : has_volumes p ≡ true
    pub mounted_raw : has_volumes (with_dockerfile ctx spec path p) ≡ true

  -- The address of a git repository is a URL, if there is one.
  abbrev pub IsParsed : Option BuildContextGit → Type 0
  IsParsed none = Unit
  IsParsed (some c) = K.parse_url c.url_with_auth ≡ ok tt

  module _ where
    pub add_context-Fetched :
        {S : Type 0} (ctx : Context) (spec : BuilderSpec) (path : String) (s : S)
        → IsParsed spec.context.git
        → (p : PodSpec) × (add_context K spec.context (base_pod_spec K spec path) s ≡ (ok p, s))
          × Fetched ctx spec path p
    unfolding add_context base_pod_spec add_s3_init_containers add_http_init_containers
        add_git_init_containers git_command workspace_mount
    add_context-Fetched ctx spec path s =
        by_source spec.context.s3 spec.context.git spec.context.http
      where
        by_source :
            (s3 : Option BuilderContextS3) (git : Option BuildContextGit)
            (http : Option BuildContextHttp)
            → IsParsed git
            → (p : PodSpec) × (add_context K
                  (record spec.context { s3 = s3; git = git; http = http })
                  (base_pod_spec K spec path)
                  s
                ≡ (ok p, s))
              × Fetched ctx spec path p
        by_source (some c) git http h =
            (_, refl, record { main = refl; mounted = refl; mounted_raw = refl })
        by_source none (some c) http h =
            rw h (_, refl, record { main = refl; mounted = refl; mounted_raw = refl })
        by_source none none (some c) h =
            (_, refl, record { main = refl; mounted = refl; mounted_raw = refl })
        by_source none none none h =
            (_, refl, record { main = refl; mounted = refl; mounted_raw = refl })

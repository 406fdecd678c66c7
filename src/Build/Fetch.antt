-- ===== src/Build/Fetch.antt =====
-- controllers/build/s3.go, http.go and git.go: the containers that bring the build's context into
-- the workspace before the build runs.
use cloudrun.Base.{String, ◌<>◌, Option, none, some, List, [], ◌∷◌, ◌++◌}
use cloudrun.Api.Builder.{BuilderContextS3, BuildContextGit, BuildContextHttp}
use cloudrun.Cluster.Outcome.{Outcome, ok, err, panic, wrapped}
use cloudrun.Cluster.Workloads.{Container, PodSpec, Volume, VolumeMount, empty_dir, new_container}
use cloudrun.Cluster.Client.{Cluster}
use cloudrun.Build.Names.{
  context_tar_file_full_path, git_image_name, prepare_context_tar_volume_mount_path,
  prepare_context_tar_volume_name, s3_cmd_image_name, unzip_image_name, wget_image_name,
  workspace_mount, workspace_volume_mount_path,
}

abbrev pub prepare_context_tar_volume : Volume
prepare_context_tar_volume = record { name = prepare_context_tar_volume_name; source = empty_dir }

abbrev pub empty_dir_volume_mount : VolumeMount
empty_dir_volume_mount = record {
  name = prepare_context_tar_volume_name;
  mount_path = prepare_context_tar_volume_mount_path;
  sub_path = "";
}

-- The two containers and the volume go behind those that are there.
abbrev with_prepared : PodSpec → List Container → PodSpec
with_prepared p cs = record p {
  volumes = p.volumes ++ (prepare_context_tar_volume ∷ []);
  init_containers = p.init_containers ++ cs;
}

module _ (K : Cluster) where
  abbrev unzip_container : Container
  unzip_container = record (new_container "unzip-context" unzip_image_name) {
    command = "sh" ∷ "-c" ∷ [];
    args =
        ("unarr " <> (context_tar_file_full_path K <> (" " <> workspace_volume_mount_path))) ∷ [];
    volume_mounts = empty_dir_volume_mount ∷ workspace_mount ∷ [];
  }

  -- `ls3md download  -region=%s  -endpoint=%s://%s  -bucket=%s -source=%s -target=%s`
  abbrev download : BuilderContextS3 → String
  download c =
      "ls3md download  -region="
      <> (c.region
          <> ("  -endpoint="
              <> (c.scheme
                  <> ("://"
                      <> (c.endpoint
                          <> ("  -bucket="
                              <> (c.bucket
                                  <> (" -source="
                                      <> (c.object_key
                                          <> (" -target=" <> context_tar_file_full_path K))))))))))

  unfoldable pub add_s3_init_containers : BuilderContextS3 → PodSpec → PodSpec
  add_s3_init_containers c p = with_prepared p (
      record (new_container "fetch-s3-context" s3_cmd_image_name) {
        env =
            record { name = "AWS_ACCESS_KEY_ID"; value = c.access_key_id }
            ∷ record { name = "AWS_SECRET_ACCESS_KEY"; value = c.access_secret_key }
            ∷ [];
        args = download c ∷ [];
        volume_mounts = empty_dir_volume_mount ∷ [];
      }
      ∷ unzip_container
      ∷ [])

  unfoldable pub add_http_init_containers : BuildContextHttp → PodSpec → PodSpec
  add_http_init_containers c p = with_prepared p (
      record (new_container "wget" wget_image_name) {
        command = "wget" ∷ [];
        args = c.url ∷ "-O" ∷ context_tar_file_full_path K ∷ [];
        volume_mounts = empty_dir_volume_mount ∷ [];
      }
      ∷ unzip_container
      ∷ [])

  abbrev git_checkout : String → Option String → String
  git_checkout clone none = clone
  git_checkout clone (some ref) =
      clone
      <> (" && cd "
          <> (workspace_volume_mount_path
              <> (" && cd " <> (workspace_volume_mount_path <> (" && git checkout " <> ref)))))

  abbrev command_of : BuildContextGit → Outcome (Unit {0}) → Outcome String
  command_of c (ok _) = ok (
      git_checkout ("git clone " <> (c.url_with_auth <> (" " <> workspace_volume_mount_path)))
        c.ref)
  command_of c (err e) = err e
  command_of c (panic e) = panic e

  unfoldable pub git_command : BuildContextGit → Outcome String
  git_command c = command_of c (wrapped "failed to parse the git url" (K.parse_url c.url_with_auth))

  abbrev with_clone : PodSpec → Outcome String → Outcome PodSpec
  with_clone p (ok command) = ok (record p {
    init_containers =
        p.init_containers
        ++ (record (new_container "git-clone" git_image_name) {
          command = "/bin/sh" ∷ "-c" ∷ [];
          args = command ∷ [];
          volume_mounts = workspace_mount ∷ [];
        }
            ∷ []);
  })
  with_clone p (err e) = err e
  with_clone p (panic e) = panic e

  unfoldable pub add_git_init_containers : BuildContextGit → PodSpec → Outcome PodSpec
  add_git_init_containers c p =
      with_clone p (wrapped "failed to generate git command" (git_command c))

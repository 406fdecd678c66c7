-- ===== src/Build/Names.antt =====
-- controllers/build/builder.go: the constants, and the context of a builder.
use cloudrun.Base.{ℤ, String}
use cloudrun.Api.Builder.{Builder}
use cloudrun.Cluster.Outcome.{Action, gets, deref, pure, ◌>>=◌}
use cloudrun.Cluster.Workloads.{VolumeMount}
use cloudrun.Cluster.Client.{Cluster}
use cloudrun.Cluster.Crd.{Run}
use cloudrun.Core.Context.{Context}
use cloudrun.Core.Context as Core

abbrev pub context_tar_name : String
context_tar_name = "contextTar"

abbrev pub prepare_context_tar_volume_name : String
prepare_context_tar_volume_name = "prepare-context-tar"

abbrev pub workspace_volume_name : String
workspace_volume_name = "workspace"

abbrev pub prepare_context_tar_volume_mount_path : String
prepare_context_tar_volume_mount_path = "/prepare-context"

abbrev pub workspace_volume_mount_path : String
workspace_volume_mount_path = "/workspace"

abbrev pub push_secret_volume_mount_path : String
push_secret_volume_mount_path = "/home/user/.docker/"

abbrev pub s3_cmd_image_name : String
s3_cmd_image_name = "scs.buaa.edu.cn:8081/iobs/ls3cmd:1.0.0"

abbrev pub wget_image_name : String
wget_image_name = "scs.buaa.edu.cn:8081/library/wget:alpine"

abbrev pub unzip_image_name : String
unzip_image_name = "scs.buaa.edu.cn:8081/iobs/go-unarr:0.1.6"

abbrev pub git_image_name : String
git_image_name = "scs.buaa.edu.cn:8081/iobs/bitnami-git:2.39.0"

abbrev pub builder_image_name : String
builder_image_name = "scs.buaa.edu.cn:8081/iobs/buildkit:master-rootless"

abbrev pub default_push_secret_name : String
default_push_secret_name = "push-secret"

-- `contextTarFileFullPath`
abbrev pub context_tar_file_full_path : Cluster → String
context_tar_file_full_path K = K.join prepare_context_tar_volume_mount_path context_tar_name

unfoldable pub workspace_mount : VolumeMount
workspace_mount = record {
  name = workspace_volume_name;
  mount_path = workspace_volume_mount_path;
  sub_path = "";
}

-- `build.NewContext`
unfoldable pub new_context : Builder → Context
new_context b = Core.new_context b.type_meta b.meta

-- `ctx.Builder.Status.Base.CurrentRound`
unfoldable pub current_round : {W : Type 0} → Action (Run W Builder) ℤ
current_round = do base ← (do deref (← gets (λ s. s.self.status.base))); pure base.current_round

-- ===== src/Finalize.antt =====
-- controllers/finalize/finalize.go: the finalizer that keeps an object until its controller is done.
use cloudrun.Base.{String, Bool}
use cloudrun.Api.Meta.{Object}
use cloudrun.Cluster.Client.{Cluster}

abbrev pub cloud_run_finalizer : String
cloud_run_finalizer = "finalizer.cloudapi.scs.buaa.edu.cn"

module _ (K : Cluster) {S T : Type 0} where
  abbrev pub add : Object S T → Object S T
  add o = record o { meta = K.add_finalizer o.meta cloud_run_finalizer }

  abbrev pub contains : Object S T → Bool
  contains o = K.contains_finalizer o.meta cloud_run_finalizer

  abbrev pub remove : Object S T → Object S T
  remove o = record o { meta = K.remove_finalizer o.meta cloud_run_finalizer }

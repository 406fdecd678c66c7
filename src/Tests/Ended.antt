-- ===== src/Tests/Ended.antt =====
-- The end of a build over a store, applied to the cluster in memory.
use cloudrun.Base.{List, [], ◌∷◌}
use cloudrun.Types.{doing}
use cloudrun.Api.Builder.{Builder}
use cloudrun.Cluster.Client.{Kind, Obj, builder, deployer, job}
use cloudrun.Build.Names as Build
use cloudrun.Controllers.Builder as BuilderController
use cloudrun.Core.Context as Core
use cloudrun.Store.Round as Round
use cloudrun.Tests.Memory.{Store}
use cloudrun.Tests.Reconciled.{with_finalizer}
use cloudrun.Tests.Recovery.{ended, the_job}
use cloudrun.Tests.Samples.{a_builder, a_deployer, in_round, no_objects}

abbrev site_builder : Builder
site_builder = record (a_builder 2 (in_round 2 doing)) { meta = with_finalizer }

-- The server with a builder, its job that has succeeded, and the deployer of its hook.
abbrev site : Store
site = record ended { shelf = shelf }
  where
    shelf : (k : Kind) → List (Obj k)
    shelf builder = site_builder ∷ []
    shelf deployer = a_deployer ∷ []
    shelf job = the_job ∷ []
    shelf k = no_objects k

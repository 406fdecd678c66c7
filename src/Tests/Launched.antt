-- ===== src/Tests/Launched.antt =====
-- The start of a service over a store, applied to the cluster in memory.
use cloudrun.Base.{List, [], ◌∷◌}
use cloudrun.Types.{doing}
use cloudrun.Api.Deployer.{Deployer}
use cloudrun.Cluster.Client.{Kind, Obj, deployer}
use cloudrun.Controllers.Deployer as DeployerController
use cloudrun.Deploy.Names as Deploy
use cloudrun.Store.Cleanup as Cleanup
use cloudrun.Tests.Memory.{Store}
use cloudrun.Tests.Reconciled.{site_deployer}
use cloudrun.Tests.Samples.{empty, in_round, no_objects}

-- The server with a deployer in its first round.
abbrev site : Store
site = record empty { shelf = shelf }
  where
    shelf : (k : Kind) → List (Obj k)
    shelf deployer = Cleanup.with_base site_deployer (in_round 1 doing) ∷ []
    shelf k = no_objects k

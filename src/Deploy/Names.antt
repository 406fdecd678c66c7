-- ===== src/Deploy/Names.antt =====
-- controllers/deploy/deployer.go: the context of a deployer.
use cloudrun.Base.{ℤ, String, is_empty, index, if◌then◌else◌}
use cloudrun.Api.Deployer.{Deployer}
use cloudrun.Cluster.Outcome.{Action, gets, deref, pure, ◌>>=◌}
use cloudrun.Cluster.Crd.{Run}
use cloudrun.Core.Context.{Context}
use cloudrun.Core.Context as Core

-- `deploy.NewContext`
unfoldable pub new_context : Deployer → Context
new_context d = Core.new_context d.type_meta d.meta

-- `ctx.Deployer.Status.Base.CurrentRound`
unfoldable pub current_round : {W : Type 0} → Action (Run W Deployer) ℤ
current_round = do base ← (do deref (← gets (λ s. s.self.status.base))); pure base.current_round

-- The annotation, or else the label, or else the name.
unfoldable pub display_name : Deployer → String
display_name d =
    let annotation = index d.meta.annotations "displayName" in
    let label = index d.meta.labels "displayName" in
    if is_empty annotation then (if is_empty label then d.meta.name else label) else annotation

-- ===== src/Controllers/Workflow/Overall.antt =====
-- The status of a workflow against those of its parts (controllers/workflow_controller.go).
use cloudrun.Base.{◌≡◌, ◌⊎◌, true, false, some, arith}
use cloudrun.Types.{CommonStatus, Status, hash_done, has_started, is_doing, done}
use cloudrun.Controllers.Workflow.{overall}

-- A workflow with a build is done after a run only if the build has ended and the deployer is done,
-- or if it was done before and its build has not begun.
pub overall-done :
    (own : Status) (b d : CommonStatus)
    → overall own (some b) d ≡ done
    → ((hash_done b ≡ true) × (d.status ≡ done))
      ⊎ ((own ≡ done) × (hash_done b ≡ false) × (is_doing b.status ≡ false))
unfolding overall has_started hash_done
overall-done own b d h = ground arith

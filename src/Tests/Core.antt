-- ===== src/Tests/Core.antt =====
-- The theorems on what the controllers share at concrete inputs.
use cloudrun.Base.{ℕ, ◌≡◌, refl, pos, false, none, some}
use cloudrun.Types.{doing, done}
use cloudrun.Api.Builder.{Builder, common_status}
use cloudrun.Cluster.Outcome.{ok, err}
use cloudrun.Cluster.Client.{builder}
use cloudrun.Cluster.Crd.{Run, Reconciling, builder_crd}
use cloudrun.Cluster.CrdLaws.{base_of, builder_crd-IsPointer}
use cloudrun.Core.Job.{create_and_watch_job, end_watch, note_end}
use cloudrun.Core.Job.Failure.{end_watch-failed}
use cloudrun.Core.Job.Hook.{create_and_watch_job-idle}
use cloudrun.Core.Names.{sub_name-injective}
use cloudrun.Core.Pod.{PodReport}
use cloudrun.Build.Job.{new_job}
use cloudrun.Build.Trigger.{trigger_deployer}
use cloudrun.Tests.Memory.{memory, missing, Store}
use cloudrun.Tests.Samples.{a_builder, ctx, empty, in_round, run}

abbrev at_work : Run Store Builder
at_work = run empty (a_builder 2 (in_round 2 doing))

abbrev finished : Run Store Builder
finished = run empty (a_builder 2 (in_round 2 done))

create_and_watch_job-idle_example :
    create_and_watch_job memory builder builder_crd ctx
      (new_job memory ctx)
      false
      (some (trigger_deployer memory))
      finished
    ≡ create_and_watch_job memory builder builder_crd ctx (new_job memory ctx) false none finished
unfolding common_status
create_and_watch_job-idle_example =
    create_and_watch_job-idle memory builder builder_crd builder_crd-IsPointer ctx
      (trigger_deployer memory) (new_job memory ctx) false finished refl

abbrev succeeded : PodReport
succeeded = record { status = done; message = ""; pod = none }

-- A hook that does not find what it needs.
abbrev failing : Reconciling memory builder (Unit {0})
failing s = (err missing, s)

abbrev ended : Run Store Builder
ended = run empty (a_builder 2 (record (in_round 2 doing) { end_time = pos 5 }))

end_watch-failed_example :
    ((end_watch memory builder builder_crd ctx (pos 2) succeeded false (some failing) at_work).0
      ≡ ok tt)
    × (base_of memory builder builder_crd builder_crd-IsPointer
          (end_watch memory builder builder_crd ctx
            (pos 2)
            succeeded
            false
            (some failing)
            at_work).1
        ≡ record (in_round 2 doing) { end_time = pos 5 })
unfolding common_status note_end
end_watch-failed_example =
    end_watch-failed memory builder builder_crd builder_crd-IsPointer ctx (pos 2) succeeded false
      failing at_work ended missing refl refl refl

sub_name-injective_example : ◌≡◌ {A = ℕ} 12 12
sub_name-injective_example = sub_name-injective ctx 12 12 refl

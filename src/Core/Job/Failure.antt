-- ===== src/Core/Job/Failure.antt =====
-- A hook of `CreateAndWatchJob` (controllers/core/job.go) that fails is called again.
use cloudrun.Base.{ℤ, ◌≡◌, refl, ap, Bool, true, false, some}
use cloudrun.Types.{is_done, doing}
use cloudrun.Cluster.Outcome.{ok, err, Error}
use cloudrun.Cluster.Client.{Kind, Obj, Cluster}
use cloudrun.Cluster.Crd.{Crd, Run, Reconciling, common_status}
use cloudrun.Cluster.CrdLaws.{IsPointer, base_of, base_of-set_status}
use cloudrun.Core.Context.{Context}
use cloudrun.Core.Pod.{PodReport}
use cloudrun.Core.Job.{after_hook, end_watch, note_end, run_hook}

module _ (K : Cluster) (k : Kind) (C : Crd k) (P : IsPointer C) (ctx : Context) where
  -- The state in which a hook is called: the end is noted, and the status read.
  abbrev pub at_hook : Run K.World (Obj k) → Run K.World (Obj k)
  at_hook s = (common_status K k C (note_end K k C ctx s).1).1

  pub note_end-status :
      (s : Run K.World (Obj k))
      → (base_of K k C P (note_end K k C ctx s).1).status ≡ (base_of K k C P s).status
  unfolding note_end
  note_end-status s =
      let (t, w) = K.now s.world in
      ap (λ b. b.status)
        (base_of-set_status K k C P (λ b. record b { end_time = t }) (record s { world = w }))

  -- The end of a job whose pod succeeded, in an object that is not done: the hook runs, and if it
  -- fails, its error is dropped, the object is at work, not done, and the pod's status is not taken
  -- over, so that the next run meets the same job and calls the hook again.
  pub end_watch-failed :
      (round : ℤ) (report : PodReport) (delete_after : Bool) (hook : Reconciling K k (Unit {0}))
      (s t : Run K.World (Obj k)) (e : Error)
      → is_done report.status ≡ true
      → is_done (base_of K k C P s).status ≡ false
      → hook (at_hook s) ≡ (err e, t)
      → ((end_watch K k C ctx round report delete_after (some hook) s).0 ≡ ok tt)
        × (base_of K k C P (end_watch K k C ctx round report delete_after (some hook) s).1
            ≡ record (base_of K k C P t) { status = doing })
  unfolding end_watch run_hook after_hook note_end
  end_watch-failed round report delete_after hook s t e succeeded fresh fails =
      rw (succeeded, note_end-status s, fresh, fails)
        (refl, base_of-set_status K k C P (λ b. record b { status = doing }) t)

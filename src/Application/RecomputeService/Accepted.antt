-- ===== src/Application/RecomputeService/Accepted.antt =====
-- A run that `Trigger` returns: the job that waits for it.
use pg_analytics_service.Prelude.{
  ◌≡◌, ap, inl, inr, Option, Option-cases, List, [], ◌∷◌, ◌++◌, Text,
}
use pg_analytics_service.Domain.Models.{RecomputeRequest, RecomputeRun}
use pg_analytics_service.Effects.{Result, ok}
use pg_analytics_service.Application.Validation.{validate_trigger}
use pg_analytics_service.Application.LockLaws.{LockLaws}
use pg_analytics_service.Application.RecomputeService.{
  RecomputeService, RecomputeJob, Process, lock_key_of, trigger,
}
use pg_analytics_service.Application.RecomputeService.Locks.{Frames}
use pg_analytics_service.Application.RecomputeService.System.{Result-cases, trigger-not_found}
use pg_analytics_service.Application.RecomputeService.Accounting.{Accounts}
use pg_analytics_service.Application.RecomputeService.Trigger.{
  trigger_invalid, trigger_conflict, trigger-Accounts,
}

module _ {S : Type 0} (service : RecomputeService S) {holder : S → Text → Option Text}
    (laws : LockLaws service.locks holder) (frames : Frames service holder) where
  abbrev pub Queued :
      RecomputeRequest → RecomputeRun → List RecomputeJob → List RecomputeJob → Type 0
  Queued request run before after =
      (job : RecomputeJob) × (after ≡ before ++ job ∷ [])
      × (job.lock_key ≡ lock_key_of request)
      × (job.run_id ≡ run.id)

  Accounts-Queued :
      (request : RecomputeRequest) (token : Text) (p q : Process S) (run : RecomputeRun)
      (r : Result RecomputeRun × Process S)
      → r ≡ (ok run, q)
      → Accounts service laws frames (lock_key_of request) token p (holder p.world) r
      → Queued request run p.queue q.queue
  Accounts-Queued request token p q run r e a = let b = rw e at a in (b.0.0, b.0.1, b.0.2, b.0.4)

  pub accepted-Queued :
      (request : RecomputeRequest) (p q : Process S) (run : RecomputeRun)
      → trigger service request p ≡ (ok run, q)
      → Queued request run p.queue q.queue
  accepted-Queued request p q run e =
      elim (Result-cases (
        validate_trigger service.max_range_days request.window request.date_from request.date_to)) [
          | inr (x, refused) ↦ cc (e, trigger_invalid service request p x refused)
          | inl (u, valid) ↦
              elim (Result-cases
                (service.reports.get_report_definition request.report_slug p.world).0) [
                  | inr (x, missing) ↦
                      cc (e, trigger-not_found service laws frames request p x valid missing)
                  | inl (report, found) ↦
                      elim (Option-cases (holder p.world (lock_key_of request))) [
                        | inl free ↦
                            Accounts-Queued request _ p q run _ e (
                              trigger-Accounts service laws frames request p report valid found
                                free)
                        | inr (owner, held) ↦ cc (
                          ap (λ q. q.0) e,
                          (trigger_conflict service laws frames request p report valid found owner
                              held).0,
                        )
                      ]
                ]
        ]

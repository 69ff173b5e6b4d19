-- ===== src/Application/RecomputeService/System.antt =====
-- The service as a whole: triggers, workers and the rest of the world in any order. A worker's round
-- is one step; locks do not expire.
use pg_analytics_service.Prelude.{
  ◌≡◌, refl, ◌∙◌, ◌⊎◌, inl, inr, false, none, some, Option, Option-cases, List, [], ◌∷◌, ◌++◌, All,
  Text, ◌=ₜ◌, eq_of_=ₜ, =ₜ_sym, arith,
}
use pg_analytics_service.Domain.Errors.{Error}
use pg_analytics_service.Domain.Models.{RecomputeRequest, RecomputeRun, ReportDefinition}
use pg_analytics_service.Effects.{Result, ok, err, settled}
use pg_analytics_service.Application.Validation.{validate_trigger}
use pg_analytics_service.Application.LockLaws.{LockLaws}
use pg_analytics_service.Application.RecomputeService.{
  RecomputeService, RecomputeJob, Process, lock_key_of, trigger, work, worker_step,
}
use pg_analytics_service.Application.RecomputeService.Locks.{Frames, process_job_releases}
use pg_analytics_service.Application.RecomputeService.Accounting.{Accounts}
use pg_analytics_service.Application.RecomputeService.Trigger.{
  trigger_invalid, trigger_conflict, trigger-Accounts,
}

-- A result with its equation.
pub Result-cases :
    {A : Type 0} (r : Result A) → ((a : A) × (r ≡ ok a)) ⊎ ((e : Error) × (r ≡ err e))
Result-cases (ok a) = inl (a, refl)
Result-cases (err e) = inr (e, refl)

module _ {S : Type 0} (service : RecomputeService S) {holder : S → Text → Option Text}
    (laws : LockLaws service.locks holder) where
  -- No job of the list has the key.
  abbrev pub NotQueued : Text → List RecomputeJob → Type 0
  NotQueued key = All (λ job. (job.lock_key =ₜ key) ≡ false)

  -- The scopes of the jobs are distinct.
  abbrev pub HaveDistinctScopes : List RecomputeJob → Type 0
  HaveDistinctScopes [] = Unit {0}
  HaveDistinctScopes (job ∷ jobs) = NotQueued job.lock_key jobs × HaveDistinctScopes jobs

  -- Each job holds the lock of its scope.
  abbrev pub HoldLocks : S → List RecomputeJob → Type 0
  HoldLocks s = All (λ job. holder s job.lock_key ≡ some job.lock_token)

  pub record Inv (p : Process S) : Type 0 where
    pub distinct : HaveDistinctScopes p.queue
    pub hold : HoldLocks p.world p.queue

  -- What can happen to the process. `elsewhere` is all that touches no lock: queries, other requests.
  pub data Step : Process S → Process S → Type 0 where
    triggers : (request : RecomputeRequest) (p : Process S) → Step p (trigger service request p).1
    works : (p : Process S) → Step p (worker_step service p)
    elsewhere :
        (p : Process S) (world : S)
        → ((k : Text) → holder world k ≡ holder p.world k)
        → Step p (record p { world = world })

  pub data Reach (p : Process S) : Process S → Type 0 where
    here : Reach p p
    next : {q r : Process S} → Reach p q → Step q r → Reach p r

  HoldLocks-same :
      (s t : S) (jobs : List RecomputeJob)
      → ((k : Text) → holder t k ≡ holder s k)
      → HoldLocks s jobs
      → HoldLocks t jobs
  HoldLocks-same s t [] same h = tt
  HoldLocks-same s t (job ∷ jobs) same h =
      (same job.lock_key ∙ h.0, HoldLocks-same s t jobs same h.1)

  -- A key that nobody holds belongs to no queued job.
  NotQueued-free :
      (s : S) (key : Text) (jobs : List RecomputeJob)
      → holder s key ≡ none
      → HoldLocks s jobs
      → NotQueued key jobs
  NotQueued-free s key [] free h = tt
  NotQueued-free s key (job ∷ jobs) free h =
      (ground (arith, eq_of_=ₜ job.lock_key key, h.0), NotQueued-free s key jobs free h.1)

  HoldLocks-others :
      (s t : S) (key : Text) (jobs : List RecomputeJob)
      → NotQueued key jobs
      → ((k : Text) → (key =ₜ k) ≡ false → holder t k ≡ holder s k)
      → HoldLocks s jobs
      → HoldLocks t jobs
  HoldLocks-others s t key [] n same h = tt
  HoldLocks-others s t key (job ∷ jobs) n same h = (
    same job.lock_key (=ₜ_sym key job.lock_key ∙ n.0) ∙ h.0,
    HoldLocks-others s t key jobs n.1 same h.1,
  )

  snoc-HoldLocks :
      (s : S) (jobs : List RecomputeJob) (job : RecomputeJob)
      → HoldLocks s jobs
      → holder s job.lock_key ≡ some job.lock_token
      → HoldLocks s (jobs ++ job ∷ [])
  snoc-HoldLocks s [] job h e = (e, tt)
  snoc-HoldLocks s (j ∷ jobs) job h e = (h.0, snoc-HoldLocks s jobs job h.1 e)

  NotQueued-snoc :
      (key : Text) (jobs : List RecomputeJob) (job : RecomputeJob)
      → NotQueued key jobs
      → (job.lock_key =ₜ key) ≡ false
      → NotQueued key (jobs ++ job ∷ [])
  NotQueued-snoc key [] job n e = (e, tt)
  NotQueued-snoc key (j ∷ jobs) job n e = (n.0, NotQueued-snoc key jobs job n.1 e)

  snoc-HaveDistinctScopes :
      (jobs : List RecomputeJob) (job : RecomputeJob)
      → HaveDistinctScopes jobs
      → NotQueued job.lock_key jobs
      → HaveDistinctScopes (jobs ++ job ∷ [])
  snoc-HaveDistinctScopes [] job d n = (tt, tt)
  snoc-HaveDistinctScopes (j ∷ jobs) job d n = (
    NotQueued-snoc j.lock_key jobs job d.0 (=ₜ_sym job.lock_key j.lock_key ∙ n.0),
    snoc-HaveDistinctScopes jobs job d.1 n.1,
  )

  module _ (frames : Frames service holder) where
    Accounts-Inv :
        (key token : Text) (p : Process S) (r : Result RecomputeRun × Process S)
        → holder p.world key ≡ none
        → Accounts service laws frames key token p (holder p.world) r
        → Inv p
        → Inv r.1
    Accounts-Inv key token p (err e, q) free a v = record {
      distinct = rw a.0 v.distinct;
      hold = rw a.0 (HoldLocks-same p.world q.world p.queue a.1 v.hold);
    }
    Accounts-Inv key token p (ok run, q) free a v = record {
      distinct = rw a.0.1 (snoc-HaveDistinctScopes p.queue a.0.0 v.distinct (rw a.0.2 fresh));
      hold = rw a.0.1 (
          snoc-HoldLocks q.world p.queue a.0.0
            (HoldLocks-others p.world q.world key p.queue fresh a.2 v.hold)
            (rw (a.0.2, a.0.3) a.1));
    }
      where
        fresh : NotQueued key p.queue
        fresh = NotQueued-free p.world key p.queue free v.hold

    same-Inv :
        (p q : Process S)
        → q.queue ≡ p.queue
        → ((k : Text) → holder q.world k ≡ holder p.world k)
        → Inv p
        → Inv q
    same-Inv p q e same v = record {
      distinct = rw e v.distinct;
      hold = rw e (HoldLocks-same p.world q.world p.queue same v.hold);
    }

    -- A request that is valid, by the state of the lock of its scope.
    valid-Inv :
        (request : RecomputeRequest) (p : Process S) (report : ReportDefinition)
        → validate_trigger service.max_range_days request.window request.date_from request.date_to
          ≡ ok tt
        → (service.reports.get_report_definition request.report_slug p.world).0 ≡ ok report
        → Inv p
        → Inv (trigger service request p).1
    valid-Inv request p report valid found v =
        elim (Option-cases (holder p.world (lock_key_of request))) [
          | inl free ↦
              Accounts-Inv (lock_key_of request) _ p _ free
                (trigger-Accounts service laws frames request p report valid found free) v
          | inr (owner, held) ↦
              let same =
                trigger_conflict service laws frames request p report valid found owner held in
              same-Inv p _ same.1 same.2 v
        ]

    pub trigger-not_found :
        (request : RecomputeRequest) (p : Process S) (e : Error)
        → validate_trigger service.max_range_days request.window request.date_from request.date_to
          ≡ ok tt
        → (service.reports.get_report_definition request.report_slug p.world).0 ≡ err e
        → trigger service request p ≡ (
          err e,
          record p {
            world = (service.reports.get_report_definition request.report_slug p.world).1;
          },
        )
    unfolding trigger
    trigger-not_found request p e valid missing =
        rw valid
          (rw (settled (service.reports.get_report_definition request.report_slug p.world) missing))

    trigger-Inv :
        (request : RecomputeRequest) (p : Process S) → Inv p → Inv (trigger service request p).1
    trigger-Inv request p v =
        elim (Result-cases (
          validate_trigger service.max_range_days request.window request.date_from
            request.date_to)) [
              | inr (e, refused) ↦ rw (trigger_invalid service request p e refused) v
              | inl (u, valid) ↦
                  elim (Result-cases
                    (service.reports.get_report_definition request.report_slug p.world).0) [
                      | inl (report, found) ↦ valid-Inv request p report valid found v
                      | inr (e, missing) ↦ rw (trigger-not_found request p e valid missing) (
                          same-Inv p _ refl
                            (frames.get_report_definition request.report_slug p.world) v)
                    ]
            ]

    work-Inv :
        (jobs : List RecomputeJob) (s : S)
        → HaveDistinctScopes jobs
        → HoldLocks s jobs
        → Inv (work service jobs s)
    unfolding work
    work-Inv [] s d h = record { distinct = tt; hold = tt }
    work-Inv (job ∷ rest) s d h = record {
      distinct = d.1;
      hold =
          HoldLocks-others s _ job.lock_key rest d.0
            (λ k other. process_job_releases service laws frames job s k ∙ rw other) h.1;
    }

    Step-Inv : {p q : Process S} → Step p q → Inv p → Inv q
    unfolding worker_step
    Step-Inv (triggers request p) v = trigger-Inv request p v
    Step-Inv (works p) v = work-Inv p.queue p.world v.distinct v.hold
    Step-Inv (elsewhere p world same) v = same-Inv p (record p { world = world }) refl same v

    -- From an empty queue, with locks that do not expire: whatever triggers, workers and other requests
    -- do, in any order and with any errors of the databases and the cache, no two jobs that wait in the
    -- queue have the same scope, and each holds the lock of its scope with its own token.
    pub reach-Inv : {p q : Process S} → Reach p q → p.queue ≡ [] → Inv q
    reach-Inv {p} here e = record { distinct = rw e tt; hold = rw e tt }
    reach-Inv (next r st) e = Step-Inv st (reach-Inv r e)

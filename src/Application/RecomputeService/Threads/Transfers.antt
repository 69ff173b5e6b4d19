-- ===== src/Application/RecomputeService/Threads/Transfers.antt =====
-- How the claims for a lock pass between a thread and the queue.
use pg_analytics_service.Prelude.{
  ◌≡◌, refl, ap, ◌⊎◌, inl, inr, Option, none, some, List, [], ◌∷◌, ◌++◌, All-append,
  All-append_left, count_if, count_if-append, if◌then◌else◌, Text, ◌=ₜ◌, arith,
}
use pg_analytics_service.Domain.Models.{RecomputeRequest, RecomputeRun, RecomputeSummary}
use pg_analytics_service.Effects.{Result, ok, err}
use pg_analytics_service.Application.LockLaws.{freed}
use pg_analytics_service.Application.RecomputeService.{RecomputeJob}
use pg_analytics_service.Application.RecomputeService.Threads.{
  after_mark, after_rebuild, after_validation, after_create,
}
use pg_analytics_service.Application.RecomputeService.Threads.Claims.{
  Claim, job_claims, worker_claims, caller_claims, queue_claims, Holds, Move, keeps, takes, frees,
}

pub stays :
    (h h' : Text → Option Text) (cs : List Claim) → ((k : Text) → h' k ≡ h k) → Move h h' cs cs
stays h h' cs same = keeps (λ k. omega arith) (λ a. a) same

pub after_mark-claims :
    (job : RecomputeJob) (r : Result (Unit {0})) → worker_claims (after_mark job r) ≡ job_claims job
unfolding after_mark
after_mark-claims job (ok u) = refl
after_mark-claims job (err e) = refl

pub after_rebuild-claims :
    (job : RecomputeJob) (r : Result RecomputeSummary)
    → worker_claims (after_rebuild job r) ≡ job_claims job
unfolding after_rebuild
after_rebuild-claims job (ok summary) = refl
after_rebuild-claims job (err e) = refl

pub after_validation-claims :
    (request : RecomputeRequest) (r : Result (Unit {0}))
    → caller_claims (after_validation request r) ≡ []
unfolding after_validation
after_validation-claims request (ok u) = refl
after_validation-claims request (err e) = refl

pub after_create-claims :
    (request : RecomputeRequest) (key token : Text) (r : Result RecomputeRun)
    → caller_claims (after_create request key token r) ≡ (key, token) ∷ []
unfolding after_create
after_create-claims request key token (ok run) = refl
after_create-claims request key token (err e) = refl

pub queue_claims-append :
    (jobs more : List RecomputeJob)
    → queue_claims (jobs ++ more) ≡ queue_claims jobs ++ queue_claims more
queue_claims-append [] more = refl
queue_claims-append (job ∷ jobs) more =
    ap (λ cs. (job.lock_key, job.lock_token) ∷ cs) (queue_claims-append jobs more)

-- The claim of a call goes to its job.
pub moved_back :
    (h : Text → Option Text) (cs : List Claim) (c : Claim)
    → Move h h (cs ++ c ∷ []) ((cs ++ c ∷ []) ++ [])
unfolding count_if
moved_back h cs c =
    keeps (λ k. omega (arith, count_if-append (λ (d : Claim). d.0 =ₜ k) (cs ++ c ∷ []) []))
      (λ a. All-append (Holds h) (cs ++ c ∷ []) [] a tt) (λ k. refl)

-- A claim for a lock that is taken, or given back.
module _ (h h' : Text → Option Text) (cs : List Claim) (key token : Text) where
  pub taking :
      h key ≡ none
      → ((k : Text) → h' k ≡ (if key =ₜ k then some token else h k))
      → Move h h' (cs ++ []) (cs ++ (key, token) ∷ [])
  unfolding count_if
  taking free now =
      takes key token
        (λ k. omega (
          arith,
          count_if-append (λ (c : Claim). c.0 =ₜ k) cs ((key, token) ∷ []),
          count_if-append (λ (c : Claim). c.0 =ₜ k) cs [],
        ))
        (λ held a.
          All-append (Holds h') cs ((key, token) ∷ []) (All-append_left (Holds h') cs [] a)
            (held, tt))
        free now

  pub freeing :
      ((k : Text) → h' k ≡ (if key =ₜ k then freed token (h k) else h k))
      → Move h h' (cs ++ (key, token) ∷ []) (cs ++ [])
  unfolding count_if
  freeing now =
      frees key token
        (λ k. omega (
          arith,
          count_if-append (λ (c : Claim). c.0 =ₜ k) cs ((key, token) ∷ []),
          count_if-append (λ (c : Claim). c.0 =ₜ k) cs [],
        ))
        (λ a. All-append (Holds h) cs [] (All-append_left (Holds h) cs ((key, token) ∷ []) a) tt)
        now

  -- A release that fails may leave the lock.
  pub giving_back :
      ((k : Text) → h' k ≡ h k)
        ⊎ ((k : Text) → h' k ≡ (if key =ₜ k then freed token (h k) else h k))
      → Move h h' (cs ++ (key, token) ∷ []) (cs ++ [])
  unfolding count_if
  giving_back (inr now) = freeing now
  giving_back (inl same) =
      keeps
        (λ k. omega (
          arith,
          count_if-append (λ (c : Claim). c.0 =ₜ k) cs ((key, token) ∷ []),
          count_if-append (λ (c : Claim). c.0 =ₜ k) cs [],
        ))
        (λ a. All-append (Holds h) cs [] (All-append_left (Holds h) cs ((key, token) ∷ []) a) tt)
        same

  -- The claim goes from the front to the back: a worker takes a job.
  pub moving :
      ((k : Text) → h' k ≡ h k) → Move h h' ((key, token) ∷ cs ++ []) (cs ++ (key, token) ∷ [])
  unfolding count_if
  moving same =
      keeps
        (λ k. omega (
          arith,
          count_if-append (λ (c : Claim). c.0 =ₜ k) cs ((key, token) ∷ []),
          count_if-append (λ (c : Claim). c.0 =ₜ k) cs [],
        ))
        (λ a.
          All-append (Holds h) cs ((key, token) ∷ []) (All-append_left (Holds h) cs [] a.1)
            (a.0, tt))
        same

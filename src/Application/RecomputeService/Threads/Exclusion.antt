-- ===== src/Application/RecomputeService/Threads/Exclusion.antt =====
-- The service as it runs: workers and calls of `Trigger` step in any order, and no lock expires.
use pg_analytics_service.Prelude.{
  ◌+◌, ◌≡◌, refl, sym, ap, ◌∙◌, Bool, Option, List, [], ◌∷◌, ◌++◌, All-append, All-append_left,
  All-append_right, count_if-append, Text, ◌=ₜ◌, arith,
}
use mathlib.Core.List.{append_assoc}
use pg_analytics_service.Domain.Models.{RecomputeRequest}
use pg_analytics_service.Application.LockLaws.{LockSafety}
use pg_analytics_service.Application.RecomputeService.{RecomputeService, Process}
use pg_analytics_service.Application.RecomputeService.Locks.{Frames}
use pg_analytics_service.Application.RecomputeService.Threads.{
  waiting, stopped, validating, Thread, worker, caller, step_thread,
}
use pg_analytics_service.Application.RecomputeService.Threads.Claims.{
  Claim, claims_of, queue_claims, thread_claims, count_on, Holds, keeps, AreSound, Move-AreSound,
}
use pg_analytics_service.Application.RecomputeService.Threads.Moves.{step_thread-Moves}

pub thread_claims-append :
    (ts us : List Thread) → thread_claims (ts ++ us) ≡ thread_claims ts ++ thread_claims us
thread_claims-append [] us = refl
thread_claims-append (t ∷ ts) us =
    ap (λ cs. claims_of t ++ cs) (thread_claims-append ts us)
    ∙ sym (append_assoc (claims_of t) (thread_claims ts) (thread_claims us))

-- The claims of one thread go to those of the queue, and come back.
module _ (h : Text → Option Text) (cs q before after : List Claim) where
  counts :
      (k : Text)
      → count_on k q + count_on k (before ++ (cs ++ after))
        ≡ count_on k (q ++ cs) + count_on k (before ++ after)
  counts k =
      let f : Claim → Bool = λ c. c.0 =ₜ k in
      omega (
        arith,
        count_if-append f q cs,
        count_if-append f before (cs ++ after),
        count_if-append f cs after,
        count_if-append f before after,
      )

  pub focus : AreSound h q (before ++ (cs ++ after)) → AreSound h (q ++ cs) (before ++ after)
  focus s =
      let tail = All-append_right (Holds h) before (cs ++ after) s.rest in
      record {
        one = λ k. omega (arith, counts k, s.one k);
        own = All-append (Holds h) q cs s.own (All-append_left (Holds h) cs after tail);
        rest =
            All-append (Holds h) before after
              (All-append_left (Holds h) before (cs ++ after) s.rest)
              (All-append_right (Holds h) cs after tail);
      }

  pub unfocus : AreSound h (q ++ cs) (before ++ after) → AreSound h q (before ++ (cs ++ after))
  unfocus s = record {
    one = λ k. omega (arith, counts k, s.one k);
    own = All-append_left (Holds h) q cs s.own;
    rest =
        All-append (Holds h) before (cs ++ after) (All-append_left (Holds h) before after s.rest) (
          All-append (Holds h) cs after (All-append_right (Holds h) q cs s.own)
            (All-append_right (Holds h) before after s.rest));
  }

-- The workers and the calls of `Trigger` of one process.
pub record System (S : Type 0) : Type 0 where
  pub process : Process S
  pub threads : List Thread

module _ {S : Type 0} (service : RecomputeService S) {holder : S → Text → Option Text}
    (safety : LockSafety service.locks holder) (frames : Frames service holder) where
  abbrev pub at : List Thread → Thread × Process S → List Thread → System S
  at before r after = record { process = r.1; threads = before ++ r.0 ∷ after }

  -- `stops` is a worker that finds its context done. `elsewhere` is all that touches no lock.
  pub data Step : System S → System S → Type 0 where
    runs :
        (before after : List Thread) (t : Thread) (p : Process S)
        → Step (at before (t, p) after) (at before (step_thread service t p) after)
    arrives :
        (request : RecomputeRequest) (s : System S)
        → Step s (record s { threads = caller (validating request) ∷ s.threads })
    stops :
        (before after : List Thread) (p : Process S)
        → Step (at before (worker waiting, p) after) (at before (worker stopped, p) after)
    elsewhere :
        (s : System S) (world : S)
        → ((k : Text) → holder world k ≡ holder s.process.world k)
        → Step s (record s { process = record s.process { world = world } })

  pub data Reach (s : System S) : System S → Type 0 where
    here : Reach s s
    next : {t u : System S} → Reach s t → Step t u → Reach s u

  -- For each lock at most one queued job, worker or call counts on it, and it holds it.
  abbrev pub IsExclusive : System S → Type 0
  IsExclusive s =
      AreSound (holder s.process.world) (queue_claims s.process.queue) (thread_claims s.threads)

  -- The same with the claims of others, which are no threads of this process.
  abbrev pub IsExclusiveWith : List Claim → System S → Type 0
  IsExclusiveWith extra s =
      AreSound (holder s.process.world) (queue_claims s.process.queue)
        (thread_claims s.threads ++ extra)

  regrouped :
      (before after : List Thread) (t : Thread) (extra : List Claim)
      → thread_claims (before ++ t ∷ after) ++ extra
        ≡ thread_claims before ++ (claims_of t ++ (thread_claims after ++ extra))
  regrouped before after t extra =
      ap (λ cs. cs ++ extra) (thread_claims-append before (t ∷ after))
      ∙ (append_assoc (thread_claims before) (claims_of t ++ thread_claims after) extra
          ∙ ap (λ cs. thread_claims before ++ cs)
              (append_assoc (claims_of t) (thread_claims after) extra))

  abbrev Focused : List Thread → List Thread → Thread → Process S → List Claim → Type 0
  Focused before after t p extra =
      AreSound (holder p.world) (queue_claims p.queue ++ claims_of t)
        (thread_claims before ++ (thread_claims after ++ extra))

  at-focus :
      (before after : List Thread) (t : Thread) (p : Process S) (extra : List Claim)
      → IsExclusiveWith extra (at before (t, p) after)
      → Focused before after t p extra
  at-focus before after t p extra s =
      focus _ (claims_of t) _ (thread_claims before) (thread_claims after ++ extra)
        (rw (← regrouped before after t extra) s)

  at-unfocus :
      (before after : List Thread) (t : Thread) (p : Process S) (extra : List Claim)
      → Focused before after t p extra
      → IsExclusiveWith extra (at before (t, p) after)
  at-unfocus before after t p extra s =
      rw (regrouped before after t extra)
        (unfocus _ (claims_of t) _ (thread_claims before) (thread_claims after ++ extra) s)

  runs-IsExclusive :
      (before after : List Thread) (t : Thread) (p : Process S) (extra : List Claim)
      → IsExclusiveWith extra (at before (t, p) after)
      → IsExclusiveWith extra (at before (step_thread service t p) after)
  runs-IsExclusive before after t p extra s = at-unfocus before after _ _ extra (
      Move-AreSound _ _ _ _ _ (step_thread-Moves service safety frames t p)
        (at-focus before after t p extra s))

  pub Step-IsExclusive :
      {s t : System S} (extra : List Claim)
      → Step s t
      → IsExclusiveWith extra s
      → IsExclusiveWith extra t
  Step-IsExclusive extra (runs before after t p) v = runs-IsExclusive before after t p extra v
  Step-IsExclusive extra (arrives request s) v = v
  Step-IsExclusive extra (stops before after p) v =
      at-unfocus before after (worker stopped) p extra
        (at-focus before after (worker waiting) p extra v)
  Step-IsExclusive extra (elsewhere s world same) v =
      Move-AreSound _ _ _ _ _ (keeps (λ k. omega arith) (λ a. a) same) v

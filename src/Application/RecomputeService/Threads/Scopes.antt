-- ===== src/Application/RecomputeService/Threads/Scopes.antt =====
-- Which scopes the workers rebuild at one time.
use mathlib.Core.List.{append-nil}
use pg_analytics_service.Prelude.{
  ℕ, zero, suc, ◌+◌, ◌≤◌, ◌≡◌, ◌≢◌, refl, sym, ◌∙◌, inl, inr, Option, List, [], ◌∷◌, ◌++◌, All,
  All-append, All-append_left, All-append_right, count_if, count_if-append, Bool-cases, ltb, Text,
  ◌=ₜ◌, =ₜ_refl, ℤ, pos, negsuc, arith,
}
use pg_analytics_service.Application.LockLaws.{LockSafety}
use pg_analytics_service.Application.RecomputeService.{RecomputeService, RecomputeJob, lock_key_of}
use pg_analytics_service.Application.RecomputeService.Locks.{Frames}
use pg_analytics_service.Application.RecomputeService.Threads.{
  waiting, stopped, rebuilding, Thread, worker, workers, start_workers,
}
use pg_analytics_service.Application.RecomputeService.Threads.Keys.{
  IsKeyed, HasKey, step_thread-HaveKeys,
}
use pg_analytics_service.Application.RecomputeService.Threads.Claims.{
  Claim, claims_of, thread_claims, count_on,
}
use pg_analytics_service.Application.RecomputeService.Threads.Exclusion.{
  System, Step, runs, arrives, stops, elsewhere, Reach, here, next, IsExclusive, IsExclusiveWith,
  Step-IsExclusive, thread_claims-append,
}

module _ {S : Type 0} (service : RecomputeService S) {holder : S → Text → Option Text}
    (safety : LockSafety service.locks holder) (frames : Frames service holder) where
  pub record Inv (extra : List Claim) (s : System S) : Type 0 where
    pub exclusive : IsExclusiveWith service safety frames extra s
    pub thread_keys : All HasKey s.threads
    pub queue_keys : All IsKeyed s.process.queue

  at-HasKey :
      (before after : List Thread) (t u : Thread)
      → HasKey u
      → All HasKey (before ++ t ∷ after)
      → All HasKey (before ++ u ∷ after)
  at-HasKey before after t u k a =
      All-append HasKey before (u ∷ after) (All-append_left HasKey before (t ∷ after) a)
        (k, (All-append_right HasKey before (t ∷ after) a).1)

  pub at_keys :
      (before after : List Thread) (t : Thread) → All HasKey (before ++ t ∷ after) → HasKey t
  at_keys before after t a = (All-append_right HasKey before (t ∷ after) a).0

  pub Step-Inv :
      {s t : System S} (extra : List Claim)
      → Step service safety frames s t
      → Inv extra s
      → Inv extra t
  Step-Inv extra (runs before after t p) v =
      let keys =
        step_thread-HaveKeys service t p (at_keys before after t v.thread_keys, v.queue_keys) in
      record {
        exclusive =
            Step-IsExclusive service safety frames extra (runs before after t p) v.exclusive;
        thread_keys = at-HasKey before after t _ keys.0 v.thread_keys;
        queue_keys = keys.1;
      }
  Step-Inv extra (arrives request s) v = record {
    exclusive = Step-IsExclusive service safety frames extra (arrives request s) v.exclusive;
    thread_keys = (tt, v.thread_keys);
    queue_keys = v.queue_keys;
  }
  Step-Inv extra (stops before after p) v = record {
    exclusive = Step-IsExclusive service safety frames extra (stops before after p) v.exclusive;
    thread_keys = at-HasKey before after (worker waiting) (worker stopped) tt v.thread_keys;
    queue_keys = v.queue_keys;
  }
  Step-Inv extra (elsewhere s world same) v = record {
    exclusive = Step-IsExclusive service safety frames extra (elsewhere s world same) v.exclusive;
    thread_keys = v.thread_keys;
    queue_keys = v.queue_keys;
  }

  Reach-Inv : {s t : System S} → Reach service safety frames s t → Inv [] s → Inv [] t
  Reach-Inv here v = v
  Reach-Inv (next r st) v = Step-Inv [] st (Reach-Inv r v)

  workers-Inv : (n : ℕ) → (thread_claims (workers n) ≡ []) × All HasKey (workers n)
  unfolding workers
  workers-Inv zero = (refl, tt)
  workers-Inv (suc n) = ((workers-Inv n).0, (tt, (workers-Inv n).1))

  pub start_workers-Inv :
      (n : ℤ) → (thread_claims (start_workers n) ≡ []) × All HasKey (start_workers n)
  unfolding start_workers
  start_workers-Inv (pos n) = elim (Bool-cases (ltb n 1)) [
    | inl few ↦ rw few (workers-Inv 1)
    | inr many ↦ rw many (workers-Inv n)
  ]
  start_workers-Inv (negsuc n) = workers-Inv 1

  -- The process as `Start` leaves it: workers that wait, and an empty queue.
  abbrev pub IsStarted : ℤ → System S → Type 0
  IsStarted n s = (s.threads ≡ start_workers n) × (s.process.queue ≡ [])

  started-Inv : (n : ℤ) (s : System S) → IsStarted n s → Inv [] s
  unfolding count_if
  started-Inv n s (threads, queue) = record {
    exclusive = record {
      one = λ k. rw (threads, queue, (start_workers-Inv n).0) (omega arith);
      own = rw queue tt;
      rest = rw (threads, (start_workers-Inv n).0) tt;
    };
    thread_keys = rw threads (start_workers-Inv n).1;
    queue_keys = rw queue tt;
  }

  -- However many workers `Start` launches, and whatever calls of `Trigger` arrive: in every order of
  -- the single steps of all threads, with any errors of the databases, the cache and the lock server,
  -- at most one queued job, worker or call counts on each lock, and each of them holds its lock with
  -- its own token. No lock expires.
  pub reach-IsExclusive :
      (n : ℤ) (s t : System S)
      → IsStarted n s
      → Reach service safety frames s t
      → IsExclusive service safety frames t
  reach-IsExclusive n s t started r =
      rw (← append-nil (thread_claims t.threads)) (Reach-Inv r (started-Inv n s started)).exclusive

  -- A thread and those after it.
  pub counted :
      (k : Text) (before after : List Thread) (t : Thread)
      → count_on k (claims_of t) + count_on k (thread_claims after)
        ≤ count_on k (thread_claims (before ++ t ∷ after))
  counted k before after t = rw (thread_claims-append before (t ∷ after)) (
      omega (
        arith,
        count_if-append (λ (c : Claim). c.0 =ₜ k) (thread_claims before)
            (claims_of t ++ thread_claims after),
        count_if-append (λ (c : Claim). c.0 =ₜ k) (claims_of t) (thread_claims after),
      ))

  -- However many workers `Start` launches, and in every order of the single steps of all threads, with
  -- any errors of the databases, the cache and the lock server and without the expiry of a lock: two
  -- workers that run `RecomputeReport` at one time do so for requests with different lock keys, so that
  -- they differ in the report, the window, or a date.
  pub rebuilds_differ :
      (n : ℤ) (s t : System S) (before middle after : List Thread) (job other : RecomputeJob)
      → IsStarted n s
      → Reach service safety frames s t
      → t.threads
        ≡ before ++ worker (rebuilding job) ∷ (middle ++ worker (rebuilding other) ∷ after)
      → lock_key_of job.request ≢ lock_key_of other.request
  unfolding count_if
  rebuilds_differ n s t before middle after job other started r threads same = absurd (
      ground (
        arith,
        one_only,
        counted job.lock_key before rest (worker (rebuilding job)),
        counted job.lock_key middle after (worker (rebuilding other)),
        =ₜ_refl job.lock_key,
        =ₜ_refl other.lock_key,
        same_key,
      ))
    where
      inv : Inv [] t
      inv = Reach-Inv r (started-Inv n s started)

      rest : List Thread
      rest = middle ++ worker (rebuilding other) ∷ after

      keys : All HasKey (worker (rebuilding job) ∷ rest)
      keys =
          All-append_right HasKey before (worker (rebuilding job) ∷ rest)
            (rw threads at inv.thread_keys)

      same_key : job.lock_key ≡ other.lock_key
      same_key = keys.0 ∙ (same ∙ sym (at_keys middle after (worker (rebuilding other)) keys.1))

      one_only :
          count_on job.lock_key (thread_claims (before ++ worker (rebuilding job) ∷ rest)) ≤ 1
      one_only = omega (arith, rw threads at (reach-IsExclusive n s t started r).one job.lock_key)

-- ===== src/Application/RecomputeService/Threads/Claims.antt =====
-- The locks that the threads and the queued jobs count on.
use pg_analytics_service.Prelude.{
  ℕ, ◌+◌, ◌≤◌, ◌≡◌, refl, ◌∙◌, inl, inr, Bool-cases, false, Option, none, some, List, [], ◌∷◌, ◌++◌,
  All, count_if, if◌then◌else◌, Text, ◌=ₜ◌, eq_of_=ₜ, =ₜ_refl, =ₜ_sym, arith,
}
use pg_analytics_service.Application.LockLaws.{freed}
use pg_analytics_service.Application.RecomputeService.{RecomputeJob}
use pg_analytics_service.Application.RecomputeService.Threads.{
  Worker, waiting, stopped, marking, rebuilding, releasing, failing, auditing_failure, completing,
  bumping, auditing, Caller, validating, looking_up, locking, creating, recording, queueing,
  refusing, giving_up, answered, Thread, worker, caller,
}

-- A key and a token.
abbrev pub Claim : Type 0
Claim = Text × Text

abbrev pub job_claims : RecomputeJob → List Claim
job_claims job = (job.lock_key, job.lock_token) ∷ []

abbrev pub worker_claims : Worker → List Claim
worker_claims waiting = []
worker_claims stopped = []
worker_claims (marking job) = job_claims job
worker_claims (rebuilding job) = job_claims job
worker_claims (releasing job) = job_claims job
worker_claims (failing job e) = job_claims job
worker_claims (auditing_failure job e) = job_claims job
worker_claims (completing job summary) = job_claims job
worker_claims (bumping job summary) = job_claims job
worker_claims (auditing job summary) = job_claims job

abbrev pub caller_claims : Caller → List Claim
caller_claims (validating request) = []
caller_claims (looking_up request) = []
caller_claims (locking request token) = []
caller_claims (creating request key token) = (key, token) ∷ []
caller_claims (recording request key token run) = (key, token) ∷ []
caller_claims (queueing request key token run) = (key, token) ∷ []
caller_claims (refusing key token run) = (key, token) ∷ []
caller_claims (giving_up key token e) = (key, token) ∷ []
caller_claims (answered r) = []

abbrev pub claims_of : Thread → List Claim
claims_of (worker w) = worker_claims w
claims_of (caller c) = caller_claims c

abbrev pub queue_claims : List RecomputeJob → List Claim
queue_claims [] = []
queue_claims (job ∷ jobs) = (job.lock_key, job.lock_token) ∷ queue_claims jobs

abbrev pub thread_claims : List Thread → List Claim
thread_claims [] = []
thread_claims (t ∷ ts) = claims_of t ++ thread_claims ts

abbrev pub count_on : Text → List Claim → ℕ
count_on k = count_if (λ (c : Claim). c.0 =ₜ k)

abbrev pub Holds : (Text → Option Text) → Claim → Type 0
Holds h c = h c.0 ≡ some c.1

-- What a step may do to the holders of the locks, and to the claims of its thread and of the queue.
pub data Move (before after : Text → Option Text) (cs cs' : List Claim) : Type 0 where
  keeps :
      ((k : Text) → count_on k cs' ≤ count_on k cs)
      → (All (Holds before) cs → All (Holds before) cs')
      → ((k : Text) → after k ≡ before k)
      → Move before after cs cs'
  -- The lock is taken, but the thread does not know it.
  loses :
      (key token : Text)
      → before key ≡ none
      → ((k : Text) → after k ≡ (if key =ₜ k then some token else before k))
      → cs' ≡ cs
      → Move before after cs cs'
  takes :
      (key token : Text)
      → ((k : Text) → count_on k cs' ≡ (if key =ₜ k then 1 else 0) + count_on k cs)
      → (Holds after (key, token) → All (Holds after) cs → All (Holds after) cs')
      → before key ≡ none
      → ((k : Text) → after k ≡ (if key =ₜ k then some token else before k))
      → Move before after cs cs'
  frees :
      (key token : Text)
      → ((k : Text) → count_on k cs ≡ (if key =ₜ k then 1 else 0) + count_on k cs')
      → (All (Holds before) cs → All (Holds before) cs')
      → ((k : Text) → after k ≡ (if key =ₜ k then freed token (before k) else before k))
      → Move before after cs cs'

-- No two claims are for one lock, and each holds its lock. `cs` are those of a thread and the queue.
pub record AreSound (h : Text → Option Text) (cs others : List Claim) : Type 0 where
  pub one : (k : Text) → count_on k cs + count_on k others ≤ 1
  pub own : All (Holds h) cs
  pub rest : All (Holds h) others

All-same :
    (h h' : Text → Option Text) (cs : List Claim)
    → ((k : Text) → h' k ≡ h k)
    → All (Holds h) cs
    → All (Holds h') cs
All-same h h' [] same a = tt
All-same h h' (c ∷ cs) same a = (same c.0 ∙ a.0, All-same h h' cs same a.1)

-- A lock that nobody holds is claimed by nobody.
count_on-free :
    (h : Text → Option Text) (k : Text) (cs : List Claim)
    → h k ≡ none
    → All (Holds h) cs
    → count_on k cs ≡ 0
unfolding count_if
count_on-free h k [] free a = refl
count_on-free h k (c ∷ cs) free a = ground (arith, eq_of_=ₜ c.0 k, count_on-free h k cs free a.1)

-- A change of one lock leaves the claims for the others.
All-others :
    (h h' : Text → Option Text) (key : Text) (cs : List Claim)
    → count_on key cs ≡ 0
    → ((k : Text) → (key =ₜ k) ≡ false → h' k ≡ h k)
    → All (Holds h) cs
    → All (Holds h') cs
unfolding count_if
All-others h h' key [] none_on same a = tt
All-others h h' key (c ∷ cs) none_on same a = elim (Bool-cases (key =ₜ c.0)) [
  | inl e ↦ absurd (ground (arith, =ₜ_sym key c.0))
  | inr e ↦ (same c.0 e ∙ a.0, All-others h h' key cs (ground arith) same a.1)
]

pub Move-AreSound :
    (h h' : Text → Option Text) (cs cs' others : List Claim)
    → Move h h' cs cs'
    → AreSound h cs others
    → AreSound h' cs' others
Move-AreSound h h' cs cs' others (keeps counts moved same) s = record {
  one = λ k. omega (arith, counts k, s.one k);
  own = All-same h h' cs' same (moved s.own);
  rest = All-same h h' others same s.rest;
}
Move-AreSound h h' cs cs' others (loses key token free now same) s = rw same (record {
  one = s.one;
  own =
      All-others h h' key cs (count_on-free h key cs free s.own) (λ k other. now k ∙ rw other)
        s.own;
  rest =
      All-others h h' key others (count_on-free h key others free s.rest)
        (λ k other. now k ∙ rw other) s.rest;
})
Move-AreSound h h' cs cs' others (takes key token counts moved free now) s =
    let mine : count_on key cs ≡ 0 = count_on-free h key cs free s.own in
    let theirs : count_on key others ≡ 0 = count_on-free h key others free s.rest in
    record {
      one = λ k. elim (Bool-cases (key =ₜ k)) [
        | inl e ↦
            ground
              (arith, e, counts k, rw (eq_of_=ₜ key k e) at mine, rw (eq_of_=ₜ key k e) at theirs)
        | inr e ↦ ground (arith, counts k, s.one k)
      ];
      own =
          moved (now key ∙ rw (=ₜ_refl key))
            (All-others h h' key cs mine (λ k other. now k ∙ rw other) s.own);
      rest = All-others h h' key others theirs (λ k other. now k ∙ rw other) s.rest;
    }
Move-AreSound h h' cs cs' others (frees key token counts moved now) s = record {
  one = λ k. ground (arith, counts k, s.one k);
  own =
      All-others h h' key cs' (ground (arith, counts key, s.one key, =ₜ_refl key))
        (λ k other. now k ∙ rw other) (moved s.own);
  rest =
      All-others h h' key others (ground (arith, counts key, s.one key, =ₜ_refl key))
        (λ k other. now k ∙ rw other) s.rest;
}

-- ===== src/Application/RecomputeService/Accounting.antt =====
-- `Trigger` behind the lock: what its jobs and locks come to.
use pg_analytics_service.Prelude.{
  ◌≡◌, refl, ◌∙◌, inl, inr, true, false, Bool-cases, Option, none, some, [], ◌∷◌, ◌++◌, ltb, length,
  Text, codes, ◌=ₜ◌, =ₜ_refl, eq_of_=ₜ, if◌then◌else◌, arith,
}
use pg_analytics_service.Domain.Models.{run_status_pending, RecomputeRequest, RecomputeRun}
use pg_analytics_service.Effects.{Result, ok, err}
use pg_analytics_service.Strings.{has_prefix}
use pg_analytics_service.Application.LockLaws.{is_lock_key, LockLaws}
use pg_analytics_service.Application.RecomputeService.{
  RecomputeService, RecomputeJob, Process, lock_key_of, triggered_entry, enqueue,
  create_and_enqueue, with_lock,
}
use pg_analytics_service.Application.RecomputeService.Locks.{Frames}

pub is_lock_key-lock_key_of :
    (request : RecomputeRequest) → is_lock_key (lock_key_of request) ≡ true
unfolding is_lock_key lock_key_of has_prefix codes
is_lock_key-lock_key_of request = refl

module _ {S : Type 0} (service : RecomputeService S) {holder : S → Text → Option Text}
    (laws : LockLaws service.locks holder) (frames : Frames service holder) where
  -- What `Trigger` may leave, seen from the locks and the queue before it took the lock: on success
  -- one more job, which holds the lock of its scope, and no other lock moved; on failure the same jobs and the same locks.
  abbrev pub Accounts :
      Text → Text → Process S → (Text → Option Text) → Result RecomputeRun × Process S → Type 0
  Accounts key token p before (ok run, q) =
      ((job : RecomputeJob) × (q.queue ≡ p.queue ++ job ∷ [])
        × (job.lock_key ≡ key)
        × (job.lock_token ≡ token)
        × (job.run_id ≡ run.id))
      × (holder q.world key ≡ some token)
      × ((k : Text) → (key =ₜ k) ≡ false → holder q.world k ≡ before k)
  Accounts key token p before (err e, q) =
      (q.queue ≡ p.queue) × ((k : Text) → holder q.world k ≡ before k)

  pub Accounts-before :
      (key token : Text) (p : Process S) {before before' : Text → Option Text}
      → ((k : Text) → before k ≡ before' k)
      → (r : Result RecomputeRun × Process S) → Accounts key token p before r
      → Accounts key token p before' r
  Accounts-before key token p same (ok run, q) a = (a.0, a.1, λ k other. a.2 k other ∙ same k)
  Accounts-before key token p same (err e, q) a = (a.0, λ k. a.1 k ∙ same k)

  -- The lock before it was taken: nobody held it.
  abbrev pub Taken : Text → Text → S → (Text → Option Text) → Type 0
  Taken key token s before =
      (before key ≡ none) × ((k : Text) → holder s k ≡ (if key =ₜ k then some token else before k))

  released_again :
      (key token : Text) (s t : S) (before : Text → Option Text)
      → Taken key token s before
      → ((k : Text) → holder t k ≡ holder s k)
      → (k : Text) → holder (service.locks.release key token t).1 k ≡ before k
  released_again key token s t before taken same k = ground (
    arith,
    laws.release_frees key token t k,
    same k,
    taken.1 k,
    taken.0,
    =ₜ_refl token,
    eq_of_=ₜ key k,
  )

  enqueue-Accounts :
      (job : RecomputeJob) (run : RecomputeRun) (p : Process S) (s : S)
      (before : Text → Option Text)
      → job.run_id ≡ run.id
      → Taken job.lock_key job.lock_token s before
      → ((k : Text) → holder p.world k ≡ holder s k)
      → Accounts job.lock_key job.lock_token p before (enqueue service job run p)
  unfolding enqueue
  enqueue-Accounts job run p s before same_run taken same =
      elim (Bool-cases (ltb (length p.queue) service.queue_size)) [
        | inl room ↦ rw room (
          (job, refl, refl, refl, same_run),
          rw (same, taken.1 job.lock_key, =ₜ_refl job.lock_key),
          λ k other. same k ∙ (taken.1 k ∙ rw other),
        )
        | inr full ↦ rw full (
          refl,
          λ k.
              released_again job.lock_key job.lock_token s _ before taken
                (λ j.
                  frames.mark_run_failed run.id (codes "worker queue is full") p.world j ∙ same j)
                k,
        )
      ]

  create_and_enqueue-Accounts :
      (request : RecomputeRequest) (key token : Text) (r : Result RecomputeRun) (p : Process S)
      (s : S) (before : Text → Option Text)
      → Taken key token s before
      → ((k : Text) → holder p.world k ≡ holder s k)
      → Accounts key token p before (create_and_enqueue service request key token r p)
  unfolding create_and_enqueue
  create_and_enqueue-Accounts request key token (err e) p s before taken same =
      (refl, released_again key token s p.world before taken same)
  create_and_enqueue-Accounts request key token (ok run) p s before taken same =
      enqueue-Accounts
        (record { run_id = run.id; request = request; lock_key = key; lock_token = token }) run _ s
        before refl taken
        (λ k. frames.create_entry (triggered_entry request run.id) p.world k ∙ same k)

  pub with_lock-Accounts :
      (request : RecomputeRequest) (key token : Text) (p : Process S) (before : Text → Option Text)
      → Taken key token p.world before
      → Accounts key token p before (with_lock service request key token true p)
  unfolding with_lock
  with_lock-Accounts request key token p before taken =
      create_and_enqueue-Accounts request key token _ _ p.world before taken
        (frames.create_run request run_status_pending p.world)

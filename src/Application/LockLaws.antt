-- ===== src/Application/LockLaws.antt =====
-- What the recompute service relies on of its lock: the contract of `RecomputeLock` in
-- internal/application/ports.go, as long as no lock expires and the lock server answers.
use pg_analytics_service.Prelude.{
  ℕ, ◌≡◌, ◌⊎◌, inl, inr, true, false, Option, none, some, Option-cases, if◌then◌else◌, Bool, Text,
  codes, ◌=ₜ◌,
}
use pg_analytics_service.Strings.{has_prefix}
use pg_analytics_service.Effects.{ok, Action}
use pg_analytics_service.Application.Ports.{RecomputeLock}

-- The keys that `lockKey` makes. The lock server may hold other things under other keys.
unfoldable pub lock_prefix : Text
lock_prefix = codes "recompute:lock:"

unfoldable pub is_lock_key : Text → Bool
unfolding lock_prefix has_prefix
is_lock_key k = has_prefix k lock_prefix

-- The holder of a lock after its release with a token.
abbrev pub freed : Text → Option Text → Option Text
freed token none = none
freed token (some owner) = if owner =ₜ token then none else some owner

-- `holder` is the token that holds a lock.
pub record LockLaws {S : Type 0} (lock : RecomputeLock S) (holder : S → Text → Option Text)
    : Type 0 where
  pub acquire_free :
      (k token : Text) (ttl : ℕ) (s : S)
      → is_lock_key k ≡ true
      → holder s k ≡ none
      → (lock.try_acquire k token ttl s).0 ≡ ok true
  pub acquire_takes :
      (k token : Text) (ttl : ℕ) (s : S) (j : Text)
      → is_lock_key k ≡ true
      → holder s k ≡ none
      → holder (lock.try_acquire k token ttl s).1 j ≡ (if k =ₜ j then some token else holder s j)
  pub acquire_held :
      (k token : Text) (ttl : ℕ) (s : S) (owner : Text)
      → holder s k ≡ some owner
      → (lock.try_acquire k token ttl s).0 ≡ ok false
  pub acquire_held_keeps :
      (k token : Text) (ttl : ℕ) (s : S) (owner j : Text)
      → holder s k ≡ some owner
      → holder (lock.try_acquire k token ttl s).1 j ≡ holder s j
  pub release_frees :
      (k token : Text) (s : S) (j : Text)
      → holder (lock.release k token s).1 j
        ≡ (if k =ₜ j then freed token (holder s j) else holder s j)

-- An action that leaves every lock alone, whether it succeeds or fails.
abbrev pub LeavesLocks : {S A : Type 0} → (S → Text → Option Text) → Action S A → Type 0
LeavesLocks {S} holder m = (s : S) (k : Text) → holder (m s).1 k ≡ holder s k

-- What remains of the contract while calls to the lock server may fail: a call that fails may have had
-- its effect or not, and only a call that answers true is known to have taken the lock.
pub record LockSafety {S : Type 0} (lock : RecomputeLock S) (holder : S → Text → Option Text)
    : Type 0 where
  pub acquired :
      (k token : Text) (ttl : ℕ) (s : S)
      → is_lock_key k ≡ true
      → (lock.try_acquire k token ttl s).0 ≡ ok true
      → (holder s k ≡ none)
        × ((j : Text)
            → holder (lock.try_acquire k token ttl s).1 j
              ≡ (if k =ₜ j then some token else holder s j))
  pub acquiring :
      (k token : Text) (ttl : ℕ) (s : S)
      → is_lock_key k ≡ true
      → ((j : Text) → holder (lock.try_acquire k token ttl s).1 j ≡ holder s j)
        ⊎ ((holder s k ≡ none)
            × ((j : Text)
                → holder (lock.try_acquire k token ttl s).1 j
                  ≡ (if k =ₜ j then some token else holder s j)))
  pub releasing :
      (k token : Text) (s : S)
      → ((j : Text) → holder (lock.release k token s).1 j ≡ holder s j)
        ⊎ ((j : Text)
            → holder (lock.release k token s).1 j
              ≡ (if k =ₜ j then freed token (holder s j) else holder s j))

-- A lock whose server always answers is one of them.
pub LockLaws-LockSafety :
    {S : Type 0} {lock : RecomputeLock S} {holder : S → Text → Option Text}
    → LockLaws lock holder
    → LockSafety lock holder
LockLaws-LockSafety {holder = holder} laws = record {
  acquired = λ k token ttl s is_key taken. elim (Option-cases (holder s k)) [
    | inl free ↦ (free, λ j. laws.acquire_takes k token ttl s j is_key free)
    | inr (owner, held) ↦ absurd (cc (laws.acquire_held k token ttl s owner held, taken))
  ];
  acquiring = λ k token ttl s is_key. elim (Option-cases (holder s k)) [
    | inl free ↦ inr (free, λ j. laws.acquire_takes k token ttl s j is_key free)
    | inr (owner, held) ↦ inl (λ j. laws.acquire_held_keeps k token ttl s owner j held)
  ];
  releasing = λ k token s. inr (λ j. laws.release_frees k token s j);
}

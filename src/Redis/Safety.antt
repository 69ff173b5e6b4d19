-- ===== src/Redis/Safety.antt =====
-- The locks of the store when calls to the server may fail.
use pg_analytics_service.Prelude.{
  ℕ, ◌≡◌, ◌⊎◌, inl, inr, ◌∙◌, true, Bool-cases, Option, none, some, if◌then◌else◌, Text, ◌=ₜ◌,
  eq_of_=ₜ, refl, arith,
}
use pg_analytics_service.Domain.Errors.{redis_nil}
use pg_analytics_service.Effects.{Result, ok, err}
use pg_analytics_service.Application.LockLaws.{LockSafety, is_lock_key, freed}
use pg_analytics_service.Redis.Client.{RedisClient, ClientSafety}
use pg_analytics_service.Redis.{
  try_acquire, delete_if, release_lock_script, released, release, recompute_lock,
}

module _ {S : Type 0} (client : RedisClient S) (safety : ClientSafety client) where
  -- What a release may make of the keys.
  abbrev Releases : Text → Text → S → S → Type 0
  Releases k token s t =
      ((j : Text) → safety.value t j ≡ safety.value s j)
      ⊎ ((j : Text)
          → safety.value t j
            ≡ (if k =ₜ j then freed token (safety.value s j) else safety.value s j))

  released-Releases :
      (k token : Text) (s : S) (r : Result ℕ) (t : S)
      → Releases k token s t
      → Releases k token s (released client r t).1
  unfolding released
  released-Releases k token s (ok n) t h = h
  released-Releases k token s (err redis_nil) t h = h
  released-Releases k token s (err _) t h = h

  del-Releases :
      (k token owner : Text) (s t : S)
      → ((j : Text) → safety.value t j ≡ safety.value s j)
      → safety.value s k ≡ some owner
      → (owner =ₜ token) ≡ true
      → Releases k token s (client.del k t).1
  del-Releases k token owner s t same held mine = elim (safety.del_either k t) [
    | inl kept ↦ inl (λ j. kept j ∙ same j)
    | inr gone ↦ inr (λ j. ground (arith, gone j, same j, eq_of_=ₜ k j))
  ]

  delete_if-Releases :
      (k token : Text) (r : Result Text) (s t : S)
      → ((j : Text) → safety.value t j ≡ safety.value s j)
      → ((v : Text) → r ≡ ok v → safety.value s k ≡ some v)
      → Releases k token s (delete_if client k token r t).1
  unfolding delete_if
  delete_if-Releases k token (ok owner) s t same found = elim (Bool-cases (owner =ₜ token)) [
    | inl mine ↦ rw mine (del-Releases k token owner s t same (found owner refl) mine)
    | inr other ↦ rw other (inl same)
  ]
  delete_if-Releases k token (err redis_nil) s t same found = inl same
  delete_if-Releases k token (err _) s t same found = inl same

  release-Releases : (k token : Text) (s : S) → Releases k token s (release client k token s).1
  unfolding release release_lock_script
  release-Releases k token s =
      released-Releases k token s _ _
        (delete_if-Releases k token _ s _ (safety.get_keeps k s) (λ v e. safety.get_found k s v e))

  -- The token under a key of a lock.
  abbrev pub holder_of : S → Text → Option Text
  holder_of s k = if is_lock_key k then safety.value s k else none

  -- Though calls fail, the store is a lock on which no two callers get one key, as long as no key expires.
  pub recompute_lock-LockSafety : LockSafety (recompute_lock client) holder_of
  unfolding try_acquire
  recompute_lock-LockSafety = record {
    acquired = λ k token ttl s is_key taken.
        let r = safety.set_nx_true k token ttl s taken in
        (rw is_key r.0, λ j. ground (arith, r.1 j, eq_of_=ₜ k j));
    acquiring = λ k token ttl s is_key. elim (safety.set_nx_either k token ttl s) [
      | inl same ↦ inl (λ j. rw (same j))
      | inr (free, now) ↦ inr (rw is_key free, λ j. ground (arith, now j, eq_of_=ₜ k j))
    ];
    releasing = λ k token s. elim (release-Releases k token s) [
      | inl same ↦ inl (λ j. rw (same j))
      | inr now ↦ inr (λ j. ground (arith, now j))
    ];
  }

-- ===== src/Redis/Laws.antt =====
-- The store keeps the contracts of the two interfaces that it implements.
use pg_analytics_service.Prelude.{
  ℕ, suc, ◌<◌, ◌≤◌, ◌≡◌, refl, ap, ◌∙◌, false, Option, none, some, if◌then◌else◌, Text, codes, ◌=ₜ◌,
  =ₜ_refl, eq_of_=ₜ, pos, arith,
}
use pg_analytics_service.Domain.Errors.{redis_nil}
use pg_analytics_service.Domain.Numbers.{decimal, max_int64, parse_int-decimal}
use pg_analytics_service.Effects.{Result, ok, err, settled}
use pg_analytics_service.Application.LockLaws.{LockLaws, is_lock_key, freed}
use pg_analytics_service.Redis.Client.{RedisClient, ClientLaws, read}
use pg_analytics_service.Redis.{
  version_key, found, get, get_version, version_of, bump_version, try_acquire, delete_if,
  release_lock_script, released, release, recompute_lock,
}

module _ {S : Type 0} (client : RedisClient S) (laws : ClientLaws client) where
  released-state : (r : Result ℕ) (t : S) → (released client r t).1 ≡ t
  unfolding released
  released-state (ok n) t = refl
  released-state (err redis_nil) t = refl
  released-state (err _) t = refl

  delete_if-frees :
      (k token : Text) (s : S) (j : Text) (o : Option Text)
      → laws.value s k ≡ o
      → laws.value (delete_if client k token (read o) s).1 j
        ≡ (if k =ₜ j then freed token (laws.value s j) else laws.value s j)
  unfolding delete_if
  delete_if-frees k token s j none e = ground (arith, eq_of_=ₜ k j)
  delete_if-frees k token s j (some owner) e = ground (arith, eq_of_=ₜ k j, laws.del_value k s j)

  release_lock_script-state :
      (k token : Text) (s : S)
      → (release_lock_script client k token s).1
        ≡ (delete_if client k token (read (laws.value s k)) s).1
  unfolding release_lock_script
  release_lock_script-state k token s = rw (laws.get_lem k s)

  -- While the server answers and no key expires, `Release` deletes the key of a lock exactly if the
  -- token is the one that holds it, and changes no other key.
  pub release_frees :
      (k token : Text) (s : S) (j : Text)
      → laws.value (release client k token s).1 j
        ≡ (if k =ₜ j then freed token (laws.value s j) else laws.value s j)
  unfolding release
  release_frees k token s j =
      ap (λ t. laws.value t j)
        (released-state _ (release_lock_script client k token s).1
          ∙ release_lock_script-state k token s)
      ∙ delete_if-frees k token s j (laws.value s k) refl

  -- The token under a key of a lock.
  abbrev pub lock_holder : S → Text → Option Text
  lock_holder s k = if is_lock_key k then laws.value s k else none

  held_value : (s : S) (k owner : Text) → lock_holder s k ≡ some owner → laws.value s k ≡ some owner
  held_value s k owner h = ground arith

  -- While the server answers and no key expires, the store is a lock as the recompute service wants it:
  -- its keys hold the tokens.
  pub recompute_lock-LockLaws : LockLaws (recompute_lock client) lock_holder
  unfolding try_acquire
  recompute_lock-LockLaws = record {
    acquire_free = λ k token ttl s is_key free. laws.set_nx_new k token ttl s (rw is_key at free);
    acquire_takes = λ k token ttl s j is_key free.
        ground (arith, laws.set_nx_value k token ttl s j (rw is_key at free), eq_of_=ₜ k j);
    acquire_held = λ k token ttl s owner h.
        ap (λ r. r.0) (laws.set_nx_old k token ttl s owner (held_value s k owner h));
    acquire_held_keeps = λ k token ttl s owner j h.
        ap (λ r. lock_holder r.1 j) (laws.set_nx_old k token ttl s owner (held_value s k owner h));
    release_frees = λ k token s j. ground (arith, release_frees k token s j);
  }

  found-read : (o : Option Text) (s : S) → found client (read o) s ≡ (ok o, s)
  unfolding found
  found-read none s = refl
  found-read (some v) s = refl

  -- `Get` returns the entry of a key, if there is one, and changes nothing.
  pub get_entry : (k : Text) (s : S) → get client k s ≡ (ok (laws.value s k), s)
  unfolding get
  get_entry k s = rw (laws.get_lem k s) (found-read (laws.value s k) s)

  -- The counter of a report stands in its key.
  abbrev pub Counts : S → Text → ℕ → Type 0
  Counts s slug n = (n ≤ max_int64) × (laws.value s (version_key slug) ≡ some (decimal n))

  pub get_version-Counts :
      (slug : Text) (s : S) (n : ℕ) → Counts s slug n → get_version client slug s ≡ (ok (pos n), s)
  unfolding get_version version_of
  get_version-Counts slug s n (b, e) =
      rw (laws.get_lem (version_key slug) s, e) (rw (parse_int-decimal n b))

  one_text : codes "1" ≡ decimal 1
  unfolding codes decimal
  one_text = refl

  pub get_version-missing :
      (slug : Text) (s : S)
      → laws.value s (version_key slug) ≡ none
      → get_version client slug s ≡ (ok (pos 1), (client.set (version_key slug) (codes "1") 0 s).1)
  unfolding get_version version_of
  get_version-missing slug s e =
      rw (laws.get_lem (version_key slug) s, e)
        (rw (settled (client.set (version_key slug) (codes "1") 0 s) (laws.set_ok _ _ 0 s)))

  -- While the server answers and no key expires, the first `GetVersion` of a report without a counter
  -- returns 1 and starts its counter there.
  pub get_version_starts :
      (slug : Text) (s : S)
      → laws.value s (version_key slug) ≡ none
      → ((get_version client slug s).0 ≡ ok (pos 1)) × Counts (get_version client slug s).1 slug 1
  get_version_starts slug s e =
      let path = get_version-missing slug s e in
      (
        ap (λ r. r.0) path,
        (
          omega arith,
          ap (λ r. laws.value r.1 (version_key slug)) path
              ∙ (laws.set_value (version_key slug) (codes "1") 0 s (version_key slug)
                  ∙ rw (=ₜ_refl (version_key slug)) (ap some one_text)),
        ),
      )

  -- While the server answers and no key expires, `BumpVersion` of a report with a counter below the
  -- largest `int64` returns the next number, which is what `GetVersion` returns from then on; it
  -- changes no other key.
  pub bump_version_advances :
      (slug : Text) (s : S) (n : ℕ)
      → n < max_int64
      → Counts s slug n
      → ((bump_version client slug s).0 ≡ ok (pos (suc n)))
        × (get_version client slug (bump_version client slug s).1
            ≡ (ok (pos (suc n)), (bump_version client slug s).1))
        × ((k : Text)
            → (version_key slug =ₜ k) ≡ false
            → laws.value (bump_version client slug s).1 k ≡ laws.value s k)
  unfolding bump_version
  bump_version_advances slug s n small (b, e) = (
    laws.incr_old (version_key slug) s n e small,
    get_version-Counts slug _ (suc n) (
      omega arith,
      laws.incr_old_value (version_key slug) s n (version_key slug) e small
          ∙ rw (=ₜ_refl (version_key slug)),
    ),
    λ k other. laws.incr_old_value (version_key slug) s n k e small ∙ rw other,
  )

-- ===== src/Redis/Freshness.antt =====
-- After `BumpVersion` a report has no entries.
use pg_analytics_service.Prelude.{
  ℕ, suc, ◌≤◌, ◌<◌, ◌≡◌, refl, ◌∙◌, inl, inr, true, Option-cases, none, [], length, Text, codes,
  pos, arith,
}
use pg_analytics_service.Domain.Numbers.{max_int64}
use pg_analytics_service.Strings.{has_prefix}
use pg_analytics_service.Effects.{ok}
use pg_analytics_service.Application.ReportService.{key_text}
use pg_analytics_service.Redis.Client.{RedisClient, ClientLaws, read}
use pg_analytics_service.Redis.Laws.{get_entry, get_version-Counts}
use pg_analytics_service.Redis.{version_key, get, get_version, bump_version}
use pg_analytics_service.Redis.Versions.{is_plain, System, At, Reach, IsBounded}
use pg_analytics_service.Redis.Advances.{
  key_text-prefix, version_key_apart, counted, bump_version_others, bumps-Advances,
  elsewhere-IsBounded, Reach-Advances,
}

module _ {S : Type 0} (client : RedisClient S) (laws : ClientLaws client) where
  -- No key begins with `report:`, and no caller has read a version.
  abbrev pub IsFresh : System S → Type 0
  IsFresh s =
      ((k : Text) → has_prefix k (codes "report:") ≡ true → laws.value s.redis k ≡ none)
      × (s.read ≡ [])

  module _ (slug : Text) (plain : is_plain slug ≡ true) where
    IsFresh-IsBounded : (s : System S) → IsFresh s → IsBounded client laws s slug 0
    unfolding has_prefix version_key key_text codes
    IsFresh-IsBounded s (empty, read) = record {
      at = inl (refl, empty (version_key slug) refl);
      entries =
          λ m digest payload l held. absurd (cc (empty (key_text slug (pos m) digest) refl, held));
      callers = rw read tt;
    }

    -- The entries of the next version: there are none.
    next_is_free :
        (t : System S) (n : ℕ) (digest : Text)
        → length digest ≡ 64
        → IsBounded client laws t slug n
        → laws.value t.redis (key_text slug (pos (suc n)) digest) ≡ none
    next_is_free t n digest l b =
        elim (Option-cases (laws.value t.redis (key_text slug (pos (suc n)) digest))) [
          | inl free ↦ free
          | inr (payload, held) ↦
              let bound : suc n ≤ n = b.entries (suc n) digest payload l held in
              absurd (omega (arith, bound))
        ]

    -- A server that answers and lets no key expire, and a report whose slug is neither `version` nor
    -- begins with `version:`. From a Redis without report keys, after any order of `GetVersion`,
    -- `BumpVersion` and `Set` calls for any reports, where a caller may store an entry long after it read
    -- the version: after a `BumpVersion`, as long as no key that begins with `report:` is touched, the
    -- version that `GetVersion` returns has no entry, so that `Get` misses for every digest of 64
    -- characters. The counter is below the largest `int64`.
    pub bump_version_hides :
        (s t : System S) (later : S)
        → IsFresh s
        → Reach client laws s t
        → ((n : ℕ) → At client laws t.redis slug n → n < max_int64)
        → ((k : Text)
            → has_prefix k (codes "report:") ≡ true
            → laws.value later k ≡ laws.value (bump_version client slug t.redis).1 k)
        → (v : ℕ) × (get_version client slug later ≡ (ok (pos v), later))
          × ((digest : Text)
              → length digest ≡ 64
              → get client (key_text slug (pos v) digest) later ≡ (ok none, later))
    bump_version_hides s t later fresh r small same =
        let (n, le, b) = Reach-Advances client laws slug plain r 0 (IsFresh-IsBounded s fresh) in
        let bumped =
          elsewhere-IsBounded client laws slug plain
            (record t { redis = (bump_version client slug t.redis).1 }) later (suc n) same
            (bumps-Advances client laws slug plain t n (small n b.at) b) in
        (
          suc n,
          get_version-Counts client laws slug _ (suc n)
              (counted client laws slug (suc n) later bumped.at (omega arith)),
          λ digest l.
              get_entry client laws (key_text slug (pos (suc n)) digest) later
              ∙ rw
                  (same (key_text slug (pos (suc n)) digest)
                    (key_text-prefix slug digest (pos (suc n))))
                  (rw
                    (bump_version_others client laws slug t.redis
                      (key_text slug (pos (suc n)) digest)
                      (version_key_apart slug slug digest (suc n) plain))
                    (rw (next_is_free t n digest l b))),
        )

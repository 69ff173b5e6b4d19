-- ===== src/Redis/Advances.antt =====
-- The counters only grow, and no entry is ahead of its counter.
use pg_analytics_service.Prelude.{
  ℕ, ℤ, suc, ◌≤◌, ◌<◌, ◌≡◌, refl, sym, ap, ◌∙◌, inl, inr, true, false, Bool-cases, Option-cases,
  List, ◌∷◌, ◌++◌, All, All-append_right, length, Text, codes, ◌=ₜ◌, eq_of_=ₜ, =ₜ_refl, pos, arith,
}
use pg_analytics_service.Domain.Numbers.{max_int64}
use pg_analytics_service.Strings.{has_prefix}
use pg_analytics_service.Effects.{ok}
use pg_analytics_service.Application.ReportService.{key_text}
use pg_analytics_service.Application.ReportService.Keys.{append-cancel, key_text-determines}
use pg_analytics_service.Redis.Client.{RedisClient, ClientLaws}
use pg_analytics_service.Redis.Laws.{
  Counts, get_version-Counts, get_version-missing, get_version_starts,
}
use pg_analytics_service.Redis.{version_key, version_of, set, get_version, bump_version}
use pg_analytics_service.Redis.Versions.{
  is_plain, key_text-version_key, System, noted, At, Step, reads, stores, bumps, elsewhere, Reach,
  here, next, IsBounded, At-same, later-callers, noted-callers,
}

version_key-injective : (slug j : Text) → version_key slug ≡ version_key j → slug ≡ j
unfolding version_key
version_key-injective slug j e = append-cancel (codes "report:version:") e

pub key_text-prefix :
    (slug digest : Text) (v : ℤ) → has_prefix (key_text slug v digest) (codes "report:") ≡ true
unfolding has_prefix key_text codes
key_text-prefix slug digest v = refl

pub version_key_apart :
    (slug j digest : Text) (m : ℕ)
    → is_plain slug ≡ true
    → (version_key j =ₜ key_text slug (pos m) digest) ≡ false
version_key_apart slug j digest m plain =
    elim (Bool-cases (version_key j =ₜ key_text slug (pos m) digest)) [
      | inl same ↦ absurd (key_text-version_key slug j digest m plain (sym (eq_of_=ₜ _ _ same)))
      | inr other ↦ other
    ]

module _ {S : Type 0} (client : RedisClient S) (laws : ClientLaws client) where
  pub counted :
      (slug : Text) (n : ℕ) (s : S) → At client laws s slug n → 0 < n → Counts client laws s slug n
  counted slug n s (inl (zero_now, missing)) positive = absurd (omega (arith, zero_now, positive))
  counted slug n s (inr counts) positive = counts

  -- `GetVersion` writes at most its counter.
  pub get_version_others :
      (j : Text) (s : S) (k : Text)
      → (version_key j =ₜ k) ≡ false
      → laws.value (get_version client j s).1 k ≡ laws.value s k
  unfolding get_version version_of
  get_version_others j s k other = elim (Option-cases (laws.value s (version_key j))) [
    | inl missing ↦
        ap (λ r. laws.value r.1 k) (get_version-missing client laws j s missing)
        ∙ (laws.set_value (version_key j) (codes "1") 0 s k ∙ rw other)
    | inr (v, held) ↦ rw (laws.get_lem (version_key j) s, held)
  ]

  -- `GetVersion` returns the counter, which starts at 1.
  pub get_version_At :
      (slug : Text) (s : S) (n : ℕ)
      → At client laws s slug n
      → (k : ℕ) × (n ≤ k)
        × At client laws (get_version client slug s).1 slug k
        × ((get_version client slug s).0 ≡ ok (pos k))
  get_version_At slug s n (inl (zero_now, missing)) =
      let r = get_version_starts client laws slug s missing in
      (1, omega (arith, zero_now), inr r.1, r.0)
  get_version_At slug s n (inr counts) =
      let path = get_version-Counts client laws slug s n counts in
      (n, omega arith, rw path (inr counts), ap (λ r. r.0) path)

  bump_version_At :
      (slug : Text) (s : S) (n : ℕ)
      → n < max_int64
      → At client laws s slug n
      → At client laws (bump_version client slug s).1 slug (suc n)
  unfolding bump_version
  bump_version_At slug s n small (inl (zero_now, missing)) = inr (
    omega arith,
    laws.incr_new_value (version_key slug) s (version_key slug) missing
        ∙ rw (=ₜ_refl (version_key slug), zero_now),
  )
  bump_version_At slug s n small (inr (b, counts)) = inr (
    omega arith,
    laws.incr_old_value (version_key slug) s n (version_key slug) counts small
        ∙ rw (=ₜ_refl (version_key slug)),
  )

  pub bump_version_others :
      (j : Text) (s : S) (k : Text)
      → (version_key j =ₜ k) ≡ false
      → laws.value (bump_version client j s).1 k ≡ laws.value s k
  unfolding bump_version
  bump_version_others j s k other = laws.incr_others (version_key j) s k other

  module _ (slug : Text) (plain : is_plain slug ≡ true) where
    -- Entries that are those of an earlier state, up to a later counter.
    moved :
        (s t : System S) (n k : ℕ)
        → n ≤ k
        → At client laws t.redis slug k
        → ((m : ℕ) (digest : Text)
            → laws.value t.redis (key_text slug (pos m) digest)
              ≡ laws.value s.redis (key_text slug (pos m) digest))
        → All (λ (r : Text × ℕ). r.0 ≡ slug → r.1 ≤ k) t.read
        → IsBounded client laws s slug n
        → IsBounded client laws t slug k
    moved s t n k le at same callers b = record {
      at = at;
      entries = λ m digest payload l held.
          let bound : m ≤ n = b.entries m digest payload l (sym (same m digest) ∙ held) in
          omega (arith, bound, le);
      callers = callers;
    }

    abbrev pub Advances : System S → ℕ → Type 0
    Advances t n = (k : ℕ) × (n ≤ k) × IsBounded client laws t slug k

    same_counter :
        (s : System S) (t : S) (j : Text) (n : ℕ)
        → (version_key j =ₜ version_key slug) ≡ false
        → ((k : Text) → (version_key j =ₜ k) ≡ false → laws.value t k ≡ laws.value s.redis k)
        → (more : List (Text × ℕ)) → All (λ (r : Text × ℕ). r.0 ≡ slug → r.1 ≤ n) more
        → IsBounded client laws s slug n
        → Advances (record { redis = t; read = more }) n
    same_counter s t j n other frame more callers b = (
      n,
      omega arith,
      moved s _ n n (omega arith)
          (At-same client laws s.redis t slug n (frame (version_key slug) other) b.at)
          (λ m digest.
            frame (key_text slug (pos m) digest) (version_key_apart slug j digest m plain))
          callers b,
    )

    reads-Advances :
        (s : System S) (n : ℕ)
        → IsBounded client laws s slug n
        → Advances
            (record {
              redis = (get_version client slug s.redis).1;
              read = noted slug (get_version client slug s.redis).0 s.read;
            })
            n
    reads-Advances s n b =
        let (k, le, at, result) = get_version_At slug s.redis n b.at in
        (
          k,
          le,
          moved s _ n k le at
              (λ m digest.
                get_version_others slug s.redis _ (version_key_apart slug slug digest m plain))
              (noted-callers client laws slug slug _ k s.read
                (λ m e f. let same : m ≡ k = cc (result, f) in omega (arith, same))
                (later-callers client laws slug n k s.read le b.callers))
              b,
        )

    pub bumps-Advances :
        (s : System S) (n : ℕ)
        → n < max_int64
        → IsBounded client laws s slug n
        → IsBounded client laws
            (record s { redis = (bump_version client slug s.redis).1 })
            slug
            (suc n)
    bumps-Advances s n small b =
        moved s _ n (suc n) (omega arith) (bump_version_At slug s.redis n small b.at)
          (λ m digest.
            bump_version_others slug s.redis _ (version_key_apart slug slug digest m plain))
          (later-callers client laws slug n (suc n) s.read (omega arith) b.callers) b

    -- A caller of any report stores an entry under a version that it read.
    stores-IsBounded :
        (j : Text) (m : ℕ) (digest payload : Text) (ttl : ℕ) (before after : List (Text × ℕ))
        (s : System S) (n : ℕ)
        → is_plain j ≡ true
        → length digest ≡ 64
        → s.read ≡ before ++ (j, m) ∷ after
        → IsBounded client laws s slug n
        → IsBounded client laws
            (record s { redis = (set client (key_text j (pos m) digest) payload ttl s.redis).1 })
            slug
            n
    unfolding set
    stores-IsBounded j m digest payload ttl before after s n plain_j long known b = record {
      at =
          At-same client laws s.redis _ slug n
            (laws.set_value (key_text j (pos m) digest) payload ttl s.redis (version_key slug)
              ∙ rw not_version)
            b.at;
      entries = λ i d v l held.
          elim (Bool-cases (key_text j (pos m) digest =ₜ key_text slug (pos i) d)) [
            | inl same ↦
                let keys =
                  key_text-determines j slug m i digest d (long ∙ sym l) (eq_of_=ₜ _ _ same) in
                let bound : m ≤ n =
                  (All-append_right (λ (r : Text × ℕ). r.0 ≡ slug → r.1 ≤ n) before ((j, m) ∷ after)
                      (rw known at b.callers)).0
                    keys.0 in
                omega (arith, keys.1, bound)
            | inr other ↦ b.entries i d v l (
                sym (
                  laws.set_value (key_text j (pos m) digest) payload ttl s.redis
                    (key_text slug (pos i) d)
                  ∙ rw other)
                ∙ held)
          ];
      callers = b.callers;
    }
      where
        not_version : (key_text j (pos m) digest =ₜ version_key slug) ≡ false
        not_version = elim (Bool-cases (key_text j (pos m) digest =ₜ version_key slug)) [
          | inl same ↦ absurd (key_text-version_key j slug digest m plain_j (eq_of_=ₜ _ _ same))
          | inr other ↦ other
        ]

    pub elsewhere-IsBounded :
        (s : System S) (redis : S) (n : ℕ)
        → ((k : Text)
            → has_prefix k (codes "report:") ≡ true
            → laws.value redis k ≡ laws.value s.redis k)
        → IsBounded client laws s slug n
        → IsBounded client laws (record s { redis = redis }) slug n
    unfolding has_prefix version_key key_text codes
    elsewhere-IsBounded s redis n same b =
        moved s _ n n (omega arith)
          (At-same client laws s.redis redis slug n (same (version_key slug) refl) b.at)
          (λ m digest. same (key_text slug (pos m) digest) refl) b.callers b

    Step-Advances :
        {s t : System S}
        → Step client laws s t
        → (n : ℕ) → IsBounded client laws s slug n
        → Advances t n
    Step-Advances (reads j s) n b = elim (Bool-cases (version_key j =ₜ version_key slug)) [
      | inl same ↦ rw (version_key-injective j slug (eq_of_=ₜ _ _ same)) (reads-Advances s n b)
      | inr other ↦
          same_counter s _ j n other (get_version_others j s.redis) _
            (noted-callers client laws slug j _ n s.read
              (λ m e. absurd (ground (arith, other, ap version_key e, =ₜ_refl (version_key slug))))
              b.callers)
            b
    ]
    Step-Advances (stores j m digest payload ttl before after s plain_j long known) n b = (
      n,
      omega arith,
      stores-IsBounded j m digest payload ttl before after s n plain_j long known b,
    )
    Step-Advances (bumps j s small) n b = elim (Bool-cases (version_key j =ₜ version_key slug)) [
      | inl same ↦ rw (version_key-injective j slug (eq_of_=ₜ _ _ same)) (
        suc n,
        omega arith,
        bumps-Advances s n (small n (rw (version_key-injective j slug (eq_of_=ₜ _ _ same)) b.at)) b,
      )
      | inr other ↦ same_counter s _ j n other (bump_version_others j s.redis) _ b.callers b
    ]
    Step-Advances (elsewhere s redis same) n b =
        (n, omega arith, elsewhere-IsBounded s redis n same b)

    pub Reach-Advances :
        {s t : System S}
        → Reach client laws s t
        → (n : ℕ) → IsBounded client laws s slug n
        → Advances t n
    Reach-Advances here n b = (n, omega arith, b)
    Reach-Advances (next r st) n b =
        let (k, le, v) = Reach-Advances r n b in
        let (j, le', w) = Step-Advances st k v in (j, omega (arith, le, le'), w)

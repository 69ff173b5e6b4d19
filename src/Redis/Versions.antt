-- ===== src/Redis/Versions.antt =====
-- The version counters and the cache entries of the store, in any order of its calls.
use pg_analytics_service.Prelude.{
  ℕ, ◌≤◌, ◌<◌, ◌≡◌, ◌≢◌, ◌⊎◌, ◌==◌, not, Bool, refl, ◌∙◌, inl, inr, true, false, none, some, List,
  [], ◌∷◌, ◌++◌, All, length, Text, codes, ℤ, pos, negsuc, arith,
}
use pg_analytics_service.Domain.Numbers.{decimal, decimal_ℤ, max_int64}
use pg_analytics_service.Strings.{has_prefix}
use pg_analytics_service.Effects.{Result, ok, err}
use pg_analytics_service.Application.ReportService.{key_text}
use pg_analytics_service.Application.ReportService.Keys.{append-cancel}
use pg_analytics_service.Redis.Client.{RedisClient, ClientLaws}
use pg_analytics_service.Redis.Laws.{Counts}
use pg_analytics_service.Redis.{version_key, set, get_version, bump_version}

-- A slug whose cache keys are no version keys.
unfoldable pub is_plain : Text → Bool
unfolding has_prefix
is_plain slug = not (has_prefix (slug ++ codes ":") (codes "version:"))

prefix-mark :
    (word a x j : Text)
    → All (λ c. (c == b':') ≡ false) word
    → a ++ b':' ∷ x ≡ word ++ b':' ∷ j
    → has_prefix (a ++ b':' ∷ []) (word ++ b':' ∷ []) ≡ true
unfolding has_prefix
prefix-mark [] [] x j h e = refl
prefix-mark [] (y ∷ a) x j h e = let same : y ≡ b':' = cc e in ground (arith, same)
prefix-mark (z ∷ word) [] x j h e = let same : b':' ≡ z = cc e in absurd (ground (arith, same, h.0))
prefix-mark (z ∷ word) (y ∷ a) x j h e =
    let same : y ≡ z = cc e in
    let rest : has_prefix (a ++ b':' ∷ []) (word ++ b':' ∷ []) ≡ true =
      prefix-mark word a x j h.1 (cc e) in
    ground (arith, same, rest)

pub key_text-version_key :
    (slug j d : Text) (m : ℕ) → is_plain slug ≡ true → key_text slug (pos m) d ≢ version_key j
unfolding is_plain key_text version_key codes decimal_ℤ
key_text-version_key slug j d m plain e = absurd (
    ground (
      arith,
      plain,
      prefix-mark (codes "version") slug (b'v' ∷ (decimal m ++ b':' ∷ d)) j
          (refl, (refl, (refl, (refl, (refl, (refl, (refl, tt)))))))
          (append-cancel (codes "report:") e),
    ))

-- What the store holds, and which versions its callers have read of which reports.
pub record System (S : Type 0) : Type 0 where
  pub redis : S
  pub read : List (Text × ℕ)

abbrev pub noted : Text → Result ℤ → List (Text × ℕ) → List (Text × ℕ)
noted slug (ok (pos m)) read = (slug, m) ∷ read
noted slug (ok (negsuc m)) read = read
noted slug (err e) read = read

module _ {S : Type 0} (client : RedisClient S) (laws : ClientLaws client) where
  -- The counter of a report; a missing one stands at 0.
  abbrev pub At : S → Text → ℕ → Type 0
  At s slug n = ((n ≡ 0) × (laws.value s (version_key slug) ≡ none)) ⊎ Counts client laws s slug n

  -- A caller stores an entry under a version that it read, at any later time. `elsewhere` is all that
  -- touches no key that begins with `report:`.
  pub data Step : System S → System S → Type 0 where
    reads :
        (slug : Text) (s : System S)
        → Step s (record {
          redis = (get_version client slug s.redis).1;
          read = noted slug (get_version client slug s.redis).0 s.read;
        })
    stores :
        (slug : Text) (m : ℕ) (digest payload : Text) (ttl : ℕ) (before after : List (Text × ℕ))
        (s : System S)
        → is_plain slug ≡ true
        → length digest ≡ 64
        → s.read ≡ before ++ (slug, m) ∷ after
        → Step s
            (record s { redis = (set client (key_text slug (pos m) digest) payload ttl s.redis).1 })
    bumps :
        (slug : Text) (s : System S)
        → ((n : ℕ) → At s.redis slug n → n < max_int64)
        → Step s (record s { redis = (bump_version client slug s.redis).1 })
    elsewhere :
        (s : System S) (redis : S)
        → ((k : Text)
            → has_prefix k (codes "report:") ≡ true
            → laws.value redis k ≡ laws.value s.redis k)
        → Step s (record s { redis = redis })

  pub data Reach (s : System S) : System S → Type 0 where
    here : Reach s s
    next : {t u : System S} → Reach s t → Step t u → Reach s u

  -- The counter stands at `n`, and no entry and no caller has a later version.
  pub record IsBounded (s : System S) (slug : Text) (n : ℕ) : Type 0 where
    pub at : At s.redis slug n
    pub entries :
        (m : ℕ) (digest payload : Text)
        → length digest ≡ 64
        → laws.value s.redis (key_text slug (pos m) digest) ≡ some payload
        → m ≤ n
    pub callers : All (λ (r : Text × ℕ). r.0 ≡ slug → r.1 ≤ n) s.read

  -- A change that leaves the keys of a report alone.
  pub At-same :
      (s t : S) (slug : Text) (n : ℕ)
      → laws.value t (version_key slug) ≡ laws.value s (version_key slug)
      → At s slug n
      → At t slug n
  At-same s t slug n same (inl (zero_now, missing)) = inl (zero_now, same ∙ missing)
  At-same s t slug n same (inr (small, counts)) = inr (small, same ∙ counts)

  pub later-callers :
      (slug : Text) (n k : ℕ) (read : List (Text × ℕ))
      → n ≤ k
      → All (λ (r : Text × ℕ). r.0 ≡ slug → r.1 ≤ n) read
      → All (λ (r : Text × ℕ). r.0 ≡ slug → r.1 ≤ k) read
  later-callers slug n k [] le a = tt
  later-callers slug n k (r ∷ read) le a =
      (λ e. omega (arith, le, a.0 e), later-callers slug n k read le a.1)

  pub noted-callers :
      (slug j : Text) (r : Result ℤ) (n : ℕ) (read : List (Text × ℕ))
      → ((m : ℕ) → j ≡ slug → r ≡ ok (pos m) → m ≤ n)
      → All (λ (r : Text × ℕ). r.0 ≡ slug → r.1 ≤ n) read
      → All (λ (r : Text × ℕ). r.0 ≡ slug → r.1 ≤ n) (noted j r read)
  noted-callers slug j (ok (pos m)) n read bound a = (λ e. bound m e refl, a)
  noted-callers slug j (ok (negsuc m)) n read bound a = a
  noted-callers slug j (err e) n read bound a = a

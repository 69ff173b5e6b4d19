-- ===== src/Effects.antt =====
-- A Go call that returns `(T, error)` and changes what the process and its servers hold. The state
-- comes back with an error too: what was written stays written.
use pg_analytics_service.Prelude.{◌≡◌, ap}
use pg_analytics_service.Domain.Errors.{Error}

pub data Result {ℓ} (A : Type ℓ) : Type ℓ where
  ok : A → Result A
  err : Error → Result A

abbrev pub Action {ℓ} : Type 0 → Type ℓ → Type ℓ
Action S A = S → Result A × S

module _ {S : Type 0} where
  abbrev pub pure {ℓ} : {A : Type ℓ} → A → Action S A
  pure a s = (ok a, s)

  abbrev pub raise {ℓ} : {A : Type ℓ} → Error → Action S A
  raise e s = (err e, s)

  abbrev pub continue {ℓ κ} :
      {A : Type ℓ} {B : Type κ} → (A → Action S B) → Result A × S → Result B × S
  continue f (ok a, s) = f a s
  continue f (err e, s) = (err e, s)

  -- `x, err := m; if err != nil { return err }`.
  infixl 5 ◌>>=◌ ◌>>◌
  abbrev pub ◌>>=◌ {ℓ κ} : {A : Type ℓ} {B : Type κ} → Action S A → (A → Action S B) → Action S B
  ◌>>=◌ m f s = continue f (m s)

  abbrev pub ◌>>◌ {ℓ κ} : {A : Type ℓ} {B : Type κ} → Action S A → Action S B → Action S B
  m >> k = m >>= λ _. k

  -- The error as a value, for code that looks at it and goes on; `_ = m` drops it.
  abbrev pub attempt {ℓ} : {A : Type ℓ} → Action S A → Action S (Result A)
  attempt m s = (ok (m s).0, (m s).1)

  -- `if err != nil { return f(err) }`.
  abbrev pub with_error {ℓ} : {A : Type ℓ} → (Error → Error) → Result A × S → Result A × S
  with_error f (ok a, s) = (ok a, s)
  with_error f (err e, s) = (err (f e), s)

  abbrev pub rethrow {ℓ} : {A : Type ℓ} → (Error → Error) → Action S A → Action S A
  rethrow f m s = with_error f (m s)

  -- A step whose outcome is known.
  pub bind-ok {ℓ κ} :
      {A : Type ℓ} {B : Type κ} (m : Action S A) (f : A → Action S B) (s : S) {a : A} {s' : S}
      → m s ≡ (ok a, s')
      → (m >>= f) s ≡ f a s'
  bind-ok m f s e = ap (continue f) e

  pub bind-err {ℓ κ} :
      {A : Type ℓ} {B : Type κ} (m : Action S A) (f : A → Action S B) (s : S) {e : Error} {s' : S}
      → m s ≡ (err e, s')
      → (m >>= f) s ≡ (err e, s')
  bind-err m f s e = ap (continue f) e

  -- A step of which only the result is known.
  pub settled {ℓ} : {A : Type ℓ} (p : Result A × S) {r : Result A} → p.0 ≡ r → p ≡ (r, p.1)
  settled p e = ap (λ q. (q, p.1)) e

-- ===== src/Redis/Client.antt =====
-- The commands of go-redis that the store calls, and what the documentation of Redis says of them
-- while the server answers and no key expires.
use pg_analytics_service.Prelude.{
  ℕ, suc, ◌<◌, ◌≡◌, ◌⊎◌, Bool, true, false, Option, none, some, if◌then◌else◌, Text, ◌=ₜ◌, ℤ, pos,
}
use pg_analytics_service.Domain.Errors.{redis_nil}
use pg_analytics_service.Domain.Numbers.{decimal, max_int64}
use pg_analytics_service.Effects.{Result, ok, err, Action}

-- `get` of a missing key is the error `redis_nil`; a `ttl` of 0 is no expiry.
pub record RedisClient (S : Type 0) : Type 0 where
  pub get : Text → Action S Text
  pub set : Text → Text → ℕ → Action S (Unit {0})
  pub set_nx : Text → Text → ℕ → Action S Bool
  pub incr : Text → Action S ℤ
  pub del : Text → Action S ℕ
  pub ping : Action S (Unit {0})

abbrev pub read : Option Text → Result Text
read none = err redis_nil
read (some value) = ok value

pub record ClientLaws {S : Type 0} (client : RedisClient S) : Type 0 where
  pub value : S → Text → Option Text
  pub get_lem : (k : Text) (s : S) → client.get k s ≡ (read (value s k), s)
  pub set_ok : (k v : Text) (ttl : ℕ) (s : S) → (client.set k v ttl s).0 ≡ ok tt
  pub set_value :
      (k v : Text) (ttl : ℕ) (s : S) (j : Text)
      → value (client.set k v ttl s).1 j ≡ (if k =ₜ j then some v else value s j)
  pub set_nx_new :
      (k v : Text) (ttl : ℕ) (s : S) → value s k ≡ none → (client.set_nx k v ttl s).0 ≡ ok true
  pub set_nx_value :
      (k v : Text) (ttl : ℕ) (s : S) (j : Text)
      → value s k ≡ none
      → value (client.set_nx k v ttl s).1 j ≡ (if k =ₜ j then some v else value s j)
  pub set_nx_old :
      (k v : Text) (ttl : ℕ) (s : S) (old : Text)
      → value s k ≡ some old
      → client.set_nx k v ttl s ≡ (ok false, s)
  -- A missing key counts as 0.
  pub incr_new : (k : Text) (s : S) → value s k ≡ none → (client.incr k s).0 ≡ ok (pos 1)
  pub incr_new_value :
      (k : Text) (s : S) (j : Text)
      → value s k ≡ none
      → value (client.incr k s).1 j ≡ (if k =ₜ j then some (decimal 1) else value s j)
  pub incr_old :
      (k : Text) (s : S) (n : ℕ)
      → value s k ≡ some (decimal n)
      → n < max_int64
      → (client.incr k s).0 ≡ ok (pos (suc n))
  pub incr_old_value :
      (k : Text) (s : S) (n : ℕ) (j : Text)
      → value s k ≡ some (decimal n)
      → n < max_int64
      → value (client.incr k s).1 j ≡ (if k =ₜ j then some (decimal (suc n)) else value s j)
  pub incr_others :
      (k : Text) (s : S) (j : Text) → (k =ₜ j) ≡ false → value (client.incr k s).1 j ≡ value s j
  pub del_value :
      (k : Text) (s : S) (j : Text)
      → value (client.del k s).1 j ≡ (if k =ₜ j then none else value s j)
  pub del_ok : (k : Text) (s : S) → (n : ℕ) × ((client.del k s).0 ≡ ok n)

-- What the documentation says of the commands of the locks when a call may also fail: it may have had
-- its effect or not.
pub record ClientSafety {S : Type 0} (client : RedisClient S) : Type 0 where
  pub value : S → Text → Option Text
  pub get_keeps : (k : Text) (s : S) (j : Text) → value (client.get k s).1 j ≡ value s j
  pub get_found : (k : Text) (s : S) (v : Text) → (client.get k s).0 ≡ ok v → value s k ≡ some v
  pub set_nx_true :
      (k v : Text) (ttl : ℕ) (s : S)
      → (client.set_nx k v ttl s).0 ≡ ok true
      → (value s k ≡ none)
        × ((j : Text)
            → value (client.set_nx k v ttl s).1 j ≡ (if k =ₜ j then some v else value s j))
  pub set_nx_either :
      (k v : Text) (ttl : ℕ) (s : S)
      → ((j : Text) → value (client.set_nx k v ttl s).1 j ≡ value s j)
        ⊎ ((value s k ≡ none)
            × ((j : Text)
                → value (client.set_nx k v ttl s).1 j ≡ (if k =ₜ j then some v else value s j)))
  pub incr_others :
      (k : Text) (s : S) (j : Text) → (k =ₜ j) ≡ false → value (client.incr k s).1 j ≡ value s j
  pub del_either :
      (k : Text) (s : S)
      → ((j : Text) → value (client.del k s).1 j ≡ value s j)
        ⊎ ((j : Text) → value (client.del k s).1 j ≡ (if k =ₜ j then none else value s j))

-- ===== src/Application/CacheLaws.antt =====
-- What the report service relies on of a cache: the contract of `ReportCache` in
-- internal/application/ports.go. Entries and version counters share one key space, so the laws of
-- the entries speak of keys that are no version key.
use pg_analytics_service.Prelude.{ℕ, ◌≡◌, ◌≢◌, ◌<◌, Option, some, if◌then◌else◌, Text, ◌=ₜ◌, ℤ}
use pg_analytics_service.Effects.{ok}
use pg_analytics_service.Application.Ports.{ReportCache}

pub record CacheLaws {S : Type 0} (c : ReportCache S) : Type 0 where
  pub entry : S → Text → Option Text
  pub version : S → Text → ℤ
  pub version_key : Text → Text
  pub get_entry : (k : Text) (s : S) → c.get k s ≡ (ok (entry s k), s)
  pub version_read : (slug : Text) (s : S) → (c.get_version slug s).0 ≡ ok (version s slug)
  pub version_read_keeps :
      (slug j : Text) (s : S) → version (c.get_version slug s).1 j ≡ version s j
  pub version_read_keeps_entry :
      (slug k : Text) (s : S)
      → ((j : Text) → k ≢ version_key j)
      → entry (c.get_version slug s).1 k ≡ entry s k
  pub set_succeeds : (k v : Text) (ttl : ℕ) (s : S) → 0 < ttl → (c.set k v ttl s).0 ≡ ok tt
  pub set_entry :
      (k v : Text) (ttl : ℕ) (s : S) (j : Text)
      → 0 < ttl
      → entry (c.set k v ttl s).1 j ≡ (if k =ₜ j then some v else entry s j)
  pub set_keeps_version :
      (k v : Text) (ttl : ℕ) (s : S) (slug : Text)
      → 0 < ttl
      → ((j : Text) → k ≢ version_key j)
      → version (c.set k v ttl s).1 slug ≡ version s slug

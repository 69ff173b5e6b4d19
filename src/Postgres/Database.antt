-- ===== src/Postgres/Database.antt =====
-- The tables of internal/infrastructure/postgres/migrations/0001_init.sql, with the columns that
-- the Go code reads or writes, and how a statement of internal/infrastructure/postgres runs on them.
use pg_analytics_service.Prelude.{ℕ, suc, Bool, Option, List, Text}
use pg_analytics_service.Domain.Errors.{Error}
use pg_analytics_service.Domain.Models.{Time, RunStatus, RecomputeSummary, Row}
use pg_analytics_service.Effects.{Result, ok, err, Action}

pub record Source : Type 0 where
  pub id : ℕ
  pub slug : Text

pub record Event : Type 0 where
  pub source_id : ℕ
  pub entity_id : Text
  pub status : Text
  pub occurred_at : Time

pub record Snapshot : Type 0 where
  pub report_slug : Text
  pub window_name : Text
  pub bucket_start : Time
  pub dimension_key : Text
  pub dimension_value : Text
  pub metric_name : Text
  pub metric_value : ℕ
  pub run_id : Text

pub record RunRow : Type 0 where
  pub id : Text
  pub report_slug : Text
  pub window_name : Text
  pub date_from : Time
  pub date_to : Time
  pub requested_by : Text
  pub status : RunStatus
  pub requested_at : Time
  pub started_at : Option Time
  pub finished_at : Option Time
  pub error_message : Option Text
  pub summary : Option RecomputeSummary

pub record AuditRow : Type 0 where
  pub id : ℕ
  pub actor : Text
  pub action : Text
  pub resource_type : Text
  pub resource_id : Text
  pub metadata : Row
  pub created_at : Time

pub record DefinitionRow : Type 0 where
  pub slug : Text
  pub name : Text
  pub description : Text
  pub cache_ttl_seconds : ℕ
  pub default_window : Text
  pub is_public : Bool
  pub supported_filters : List (Text × Text)
  pub updated_at : Time

pub record WindowRow : Type 0 where
  pub report_slug : Text
  pub window_name : Text

-- `audit_seq` is the last number that the sequence of `audit_entries.id` gave.
pub record Database : Type 0 where
  pub sources : List Source
  pub events : List Event
  pub snapshots : List Snapshot
  pub runs : List RunRow
  pub audits : List AuditRow
  pub audit_seq : ℕ
  pub definitions : List DefinitionRow
  pub windows : List WindowRow

-- What the pool and the server make of one call: it runs; it fails and does nothing (no connection,
-- an expired context, a constraint that is not modelled); or it runs and its reply is lost.
pub data Verdict : Type 0 where
  runs : Verdict
  refused : Error → Verdict
  lost : Error → Verdict

-- pgx and the server: the verdict on the n-th call, the n-th `gen_random_uuid()`, and how a text reads as
-- a UUID: its canonical text, or the error of a text that is none.
pub record Driver : Type 0 where
  pub verdict : ℕ → Verdict
  pub random_uuid : ℕ → Text
  pub read_uuid : Text → Result Text

-- `now` is the server's clock, which an environment step moves; `calls` numbers the calls.
pub record World : Type 0 where
  pub db : Database
  pub now : Time
  pub calls : ℕ

-- A statement either yields a value and new tables, or violates a constraint and changes nothing.
abbrev pub Statement : Type 0 → Type 0
Statement A = Database → Result (A × Database)

abbrev pub settle : {A : Type 0} → World → Result (A × Database) → Result A × World
settle w (ok (a, db')) = (ok a, record w { db = db' })
settle w (err e) = (err e, w)

module _ (driver : Driver) where
  -- `pool.Exec`, `pool.QueryRow(…).Scan` and `tx.Exec`.
  unfoldable pub statement : {A : Type 0} → Statement A → Action World A
  statement f w =
      let w' = record w { calls = suc w.calls } in
      elim (driver.verdict w.calls) [
        | runs ↦ settle w' (f w.db)
        | refused e ↦ (err e, w')
        | lost e ↦ (err e, (settle w' (f w.db)).1)
      ]

  -- `tx.Commit` of the tables that the body left, or `tx.Rollback` to those before it.
  unfoldable pub commit : {A : Type 0} → Database → Result A × World → Result A × World
  commit before (err e, w) = (err e, record w { db = before })
  commit before (ok a, w) = elim (driver.verdict w.calls) [
    | runs ↦ (ok a, record w { calls = suc w.calls })
    | refused e ↦ (err e, record w { db = before; calls = suc w.calls })
    | lost e ↦ (err e, record w { calls = suc w.calls })
  ]

  -- `pool.BeginTx`, a body, and `tx.Commit` with the deferred `tx.Rollback`: no other session sees
  -- the tables in between.
  unfoldable pub transaction : {A : Type 0} → Action World A → Action World A
  transaction body w =
      let w' = record w { calls = suc w.calls } in
      elim (driver.verdict w.calls) [
        | runs ↦ commit w.db (body w')
        | refused e ↦ (err e, w')
        | lost e ↦ (err e, w')
      ]

  -- `PingDB`.
  unfoldable pub ping_db : Action World (Unit {0})
  unfolding statement
  ping_db = statement (λ db. ok (tt, db))

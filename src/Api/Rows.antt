-- ===== src/Api/Rows.antt =====
-- What the calls of `Trigger` make of the rows of `recompute_runs`.
use pg_analytics_service.Prelude.{
  Option, none, ◌≡◌, refl, ◌∙◌, inl, inr, Bool-cases, some, List, [], ◌∷◌, ◌++◌, any, Text, codes,
  ◌=ₜ◌, eq_of_=ₜ,
}
use pg_analytics_service.Domain.Errors.{
  app_error, app_error_with, plain, wrapped, err_no_rows, redis_nil,
}
use pg_analytics_service.Domain.Models.{RunStatus, RecomputeRequest, RecomputeRun, ReportDefinition}
use pg_analytics_service.Effects.{Result, ok, err}
use pg_analytics_service.Postgres.Database.{
  DefinitionRow, Database, RunRow, World, Driver, statement,
}
use pg_analytics_service.Postgres.Definitions.{
  get_report_definition, definition_or_error, find_public, found_definition, select_public,
}
use pg_analytics_service.Postgres.Recompute.Frame.{Kept, statement-Keeps}
use pg_analytics_service.Postgres.Recompute.Rebuild.{IsUp, statement_runs, statement_fails}
use pg_analytics_service.Postgres.Runs.{
  to_run, new_run_row, insert_run, set_failed, update_rows, create_run, mark_run_failed,
}
use pg_analytics_service.Postgres.Runs.Rows.{
  find_run-snoc, find_run-append, find_run-update_rows, find_run-update_others,
}
use pg_analytics_service.Api.Progress.{HasRun, marked}

-- No row is lost.
abbrev pub KeepsRows : List RunRow → List RunRow → Type 0
KeepsRows before after = (id : Text) → HasRun id before → HasRun id after

append-KeepsRows : (rows more : List RunRow) → KeepsRows rows (rows ++ more)
append-KeepsRows rows more id (row, found) = (row, find_run-append id rows more row found)

update_rows-KeepsRows :
    (id : Text) (f : RunRow → RunRow)
    → ((r : RunRow) → (f r).id ≡ r.id)
    → (rows : List RunRow) → KeepsRows rows (update_rows id f rows)
update_rows-KeepsRows id f keeps rows other (row, found) = elim (Bool-cases (id =ₜ other)) [
  | inl same ↦ (
    f row,
    rw (← eq_of_=ₜ id other same)
        (find_run-update_rows id f keeps rows row (rw (eq_of_=ₜ id other same) found)),
  )
  | inr differs ↦ (row, find_run-update_others id other f keeps differs rows ∙ found)
]

-- What `CreateRun` may leave.
abbrev pub Created : World → Result RecomputeRun × World → Type 0
Created w (ok run, w') = HasRun run.id w'.db.runs × KeepsRows w.db.runs w'.db.runs
Created w (err e, w') = KeepsRows w.db.runs w'.db.runs

module _ (driver : Driver) (up : IsUp driver) where
  pub create_run-Created :
      (request : RecomputeRequest) (status : RunStatus) (w : World)
      → Created w (create_run driver request status w)
  unfolding create_run insert_run to_run
  create_run-Created request status w =
      let row = new_run_row (driver.random_uuid w.calls) w.now request status in
      elim (Bool-cases (any (λ (r : RunRow). r.id =ₜ row.id) w.db.runs)) [
        | inl taken ↦
            rw
              (statement_fails driver up (insert_run row) w
                (plain (codes "duplicate key value violates unique constraint")) (rw taken))
              (λ id h. h)
        | inr fresh ↦
            rw
              (statement_runs driver up (insert_run row) w (to_run row)
                (record w.db { runs = w.db.runs ++ row ∷ [] }) (rw fresh))
              ((row, find_run-snoc row w.db.runs fresh), append-KeepsRows w.db.runs (row ∷ []))
      ]

  pub mark_run_failed-KeepsRows :
      (id message : Text) (w : World)
      → KeepsRows w.db.runs (mark_run_failed driver id message w).1.db.runs
  unfolding mark_run_failed set_failed
  mark_run_failed-KeepsRows id message w =
      rw (marked driver up id (set_failed w.now message) w)
        (update_rows-KeepsRows id (set_failed w.now message) (λ r. refl) w.db.runs)

  found_definition-runs :
      (r : Result ReportDefinition) (w : World)
      → (found_definition driver r w).1.db.runs ≡ w.db.runs
  unfolding found_definition
  found_definition-runs (ok report) w = refl
  found_definition-runs (err (app_error code message)) w = refl
  found_definition-runs (err (app_error_with code message e)) w = refl
  found_definition-runs (err (plain message)) w = refl
  found_definition-runs (err (wrapped prefix e)) w = refl
  found_definition-runs (err err_no_rows) w = refl
  found_definition-runs (err redis_nil) w = refl

  definition_or_error-Kept :
      (db : Database) (o : Option DefinitionRow)
      → Kept (λ (d : Database). d.runs) db.runs (definition_or_error db o)
  definition_or_error-Kept db none = tt
  definition_or_error-Kept db (some row) = refl

  pub get_report_definition-runs :
      (slug : Text) (w : World) → (get_report_definition driver slug w).1.db.runs ≡ w.db.runs
  unfolding get_report_definition select_public
  get_report_definition-runs slug w =
      found_definition-runs (statement driver (select_public slug) w).0
        (statement driver (select_public slug) w).1
      ∙ statement-Keeps (λ db. db.runs) driver (select_public slug)
          (λ db. definition_or_error-Kept db (find_public slug db.definitions)) w

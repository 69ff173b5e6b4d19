-- ===== src/Postgres/Runs.antt =====
-- The `recompute_runs` table in internal/infrastructure/postgres/store.go: `CreateRun`, `GetRun` and
-- the three `MarkRun…`. A DATE column keeps the day of a time. The ids in the table are canonical UUIDs.
pub mod Rows
pub mod Lifecycle
use pg_analytics_service.Prelude.{
  ℕ, suc, ◌≡◌, Bool, true, false, Option, none, some, List, [], ◌∷◌, ◌++◌, map, any, if◌then◌else◌,
  Text, codes, ◌=ₜ◌,
}
use pg_analytics_service.Domain.Errors.{
  Error, err_code_not_found, err_no_rows, new_app_error, plain,
}
use pg_analytics_service.Domain.Models.{
  Time, RunStatus, run_status_running, run_status_completed, run_status_failed, RecomputeRequest,
  RecomputeRun, RecomputeSummary,
}
use pg_analytics_service.Domain.Calendar.{format_date}
use pg_analytics_service.Effects.{Result, ok, err, Action, pure, raise, ◌>>=◌, ◌>>◌, attempt}
use pg_analytics_service.Postgres.Database.{RunRow, Database, World, Driver, Statement, statement}
use pg_analytics_service.Postgres.Recompute.{midnight}

abbrev pub or_empty : Option Text → Text
or_empty none = []
or_empty (some message) = message

-- What `Scan` and the lines after it make of a row; an absent message is the empty string.
unfoldable pub to_run : RunRow → RecomputeRun
to_run row = record {
  id = row.id;
  report_slug = row.report_slug;
  window = row.window_name;
  date_from = format_date row.date_from;
  date_to = format_date row.date_to;
  requested_by = row.requested_by;
  status = row.status;
  requested_at = row.requested_at;
  started_at = row.started_at;
  finished_at = row.finished_at;
  error_message = or_empty row.error_message;
  summary = row.summary;
}

unfoldable pub new_run_row : Text → Time → RecomputeRequest → RunStatus → RunRow
unfolding midnight
new_run_row id now request status = record {
  id = id;
  report_slug = request.report_slug;
  window_name = request.window;
  date_from = midnight request.date_from;
  date_to = midnight request.date_to;
  requested_by = request.requested_by;
  status = status;
  requested_at = now;
  started_at = none;
  finished_at = none;
  error_message = none;
  summary = none;
}

-- `INSERT … RETURNING`; the id is the table's primary key.
unfoldable pub insert_run : RunRow → Statement RecomputeRun
unfolding to_run
insert_run row db =
    if any (λ (r : RunRow). r.id =ₜ row.id) db.runs
    then err (plain (codes "duplicate key value violates unique constraint"))
    else ok (to_run row, record db { runs = db.runs ++ row ∷ [] })

unfoldable pub find_run : Text → List RunRow → Option RunRow
find_run id [] = none
find_run id (r ∷ rows) = if r.id =ₜ id then some r else find_run id rows

abbrev pub row_or_error : Database → Option RunRow → Result (RunRow × Database)
row_or_error db none = err err_no_rows
row_or_error db (some row) = ok (row, db)

-- The server reads `id` as a UUID, and an error if it is none.
abbrev pub find_read : Database → Result Text → Result (RunRow × Database)
find_read db (ok id) = row_or_error db (find_run id db.runs)
find_read db (err e) = err e

abbrev pub found_or_read : Driver → Text → Database → Option RunRow → Result (RunRow × Database)
found_or_read driver id db none = find_read db (driver.read_uuid id)
found_or_read driver id db (some row) = ok (row, db)

-- `SELECT … WHERE id = $1`. A text that stands in the table is a canonical UUID and reads as itself;
-- another may be a UUID in another form, or none.
unfoldable pub select_run : Driver → Text → Statement RunRow
unfolding find_run
select_run driver id db = found_or_read driver id db (find_run id db.runs)

unfoldable pub set_running : Time → RunRow → RunRow
set_running now r = record r { status = run_status_running; started_at = some now }

unfoldable pub set_completed : Time → RecomputeSummary → RunRow → RunRow
set_completed now summary r = record r {
  status = run_status_completed;
  finished_at = some now;
  error_message = none;
  summary = some summary;
}

unfoldable pub set_failed : Time → Text → RunRow → RunRow
set_failed now message r = record r {
  status = run_status_failed;
  finished_at = some now;
  error_message = some message;
}

unfoldable pub update_rows : Text → (RunRow → RunRow) → List RunRow → List RunRow
update_rows id f [] = []
update_rows id f (r ∷ rows) = (if r.id =ₜ id then f r else r) ∷ update_rows id f rows

-- `UPDATE … WHERE id = $1`, with an id that `CreateRun` returned: no row with the id is no error.
unfoldable pub update_run : Text → (RunRow → RunRow) → Statement (Unit {0})
unfolding update_rows
update_run id f db = ok (tt, record db { runs = update_rows id f db.runs })

module _ (driver : Driver) where
  unfoldable pub create_run : RecomputeRequest → RunStatus → Action World RecomputeRun
  unfolding new_run_row insert_run
  create_run request status w =
      statement driver (insert_run (new_run_row (driver.random_uuid w.calls) w.now request status))
        w

  unfoldable pub scanned_run : Result RunRow → Action World RecomputeRun
  unfolding to_run
  scanned_run (ok row) = pure (to_run row)
  scanned_run (err err_no_rows) =
      raise (new_app_error err_code_not_found (codes "recompute run was not found"))
  scanned_run (err e) = raise e

  unfoldable pub get_run : Text → Action World RecomputeRun
  unfolding scanned_run select_run
  get_run run_id = do row ← attempt (statement driver (select_run driver run_id)); scanned_run row

  unfoldable pub mark_run_running : Text → Action World (Unit {0})
  unfolding update_run set_running
  mark_run_running run_id w = statement driver (update_run run_id (set_running w.now)) w

  unfoldable pub mark_run_completed : Text → RecomputeSummary → Action World (Unit {0})
  unfolding update_run set_completed
  mark_run_completed run_id summary w =
      statement driver (update_run run_id (set_completed w.now summary)) w

  unfoldable pub mark_run_failed : Text → Text → Action World (Unit {0})
  unfolding update_run set_failed
  mark_run_failed run_id message w =
      statement driver (update_run run_id (set_failed w.now message)) w

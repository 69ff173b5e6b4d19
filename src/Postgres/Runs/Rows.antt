-- ===== src/Postgres/Runs/Rows.antt =====
-- What a run reads as, after it was created and after it was marked.
use pg_analytics_service.Prelude.{
  suc, ◌≡◌, refl, ap, false, some, List, [], ◌∷◌, ◌++◌, any, Text, ◌=ₜ◌, =ₜ_refl, eq_of_=ₜ, arith,
}
use pg_analytics_service.Domain.Models.{RunStatus, RecomputeRequest, RecomputeRun, RecomputeSummary}
use pg_analytics_service.Effects.{ok}
use pg_analytics_service.Postgres.Database.{RunRow, World, Driver}
use pg_analytics_service.Postgres.Recompute.Rebuild.{IsUp, statement_runs}
use pg_analytics_service.Postgres.Runs.{
  to_run, new_run_row, insert_run, find_run, select_run, set_completed, set_failed, update_rows,
  update_run, create_run, scanned_run, get_run, mark_run_completed, mark_run_failed,
}

pub find_run-snoc :
    (row : RunRow) (rows : List RunRow)
    → any (λ (r : RunRow). r.id =ₜ row.id) rows ≡ false
    → find_run row.id (rows ++ row ∷ []) ≡ some row
unfolding find_run any
find_run-snoc row [] h = rw (=ₜ_refl row.id)
find_run-snoc row (r ∷ rows) h = ground (arith, find_run-snoc row rows)

pub find_run-append :
    (id : Text) (rows more : List RunRow) (row : RunRow)
    → find_run id rows ≡ some row
    → find_run id (rows ++ more) ≡ some row
unfolding find_run
find_run-append id [] more row h = cc h
find_run-append id (r ∷ rows) more row h = ground (arith, find_run-append id rows more row)

-- An update that keeps the ids changes the row with its id, and no other.
pub find_run-update_rows :
    (id : Text) (f : RunRow → RunRow)
    → ((r : RunRow) → (f r).id ≡ r.id)
    → (rows : List RunRow) (row : RunRow) → find_run id rows ≡ some row
    → find_run id (update_rows id f rows) ≡ some (f row)
unfolding find_run update_rows
find_run-update_rows id f keeps [] row h = cc h
find_run-update_rows id f keeps (r ∷ rows) row h =
    ground (arith, keeps r, find_run-update_rows id f keeps rows row)

pub find_run-update_others :
    (id other : Text) (f : RunRow → RunRow)
    → ((r : RunRow) → (f r).id ≡ r.id)
    → (id =ₜ other) ≡ false
    → (rows : List RunRow) → find_run other (update_rows id f rows) ≡ find_run other rows
unfolding find_run update_rows
find_run-update_others id other f keeps e [] = refl
find_run-update_others id other f keeps e (r ∷ rows) =
    ground (arith, keeps r, eq_of_=ₜ r.id id, find_run-update_others id other f keeps e rows)

module _ (driver : Driver) (up : IsUp driver) where
  pub get_run-found :
      (id : Text) (w : World) (row : RunRow)
      → find_run id w.db.runs ≡ some row
      → get_run driver id w ≡ (ok (to_run row), record w { calls = suc w.calls })
  unfolding get_run scanned_run select_run
  get_run-found id w row e = rw (statement_runs driver up (select_run driver id) w row w.db (rw e))

  -- `GetRun` of an id that `CreateRun` has just returned gives the run that `CreateRun` returned, if
  -- the id was new.
  pub get_run-create_run :
      (request : RecomputeRequest) (status : RunStatus) (w : World)
      → any (λ (r : RunRow). r.id =ₜ driver.random_uuid w.calls) w.db.runs ≡ false
      → (run : RecomputeRun) × ((create_run driver request status w).0 ≡ ok run)
        × (run.id ≡ driver.random_uuid w.calls)
        × (run.status ≡ status)
        × ((get_run driver run.id (create_run driver request status w).1).0 ≡ ok run)
  unfolding create_run insert_run to_run new_run_row
  get_run-create_run request status w fresh = (
    to_run row,
    rw created,
    refl,
    refl,
    rw created (ap (λ r. r.0) (get_run-found row.id _ row (find_run-snoc row w.db.runs fresh))),
  )
    where
      row : RunRow
      row = new_run_row (driver.random_uuid w.calls) w.now request status

      created : create_run driver request status w ≡ (
        ok (to_run row),
        record w { db = record w.db { runs = w.db.runs ++ row ∷ [] }; calls = suc w.calls },
      )
      created =
          statement_runs driver up (insert_run row) w (to_run row)
            (record w.db { runs = w.db.runs ++ row ∷ [] }) (rw fresh)

  -- A run that exists reads after `MarkRunCompleted` as completed, with the summary and no error, and
  -- after `MarkRunFailed` as failed, with the message.
  pub get_run-marked :
      (id message : Text) (summary : RecomputeSummary) (w : World) (row : RunRow)
      → find_run id w.db.runs ≡ some row
      → ((get_run driver id (mark_run_completed driver id summary w).1).0
          ≡ ok (to_run (set_completed w.now summary row)))
        × ((get_run driver id (mark_run_failed driver id message w).1).0
            ≡ ok (to_run (set_failed w.now message row)))
  unfolding mark_run_completed mark_run_failed update_run set_completed set_failed
  get_run-marked id message summary w row found = (
    rw (statement_runs driver up (update_run id (set_completed w.now summary)) w tt _ refl) (
        ap (λ r. r.0)
          (get_run-found id _ _ (
            find_run-update_rows id (set_completed w.now summary) (λ r. refl) w.db.runs row
              found))),
    rw (statement_runs driver up (update_run id (set_failed w.now message)) w tt _ refl) (
        ap (λ r. r.0)
          (get_run-found id _ _
            (find_run-update_rows id (set_failed w.now message) (λ r. refl) w.db.runs row found))),
  )

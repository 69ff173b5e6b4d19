-- ===== src/Postgres/Runs/Lifecycle.antt =====
-- The rows of `recompute_runs` under any sequence of the store's calls, with any verdicts on them.
use pg_analytics_service.Prelude.{
  suc, ◌≡◌, ◌⊎◌, refl, inl, inr, Bool-cases, none, some, List, [], ◌∷◌, ◌++◌, any, All, Text, ◌=ₜ◌,
}
use pg_analytics_service.Domain.Models.{
  Time, RunStatus, run_status_pending, run_status_running, run_status_completed, run_status_failed,
  RecomputeRequest, RecomputeSummary,
}
use pg_analytics_service.Effects.{Result, ok, err}
use pg_analytics_service.Postgres.Database.{
  RunRow, Database, World, Driver, Verdict, runs, refused, lost, Statement, settle, statement,
}
use pg_analytics_service.Postgres.Runs.{
  new_run_row, insert_run, set_running, set_completed, set_failed, update_rows, update_run,
  create_run, mark_run_running, mark_run_completed, mark_run_failed,
}

-- Neither times but that of the request, nor an error, nor a summary.
abbrev pub IsUntouched : RunRow → Type 0
IsUntouched r =
    (r.started_at ≡ none) × (r.finished_at ≡ none) × (r.error_message ≡ none) × (r.summary ≡ none)

-- What the columns of a row say by its status.
abbrev pub Agrees : RunStatus → RunRow → Type 0
Agrees run_status_pending r = IsUntouched r
Agrees run_status_running r = ((t : Time) × (r.started_at ≡ some t)) ⊎ IsUntouched r
Agrees run_status_completed r =
    ((t : Time) × (r.finished_at ≡ some t))
    × (r.error_message ≡ none)
    × ((s : RecomputeSummary) × (r.summary ≡ some s))
Agrees run_status_failed r =
    ((t : Time) × (r.finished_at ≡ some t)) × ((message : Text) × (r.error_message ≡ some message))

abbrev pub IsConsistent : RunRow → Type 0
IsConsistent r = Agrees r.status r

-- The calls that write the table, as the program makes them: `Trigger` creates a pending run, the seeder
-- a running one.
pub data Call : Type 0 where
  creates : RecomputeRequest → Call
  creates_running : RecomputeRequest → Call
  starts : Text → Call
  completes : Text → RecomputeSummary → Call
  fails : Text → Text → Call

abbrev pub calling : Driver → Call → World → World
calling driver (creates request) w = (create_run driver request run_status_pending w).1
calling driver (creates_running request) w = (create_run driver request run_status_running w).1
calling driver (starts id) w = (mark_run_running driver id w).1
calling driver (completes id summary) w = (mark_run_completed driver id summary w).1
calling driver (fails id message) w = (mark_run_failed driver id message w).1

abbrev pub calling_all : Driver → List Call → World → World
calling_all driver [] w = w
calling_all driver (c ∷ cs) w = calling_all driver cs (calling driver c w)

All-snoc :
    {A : Type 0} (P : A → Type 0) (xs : List A) (x : A) → All P xs → P x → All P (xs ++ x ∷ [])
All-snoc P [] x a p = (p, tt)
All-snoc P (y ∷ xs) x a p = (a.0, All-snoc P xs x a.1 p)

All-update_rows :
    (id : Text) (f : RunRow → RunRow)
    → ((r : RunRow) → IsConsistent (f r))
    → (rows : List RunRow) → All IsConsistent rows
    → All IsConsistent (update_rows id f rows)
unfolding update_rows
All-update_rows id f h [] a = tt
All-update_rows id f h (r ∷ rows) a = elim (Bool-cases (r.id =ₜ id)) [
  | inl e ↦ rw e (h r, All-update_rows id f h rows a.1)
  | inr e ↦ rw e (a.0, All-update_rows id f h rows a.1)
]

-- What a statement leaves if it runs.
abbrev Leaves : {A : Type 0} → Result (A × Database) → Type 0
Leaves (ok (a, db)) = All IsConsistent db.runs
Leaves (err e) = Unit {0}

settle-IsConsistent :
    {A : Type 0} (w : World) (r : Result (A × Database))
    → All IsConsistent w.db.runs
    → Leaves r
    → All IsConsistent (settle w r).1.db.runs
settle-IsConsistent w (ok (a, db)) before after = after
settle-IsConsistent w (err e) before after = before

statement-IsConsistent :
    {A : Type 0} (driver : Driver) (f : Statement A) (w : World)
    → All IsConsistent w.db.runs
    → Leaves (f w.db)
    → All IsConsistent (statement driver f w).1.db.runs
unfolding statement
statement-IsConsistent driver f w before after = go (driver.verdict w.calls) refl
  where
    go :
        (v : Verdict)
        → driver.verdict w.calls ≡ v
        → All IsConsistent (statement driver f w).1.db.runs
    go runs e =
        rw (e, statement)
          (settle-IsConsistent (record w { calls = suc w.calls }) (f w.db) before after)
    go (refused x) e = rw (e, statement) before
    go (lost x) e =
        rw (e, statement)
          (settle-IsConsistent (record w { calls = suc w.calls }) (f w.db) before after)

insert-Leaves :
    (row : RunRow) (db : Database)
    → All IsConsistent db.runs
    → IsConsistent row
    → Leaves (insert_run row db)
unfolding insert_run
insert-Leaves row db a h = elim (Bool-cases (any (λ (r : RunRow). r.id =ₜ row.id) db.runs)) [
  | inl e ↦ rw e tt
  | inr e ↦ rw e (All-snoc IsConsistent db.runs row a h)
]

calling-IsConsistent :
    (driver : Driver) (c : Call) (w : World)
    → All IsConsistent w.db.runs
    → All IsConsistent (calling driver c w).db.runs
unfolding create_run mark_run_running mark_run_completed mark_run_failed update_run set_running
    set_completed set_failed new_run_row
calling-IsConsistent driver (creates request) w a =
    statement-IsConsistent driver _ w a (insert-Leaves _ w.db a (refl, refl, refl, refl))
calling-IsConsistent driver (creates_running request) w a =
    statement-IsConsistent driver _ w a (insert-Leaves _ w.db a (inr (refl, refl, refl, refl)))
calling-IsConsistent driver (starts id) w a =
    statement-IsConsistent driver _ w a
      (All-update_rows id (set_running w.now) (λ r. inl (w.now, refl)) w.db.runs a)
calling-IsConsistent driver (completes id summary) w a = statement-IsConsistent driver _ w a (
    All-update_rows id (set_completed w.now summary) (λ r. ((w.now, refl), refl, (summary, refl)))
      w.db.runs a)
calling-IsConsistent driver (fails id message) w a = statement-IsConsistent driver _ w a (
    All-update_rows id (set_failed w.now message) (λ r. ((w.now, refl), (message, refl))) w.db.runs
      a)

-- After any calls of `CreateRun`, with the status pending as in `Trigger` or running as in the seeder,
-- and of the three `MarkRun…`, in any order and whatever the server makes of each of them, the columns
-- of every run agree with its status, if they did before: a pending run has no times, no error and no
-- summary; a running one has started, or is as the seeder created it, without times, error and summary;
-- a completed one has an end, a summary and no error; a failed one has an end and an error.
pub calling_all-IsConsistent :
    (driver : Driver) (cs : List Call) (w : World)
    → All IsConsistent w.db.runs
    → All IsConsistent (calling_all driver cs w).db.runs
calling_all-IsConsistent driver [] w a = a
calling_all-IsConsistent driver (c ∷ cs) w a =
    calling_all-IsConsistent driver cs (calling driver c w) (calling-IsConsistent driver c w a)

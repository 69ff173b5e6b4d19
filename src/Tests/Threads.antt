-- ===== src/Tests/Threads.antt =====
-- Two workers and two calls of `Trigger`, on the process of `Process`.
use pg_analytics_service.Prelude.{
  ℕ, zero, suc, ◌≡◌, ◌≢◌, refl, Option, List, [], ◌∷◌, ◌++◌, take, Text, codes, ◌=ₜ◌, any, pos,
}
use mathlib.Core.List.{append_assoc, append-nil}
use pg_analytics_service.Domain.Models.{RecomputeRequest, window_day}
use pg_analytics_service.Domain.Numbers.{decimal}
use pg_analytics_service.Domain.Calendar.{whole_days, format_compact}
use pg_analytics_service.Application.Validation.{validate_trigger}
use pg_analytics_service.Application.LockLaws.{LockSafety}
use pg_analytics_service.Application.RecomputeService.{
  RecomputeService, RecomputeJob, Process, lock_key_of,
}
use pg_analytics_service.Application.RecomputeService.Locks.{Frames}
use pg_analytics_service.Application.RecomputeService.Threads.{
  Thread, worker, caller, rebuilding, validating, step_thread, start_workers,
}
use pg_analytics_service.Application.RecomputeService.Threads.Exclusion.{
  System, Reach, here, next, runs, arrives, at, IsExclusive,
}
use pg_analytics_service.Application.RecomputeService.Threads.Replicas
use pg_analytics_service.Application.RecomputeService.Threads.Replicas.{
  Replica, Cluster, ClusterReach, replica_of, among, Reach-among,
}
use pg_analytics_service.Application.RecomputeService.Threads.Scopes.{reach-IsExclusive}
use pg_analytics_service.Postgres.Database.{statement}
use pg_analytics_service.Postgres.Definitions.{get_report_definition}
use pg_analytics_service.Postgres.Runs.{create_run, mark_run_running}
use pg_analytics_service.Postgres.Audits.{create_entry}
use pg_analytics_service.Redis.{try_acquire}
use pg_analytics_service.Api.{Servers, PostgresServer, recompute_service}
use pg_analytics_service.Api.Exclusion.{
  lock_of-LockSafety, service-Frames, api_rebuilds_differ, api_replicas_rebuild_apart,
}
use pg_analytics_service.Tests.Databases.{up, request_for}
use pg_analytics_service.Tests.Stores.{Store, client, client-ClientSafety}
use pg_analytics_service.Tests.Process.{server, machine, settings, idle}

module _ {S : Type 0} (service : RecomputeService S) {holder : S → Text → Option Text}
    (safety : LockSafety service.locks holder) (frames : Frames service holder) where
  -- The step of the thread that stands at a place.
  abbrev run_at : ℕ → List Thread → List Thread → Process S → System S
  run_at n before [] p = record { process = p; threads = before }
  run_at zero before (t ∷ after) p = at service safety frames before (step_thread service t p) after
  run_at (suc n) before (t ∷ after) p = run_at n (before ++ t ∷ []) after p

  run_at-Reach :
      (n : ℕ) (before after : List Thread) (p : Process S) (s : System S)
      → Reach service safety frames s (record { process = p; threads = before ++ after })
      → Reach service safety frames s (run_at n before after p)
  run_at-Reach n before [] p s r = rw (← append-nil before) r
  run_at-Reach zero before (t ∷ after) p s r = next r (runs before after t p)
  run_at-Reach (suc n) before (t ∷ after) p s r =
      run_at-Reach n (before ++ t ∷ []) after p s (rw (append_assoc before (t ∷ []) after) r)

  -- The steps of the threads at the places of a list.
  abbrev run_all : List ℕ → System S → System S
  run_all [] s = s
  run_all (n ∷ ns) s = run_all ns (run_at n [] s.threads s.process)

  run_all-Reach :
      (ns : List ℕ) (s t : System S)
      → Reach service safety frames s t
      → Reach service safety frames s (run_all ns t)
  run_all-Reach [] s t r = r
  run_all-Reach (n ∷ ns) s t r =
      run_all-Reach ns s (run_at n [] t.threads t.process)
        (run_at-Reach n [] t.threads t.process s r)

abbrev monday : RecomputeRequest
monday = request_for (codes "day") 885547 885548

abbrev tuesday : RecomputeRequest
tuesday = request_for (codes "day") 885549 885549

-- A Postgres whose UUIDs count its calls.
abbrev counting_server : PostgresServer
counting_server = record server { driver = record up { random_uuid = decimal } }

abbrev started : System (Servers Store ℕ)
started = record { process = idle; threads = start_workers (pos 2) }

abbrev with_call : RecomputeRequest → System (Servers Store ℕ) → System (Servers Store ℕ)
with_call request s = record s { threads = caller (validating request) ∷ s.threads }

abbrev api_run : List ℕ → System (Servers Store ℕ) → System (Servers Store ℕ)
api_run =
    run_all (recompute_service counting_server client machine settings)
      (lock_of-LockSafety counting_server client client-ClientSafety machine settings)
      (service-Frames counting_server client client-ClientSafety machine settings)

abbrev first_called : System (Servers Store ℕ)
first_called = api_run (0 ∷ 0 ∷ 0 ∷ 0 ∷ 0 ∷ 0 ∷ []) (with_call monday started)

abbrev second_called : System (Servers Store ℕ)
second_called = api_run (0 ∷ 0 ∷ 0 ∷ 0 ∷ 0 ∷ 0 ∷ []) (with_call tuesday first_called)

abbrev busy : System (Servers Store ℕ)
busy = api_run (2 ∷ 3 ∷ 2 ∷ 3 ∷ []) second_called

abbrev jobs_of : List Thread → List RecomputeJob
jobs_of [] = []
jobs_of (worker (rebuilding job) ∷ ts) = job ∷ jobs_of ts
jobs_of (t ∷ ts) = jobs_of ts

abbrev job_at : ℕ → List RecomputeJob → RecomputeJob
job_at n [] = record { run_id = []; request = monday; lock_key = []; lock_token = [] }
job_at zero (job ∷ jobs) = job
job_at (suc n) (job ∷ jobs) = job_at n jobs

-- Both rebuild.
busy_threads :
    busy.threads
    ≡ take 2 busy.threads
      ++ worker (rebuilding (job_at 0 (jobs_of busy.threads)))
        ∷ ([] ++ worker (rebuilding (job_at 1 (jobs_of busy.threads))) ∷ [])
unfolding ◌=ₜ◌ codes window_day validate_trigger whole_days format_compact get_report_definition
    statement try_acquire create_run any create_entry start_workers step_thread mark_run_running
busy_threads = refl

abbrev Reached : System (Servers Store ℕ) → Type 0
Reached =
    Reach (recompute_service counting_server client machine settings)
      (lock_of-LockSafety counting_server client client-ClientSafety machine settings)
      (service-Frames counting_server client client-ClientSafety machine settings) started

api_run-Reach : (ns : List ℕ) (t : System (Servers Store ℕ)) → Reached t → Reached (api_run ns t)
api_run-Reach ns t r = run_all-Reach _ _ _ ns started t r

busy-Reach : Reached busy
busy-Reach = api_run-Reach (2 ∷ 3 ∷ 2 ∷ 3 ∷ []) second_called (
    api_run-Reach (0 ∷ 0 ∷ 0 ∷ 0 ∷ 0 ∷ 0 ∷ []) (with_call tuesday first_called) (
      next
        (api_run-Reach (0 ∷ 0 ∷ 0 ∷ 0 ∷ 0 ∷ 0 ∷ []) (with_call monday started)
          (next here (arrives monday started)))
        (arrives tuesday first_called)))

api_rebuilds_differ_example :
    lock_key_of (job_at 0 (jobs_of busy.threads)).request
    ≢ lock_key_of (job_at 1 (jobs_of busy.threads)).request
api_rebuilds_differ_example =
    api_rebuilds_differ counting_server client client-ClientSafety machine settings (pos 2) started
      busy (take 2 busy.threads) [] [] (job_at 0 (jobs_of busy.threads))
      (job_at 1 (jobs_of busy.threads)) (refl, refl) busy-Reach busy_threads

-- Two processes with one worker each, which rebuild at one time.
abbrev first_alone : System (Servers Store ℕ)
first_alone = record { process = idle; threads = start_workers (pos 1) }

abbrev first_busy : System (Servers Store ℕ)
first_busy = api_run (0 ∷ 0 ∷ 0 ∷ 0 ∷ 0 ∷ 0 ∷ 1 ∷ 1 ∷ []) (with_call monday first_alone)

abbrev second_alone : System (Servers Store ℕ)
second_alone = record {
  process = record first_busy.process { queue = [] };
  threads = start_workers (pos 1);
}

abbrev second_busy : System (Servers Store ℕ)
second_busy = api_run (0 ∷ 0 ∷ 0 ∷ 0 ∷ 0 ∷ 0 ∷ 1 ∷ 1 ∷ []) (with_call tuesday second_alone)

abbrev waiting_replica : Replica
waiting_replica = record { queue = []; threads = start_workers (pos 1) }

abbrev both_started : Cluster (Servers Store ℕ)
both_started = record { world = idle.world; replicas = waiting_replica ∷ waiting_replica ∷ [] }

abbrev both_busy : Cluster (Servers Store ℕ)
both_busy = among (replica_of first_busy ∷ []) second_busy []

busy_from :
    (request : RecomputeRequest) (s : System (Servers Store ℕ))
    → Reach
        (recompute_service counting_server client machine settings)
        (lock_of-LockSafety counting_server client client-ClientSafety machine settings)
        (service-Frames counting_server client client-ClientSafety machine settings)
        s
        (api_run (0 ∷ 0 ∷ 0 ∷ 0 ∷ 0 ∷ 0 ∷ 1 ∷ 1 ∷ []) (with_call request s))
busy_from request s =
    run_all-Reach _ _ _ (0 ∷ 0 ∷ 0 ∷ 0 ∷ 0 ∷ 0 ∷ 1 ∷ 1 ∷ []) s _ (next here (arrives request s))

both_busy-Reach :
    ClusterReach
      (recompute_service counting_server client machine settings)
      (lock_of-LockSafety counting_server client client-ClientSafety machine settings)
      (service-Frames counting_server client client-ClientSafety machine settings)
      both_started
      both_busy
both_busy-Reach =
    Reach-among _ _ _ (replica_of first_busy ∷ []) [] second_alone second_busy
      (busy_from tuesday second_alone)
      (Reach-among _ _ _ [] (waiting_replica ∷ []) first_alone first_busy
        (busy_from monday first_alone) Replicas.here)

first_threads :
    first_busy.threads
    ≡ take 1 first_busy.threads ++ worker (rebuilding (job_at 0 (jobs_of first_busy.threads))) ∷ []
unfolding ◌=ₜ◌ codes window_day validate_trigger whole_days format_compact get_report_definition
    statement try_acquire create_run any create_entry start_workers step_thread mark_run_running
first_threads = refl

second_threads :
    second_busy.threads
    ≡ take 1 second_busy.threads
      ++ worker (rebuilding (job_at 0 (jobs_of second_busy.threads))) ∷ []
unfolding ◌=ₜ◌ codes window_day validate_trigger whole_days format_compact get_report_definition
    statement try_acquire create_run any create_entry start_workers step_thread mark_run_running
second_threads = refl

api_replicas_rebuild_apart_example :
    lock_key_of (job_at 0 (jobs_of first_busy.threads)).request
    ≢ lock_key_of (job_at 0 (jobs_of second_busy.threads)).request
api_replicas_rebuild_apart_example =
    api_replicas_rebuild_apart counting_server client client-ClientSafety machine settings
      both_started both_busy [] [] [] (replica_of first_busy) (replica_of second_busy)
      (take 1 first_busy.threads) [] (take 1 second_busy.threads) []
      (job_at 0 (jobs_of first_busy.threads)) (job_at 0 (jobs_of second_busy.threads))
      ((refl, (pos 1, refl)), ((refl, (pos 1, refl)), tt)) both_busy-Reach refl first_threads
      second_threads

reach-IsExclusive_example :
    IsExclusive
      (recompute_service counting_server client machine settings)
      (lock_of-LockSafety counting_server client client-ClientSafety machine settings)
      (service-Frames counting_server client client-ClientSafety machine settings)
      busy
reach-IsExclusive_example =
    reach-IsExclusive (recompute_service counting_server client machine settings)
      (lock_of-LockSafety counting_server client client-ClientSafety machine settings)
      (service-Frames counting_server client client-ClientSafety machine settings) (pos 2) started
      busy (refl, refl) busy-Reach

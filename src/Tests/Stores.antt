-- ===== src/Tests/Stores.antt =====
-- A Redis whose state is the function of its keys, and a service on it whose databases always answer.
use pg_analytics_service.Prelude.{
  suc, ◌*◌, ◌≡◌, ◌⊎◌, inl, inr, refl, Bool, true, false, Option, none, some, [], ◌∷◌, if◌then◌else◌,
  Text, codes, ◌=ₜ◌, ℤ, pos, negsuc, arith,
}
use pg_analytics_service.Domain.Errors.{plain}
use pg_analytics_service.Domain.Models.{
  run_status_pending, ReportDefinition, ReportResult, RecomputeRequest, RecomputeRun,
  RecomputeSummary, day_ns,
}
use pg_analytics_service.Domain.Calendar.{format_date}
use pg_analytics_service.Domain.Numbers.{decimal, parse_int, parse_int-decimal}
use pg_analytics_service.Effects.{ok, err, Action, pure}
use pg_analytics_service.Application.Ports.{
  ReportRepository, RecomputeRunRepository, AuditRepository, ReportCache, RecomputeLock, Host,
}
use pg_analytics_service.Application.CacheLaws.{CacheLaws}
use pg_analytics_service.Application.LockLaws.{LockLaws, freed}
use pg_analytics_service.Application.ReportService.{ReportService}
use pg_analytics_service.Application.RecomputeService.{RecomputeService}
use pg_analytics_service.Application.RecomputeService.Locks.{Frames}
use pg_analytics_service.Redis.{version_key}
use pg_analytics_service.Redis.Client.{RedisClient, ClientLaws, ClientSafety, read}

abbrev pub Store : Type 0
Store = Text → Option Text

abbrev pub put : Text → Option Text → Store → Store
put k v s j = if k =ₜ j then v else s j

abbrev pub set_if_new : Text → Text → Option Text → Action Store Bool
set_if_new k v none s = (ok true, put k (some v) s)
set_if_new k v (some old) s = (ok false, s)

abbrev next_of : Text → Option ℤ → Action Store ℤ
next_of k (some (pos n)) s = (ok (pos (suc n)), put k (some (decimal (suc n))) s)
next_of k (some (negsuc n)) s = (err (plain []), s)
next_of k none s = (err (plain []), s)

abbrev increment : Text → Option Text → Action Store ℤ
increment k none s = (ok (pos 1), put k (some (decimal 1)) s)
increment k (some v) s = next_of k (parse_int v) s

abbrev pub client : RedisClient Store
client = record {
  get = λ k s. (read (s k), s);
  set = λ k v ttl s. (ok tt, put k (some v) s);
  set_nx = λ k v ttl s. set_if_new k v (s k) s;
  incr = λ k s. increment k (s k) s;
  del = λ k s. (ok 1, put k none s);
  ping = λ s. (ok tt, s);
}

next_of_others :
    (k : Text) (o : Option ℤ) (s : Store) (j : Text) → (k =ₜ j) ≡ false → (next_of k o s).1 j ≡ s j
next_of_others k (some (pos n)) s j other = rw other
next_of_others k (some (negsuc n)) s j other = refl
next_of_others k none s j other = refl

value_others :
    (k : Text) (o : Option Text) (s : Store) (j : Text)
    → (k =ₜ j) ≡ false
    → (increment k o s).1 j ≡ s j
value_others k none s j other = rw other
value_others k (some v) s j other = next_of_others k (parse_int v) s j other

pub increment_others :
    (k : Text) (s : Store) (j : Text) → (k =ₜ j) ≡ false → (increment k (s k) s).1 j ≡ s j
increment_others k s j other = value_others k (s k) s j other

abbrev pub client-ClientLaws : ClientLaws client
client-ClientLaws = record {
  value = λ s. s;
  get_lem = λ k s. refl;
  set_ok = λ k v ttl s. refl;
  set_value = λ k v ttl s j. refl;
  set_nx_new = λ k v ttl s e. rw e;
  set_nx_value = λ k v ttl s j e. rw e;
  set_nx_old = λ k v ttl s old e. rw e;
  incr_new = λ k s e. rw e;
  incr_new_value = λ k s j e. rw e;
  incr_old = λ k s n e h. rw (e, parse_int-decimal n (omega arith));
  incr_old_value = λ k s n j e h. rw (e, parse_int-decimal n (omega arith));
  incr_others = λ k s j other. increment_others k s j other;
  del_value = λ k s j. refl;
  del_ok = λ k s. (1, refl);
}

pub read_found : (o : Option Text) (v : Text) → read o ≡ ok v → o ≡ some v
read_found (some w) v e = cc e
read_found none v e = cc e

pub set_if_new_taken :
    (k v : Text) (o : Option Text) (s : Store)
    → (set_if_new k v o s).0 ≡ ok true
    → (o ≡ none) × ((j : Text) → (set_if_new k v o s).1 j ≡ (if k =ₜ j then some v else s j))
set_if_new_taken k v none s e = (refl, λ j. refl)
set_if_new_taken k v (some old) s e = cc e

pub set_if_new_either :
    (k v : Text) (o : Option Text) (s : Store)
    → ((j : Text) → (set_if_new k v o s).1 j ≡ s j)
      ⊎ ((o ≡ none) × ((j : Text) → (set_if_new k v o s).1 j ≡ (if k =ₜ j then some v else s j)))
set_if_new_either k v none s = inr (refl, λ j. refl)
set_if_new_either k v (some old) s = inl (λ j. refl)

abbrev pub client-ClientSafety : ClientSafety client
client-ClientSafety = record {
  value = λ s. s;
  get_keeps = λ k s j. refl;
  get_found = λ k s v e. read_found (s k) v e;
  set_nx_true = λ k v ttl s e. set_if_new_taken k v (s k) s e;
  set_nx_either = λ k v ttl s. set_if_new_either k v (s k) s;
  incr_others = λ k s j other. increment_others k s j other;
  del_either = λ k s. inr (λ j. refl);
}

-- A lock server that keeps a token for each key.
abbrev pub lock : RecomputeLock Store
lock = record {
  try_acquire = λ k token ttl s. set_if_new k token (s k) s;
  release = λ k token s. (ok tt, λ j. if k =ₜ j then freed token (s j) else s j);
}

abbrev pub lock-LockLaws : LockLaws lock (λ s. s)
lock-LockLaws = record {
  acquire_free = λ k token ttl s is_key e. rw e;
  acquire_takes = λ k token ttl s j is_key e. rw e;
  acquire_held = λ k token ttl s owner e. rw e;
  acquire_held_keeps = λ k token ttl s owner j e. rw e;
  release_frees = λ k token s j. refl;
}

-- A cache whose versions stay at 1.
abbrev pub cache : ReportCache Store
cache = record {
  get = λ k s. (ok (s k), s);
  set = λ k v ttl s. (ok tt, put k (some v) s);
  get_version = λ slug s. (ok (pos 1), s);
  bump_version = λ slug s. (ok (pos 1), s);
}

abbrev pub cache-CacheLaws : CacheLaws cache
cache-CacheLaws = record {
  entry = λ s. s;
  version = λ s slug. pos 1;
  version_key = version_key;
  get_entry = λ k s. refl;
  version_read = λ slug s. refl;
  version_read_keeps = λ slug j s. refl;
  version_read_keeps_entry = λ slug k s _. refl;
  set_succeeds = λ k v ttl s _. refl;
  set_entry = λ k v ttl s j _. refl;
  set_keeps_version = λ k v ttl s slug _ _. refl;
}

abbrev pub definition : ReportDefinition
definition = record {
  slug = codes "status-counts";
  name = codes "Status counts";
  description = [];
  cache_ttl_seconds = 60;
  default_window = codes "day";
  allowed_windows = codes "day" ∷ [];
  supported_filters = [];
}

abbrev pub summary : RecomputeSummary
summary = record { rows_deleted = 1; rows_inserted = 2; bucket_count = 1 }

abbrev pub repo : ReportRepository Store
repo = record {
  list_report_definitions = λ filter. pure (definition ∷ [], 1);
  get_report_definition = λ slug. pure definition;
  run_volume_report = λ params. pure [];
  run_status_counts_report = λ params. pure [];
  run_top_entities_report = λ params. pure [];
  recompute_report = λ request run_id. pure summary;
}

abbrev run_for : RecomputeRequest → RecomputeRun
run_for request = record {
  id = codes "run-1";
  report_slug = request.report_slug;
  window = request.window;
  date_from = [];
  date_to = [];
  requested_by = request.requested_by;
  status = run_status_pending;
  requested_at = 0;
  started_at = none;
  finished_at = none;
  error_message = [];
  summary = none;
}

abbrev runs : RecomputeRunRepository Store
runs = record {
  create_run = λ request status. pure (run_for request);
  get_run = λ id s. (err (plain []), s);
  mark_run_running = λ id. pure tt;
  mark_run_completed = λ id s. pure tt;
  mark_run_failed = λ id message. pure tt;
}

abbrev pub audits : AuditRepository Store
audits = record { create_entry = λ entry. pure tt; list_entries = λ filter. pure ([], 0) }

abbrev pub empty_result : ReportResult
empty_result = record {
  report_slug = codes "status-counts";
  window = codes "day";
  date_from = format_date (885547 * day_ns);
  date_to = format_date (885547 * day_ns);
  generated_at = 5;
  rows = [];
  cache_hit = false;
  row_count = 0;
  execution_ms = 0;
  source_system = codes "postgres";
}

-- A clock that stands, and an encoding that knows one result.
abbrev pub host : Host Store
host = record {
  now = λ s. (5, s);
  new_uuid = λ s. (codes "token-1", s);
  marshal_params = λ params. ok (codes "params");
  marshal_result = λ result. ok (codes "payload");
  unmarshal_result = λ payload. ok empty_result;
  sha256_hex = λ blob. codes "digest";
}

abbrev pub reports : ReportService Store
reports = record { repo = repo; cache = some cache; host = host; max_range_days = pos 90 }

abbrev pub recomputes : RecomputeService Store
recomputes = record {
  reports = repo;
  runs = runs;
  audits = audits;
  locks = lock;
  cache = none;
  host = host;
  max_range_days = pos 90;
  lock_ttl = 900;
  queue_size = 2;
}

pub recomputes-Frames : Frames recomputes (λ s. s)
recomputes-Frames = record {
  get_report_definition = λ slug s k. refl;
  recompute_report = λ request run_id s k. refl;
  create_run = λ request status s k. refl;
  mark_run_running = λ run_id s k. refl;
  mark_run_completed = λ run_id summary s k. refl;
  mark_run_failed = λ run_id message s k. refl;
  create_entry = λ entry s k. refl;
  bump_version = λ c slug e s k. cc e;
  new_uuid = λ s k. refl;
}

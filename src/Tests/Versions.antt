-- ===== src/Tests/Versions.antt =====
-- The cache of the process of `Process` after a recomputation.
use pg_analytics_service.Prelude.{
  ℕ, List, ◌≡◌, ◌<◌, ◌+◌, ◌*◌, ap, refl, none, some, true, ◌=ₜ◌, any, [], ◌∷◌, length, Text, codes,
  pos, inl, inr, arith,
}
use pg_analytics_service.Domain.Models.{
  run_status_pending, RecomputeRequest, RecomputeSummary, day_ns,
}
use pg_analytics_service.Domain.Numbers.{decimal, decimal-injective, max_int64}
use pg_analytics_service.Strings.{has_prefix}
use pg_analytics_service.Effects.{Result, ok, settled}
use pg_analytics_service.Application.ReportService.{run_report, key_text}
use pg_analytics_service.Application.ReportService.Reads.{without}
use pg_analytics_service.Redis.{version_key, set, get_version}
use pg_analytics_service.Redis.Versions.{is_plain, At, System, Reach, here, next, reads, stores}
use pg_analytics_service.Redis.Freshness.{IsFresh}
use pg_analytics_service.Api.{Servers, Machine, report_service, recompute_service}
use pg_analytics_service.Api.Freshness.{rebuilt_report_rereads}
use pg_analytics_service.Api.Locks.{holder_by}
use pg_analytics_service.Api.Traffic.{CacheCalls, run_report-CacheCalls}
use pg_analytics_service.Api.ReportLocks.{run_report-holder_by}
use pg_analytics_service.Application.LockLaws.{LockSafety}
use pg_analytics_service.Redis.{recompute_lock, bump_version, get}
use pg_analytics_service.Redis.Safety.{holder_of, recompute_lock-LockSafety}
use pg_analytics_service.Redis.Freshness.{bump_version_hides}
use pg_analytics_service.Tests.Stores.{Store, client, client-ClientLaws, client-ClientSafety}
use pg_analytics_service.Application.RecomputeService.{RecomputeJob, lock_key_of, process_job}
use pg_analytics_service.Application.RecomputeService.Accounting.{is_lock_key-lock_key_of}
use pg_analytics_service.Postgres.Database.{statement}
use pg_analytics_service.Postgres.Runs.{create_run, mark_run_running}
use pg_analytics_service.Postgres.Recompute.{midnight}
use pg_analytics_service.Postgres.Snapshots.{status_counts}
use pg_analytics_service.Postgres.Recompute.Rebuild.{recompute_report_succeeds, summary_of}
use pg_analytics_service.Tests.Snapshots.{day_lem, slug_lem}
use pg_analytics_service.Tests.Databases.{utc, utc-TruncLaws, up, world, request_for}
use pg_analytics_service.Tests.Process.{server, machine, settings, idle}
use pg_analytics_service.Tests.Services.{params}

abbrev slug : Text
slug = codes "status-counts"

slug_plain : is_plain slug ≡ true
unfolding is_plain has_prefix codes
slug_plain = refl

abbrev before : System Store
before = record { redis = λ k. none; read = [] }

abbrev digest : Text
digest = codes "0123456789012345678901234567890123456789012345678901234567890123"

digest_long : length digest ≡ 64
unfolding codes
digest_long = refl

-- One caller read the version.
abbrev after_read : System Store
after_read = record { redis = (get_version client slug before.redis).1; read = (slug, 1) ∷ [] }

-- The entry stands under version 1.
abbrev after : System Store
after = record after_read {
  redis = (client.set (key_text slug (pos 1) digest) (codes "rows") 60 after_read.redis).1;
}

after-Reach : Reach client client-ClientLaws before after
unfolding get_version version_key set codes
after-Reach =
    next (next here (reads slug before))
      (stores slug 1 digest (codes "rows") 60 [] [] after_read slug_plain digest_long refl)

after-IsFresh : IsFresh client client-ClientLaws before
after-IsFresh = (λ k e. refl, refl)

counter_now : after.redis (version_key slug) ≡ some (decimal 1)
unfolding get_version version_key key_text codes decimal ◌=ₜ◌
counter_now = refl

counter_small : (n : ℕ) → At client client-ClientLaws after.redis slug n → n < max_int64
counter_small n (inl (zero_now, missing)) = omega (arith, zero_now)
counter_small n (inr (b, counts)) =
    let one : n ≡ 1 = decimal-injective n 1 (cc (counts, counter_now)) in omega (arith, one)

abbrev hashing : Machine ℕ
hashing = record machine { sha256_hex = λ blob. digest }

-- A job for a run that stands in the table, whose lock is gone.
abbrev request : RecomputeRequest
request = request_for (codes "day") 885547 885548

abbrev queued : Servers Store ℕ
queued = record idle.world {
  postgres = (create_run up request run_status_pending world).1;
  redis = after.redis;
}

abbrev job : RecomputeJob
job = record {
  run_id = codes "uuid";
  request = request;
  lock_key = lock_key_of request;
  lock_token = codes "token-1";
}

abbrev marked : Result (Unit {0}) × Servers Store ℕ
marked =
    (recompute_service server client hashing settings).runs.mark_run_running (codes "uuid") queued

abbrev summary : RecomputeSummary
summary =
    summary_of utc status_counts (codes "day") (midnight (885547 * day_ns))
      (midnight (885548 * day_ns) + day_ns) (codes "uuid") marked.1.postgres.db

abbrev rebuilt_rows : Result RecomputeSummary × Servers Store ℕ
rebuilt_rows =
    (recompute_service server client hashing settings).reports.recompute_report request
      (codes "uuid") marked.1

is_marked : marked ≡ (ok tt, marked.1)
unfolding mark_run_running create_run statement codes ◌=ₜ◌ any
is_marked = refl

is_rebuilt : rebuilt_rows ≡ (ok summary, rebuilt_rows.1)
is_rebuilt = settled rebuilt_rows (
    ap (λ p. p.0)
      (recompute_report_succeeds up utc status_counts request (codes "uuid") marked.1.postgres
        (λ n. refl) utc-TruncLaws (inl day_lem) slug_lem))

rebuilt_report_rereads_example :
    (run_report
      (report_service server client hashing settings)
      slug
      params
      (process_job (recompute_service server client hashing settings) job queued).1).0
    ≡ (run_report
        (without (report_service server client hashing settings) slug params)
        slug
        params
        (process_job (recompute_service server client hashing settings) job queued).1).0
rebuilt_report_rereads_example =
    rebuilt_report_rereads server client client-ClientLaws hashing settings job summary params
      before after queued marked.1 rebuilt_rows.1 slug_plain (λ blob. digest_long) after-IsFresh
      after-Reach counter_small refl (is_lock_key-lock_key_of request) is_marked is_rebuilt

run_report-CacheCalls_example :
    (more : List (Text × ℕ)) × CacheCalls client slug
      (record { redis = λ k. none; read = [] })
      (record {
        redis =
            (run_report
              (report_service server client hashing settings)
              slug
              params
              idle.world).1.redis;
        read = more;
      })
run_report-CacheCalls_example =
    run_report-CacheCalls server client client-ClientLaws hashing settings slug slug_plain params
      (λ blob. digest_long) idle.world 0 (inl (refl, refl))

run_report-holder_by_example :
    holder_by client client-ClientLaws.value
      (run_report (report_service server client hashing settings) slug params idle.world).1
      (codes "k")
    ≡ holder_by client client-ClientLaws.value idle.world (codes "k")
run_report-holder_by_example =
    run_report-holder_by server client client-ClientLaws hashing settings slug params idle.world
      (codes "k")

abbrev bumped : Store
bumped = (bump_version client slug after.redis).1

bump_version_hides_example :
    (v : ℕ) × (get_version client slug bumped ≡ (ok (pos v), bumped))
    × ((d : Text) → length d ≡ 64 → get client (key_text slug (pos v) d) bumped ≡ (ok none, bumped))
bump_version_hides_example =
    bump_version_hides client client-ClientLaws slug slug_plain before after bumped after-IsFresh
      after-Reach counter_small (λ k e. refl)

recompute_lock-LockSafety_example :
    LockSafety (recompute_lock client) (holder_of client client-ClientSafety)
recompute_lock-LockSafety_example = recompute_lock-LockSafety client client-ClientSafety

-- ===== src/Application/RecomputeService/Locks.antt =====
-- The scope lock of a recomputation, from `Trigger` to the end of the job.
use pg_analytics_service.Prelude.{◌≡◌, refl, ◌∙◌, Option, none, some, Text, ◌=ₜ◌, if◌then◌else◌}
use pg_analytics_service.Domain.Errors.{error_text}
use pg_analytics_service.Domain.Models.{RunStatus, RecomputeRequest, RecomputeSummary, AuditEntry}
use pg_analytics_service.Effects.{Result, ok, err}
use pg_analytics_service.Application.Ports.{ReportCache}
use pg_analytics_service.Application.LockLaws.{LockLaws, LeavesLocks, freed}
use pg_analytics_service.Application.RecomputeService.{
  RecomputeService, RecomputeJob, failed_entry, completed_entry, bump_cache, finish, run_job,
  process_job,
}

-- The databases and the cache hold no locks.
pub record Frames {S : Type 0} (service : RecomputeService S) (holder : S → Text → Option Text)
    : Type 0 where
  pub get_report_definition :
      (slug : Text) → LeavesLocks holder (service.reports.get_report_definition slug)
  pub recompute_report :
      (request : RecomputeRequest) (run_id : Text)
      → LeavesLocks holder (service.reports.recompute_report request run_id)
  pub create_run :
      (request : RecomputeRequest) (status : RunStatus)
      → LeavesLocks holder (service.runs.create_run request status)
  pub mark_run_running : (run_id : Text) → LeavesLocks holder (service.runs.mark_run_running run_id)
  pub mark_run_completed :
      (run_id : Text) (summary : RecomputeSummary)
      → LeavesLocks holder (service.runs.mark_run_completed run_id summary)
  pub mark_run_failed :
      (run_id message : Text) → LeavesLocks holder (service.runs.mark_run_failed run_id message)
  pub create_entry : (entry : AuditEntry) → LeavesLocks holder (service.audits.create_entry entry)
  pub bump_version :
      (c : ReportCache S) (slug : Text)
      → service.cache ≡ some c
      → LeavesLocks holder (c.bump_version slug)
  pub new_uuid : (s : S) (k : Text) → holder (service.host.new_uuid s).1 k ≡ holder s k

module _ {S : Type 0} (service : RecomputeService S) {holder : S → Text → Option Text}
    (frames : Frames service holder) where
  bump_cache-keeps :
      (o : Option (ReportCache S)) (slug : Text) (s : S) (k : Text)
      → service.cache ≡ o
      → holder (bump_cache service o slug s).1 k ≡ holder s k
  unfolding bump_cache
  bump_cache-keeps none slug s k e = refl
  bump_cache-keeps (some c) slug s k e = frames.bump_version c slug e s k

  pub bump-LeavesLocks : (slug : Text) → LeavesLocks holder (bump_cache service service.cache slug)
  bump-LeavesLocks slug s k = bump_cache-keeps service.cache slug s k refl

module _ {S : Type 0} (service : RecomputeService S) {holder : S → Text → Option Text}
    (laws : LockLaws service.locks holder) (frames : Frames service holder) where
  -- What a release of the job's lock makes of the holder of a lock.
  abbrev pub released : RecomputeJob → S → Text → Option Text
  released job s k = if job.lock_key =ₜ k then freed job.lock_token (holder s k) else holder s k

  finish-releases :
      (job : RecomputeJob) (r : Result RecomputeSummary) (s : S) (k : Text)
      → holder (finish service job r s).1 k ≡ released job s k
  unfolding finish
  finish-releases job (err e) s k = rw laws.release_frees (
      rw (
        frames.create_entry (failed_entry job e),
        frames.mark_run_failed job.run_id (error_text e),
      ))
  finish-releases job (ok summary) s k = rw laws.release_frees (
      rw (frames.create_entry (completed_entry job summary)) (
        rw (bump-LeavesLocks service frames job.request.report_slug)
          (rw (frames.mark_run_completed job.run_id summary))))

  run_job-releases :
      (job : RecomputeJob) (r : Result (Unit {0})) (s : S) (k : Text)
      → holder (run_job service job r s).1 k ≡ released job s k
  unfolding run_job
  run_job-releases job (err e) s k = laws.release_frees job.lock_key job.lock_token s k
  run_job-releases job (ok u) s k =
      finish-releases job _ _ k ∙ rw (frames.recompute_report job.request job.run_id)

  pub process_job_releases :
      (job : RecomputeJob) (s : S) (k : Text)
      → holder (process_job service job s).1 k
        ≡ (if job.lock_key =ₜ k then freed job.lock_token (holder s k) else holder s k)
  unfolding process_job
  process_job_releases job s k =
      run_job-releases job _ _ k ∙ rw (frames.mark_run_running job.run_id)

-- ===== src/Ledger/Jobs.antt =====
-- src/ledger/in-memory-ledger.ts: the job table.
use coin_manage.Base.{
  ℕ, ◌+◌, String, Bool, true, false, ◌&&◌, ◌||◌, nat_eq, Option, none, some, List, [], ◌∷◌, map,
  str_le, take, sort, filter, any, if◌then◌else◌,
}
use coin_manage.Base.Map.{Map, lookup, insert, values}
use coin_manage.Base.Action.{ok, pure, modify, ◌>>=◌, ◌>>◌}
use coin_manage.Contracts.{Host}
use coin_manage.Ledger.Types.Records.{
  JobType, withdraw_dispatch, withdraw_reconcile, withdraw_external_sync, withdraw_manual_review,
  sweep_plan, JobStatus, pending, running, done, failed, TxJob,
}
use coin_manage.Ledger.State.{InMemoryLedger, Method, random_uuid}

abbrev put_job : String → TxJob → Method (Unit {0})
put_job job_id job = modify (λ s. record s { jobs = insert job_id job s.jobs })

abbrev pub is_pending : JobStatus → Bool
is_pending pending = true
is_pending _ = false

abbrev pub same_type : JobType → JobType → Bool
same_type withdraw_dispatch withdraw_dispatch = true
same_type withdraw_reconcile withdraw_reconcile = true
same_type withdraw_external_sync withdraw_external_sync = true
same_type withdraw_manual_review withdraw_manual_review = true
same_type sweep_plan sweep_plan = true
same_type _ _ = false

module _ (host : Host) where
  unfoldable pub enqueue_job : JobType → Map String → String → Method TxJob
  unfolding random_uuid
  enqueue_job type payload now_iso = do
    job_id ← random_uuid host
    let job : TxJob = record {
      job_id = job_id;
      type = type;
      payload = payload;
      status = pending;
      retry_count = 0;
      created_at = now_iso;
    }
    put_job job_id job
    pure job

abbrev pub start_job : TxJob → TxJob
start_job job = record job { status = running }

-- The jobs that a claim takes: the oldest pending ones of the given types. In the map a job stands
-- under its own id.
unfoldable pub claimable_jobs : List JobType → ℕ → InMemoryLedger → List TxJob
claimable_jobs types limit s = take limit (
    sort (λ (a b : TxJob). str_le a.created_at b.created_at)
      (filter (λ (job : TxJob). is_pending job.status && any (same_type job.type) types)
        (values s.jobs)))

-- `for (const job of claimed) { job.status = 'running'; }`
unfoldable pub start_jobs : List TxJob → Map TxJob → Map TxJob
start_jobs [] jobs = jobs
start_jobs (job ∷ claimed) jobs = start_jobs claimed (insert job.job_id (start_job job) jobs)

abbrev is_empty : List JobType → Bool
is_empty [] = true
is_empty (type ∷ types) = false

unfoldable pub claim_pending_jobs : List JobType → ℕ → Method (List TxJob)
unfolding claimable_jobs start_jobs
claim_pending_jobs types limit s =
    let claimed = claimable_jobs types limit s in
    if is_empty types || nat_eq limit 0
    then (ok [], s)
    else (ok (map start_job claimed), record s { jobs = start_jobs claimed s.jobs })

-- `if (job) job.status = …`
unfoldable pub set_job_status : String → JobStatus → Method (Unit {0})
set_job_status job_id status s = elim (lookup job_id s.jobs) [
  | none ↦ (ok tt, s)
  | some job ↦ put_job job_id (record job { status = status }) s
]

unfoldable pub mark_job_done : String → Method (Unit {0})
unfolding set_job_status
mark_job_done job_id = set_job_status job_id done

unfoldable pub mark_job_failed : String → Method (Unit {0})
unfolding set_job_status
mark_job_failed job_id = set_job_status job_id failed

abbrev pub retried : TxJob → TxJob
retried job = record job { retry_count = job.retry_count + 1; status = pending }

unfoldable pub retry_job : String → Method (Option TxJob)
retry_job job_id s = elim (lookup job_id s.jobs) [
  | none ↦ (ok none, s)
  | some job ↦ (ok (some (retried job)), record s { jobs = insert job_id (retried job) s.jobs })
]

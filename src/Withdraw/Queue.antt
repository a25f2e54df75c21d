-- ===== src/Withdraw/Queue.antt =====
-- src/infrastructure/queue/in-memory-withdraw-job-queue.ts: jobs are drained one after the other until none
-- is left or one throws. The handlers are arguments: what one does may enqueue further jobs. The timer
-- that starts a drain is left out.
use coin_manage.Base.{
  ℕ, zero, suc, ◌≤◌, String, Option, some, List, [], ◌∷◌, ◌++◌, ◌≡◌, refl, ap, arith, take, length,
  concat, or_default, inl, inr, ◌⊎◌,
}
use mathlib.Core.List.{append-nil}

pub data JobKind : Type 0 where
  dispatch reconcile external_sync : JobKind

-- `withdrawalId` may be absent in a job that reconciles.
pub record InMemoryJob : Type 0 where
  pub kind : JobKind
  pub withdrawal_id : Option String
  pub attempt : ℕ

pub record FailedJob : Type 0 where
  pub id : String
  pub name : JobKind
  pub withdrawal_id : Option String
  pub failed_reason : Option String
  pub attempts_made : ℕ

pub record WithdrawJobQueue : Type 0 where
  pub jobs : List InMemoryJob
  pub failed_jobs : List FailedJob

abbrev pub new_job : JobKind → Option String → InMemoryJob
new_job kind withdrawal_id = record { kind = kind; withdrawal_id = withdrawal_id; attempt = 1 }

abbrev pub push : InMemoryJob → WithdrawJobQueue → WithdrawJobQueue
push job q = record q { jobs = q.jobs ++ job ∷ [] }

unfoldable pub enqueue_dispatch : String → WithdrawJobQueue → WithdrawJobQueue
enqueue_dispatch withdrawal_id = push (new_job JobKind.dispatch (some withdrawal_id))

unfoldable pub enqueue_reconcile : Option String → WithdrawJobQueue → WithdrawJobQueue
enqueue_reconcile withdrawal_id = push (new_job JobKind.reconcile withdrawal_id)

unfoldable pub enqueue_external_sync : String → WithdrawJobQueue → WithdrawJobQueue
enqueue_external_sync withdrawal_id = push (new_job JobKind.external_sync (some withdrawal_id))

unfoldable pub list_failed : ℕ → WithdrawJobQueue → List FailedJob
list_failed limit q = take limit q.failed_jobs

-- How a handler ends: `threw` has the message of the `Error`, where it was one.
pub data JobEnd : Type 0 where
  finished : JobEnd
  threw : Option String → JobEnd

abbrev pub kind_text : JobKind → String
kind_text JobKind.dispatch = "dispatch"
kind_text JobKind.reconcile = "reconcile"
kind_text JobKind.external_sync = "external_sync"

abbrev pub default_reason : JobKind → String
default_reason JobKind.dispatch = "dispatch failed"
default_reason JobKind.reconcile = "reconcile failed"
default_reason JobKind.external_sync = "external sync failed"

-- The id of a failure: its kind, the withdrawal or `*`, and `stamp`, which stands for `Date.now()`.
abbrev pub failure_of : InMemoryJob → Option String → String → FailedJob
failure_of job reason stamp = record {
  id =
      concat (kind_text job.kind)
        (concat ":" (concat (or_default job.withdrawal_id "*") (concat ":" stamp)));
  name = job.kind;
  withdrawal_id = job.withdrawal_id;
  failed_reason = some (or_default reason (default_reason job.kind));
  attempts_made = job.attempt;
}

-- What is outside the queue, a state `W` of any type, with the jobs that a handler enqueues.
module _ {W : Type 0} (handle : InMemoryJob → W → JobEnd × W × List InMemoryJob)
    (stamp : W → String) where
  -- The end of a drain: whether it came to an empty queue, threw, or ran out of fuel.
  pub data DrainEnd : Type 0 where
    emptied stopped : DrainEnd
    unfinished : DrainEnd

  -- `while (this.jobs.length > 0) { … }`; fuel bounds the turns of the loop.
  unfoldable pub drain : ℕ → WithdrawJobQueue → W → DrainEnd × WithdrawJobQueue × W
  drain zero q w = elim q.jobs [
    | [] ↦ (DrainEnd.emptied, q, w)
    | job ∷ jobs ↦ (DrainEnd.unfinished, q, w)
  ]
  drain (suc fuel) q w = elim q.jobs [
    | [] ↦ (DrainEnd.emptied, q, w)
    | job ∷ jobs ↦
        let (ended, w', more) = handle job w in
        elim ended [
          | JobEnd.finished ↦ drain fuel (record q { jobs = jobs ++ more }) w'
          | JobEnd.threw reason ↦ (
            DrainEnd.stopped,
            record q {
              jobs = jobs ++ more;
              failed_jobs = failure_of job reason (stamp w') ∷ q.failed_jobs;
            },
            w',
          )
        ]
  ]

  -- The handlers of the jobs finish one after the other, from what is outside to what they leave.
  pub data Finished : List InMemoryJob → W → W → Type 0 where
    none_left : {w : W} → Finished [] w w
    one_finished :
        {job : InMemoryJob} {jobs : List InMemoryJob} {w w' : W}
        → (handle job w).0 ≡ JobEnd.finished
        → Finished jobs (handle job w).1 w'
        → Finished (job ∷ jobs) w w'

  -- How a drain from `q` and `w` may end, where no job enqueues another: every job finished, or
  -- those before some job finished and this one threw.
  pub data Drained (q : WithdrawJobQueue) (w : W) : DrainEnd → WithdrawJobQueue → W → Type 0 where
    all_done :
        {w' : W} → Finished q.jobs w w' → Drained q w DrainEnd.emptied (record q { jobs = [] }) w'
    one_threw :
        {v : W} {before after : List InMemoryJob} {job : InMemoryJob} {reason : Option String}
        → q.jobs ≡ before ++ job ∷ after
        → Finished before w v
        → (handle job v).0 ≡ JobEnd.threw reason
        → Drained q w DrainEnd.stopped
            (record {
              jobs = after;
              failed_jobs = failure_of job reason (stamp (handle job v).1) ∷ q.failed_jobs;
            })
            (handle job v).1

  JobEnd-cases : (e : JobEnd) → (e ≡ JobEnd.finished) ⊎ ((r : Option String) × (e ≡ JobEnd.threw r))
  JobEnd-cases JobEnd.finished = inl refl
  JobEnd-cases (JobEnd.threw r) = inr (r, refl)

  abbrev queue_of : List InMemoryJob → List FailedJob → WithdrawJobQueue
  queue_of jobs failed = record { jobs = jobs; failed_jobs = failed }

  -- A job in front that finishes first.
  Drained-later :
      {e : DrainEnd} {q' : WithdrawJobQueue} {w' : W} (job : InMemoryJob) (jobs : List InMemoryJob)
      (failed : List FailedJob) (w : W)
      → (handle job w).0 ≡ JobEnd.finished
      → Drained (queue_of jobs failed) (handle job w).1 e q' w'
      → Drained (queue_of (job ∷ jobs) failed) w e q' w'
  Drained-later job jobs failed w fine (all_done rest) = all_done (one_finished fine rest)
  Drained-later job jobs failed w fine (one_threw left rest bad) =
      one_threw (ap (λ xs. job ∷ xs) left) (one_finished fine rest) bad

  drain-ends_from :
      (fuel : ℕ) (jobs : List InMemoryJob) (failed : List FailedJob) (w : W)
      → ((job : InMemoryJob) (v : W) → (handle job v).2 ≡ [])
      → length jobs ≤ fuel
      → let (e, q', w') = drain fuel (queue_of jobs failed) w in
        Drained (queue_of jobs failed) w e q' w'
  unfolding drain
  drain-ends_from zero [] failed w quiet enough = all_done none_left
  drain-ends_from (suc fuel) [] failed w quiet enough = all_done none_left
  drain-ends_from zero (job ∷ jobs) failed w quiet enough = absurd (omega (arith, enough))
  drain-ends_from (suc fuel) (job ∷ jobs) failed w quiet enough =
      let nothing = quiet job w in
      let all : jobs ++ (handle job w).2 ≡ jobs = rw nothing (append-nil jobs) in
      elim (JobEnd-cases (handle job w).0) [
        | inl fine ↦
            let rest =
              drain-ends_from fuel jobs failed (handle job w).1 quiet (omega (arith, enough)) in
            rw (fine, all) (Drained-later job jobs failed w fine rest)
        | inr (reason, bad) ↦ rw (bad, all) (one_threw refl none_left bad)
      ]

  -- Where the handlers enqueue nothing and there is fuel for every job, a drain comes to an end.
  -- Either the handlers of all jobs finished, one after the other, and the queue is empty with no
  -- new failure; or those of the first jobs finished, the handler of the next job threw, the jobs
  -- after it are left in their order, and the failure of that job, with its kind, its withdrawal,
  -- its attempt and the reason that was thrown, stands first.
  pub drain-ends :
      (fuel : ℕ) (q : WithdrawJobQueue) (w : W)
      → ((job : InMemoryJob) (v : W) → (handle job v).2 ≡ [])
      → length q.jobs ≤ fuel
      → let (e, q', w') = drain fuel q w in Drained q w e q' w'
  drain-ends fuel q w quiet enough = drain-ends_from fuel q.jobs q.failed_jobs w quiet enough

-- ===== src/WorkerQueue/Queue.antt =====
-- The methods of queue.go over the queue's state: the channel, the `closed` flag and the
-- counters. Two methods read the flag and use the channel in two steps, which others may part.
use goods_hunter.Base.{
  ℕ, suc, ltb, leb, Bool, true, false, List, [], ◌∷◌, ◌++◌, Option, none, some, length,
  if◌then◌else◌,
}

-- What the call of a job does.
pub data Job : Type 0 where
  succeeds fails panics : Job

pub record Stats : Type 0 where
  pub enqueued : ℕ
  pub processed : ℕ
  pub succeeded : ℕ
  pub failed : ℕ
  pub dropped : ℕ
  pub panicked : ℕ

pub record Queue : Type 0 where
  pub workers : ℕ
  pub capacity : ℕ
  pub jobs : List Job
  pub jobs_closed : Bool
  pub closed : Bool
  pub stats : Stats

abbrev pub no_stats : Stats
no_stats = record {
  enqueued = 0;
  processed = 0;
  succeeded = 0;
  failed = 0;
  dropped = 0;
  panicked = 0;
}

abbrev at_least_one : ℕ → ℕ
at_least_one n = if leb n 0 then 1 else n

unfoldable pub new_queue : ℕ → ℕ → Queue
new_queue workers capacity = record {
  workers = at_least_one workers;
  capacity = at_least_one capacity;
  jobs = [];
  jobs_closed = false;
  closed = false;
  stats = no_stats;
}

pub data Error : Type 0 where
  nil_job queue_closed context_done already_closed : Error

-- The guards of Enqueue and EnqueueBlocking, before the channel is used.
unfoldable pub admit : Queue → Option Job → Option Error
admit q none = some nil_job
admit q (some job) = if q.closed then some queue_closed else none

-- A send on the channel: it panics once the channel is closed.
pub data Sent : Type 0 where
  sent : Queue → Sent
  would_block send_panics : Sent

unfoldable pub send : Job → Queue → Sent
send job q =
    if q.jobs_closed
    then send_panics
    else if ltb (length q.jobs) q.capacity
    then sent (record q { jobs = q.jobs ++ job ∷ [] })
    else would_block

-- TotalEnqueued.Add(1), after the send.
unfoldable pub count_enqueued : Queue → Queue
count_enqueued q = record q { stats = record (q.stats) { enqueued = suc q.stats.enqueued } }

-- TotalDropped.Add(1), in the `default` case of Enqueue's select.
unfoldable pub drop_job : Queue → Queue
drop_job q = record q { stats = record (q.stats) { dropped = suc q.stats.dropped } }

-- Enqueue, from its guards to its result, when no other method comes between; none is a panic.
enqueue_sent : Queue → Sent → Option (Queue × Bool)
unfolding drop_job count_enqueued
enqueue_sent q (sent q') = some (count_enqueued q', true)
enqueue_sent q would_block = some (drop_job q, false)
enqueue_sent q send_panics = none

enqueue_admitted : Queue → Option Job → Option Error → Option (Queue × Bool)
unfolding enqueue_sent send
enqueue_admitted q none e = some (q, false)
enqueue_admitted q (some job) none = enqueue_sent q (send job q)
enqueue_admitted q (some job) (some e) = some (q, false)

unfoldable pub enqueue : Queue → Option Job → Option (Queue × Bool)
unfolding enqueue_admitted admit
enqueue q job = enqueue_admitted q job (admit q job)

-- What EnqueueBlocking does once it is admitted: it waits for room, or for the context's end.
unfoldable pub blocking_send : Queue → Job → Bool → Option (Option Error × Queue)
unfolding send count_enqueued
blocking_send q job context_ends = elim (send job q) [
  | sent q' ↦ some (none, count_enqueued q')
  | would_block ↦ if context_ends then some (some context_done, q) else none
  | send_panics ↦ none
]

-- The receive of a worker.
unfoldable pub receive : Queue → Option (Job × Queue)
receive q = elim q.jobs [ [] ↦ none | job ∷ rest ↦ some (job, record q { jobs = rest }) ]

-- Whether a job that has returned has returned an error; none when it panicked.
abbrev pub job_error : Job → Option Bool
job_error succeeds = some false
job_error fails = some true
job_error panics = none

-- executeJob when the call of the job has ended: TotalProcessed.Add(1), or TotalPanics.Add(1) after
-- a panic.
unfoldable pub count_call : Option Bool → Stats → Stats
count_call none s = record s { panicked = suc s.panicked }
count_call (some failed_) s = record s { processed = suc s.processed }

-- Then the outcome is counted; `handler_panics` says whether the error handler panics when called.
unfoldable pub count_report : Bool → Bool → Stats → Stats
count_report handler_panics true s =
    let s' = record s { failed = suc s.failed } in
    if handler_panics then record s' { panicked = suc s'.panicked } else s'
count_report handler_panics false s = record s { succeeded = suc s.succeeded }

-- executeJob, when no other goroutine comes between.
executed : Bool → Option Bool → Stats → Stats
unfolding count_report
executed handler_panics none s = s
executed handler_panics (some failed_) s = count_report handler_panics failed_ s

unfoldable pub execute_job : Bool → Job → Stats → Stats
unfolding executed count_call
execute_job handler_panics job s =
    executed handler_panics (job_error job) (count_call (job_error job) s)

-- The compare-and-swap of Shutdown and of ShutdownWithTimeout.
unfoldable pub begin_shutdown : Queue → Option Queue
begin_shutdown q = if q.closed then none else some (record q { closed = true })

unfoldable pub close_jobs : Queue → Queue
close_jobs q = record q { jobs_closed = true }

unfoldable pub queue_len : Queue → ℕ
queue_len q = length q.jobs

unfoldable pub queue_cap : Queue → ℕ
queue_cap q = q.capacity

-- ===== src/Crawler/Worker.antt =====
-- internal/crawler/crawl.go: the counters of FetchItems, and what StartWorker does with a task: it
-- pushes the result, and acknowledges the task unless its time ran out first.
use goods_hunter.Base.{
  ℕ, zero, suc, ltb, leb, Bool, true, false, ◌||◌, [], ◌++◌, Option, some, if◌then◌else◌,
}
use goods_hunter.Base.Text.{Text, str, is_empty}
use goods_hunter.Redis.{Redis}
use goods_hunter.RedisQueue.Types.{FetchRequest, FetchResponse, Codec}
use goods_hunter.RedisQueue.Call.{M, pure, ◌>>=◌, or_else}
use goods_hunter.RedisQueue.Client.{push_result, ack_task}
use goods_hunter.Base.Int.{ℤ, pos, negsuc}
use goods_hunter.Scheduler.Listener.{Listener, Turns, listening}
use goods_hunter.Crawler.Failure.{Failure}
use goods_hunter.Crawler.Crawl.{Outcome, crawled, failed, wrap}

pub record Counts : Type 0 where
  pub total_processed : ℕ
  pub total_succeeded : ℕ
  pub total_failed : ℕ
  pub task_counter : ℕ
  -- The restart signal waits in its channel, which has room for one.
  pub restart_pending : Bool

unfoldable pub count_task : ℕ → Counts → Counts
count_task max_tasks s =
    let n = suc s.task_counter in
    if ltb 0 max_tasks
    then record s { task_counter = n; restart_pending = s.restart_pending || leb max_tasks n }
    else s

unfoldable pub count_outcome : Outcome → Counts → Counts
count_outcome (crawled r) s = record s { total_succeeded = suc s.total_succeeded }
count_outcome (failed e) s = record s { total_failed = suc s.total_failed }

-- FetchItems once doCrawl has returned. The count of processed tasks rises before doCrawl.
unfoldable pub count_fetch : ℕ → Outcome → Counts → Counts
unfolding count_task count_outcome
count_fetch max_tasks o s =
    count_outcome o (count_task max_tasks (record s { total_processed = suc s.total_processed }))

abbrev pub named : Text → Outcome → Outcome
named id (crawled r) = crawled (record r { task_id = id })
named id (failed e) = failed e

-- How a task ends: FetchItems returns in time, or the task's context ends first, with that error.
pub data Ending : Type 0 where
  returned : Outcome → Ending
  timed_out : Failure → Ending

abbrev pub failure_response : Text → Failure → FetchResponse
failure_response id e = record { items = []; error_message = e.message; task_id = id }

unfoldable pub response_of : Text → Ending → FetchResponse
response_of id (returned (crawled r)) = if is_empty r.task_id then record r { task_id = id } else r
response_of id (returned (failed e)) = failure_response id e
response_of id (timed_out e) = failure_response id (wrap (str "task context timeout: ") e)

unfoldable pub is_completed : Ending → Bool
is_completed (returned o) = true
is_completed (timed_out e) = false

-- The errors of both calls are logged and dropped.
unfoldable pub finish_task :
    {D : Type 0} → Codec → Option (Redis D) → FetchRequest → Ending → M D (Unit {0})
unfolding response_of is_completed
finish_task codec client t ending = do
  _ ← or_else tt (push_result codec client (some (response_of t.task_id ending)))
  if is_completed ending then or_else tt (ack_task codec client (some t)) else pure tt

-- The deferred function of the task's goroutine, after a panic in it with that text.
unfoldable pub recover_task :
    {D : Type 0} → Codec → Option (Redis D) → FetchRequest → Text → M D (Unit {0})
recover_task codec client t panic = or_else tt (
    push_result codec client
      (some (record { items = []; error_message = str "panic: " ++ panic; task_id = t.task_id })))

-- The number of pages at once.
abbrev pub concurrency_limit : ℤ → ℕ
concurrency_limit (pos zero) = 1
concurrency_limit (pos (suc n)) = suc n
concurrency_limit (negsuc n) = 1

-- The loop of StartWorker, its semaphore and the goroutines of its tasks: a state that they can
-- reach.
abbrev pub WorkerReaches : ℤ → Listener → Type 0
WorkerReaches max_concurrency l = Turns (concurrency_limit max_concurrency) listening l

-- ===== src/Crawler/Finished.antt =====
-- What the end of a task leaves in the queue, and what the counters of FetchItems say.
use goods_hunter.Base.{
  ℕ, suc, ◌+◌, ◌<◌, ltb, leb, ◌≡◌, refl, ◌∙◌, ap, false, ◌&&◌, List, [], ◌∷◌, some, length, arith,
  Bool-cases, inl, inr,
}
use goods_hunter.Base.Text.{Text, is_empty}
use goods_hunter.Redis.{Redis, Conn, result_queue}
use goods_hunter.RedisQueue.Types.{FetchRequest, FetchResponse, Codec}
use goods_hunter.RedisQueue.Call.{Result, ok, err, or_else_result, exec, pure, ◌>>=◌, or_else}
use goods_hunter.RedisQueue.Client.{push_result, ack_task, find_entry, or_fail}
use goods_hunter.RedisQueue.View.{Queues, view, acked}
use goods_hunter.RedisQueue.Outcomes.{online, ack_task_outcome}
use goods_hunter.Crawler.Failure.{Failure}
use goods_hunter.Crawler.Crawl.{Outcome, crawled, failed}
use goods_hunter.Crawler.Worker.{
  Counts, count_fetch, count_task, count_outcome, Ending, returned, timed_out, response_of,
  is_completed, finish_task,
}

abbrev pub reported : Text → Queues → Queues
reported raw q = record q { results = raw ∷ q.results }

or_else-conn : {D : Type 0} (p : Result (Unit {0}) × Conn D) → (or_else_result tt p).1 ≡ p.1
or_else-conn (ok u, c) = refl
or_else-conn (err e, c) = refl

module _ (codec : Codec) {D : Type 0} (r : Redis D) where
  push_result_outcome :
      (res : FetchResponse) (raw : Text) (d : D) (n : ℕ)
      → codec.marshal_result res ≡ some raw
      → push_result codec (some r) (some res) (online d n)
        ≡ (ok tt, online (r.lpush result_queue raw d).1 (suc n))
  unfolding push_result exec pure ◌>>=◌ or_fail
  push_result_outcome res raw d n e = rw e refl

  view-report :
      (raw : Text) (d : D) → view r (r.lpush result_queue raw d).1 ≡ reported raw (view r d)
  view-report raw d = rw (r.lpush_law result_queue raw d)

  -- With a network that answers, a task that has ended in time leaves its result and is acknowledged.
  finish_task_returned :
      (t : FetchRequest) (o : Outcome) (raw : Text) (d : D) (n : ℕ)
      → is_empty t.task_id ≡ false
      → codec.marshal_result (response_of t.task_id (returned o)) ≡ some raw
      → let after = (finish_task codec (some r) t (returned o) (online d n)).1.db in
        view r after
        ≡ acked
            (find_entry codec t.task_id (view r d).processing)
            t.task_id
            (reported raw (view r d))
  unfolding finish_task is_completed ◌>>=◌ or_else pure
  finish_task_returned t o raw d n named e =
      let d' = (r.lpush result_queue raw d).1 in
      rw (push_result_outcome (response_of t.task_id (returned o)) raw d n e) (
        ap (λ c. view r c.db) (or_else-conn (ack_task codec (some r) (some t) (online d' (suc n))))
        ∙ (ack_task_outcome codec r t d' (suc n) named).1
        ∙ ap (λ (q : Queues). acked (find_entry codec t.task_id q.processing) t.task_id q)
            (view-report raw d))

  -- One whose time has run out leaves its result, and stays pending and in processing.
  finish_task_timed_out :
      (t : FetchRequest) (failure : Failure) (raw : Text) (d : D) (n : ℕ)
      → codec.marshal_result (response_of t.task_id (timed_out failure)) ≡ some raw
      → let after = (finish_task codec (some r) t (timed_out failure) (online d n)).1.db in
        view r after ≡ reported raw (view r d)
  unfolding finish_task is_completed ◌>>=◌ or_else pure
  finish_task_timed_out t failure raw d n e =
      rw (push_result_outcome (response_of t.task_id (timed_out failure)) raw d n e)
        (view-report raw d)

  -- What a task's end is to leave: a result, and for one that has ended in time no entry and no mark.
  abbrev pub left_by : Text → Text → Ending → Queues → Queues
  left_by id raw (returned o) q = acked (find_entry codec id q.processing) id (reported raw q)
  left_by id raw (timed_out e) q = reported raw q

  -- With a network that answers and a result that can be marshalled, a task that ends leaves its
  -- result. One with an id that has ended in time is acknowledged as well; one whose time has run out
  -- stays pending and in processing, for the janitor.
  pub finish_task_outcome :
      (t : FetchRequest) (ending : Ending) (raw : Text) (d : D) (n : ℕ)
      → is_empty t.task_id ≡ false
      → codec.marshal_result (response_of t.task_id ending) ≡ some raw
      → view r (finish_task codec (some r) t ending (online d n)).1.db
        ≡ left_by t.task_id raw ending (view r d)
  finish_task_outcome t (returned o) raw d n named e = finish_task_returned t o raw d n named e
  finish_task_outcome t (timed_out failure) raw d n named e =
      finish_task_timed_out t failure raw d n e

abbrev pub fresh_counts : Counts
fresh_counts = record {
  total_processed = 0;
  total_succeeded = 0;
  total_failed = 0;
  task_counter = 0;
  restart_pending = false;
}

-- The counts after the tasks with these outcomes, the last first.
unfoldable pub counts_of : ℕ → List Outcome → Counts
counts_of max_tasks [] = fresh_counts
counts_of max_tasks (o ∷ os) = count_fetch max_tasks o (counts_of max_tasks os)

-- The counters add up, and the restart is signalled from the limit on.
pub record Tallied (max_tasks done : ℕ) (s : Counts) : Type 0 where
  pub processed : s.total_processed ≡ done
  pub ended : s.total_succeeded + s.total_failed ≡ done
  pub counted : 0 < max_tasks → s.task_counter ≡ done
  pub restarts : s.restart_pending ≡ (ltb 0 max_tasks && leb max_tasks done)

count_task-Tallied :
    (max_tasks done : ℕ) (s : Counts)
    → (0 < max_tasks → s.task_counter ≡ done)
    → s.restart_pending ≡ (ltb 0 max_tasks && leb max_tasks done)
    → (0 < max_tasks → (count_task max_tasks s).task_counter ≡ suc done)
      × ((count_task max_tasks s).restart_pending ≡ (ltb 0 max_tasks && leb max_tasks (suc done)))
unfolding count_task
count_task-Tallied max_tasks done s counted restarts = elim (Bool-cases (ltb 0 max_tasks)) [
  | inl limited ↦ let now = counted (ground arith) in rw limited ((λ h. ap suc now, ground arith))
  | inr free ↦ rw free ((λ h. absurd (ground arith), ground arith))
]

count_task-totals :
    (max_tasks : ℕ) (s : Counts)
    → ((count_task max_tasks s).total_processed ≡ s.total_processed)
      × ((count_task max_tasks s).total_succeeded ≡ s.total_succeeded)
      × ((count_task max_tasks s).total_failed ≡ s.total_failed)
unfolding count_task
count_task-totals max_tasks s = elim (Bool-cases (ltb 0 max_tasks)) [
  | inl limited ↦ rw limited ((refl, refl, refl))
  | inr free ↦ rw free ((refl, refl, refl))
]

count_fetch-Tallied :
    (max_tasks done : ℕ) (o : Outcome) (s : Counts)
    → Tallied max_tasks done s
    → Tallied max_tasks (suc done) (count_fetch max_tasks o s)
unfolding count_fetch count_outcome
count_fetch-Tallied max_tasks done (crawled r) s h =
    let s' = record s { total_processed = suc s.total_processed } in
    let (processed, succeeded, bad) = count_task-totals max_tasks s' in
    let (counted, restarts) = count_task-Tallied max_tasks done s' h.counted h.restarts in
    let before = h.processed in
    let sum = h.ended in
    record { processed = omega arith; ended = omega arith; counted = counted; restarts = restarts }
count_fetch-Tallied max_tasks done (failed e) s h =
    let s' = record s { total_processed = suc s.total_processed } in
    let (processed, succeeded, bad) = count_task-totals max_tasks s' in
    let (counted, restarts) = count_task-Tallied max_tasks done s' h.counted h.restarts in
    let before = h.processed in
    let sum = h.ended in
    record { processed = omega arith; ended = omega arith; counted = counted; restarts = restarts }

-- After any tasks, the number processed is that of those that succeeded and failed, and with a limit
-- the restart has been signalled just when it is reached.
counts_of-Tallied :
    (max_tasks : ℕ) (os : List Outcome) → Tallied max_tasks (length os) (counts_of max_tasks os)
unfolding counts_of
counts_of-Tallied max_tasks [] = record {
  processed = refl;
  ended = refl;
  counted = λ h. refl;
  restarts = ground arith;
}
counts_of-Tallied max_tasks (o ∷ os) =
    count_fetch-Tallied max_tasks (length os) o (counts_of max_tasks os)
      (counts_of-Tallied max_tasks os)

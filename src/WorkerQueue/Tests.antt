-- ===== src/WorkerQueue/Tests.antt =====
-- The theorems about the queue along one run: a job is enqueued, taken, and fails.
use goods_hunter.Base.{◌≡◌, refl, [], ◌∷◌, some, true, false}
use goods_hunter.WorkerQueue.Queue.{
  Queue, fails, succeeds, admit, send, count_enqueued, receive, new_queue, enqueue,
}
use goods_hunter.WorkerQueue.Steps.{
  System, started, Reach, here, next, admits, sends, counts, takes,
}
use goods_hunter.WorkerQueue.Accounts.{Accounted, Reach-Accounted}
use goods_hunter.WorkerQueue.Closing.{Ordered, Quiet, Reach-Ordered, Reach-Quiet, shutdown-crashes}

abbrev admitted : System
admitted = record (started 2 1) { callers = fails ∷ [] }

to_admitted : Reach (started 2 1) admitted
unfolding admit new_queue
to_admitted = next here (admits fails refl refl)

abbrev sent_queue : Queue
sent_queue = record (new_queue 2 1) { jobs = fails ∷ [] }

abbrev loaded_queue : Queue
loaded_queue = record (new_queue 2 1) {
  jobs = fails ∷ [];
  stats = record ((new_queue 2 1).stats) { enqueued = 1 };
}

abbrev loaded : System
loaded = record (started 2 1) { queue = loaded_queue }

to_loaded : Reach (started 2 1) loaded
unfolding send count_enqueued new_queue
to_loaded =
    next (next to_admitted (sends [] fails [] sent_queue refl refl refl)) (counts 0 refl refl)

Reach-Accounted_example : Accounted loaded
Reach-Accounted_example = Reach-Accounted 2 1 to_loaded

Reach-Ordered_example : Ordered loaded
Reach-Ordered_example = Reach-Ordered 2 1 to_loaded

abbrev flagged_queue : Queue
flagged_queue = record loaded_queue { closed = true }

abbrev flagged : System
flagged = record loaded { queue = flagged_queue; closing = true }

abbrev drained : System
drained = record flagged { queue = record flagged_queue { jobs = [] }; running = fails ∷ [] }

Reach-Quiet_example : Quiet drained
unfolding receive new_queue
Reach-Quiet_example =
    Reach-Quiet {s = flagged}
      (next here (takes fails (record flagged_queue { jobs = [] }) refl refl))
      (record { flagged = refl; no_callers = refl; alive = refl })

shutdown-crashes_example : (u : System) × Reach admitted u × (u.crashed ≡ true)
unfolding new_queue
shutdown-crashes_example = shutdown-crashes admitted fails [] refl refl

enqueue_full :
    enqueue loaded_queue (some succeeds)
    ≡ some (record loaded_queue { stats = record (loaded_queue.stats) { dropped = 1 } }, false)
unfolding enqueue new_queue
enqueue_full = refl

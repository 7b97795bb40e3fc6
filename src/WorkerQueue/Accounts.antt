-- ===== src/WorkerQueue/Accounts.antt =====
-- The counters account for every job, and the channel keeps its capacity, in every interleaving.
use goods_hunter.Base.{
  ℕ, suc, ◌+◌, ◌≤◌, ◌≡◌, refl, ap, sym, subst, Bool, true, false, List, [], ◌∷◌, ◌++◌, length,
  length-append, arith,
}
use goods_hunter.WorkerQueue.Queue.{
  Job, succeeds, fails, panics, send, drop_job, receive, count_enqueued, job_error, count_call,
  count_report, begin_shutdown, close_jobs, new_queue,
}
use goods_hunter.WorkerQueue.Steps.{
  System, started, Step, Reach, here, next, admits, sends, counts, meets_full, drops, gives_up,
  crashes, takes, finishes, reports, to_report, marks, closes,
}

pub record Accounted (s : System) : Type 0 where
  pub within : length s.queue.jobs ≤ s.queue.capacity
  pub in_flight :
      s.queue.stats.enqueued + s.uncounted ≡ length s.queue.jobs + length s.running + s.finished
  pub done : s.finished ≡ s.queue.stats.processed + s.queue.stats.panicked
  pub outcomes :
      s.queue.stats.processed ≡ s.queue.stats.succeeded + s.queue.stats.failed + length s.reporting

length-middle {ℓ} :
    {A : Type ℓ} (xs : List A) (y : A) (zs : List A)
    → length (xs ++ y ∷ zs) ≡ suc (length (xs ++ zs))
length-middle [] y zs = refl
length-middle (x ∷ xs) y zs = ap suc (length-middle xs y zs)

count_call-Accounted :
    (s : System) (before : List Job) (job : Job) (after : List Job)
    → s.running ≡ before ++ job ∷ after
    → Accounted s
    → Accounted (record s {
      running = before ++ after;
      finished = suc s.finished;
      reporting = to_report (job_error job) s.reporting;
      queue = record (s.queue) { stats = count_call (job_error job) s.queue.stats };
    })
unfolding count_call
count_call-Accounted s before succeeds after e h =
    omega (arith, h, ap length e, length-middle before succeeds after)
count_call-Accounted s before fails after e h =
    omega (arith, h, ap length e, length-middle before fails after)
count_call-Accounted s before panics after e h =
    omega (arith, h, ap length e, length-middle before panics after)

count_report-Accounted :
    (s : System) (before : List Bool) (failed_ : Bool) (after : List Bool)
    → s.reporting ≡ before ++ failed_ ∷ after
    → Accounted s
    → Accounted (record s {
      reporting = before ++ after;
      queue = record (s.queue) { stats = count_report false failed_ s.queue.stats };
    })
unfolding count_report
count_report-Accounted s before true after e h =
    omega (arith, h, ap length e, length-middle before true after)
count_report-Accounted s before false after e h =
    omega (arith, h, ap length e, length-middle before false after)

Step-Accounted : {s u : System} → Step s u → Accounted s → Accounted u
unfolding send count_enqueued drop_job receive begin_shutdown close_jobs
Step-Accounted {s} (admits job a e) h = subst Accounted (sym e) (ground arith)
Step-Accounted {s} (sends before job after q c a e) h =
    subst Accounted (sym e) (ground (arith, length-append s.queue.jobs (job ∷ [])))
Step-Accounted {s} (counts n c e) h = subst Accounted (sym e) (ground arith)
Step-Accounted {s} (meets_full before job after c a e) h = subst Accounted (sym e) (ground arith)
Step-Accounted {s} (drops n c e) h = subst Accounted (sym e) (ground arith)
Step-Accounted {s} (gives_up before job after c e) h = subst Accounted (sym e) (ground arith)
Step-Accounted {s} (crashes before job after c a e) h = subst Accounted (sym e) (ground arith)
Step-Accounted {s} (takes job q a e) h = subst Accounted (sym e) (ground arith)
Step-Accounted {s} (finishes before job after c e) h =
    subst Accounted (sym e) (count_call-Accounted s before job after c h)
Step-Accounted {s} (reports before failed_ after c e) h =
    subst Accounted (sym e) (count_report-Accounted s before failed_ after c h)
Step-Accounted {s} (marks q a e) h = subst Accounted (sym e) (ground arith)
Step-Accounted {s} (closes c e) h = subst Accounted (sym e) (ground arith)

-- From a new queue, in every interleaving: the channel holds at most its capacity; the jobs that
-- are counted as enqueued, or are sent and not counted yet, are those that wait, run or have ended;
-- each call that has ended was processed or panicked (the error handler does not panic); and the
-- processed jobs are those counted as succeeded or failed and those whose outcome is not counted yet.
pub Reach-Accounted :
    (workers capacity : ℕ) {s : System} → Reach (started workers capacity) s → Accounted s
unfolding new_queue
Reach-Accounted workers capacity here = ground arith
Reach-Accounted workers capacity (next steps step) =
    Step-Accounted step (Reach-Accounted workers capacity steps)

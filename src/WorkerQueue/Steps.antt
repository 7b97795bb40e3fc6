-- ===== src/WorkerQueue/Steps.antt =====
-- The queue with its callers and its workers: each step is what one goroutine does at once.
use goods_hunter.Base.{ℕ, suc, ◌≡◌, Bool, true, false, Option, List, [], ◌∷◌, ◌++◌, none, some}
use goods_hunter.WorkerQueue.Queue.{
  Job, Queue, sent, would_block, send_panics, admit, send, drop_job, receive, count_enqueued,
  job_error, count_call, count_report, begin_shutdown, close_jobs, new_queue,
}

-- `callers` have passed the guards and hold a job; `uncounted` have sent it and not counted it,
-- `refused` met a full channel and have not counted that; `running` are with the workers; `finished`
-- calls have ended, and `reporting` are those, with whether they failed, that are counted as
-- processed and whose outcome is not; a shutdown has set the flag and not yet closed the channel when
-- `closing`.
pub record System : Type 0 where
  pub queue : Queue
  pub callers : List Job
  pub uncounted : ℕ
  pub refused : ℕ
  pub running : List Job
  pub finished : ℕ
  pub reporting : List Bool
  pub closing : Bool
  pub crashed : Bool

abbrev pub started : ℕ → ℕ → System
started workers capacity = record {
  queue = new_queue workers capacity;
  callers = [];
  uncounted = 0;
  refused = 0;
  running = [];
  finished = 0;
  reporting = [];
  closing = false;
  crashed = false;
}

abbrev pub to_report : Option Bool → List Bool → List Bool
to_report none reporting = reporting
to_report (some failed_) reporting = failed_ ∷ reporting

pub data Step (s u : System) : Type 0 where
  admits :
      (job : Job)
      → admit s.queue (some job) ≡ none
      → u ≡ record s { callers = job ∷ s.callers }
      → Step s u
  sends :
      (before : List Job) (job : Job) (after : List Job) (q : Queue)
      → s.callers ≡ before ++ job ∷ after
      → send job s.queue ≡ sent q
      → u ≡ record s { callers = before ++ after; uncounted = suc s.uncounted; queue = q }
      → Step s u
  counts :
      (n : ℕ)
      → s.uncounted ≡ suc n
      → u ≡ record s { uncounted = n; queue = count_enqueued s.queue }
      → Step s u
  meets_full :
      (before : List Job) (job : Job) (after : List Job)
      → s.callers ≡ before ++ job ∷ after
      → send job s.queue ≡ would_block
      → u ≡ record s { callers = before ++ after; refused = suc s.refused }
      → Step s u
  drops :
      (n : ℕ)
      → s.refused ≡ suc n
      → u ≡ record s { refused = n; queue = drop_job s.queue }
      → Step s u
  gives_up :
      (before : List Job) (job : Job) (after : List Job)
      → s.callers ≡ before ++ job ∷ after
      → u ≡ record s { callers = before ++ after }
      → Step s u
  crashes :
      (before : List Job) (job : Job) (after : List Job)
      → s.callers ≡ before ++ job ∷ after
      → send job s.queue ≡ send_panics
      → u ≡ record s { callers = before ++ after; crashed = true }
      → Step s u
  takes :
      (job : Job) (q : Queue)
      → receive s.queue ≡ some (job, q)
      → u ≡ record s { running = job ∷ s.running; queue = q }
      → Step s u
  finishes :
      (before : List Job) (job : Job) (after : List Job)
      → s.running ≡ before ++ job ∷ after
      → u ≡ record s {
        running = before ++ after;
        finished = suc s.finished;
        reporting = to_report (job_error job) s.reporting;
        queue = record (s.queue) { stats = count_call (job_error job) s.queue.stats };
      }
      → Step s u
  reports :
      (before : List Bool) (failed_ : Bool) (after : List Bool)
      → s.reporting ≡ before ++ failed_ ∷ after
      → u ≡ record s {
        reporting = before ++ after;
        queue = record (s.queue) { stats = count_report false failed_ s.queue.stats };
      }
      → Step s u
  marks :
      (q : Queue)
      → begin_shutdown s.queue ≡ some q
      → u ≡ record s { queue = q; closing = true }
      → Step s u
  closes :
      s.closing ≡ true → u ≡ record s { queue = close_jobs s.queue; closing = false } → Step s u

pub data Reach (s : System) : System → Type 0 where
  here : Reach s s
  next : {t u : System} → Reach s t → Step t u → Reach s u

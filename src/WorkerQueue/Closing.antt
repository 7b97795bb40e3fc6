-- ===== src/WorkerQueue/Closing.antt =====
-- Shutdown against a caller that has passed the closed test and has not sent yet.
use goods_hunter.Base.{ℕ, ◌≡◌, refl, sym, subst, ◌∙◌, true, false, List, [], ◌∷◌, ◌++◌, arith}
use goods_hunter.WorkerQueue.Queue.{
  Job, Queue, admit, send, count_enqueued, drop_job, receive, begin_shutdown, close_jobs, new_queue,
}
use goods_hunter.WorkerQueue.Steps.{
  System, started, Step, Reach, here, next, admits, sends, counts, meets_full, drops, gives_up,
  crashes, takes, finishes, reports, marks, closes,
}

-- The flag is set before the channel is closed, and the channel is closed once.
pub record Ordered (s : System) : Type 0 where
  pub flag_first : s.queue.jobs_closed ≡ true → s.queue.closed ≡ true
  pub flag_closing : s.closing ≡ true → s.queue.closed ≡ true
  pub closes_once : s.closing ≡ true → s.queue.jobs_closed ≡ false

Step-Ordered : {s u : System} → Step s u → Ordered s → Ordered u
unfolding send count_enqueued drop_job receive begin_shutdown close_jobs
Step-Ordered (admits job a e) h = subst Ordered (sym e) (ground arith)
Step-Ordered (sends before job after q c a e) h = subst Ordered (sym e) (ground arith)
Step-Ordered (counts n c e) h = subst Ordered (sym e) (ground arith)
Step-Ordered (drops n c e) h = subst Ordered (sym e) (ground arith)
Step-Ordered (reports before failed_ after c e) h = subst Ordered (sym e) (ground arith)
Step-Ordered (meets_full before job after c a e) h = subst Ordered (sym e) (ground arith)
Step-Ordered (gives_up before job after c e) h = subst Ordered (sym e) (ground arith)
Step-Ordered (crashes before job after c a e) h = subst Ordered (sym e) (ground arith)
Step-Ordered (takes job q a e) h = subst Ordered (sym e) (ground arith)
Step-Ordered (finishes before job after c e) h = subst Ordered (sym e) (ground arith)
Step-Ordered (marks q a e) h = subst Ordered (sym e) (ground arith)
Step-Ordered (closes c e) h = subst Ordered (sym e) (ground arith)

-- In every interleaving the flag is set before the channel is closed, and no second close, which
-- would panic, is ever due.
pub Reach-Ordered :
    (workers capacity : ℕ) {s : System} → Reach (started workers capacity) s → Ordered s
unfolding new_queue
Reach-Ordered workers capacity here = ground arith
Reach-Ordered workers capacity (next steps step) =
    Step-Ordered step (Reach-Ordered workers capacity steps)

-- Once the flag is set no other caller is admitted: while nobody is between the test and the
-- send, nobody will be, and no send panics.
pub record Quiet (s : System) : Type 0 where
  pub flagged : s.queue.closed ≡ true
  pub no_callers : s.callers ≡ []
  pub alive : s.crashed ≡ false

nil-ne-middle {ℓ} : {A : Type ℓ} (xs : List A) (y : A) (zs : List A) → ¬ ([] ≡ xs ++ y ∷ zs)
nil-ne-middle [] y zs e = cc
nil-ne-middle (x ∷ xs) y zs e = cc

no_caller :
    {s : System} (before : List Job) (job : Job) (after : List Job)
    → Quiet s
    → s.callers ≡ before ++ job ∷ after
    → ⊥
no_caller before job after h c = nil-ne-middle before job after (sym h.no_callers ∙ c)

Step-Quiet : {s u : System} → Step s u → Quiet s → Quiet u
unfolding admit count_enqueued drop_job receive begin_shutdown close_jobs
Step-Quiet (admits job a e) h = absurd (ground arith)
Step-Quiet (sends before job after q c a e) h = absurd (no_caller before job after h c)
Step-Quiet (counts n c e) h = subst Quiet (sym e) (ground arith)
Step-Quiet (drops n c e) h = subst Quiet (sym e) (ground arith)
Step-Quiet (reports before failed_ after c e) h = subst Quiet (sym e) (ground arith)
Step-Quiet (meets_full before job after c a e) h = absurd (no_caller before job after h c)
Step-Quiet (gives_up before job after c e) h = absurd (no_caller before job after h c)
Step-Quiet (crashes before job after c a e) h = absurd (no_caller before job after h c)
Step-Quiet (takes job q a e) h = subst Quiet (sym e) (ground arith)
Step-Quiet (finishes before job after c e) h = subst Quiet (sym e) (ground arith)
Step-Quiet (marks q a e) h = absurd (ground arith)
Step-Quiet (closes c e) h = subst Quiet (sym e) (ground arith)

-- If nobody is between the test and the send when the flag is set, no send panics afterwards.
pub Reach-Quiet : {s u : System} → Reach s u → Quiet s → Quiet u
Reach-Quiet here h = h
Reach-Quiet (next steps step) h = Step-Quiet step (Reach-Quiet steps h)

-- From every open queue with a caller between the test and the send, a shutdown leads to a
-- send on the closed channel, which panics.
pub shutdown-crashes :
    (s : System) (job : Job) (rest : List Job)
    → s.queue.closed ≡ false
    → s.callers ≡ job ∷ rest
    → (u : System) × Reach s u × (u.crashed ≡ true)
unfolding begin_shutdown close_jobs send
shutdown-crashes s job rest opened callers =
    let q : Queue = record (s.queue) { closed = true } in
    let marked : System = record s { queue = q; closing = true } in
    let shut : System = record marked { queue = close_jobs q; closing = false } in
    let dead : System = record shut { callers = rest; crashed = true } in
    (
      dead,
      next (next (next here (marks q (ground arith) refl)) (closes refl refl))
          (crashes [] job rest callers refl refl),
      refl,
    )

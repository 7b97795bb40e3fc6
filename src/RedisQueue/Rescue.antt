-- ===== src/RedisQueue/Rescue.antt =====
-- What the janitor requeues when the network answers, and what a late acknowledgement does then.
use goods_hunter.Base.{
  ℕ, suc, ◌/◌, ◌==◌, ◌≡◌, ◌≢◌, refl, ◌∙◌, sym, ap, subst, Bool, true, false, not, List, [], ◌∷◌,
  ◌++◌, Option, none, some, if◌then◌else◌, any, keep, length, All, arith, Bool-cases, inl, inr,
}
use mathlib.Core.Path.{fun_ext}
use mathlib.Core.List.{append_assoc}
use goods_hunter.Base.Text.{Text, text_eq_refl, is_empty}
use goods_hunter.Redis.{
  Redis, find_field, task_started_hash, task_processing_queue, erase, holds, mark,
}
use goods_hunter.RedisQueue.Types.{FetchRequest, Codec}
use goods_hunter.RedisQueue.Call.{Result, ok, exec, pure, ◌>>=◌, or_else, >>=-run}
use goods_hunter.RedisQueue.Client.{push_task, ack_task}
use goods_hunter.RedisQueue.Janitor.{
  rescue_script, is_overdue, rescue_entry, rescue_loop, rescue_processing, rescue_started,
  rescue_stuck_tasks, forget_started,
}
use goods_hunter.RedisQueue.View.{Queues, view, view-rescue_script, rescue_script_reply, view-hdel}
use goods_hunter.RedisQueue.Entries.{has_id, marshal-has_id}
use goods_hunter.RedisQueue.Outcomes.{online, push_task_outcome, ack_task_outcome}
use goods_hunter.RedisQueue.Late.{
  since, older, request_late, is_overdue-older, is_late, pushed_onto, erase-middle, All-append,
  holds-middle, any-pushed_onto-keep,
}

module _ (codec : Codec) {D : Type 0} (r : Redis D) where
  module _ (started : List (Text × Text)) (now threshold : ℕ) where
    abbrev late : Text → Bool
    late = is_late codec (λ id. find_field id started) now threshold

    -- One round: an entry that is late moves, another stays.
    record Round (moves : Bool) (raw : Text) (d d' : D) (n : ℕ) : Type 0 where
      tasks : (view r d').tasks ≡ (if moves then raw ∷ (view r d).tasks else (view r d).tasks)
      processing :
          (view r d').processing
          ≡ (if moves then erase raw (view r d).processing else (view r d).processing)
      count : n ≡ (if moves then 1 else 0)

    rescue_late-run :
        (raw id : Text) (d : D) (m : ℕ)
        → holds raw (view r d).processing ≡ true
        → (or_else {A = ℕ} 0
              (exec (rescue_script r raw id) >>= λ n. pure (if n == 1 then 1 else 0))
              (online d m)
            ≡ (ok 1, online (rescue_script r raw id d).1 (suc m)))
          × Round true raw d (rescue_script r raw id d).1 1
    unfolding pure exec ◌>>=◌ or_else
    rescue_late-run raw id d m h =
        let reply : (rescue_script r raw id d).0 ≡ 1 = rescue_script_reply r raw id d ∙ rw h in
        let after : view r (rescue_script r raw id d).1 ≡ record (view r d) {
          tasks = raw ∷ (view r d).tasks;
          processing = erase raw (view r d).processing;
          started = mark id none (view r d).started;
        } =
          view-rescue_script r raw id d ∙ rw h in
        (
          rw reply,
          record {
            tasks = ap (λ (q : Queues). q.tasks) after;
            processing = ap (λ (q : Queues). q.processing) after;
            count = refl;
          },
        )

    rescue_entry-run :
        (raw : Text) (t : Option FetchRequest) (d : D) (m : ℕ)
        → holds raw (view r d).processing ≡ true
        → (n : ℕ) × (d' : D) × (m' : ℕ) × (rescue_entry codec r started now threshold raw t
              (online d m)
            ≡ (ok n, online d' m'))
          × Round (request_late (λ id. find_field id started) now threshold t) raw d d' n
    unfolding rescue_entry pure
    rescue_entry-run raw none d m h =
        (0, d, m, refl, record { tasks = refl; processing = refl; count = refl })
    rescue_entry-run raw (some t) d m h = elim (Bool-cases (is_empty t.task_id)) [
      | inl empty ↦
          (0, d, m, rw empty, rw empty (record { tasks = refl; processing = refl; count = refl }))
      | inr named ↦
          elim (Bool-cases (is_overdue now threshold t.created_at (find_field t.task_id started))) [
            | inl over ↦
                let old : older now threshold (since t.created_at (find_field t.task_id started))
                    ≡ true =
                  sym (is_overdue-older now threshold t.created_at (find_field t.task_id started))
                  ∙ over in
                let (run, round) = rescue_late-run raw t.task_id d m h in
                (
                  1,
                  (rescue_script r raw t.task_id d).1,
                  suc m,
                  rw named (rw over run),
                  rw named (rw old round),
                )
            | inr fresh ↦
                let young : older now threshold (since t.created_at (find_field t.task_id started))
                    ≡ false =
                  sym (is_overdue-older now threshold t.created_at (find_field t.task_id started))
                  ∙ fresh in
                (
                  0,
                  d,
                  m,
                  rw named (rw fresh),
                  rw named (rw young (record { tasks = refl; processing = refl; count = refl })),
                )
          ]
    ]

    -- What the rounds over `l` do from `d`, after the entries `before`, which stay.
    Loop : List Text → List Text → D → ℕ → Type 0
    Loop before l d m =
        All (λ x. late x ≡ false) before
        → (view r d).processing ≡ before ++ l
        → (d' : D) × (m' : ℕ) × (rescue_loop codec r started now threshold l (online d m)
            ≡ (ok (length (keep late l)), online d' m'))
          × ((view r d').tasks ≡ pushed_onto (keep late l) (view r d).tasks)
          × ((view r d').processing ≡ before ++ keep (λ x. not (late x)) l)

    each_round_lem :
        (before : List Text) (raw : Text) (l : List Text) (d : D) (m : ℕ)
        → ((n : ℕ) × (d' : D) × (m' : ℕ) × (rescue_entry codec r started now threshold raw
                (codec.unmarshal_task raw)
                (online d m)
              ≡ (ok n, online d' m'))
            × Round (late raw) raw d d' n)
        → ((d : D) (m : ℕ) → Loop before l d m)
        → ((d : D) (m : ℕ) → Loop (before ++ raw ∷ []) l d m)
        → Loop before (raw ∷ l) d m
    unfolding Loop rescue_loop pure
    each_round_lem before raw l d m (n, d₁, m₁, run, round) moved stays stayed e =
        elim (Bool-cases (late raw)) [
          | inl over ↦
              let erased : (view r d₁).processing ≡ before ++ l =
                round.processing
                ∙ rw over (ap (erase raw) e ∙ (erase-middle late raw before l stayed over).0) in
              let (d₂, m₂, run₂, tasks₂, processing₂) = moved d₁ m₁ stayed erased in
              (
                d₂,
                m₂,
                >>=-run _ _ n (online d m) (online d₁ m₁) run
                    ∙ >>=-run _ _ _ (online d₁ m₁) (online d₂ m₂) run₂
                    ∙ ap (λ k. (ok k, online d₂ m₂)) (ground (arith, round.count, over)),
                rw over (tasks₂ ∙ ap (pushed_onto (keep late l)) (round.tasks ∙ rw over)),
                rw over processing₂,
              )
          | inr fresh ↦
              let kept : (view r d₁).processing ≡ (before ++ raw ∷ []) ++ l =
                round.processing ∙ rw fresh (e ∙ sym (append_assoc before (raw ∷ []) l)) in
              let (d₂, m₂, run₂, tasks₂, processing₂) =
                stays d₁ m₁ (All-append (λ x. late x ≡ false) before (raw ∷ []) stayed (fresh, tt))
                  kept in
              (
                d₂,
                m₂,
                >>=-run _ _ n (online d m) (online d₁ m₁) run
                    ∙ >>=-run _ _ _ (online d₁ m₁) (online d₂ m₂) run₂
                    ∙ ap (λ k. (ok k, online d₂ m₂)) (ground (arith, round.count, fresh)),
                rw fresh (tasks₂ ∙ ap (pushed_onto (keep late l)) (round.tasks ∙ rw fresh)),
                rw fresh
                    (processing₂ ∙ append_assoc before (raw ∷ []) (keep (λ x. not (late x)) l)),
              )
        ]

    -- The rounds over the rest of the entries, after those that stayed.
    rescue_loop_lem : (before l : List Text) (d : D) (m : ℕ) → Loop before l d m
    unfolding Loop rescue_loop pure
    rescue_loop_lem before [] d m = λ stayed e. (d, m, refl, refl, e)
    rescue_loop_lem before (raw ∷ l) d m = λ stayed e.
        each_round_lem before raw l d m
          (rescue_entry-run raw (codec.unmarshal_task raw) d m
            (ap (holds raw) e ∙ holds-middle raw before l))
          (rescue_loop_lem before l) (rescue_loop_lem (before ++ raw ∷ []) l) stayed e

  forget_started-run :
      (l : List (Text × Text)) (d : D) (m : ℕ)
      → (d' : D) × (m' : ℕ) × (forget_started codec r l (online d m) ≡ (ok tt, online d' m'))
        × ((view r d').tasks ≡ (view r d).tasks)
        × ((view r d').processing ≡ (view r d).processing)
  unfolding forget_started pure exec or_else ◌>>=◌
  forget_started-run [] d m = (d, m, refl, refl, refl)
  forget_started-run ((id, time) ∷ l) d m =
      let d₁ = (r.hdel task_started_hash id d).1 in
      let (d₂, m₂, run, tasks, processing) = forget_started-run l d₁ (suc m) in
      (
        d₂,
        m₂,
        run,
        tasks ∙ ap (λ (q : Queues). q.tasks) (view-hdel r id d),
        processing ∙ ap (λ (q : Queues). q.processing) (view-hdel r id d),
      )

  -- The late entries are requeued and counted, and the others stay in order.
  abbrev Requeues : (Text → Option Text) → ℕ → ℕ → D → Result ℕ → D → Type 0
  Requeues started now threshold d result d' =
      let late = is_late codec started now threshold in
      (result ≡ ok (length (keep late (view r d).processing)))
      × ((view r d').tasks ≡ pushed_onto (keep late (view r d).processing) (view r d).tasks)
      × ((view r d').processing ≡ keep (λ x. not (late x)) (view r d).processing)

  rescue_processing-run :
      (started : List (Text × Text)) (now threshold : ℕ) (l : List Text) (d : D) (m : ℕ)
      → (view r d).processing ≡ l
      → let run = rescue_processing codec r started now threshold l (online d m) in
        Requeues (λ id. find_field id started) now threshold d run.0 run.1.db
  unfolding rescue_processing Loop pure
  rescue_processing-run started now threshold [] d m e =
      let (d', m', run, tasks, processing) = forget_started-run started d m in
      rw (>>=-run {B = ℕ} _ (λ _. pure 0) tt (online d m) (online d' m') run)
        (rw e (refl, tasks, processing ∙ e))
  rescue_processing-run started now threshold (raw ∷ l) d m e =
      let (d', m', run, tasks, processing) =
        rescue_loop_lem started now threshold [] (raw ∷ l) d m tt e in
      rw run (rw e (refl, tasks, processing))

  rescue_started-run :
      (started : List (Text × Text)) (now threshold : ℕ) (d : D) (m : ℕ)
      → started ≢ []
      → let run = rescue_started codec r now threshold started (online d m) in
        Requeues (λ id. find_field id started) now threshold d run.0 run.1.db
  unfolding rescue_started exec ◌>>=◌
  rescue_started-run [] now threshold d m some_started = absurd (some_started refl)
  rescue_started-run (entry ∷ started) now threshold d m some_started =
      rescue_processing-run (entry ∷ started) now threshold (r.lrange task_processing_queue d) d
        (suc m) (sym (r.lrange_reply task_processing_queue d))

  -- With a network that answers, when some task has a start time, RescueStuckTasks requeues exactly
  -- the entries in processing that have an id and whose start, or creation where no start is kept, is
  -- more seconds ago than the timeout has; it keeps the others in order, and returns how many it has
  -- requeued.
  pub rescue_stuck_tasks_outcome :
      (timeout now : ℕ) (d : D) (n : ℕ)
      → r.hgetall task_started_hash d ≢ []
      → let late = is_late codec (view r d).started now (timeout / 1_000_000_000) in
        let result = rescue_stuck_tasks codec (some r) timeout now (online d n) in
        (result.0 ≡ ok (length (keep late (view r d).processing)))
        × ((view r result.1.db).tasks
            ≡ pushed_onto (keep late (view r d).processing) (view r d).tasks)
        × ((view r result.1.db).processing ≡ keep (λ x. not (late x)) (view r d).processing)
  unfolding rescue_stuck_tasks exec ◌>>=◌
  rescue_stuck_tasks_outcome timeout now d n some_started =
      let run =
        rescue_started codec r now (timeout / 1_000_000_000) (r.hgetall task_started_hash d)
          (online d (suc n)) in
      subst (λ f. Requeues f now (timeout / 1_000_000_000) d run.0 run.1.db)
        (fun_ext λ id. r.hgetall_reply task_started_hash id d)
        (rescue_started-run (r.hgetall task_started_hash d) now (timeout / 1_000_000_000) d (suc n)
          some_started)

  -- With a network that answers, for a request that has an id and can be marshalled, when some task
  -- has a start time: when the janitor finds the task's entry in processing late and requeues it while
  -- the worker is still busy, the worker's AckTask that comes then clears the pending mark although an
  -- entry of the task waits, so the next PushTask succeeds and the id waits twice.
  pub ack_after_rescue :
      (t : FetchRequest) (raw : Text) (before after : List Text) (timeout now : ℕ) (d : D)
      (n m k : ℕ)
      → is_empty t.task_id ≡ false
      → codec.marshal_task t ≡ some raw
      → r.hgetall task_started_hash d ≢ []
      → (view r d).processing ≡ before ++ raw ∷ after
      → is_late codec (view r d).started now (timeout / 1_000_000_000) raw ≡ true
      → let rescued = (rescue_stuck_tasks codec (some r) timeout now (online d n)).1.db in
        let acked = (ack_task codec (some r) (some t) (online rescued m)).1.db in
        let result = push_task codec (some r) (some t) (online acked k) in
        (result.0 ≡ ok tt)
        × ((view r result.1.db).tasks ≡ raw ∷ (view r rescued).tasks)
        × (has_id codec t.task_id raw ≡ true)
        × (any (has_id codec t.task_id) (view r rescued).tasks ≡ true)
  ack_after_rescue t raw before after timeout now d n m k named e some_started busy over =
      let late = is_late codec (view r d).started now (timeout / 1_000_000_000) in
      let rescued = (rescue_stuck_tasks codec (some r) timeout now (online d n)).1.db in
      let requeued = (rescue_stuck_tasks_outcome timeout now d n some_started).1 in
      let acked = (ack_task codec (some r) (some t) (online rescued m)).1.db in
      let after_ack = (ack_task_outcome codec r t rescued m named).1 in
      let (returned, queued) = push_task_outcome codec r t raw acked k named e in
      let free : (view r acked).pending t.task_id ≡ false =
        ap (λ (q : Queues). q.pending t.task_id) after_ack ∙ rw (text_eq_refl t.task_id) in
      let same : (view r acked).tasks ≡ (view r rescued).tasks =
        ap (λ (q : Queues). q.tasks) after_ack in
      let own = marshal-has_id codec t raw t.task_id e ∙ text_eq_refl t.task_id in
      (
        returned ∙ rw free,
        ap (λ (q : Queues). q.tasks) queued ∙ rw free (ap (λ l. raw ∷ l) same),
        own,
        ap (any (has_id codec t.task_id))
              (requeued ∙ ap (λ l. pushed_onto (keep late l) (view r d).tasks) busy)
            ∙ any-pushed_onto-keep (has_id codec t.task_id) late raw before after (view r d).tasks
                own over,
      )

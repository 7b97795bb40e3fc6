-- ===== src/Scheduler/Handover.antt =====
-- What handleTask does to the queue.
use std.Path.{fun_ext}
use goods_hunter.Base.{
  ℕ, ◌≡◌, ◌≢◌, refl, ap, sym, ◌∙◌, Bool, true, false, [], ◌∷◌, some, if◌then◌else◌, inl, inr,
  Bool-cases,
}
use goods_hunter.Base.Text.{Text, is_empty, text_eq, text_eq_refl}
use goods_hunter.Redis.{Redis, Conn, mark}
use goods_hunter.RedisQueue.Types.{Codec, task_exists}
use goods_hunter.RedisQueue.Call.{Result, ok, err}
use goods_hunter.Base.Decimal.{format_uint-ne-nil}
use goods_hunter.RedisQueue.View.{Queues, view, pushed}
use goods_hunter.RedisQueue.Client.{push_task}
use goods_hunter.RedisQueue.Outcomes.{online, push_task_outcome}
use goods_hunter.Scheduler.Tasks.{Task, int_to_string, request_of}
use goods_hunter.Scheduler.Results.{already_pending, handle_task}

named-ne-nil : (t : Text) → t ≢ [] → is_empty t ≡ false
unfolding is_empty
named-ne-nil [] h = absurd (h refl)
named-ne-nil (c ∷ t) h = refl

-- The id of a task is no empty text.
int_to_string-ink : (n : ℕ) → is_empty (int_to_string n) ≡ false
unfolding is_empty
int_to_string-ink n = named-ne-nil (int_to_string n) (format_uint-ne-nil n)

mark_twice : (id : Text) (p : Text → Bool) → mark id true (mark id true p) ≡ mark id true p
mark_twice id p =
    fun_ext λ t. elim (Bool-cases (text_eq id t)) [ inl same ↦ rw same | inr other ↦ rw other ]

pushed_twice :
    (id raw raw' : Text) (q : Queues)
    → text_eq id id ≡ true
    → pushed id raw' (pushed id raw q) ≡ pushed id raw q
pushed_twice id raw raw' q h =
    rw h (
      ap (λ p. record q { tasks = (pushed id raw q).tasks; pending = p }) (mark_twice id q.pending))

already_pending_lem :
    {D : Type 0} (x : Result (Unit {0})) (c : Conn D) (old : Bool)
    → x ≡ (if old then err task_exists else ok tt)
    → already_pending (x, c) ≡ (ok tt, c)
unfolding already_pending
already_pending_lem x c true e = rw e refl
already_pending_lem x c false e = rw e refl

module _ (codec : Codec) {D : Type 0} (r : Redis D) where
  -- With a network that answers, a task whose request can be marshalled is handed over without an
  -- error, be it pending already or not.
  handle_task_lem :
      (task : Task) (now : ℕ) (raw : Text) (d : D) (n : ℕ)
      → codec.marshal_task (request_of task now) ≡ some raw
      → let after = handle_task codec (some r) task now (online d n) in
        (after.0 ≡ ok tt) × (view r after.1.db ≡ pushed (int_to_string task.id) raw (view r d))
  unfolding handle_task already_pending request_of
  handle_task_lem task now raw d n e =
      let (returned, queued) =
        push_task_outcome codec r (request_of task now) raw d n (int_to_string-ink task.id) e in
      let first = push_task codec (some r) (some (request_of task now)) (online d n) in
      let kept =
        already_pending_lem first.0 first.1 ((view r d).pending (int_to_string task.id)) returned in
      rw kept ((refl, queued))

  -- With a network that answers, a task that is handed over a second time, with nothing else in
  -- between and both requests marshalled, leaves the queue as the first time left it.
  pub handle_task_twice :
      (task : Task) (now later : ℕ) (raw raw' : Text) (d : D) (n m : ℕ)
      → codec.marshal_task (request_of task now) ≡ some raw
      → codec.marshal_task (request_of task later) ≡ some raw'
      → let once = (handle_task codec (some r) task now (online d n)).1.db in
        view r (handle_task codec (some r) task later (online once m)).1.db ≡ view r once
  handle_task_twice task now later raw raw' d n m e e' =
      let once = (handle_task codec (some r) task now (online d n)).1.db in
      let first = (handle_task_lem task now raw d n e).1 in
      (handle_task_lem task later raw' once m e').1
      ∙ ap (pushed (int_to_string task.id) raw') first
      ∙ pushed_twice (int_to_string task.id) raw raw' (view r d)
          (text_eq_refl (int_to_string task.id))
      ∙ sym first

-- ===== src/RedisQueue/Calls.antt =====
-- Whole calls of the client, under any network: each sends only commands of the protocol, so no
-- call loses a task, wherever its connection fails.
use goods_hunter.Base.{
  ℕ, ◌≡◌, refl, Bool, true, false, List, [], ◌∷◌, Option, none, some, if◌then◌else◌, All, ◌/◌,
  arith,
}
use goods_hunter.Base.Text.{Text, is_empty}
use goods_hunter.Redis.{Redis, Conn}
use goods_hunter.RedisQueue.Types.{FetchRequest, FetchResponse, Codec, Error, all_digits}
use goods_hunter.RedisQueue.Call.{
  Result, M, pure, ◌>>=◌, Keeps, exec-Keeps, >>=-Keeps, or_else-Keeps, pure-Keeps, fail-Keeps, fail,
}
use goods_hunter.RedisQueue.Client.{
  or_fail, guard, push_task, pop_task, push_result, pop_result, ack_task, queue_depth,
  pending_set_size, remove_from_pending_set,
}
use goods_hunter.RedisQueue.Janitor.{
  rescue_stuck_tasks, rescue_entry, rescue_processing, rescue_started, rescue_loop, forget_started,
}
use goods_hunter.RedisQueue.View.{view}
use goods_hunter.RedisQueue.Reliable.{
  Sound, Reach, here, next, push, pop, start, ack, rescue, forget, release, report, collect,
  Reach-Sound,
}

unless_true : (b : Bool) → (if b then false else true) ≡ true → b ≡ false
unless_true true h = absurd (ground arith)
unless_true false h = refl

module _ {ℓ} {D : Type 0} {P : D → Type ℓ} where
  guard-Keeps : (b : Bool) (e : Error) → Keeps P (guard {D = D} b e)
  unfolding guard
  guard-Keeps true e = pure-Keeps tt
  guard-Keeps false e = fail-Keeps e

  or_fail-Keeps : {A : Type 0} (o : Option A) (e : Error) → Keeps P (or_fail {D = D} o e)
  unfolding or_fail
  or_fail-Keeps none e = fail-Keeps e
  or_fail-Keeps (some a) e = pure-Keeps a

  -- What follows may rely on the value that was there.
  or_fail->>=-Keeps :
      {A B : Type 0} (o : Option A) (e : Error) (f : A → M D B)
      → ((a : A) → o ≡ some a → Keeps P (f a))
      → Keeps P (or_fail o e >>= f)
  unfolding or_fail ◌>>=◌ pure fail
  or_fail->>=-Keeps none e f k = record { keeps = λ c h. h }
  or_fail->>=-Keeps (some a) e f k = record { keeps = λ c h. (k a refl).keeps c h }

  -- What follows a guard may rely on it.
  guard->>=-Keeps :
      {A : Type 0} (b : Bool) (e : Error) (f : Unit → M D A)
      → (b ≡ true → Keeps P (f tt))
      → Keeps P (guard b e >>= f)
  unfolding guard ◌>>=◌ pure fail
  guard->>=-Keeps true e f k = record { keeps = λ c h. (k refl).keeps c h }
  guard->>=-Keeps false e f k = record { keeps = λ c h. h }

  if-Keeps :
      {A : Type 0} (b : Bool) (m n : M D A) → Keeps P m → Keeps P n → Keeps P (if b then m else n)
  if-Keeps true m n km kn = km
  if-Keeps false m n km kn = kn

-- A call of some client, with the time in seconds at which it is made. Only the tests call
-- PushTaskForce, and nothing calls DeduplicateQueue, which has a module of its own.
pub data Call : Type 0 where
  pushes : Option FetchRequest → Call
  pops : ℕ → Call
  reports : Option FetchResponse → Call
  collects : Call
  acks : Option FetchRequest → Call
  probes_depth probes_pending : Call
  rescues : ℕ → ℕ → Call
  releases : Text → Call

abbrev pub final : {D A : Type 0} → Result A × Conn D → Conn D
final (_, c) = c

-- A handled task has an id of digits, as the scheduler gives it.
abbrev pub HasDigits : Call → Type 0
HasDigits (acks (some t)) = all_digits t.task_id ≡ true
HasDigits _ = Unit

module _ (codec : Codec) {D : Type 0} where
  pub run_call : Option (Redis D) → Call → Conn D → Conn D
  run_call client (pushes t) c = final (push_task codec client t c)
  run_call client (pops now) c = final (pop_task codec client now c)
  run_call client (reports res) c = final (push_result codec client res c)
  run_call client collects c = final (pop_result codec client c)
  run_call client (acks t) c = final (ack_task codec client t c)
  run_call client probes_depth c = final (queue_depth client c)
  run_call client probes_pending c = final (pending_set_size client c)
  run_call client (rescues timeout now) c = final (rescue_stuck_tasks codec client timeout now c)
  run_call client (releases id) c = final (remove_from_pending_set client id c)

  pub run_calls : Option (Redis D) → List Call → Conn D → Conn D
  run_calls client [] c = c
  run_calls client (call ∷ rest) c = run_calls client rest (run_call client call c)

  module _ (r : Redis D) (d₀ : D) where
    abbrev P : D → Type 0
    P = Reach codec r d₀

    push_task-Reach : (t : Option FetchRequest) → Keeps P (push_task codec (some r) t)
    unfolding push_task
    push_task-Reach none = fail-Keeps _
    push_task-Reach (some t) = >>=-Keeps _ _ (guard-Keeps _ _) λ _.
        (or_fail->>=-Keeps (codec.marshal_task t) _ _
          λ raw e. >>=-Keeps _ _ (exec-Keeps _ λ d h. next h (push t raw e)) λ n. guard-Keeps _ _)

    pop_task-Reach : (now : ℕ) → Keeps P (pop_task codec (some r) now)
    unfolding pop_task
    pop_task-Reach now = >>=-Keeps _ _ (exec-Keeps _ λ d h. next h pop) λ reply.
        or_fail->>=-Keeps reply _ _ λ raw _.
          or_fail->>=-Keeps (codec.unmarshal_task raw) _ _ λ req _.
            >>=-Keeps _ _
              (or_else-Keeps 0 _
                (if-Keeps _ _ _ (pure-Keeps _) (exec-Keeps _ λ d h. next h (start _ _))))
              λ _. pure-Keeps _

    push_result-Reach : (res : Option FetchResponse) → Keeps P (push_result codec (some r) res)
    unfolding push_result
    push_result-Reach none = fail-Keeps _
    push_result-Reach (some res) =
        or_fail->>=-Keeps (codec.marshal_result res) _ _
          λ raw _. >>=-Keeps _ _ (exec-Keeps _ λ d h. next h (report raw)) λ n. pure-Keeps _

    pop_result-Reach : Keeps P (pop_result codec (some r))
    unfolding pop_result
    pop_result-Reach =
        >>=-Keeps _ _ (exec-Keeps _ λ d h. next h collect)
          λ reply. or_fail->>=-Keeps reply _ _ λ raw _. or_fail-Keeps (codec.unmarshal_result raw) _

    ack_task-Reach :
        (t : Option FetchRequest) → HasDigits (acks t) → Keeps P (ack_task codec (some r) t)
    unfolding ack_task
    ack_task-Reach none digits = fail-Keeps _
    ack_task-Reach (some t) digits = guard->>=-Keeps _ _ _ λ full.
        (>>=-Keeps _ _
          (exec-Keeps _
            λ d h. next h (ack t.task_id (unless_true (is_empty t.task_id) full) digits))
          λ n. pure-Keeps _)

    queue_depth-Reach : Keeps P (queue_depth (some r))
    unfolding queue_depth
    queue_depth-Reach =
        >>=-Keeps _ _ (exec-Keeps _ λ d h. h)
          λ _. >>=-Keeps _ _ (exec-Keeps _ λ d h. h) λ _. pure-Keeps _

    pending_set_size-Reach : Keeps P (pending_set_size (some r))
    unfolding pending_set_size
    pending_set_size-Reach = exec-Keeps _ λ d h. h

    remove_from_pending_set-Reach : (id : Text) → Keeps P (remove_from_pending_set (some r) id)
    unfolding remove_from_pending_set
    remove_from_pending_set-Reach id =
        >>=-Keeps _ _ (guard-Keeps _ _)
          λ _. (>>=-Keeps _ _ (exec-Keeps _ λ d h. next h (release id)) λ _. pure-Keeps _)

    rescue_entry-Reach :
        (started : List (Text × Text)) (now threshold : ℕ) (raw : Text) (t : Option FetchRequest)
        → Keeps P (rescue_entry codec r started now threshold raw t)
    unfolding rescue_entry
    rescue_entry-Reach started now threshold raw none = pure-Keeps _
    rescue_entry-Reach started now threshold raw (some t) = if-Keeps _ _ _ (pure-Keeps _) (
        if-Keeps _ _ _
          (or_else-Keeps 0 _
            (>>=-Keeps _ _ (exec-Keeps _ λ d h. next h (rescue raw t.task_id)) λ _. pure-Keeps _))
          (pure-Keeps _))

    rescue_loop-Reach :
        (started : List (Text × Text)) (now threshold : ℕ) (l : List Text)
        → Keeps P (rescue_loop codec r started now threshold l)
    unfolding rescue_loop
    rescue_loop-Reach started now threshold [] = pure-Keeps _
    rescue_loop-Reach started now threshold (raw ∷ l) =
        >>=-Keeps _ _ (rescue_entry-Reach started now threshold raw (codec.unmarshal_task raw))
          λ n. >>=-Keeps _ _ (rescue_loop-Reach started now threshold l) λ m. pure-Keeps _

    forget_started-Reach : (l : List (Text × Text)) → Keeps P (forget_started codec r l)
    unfolding forget_started
    forget_started-Reach [] = pure-Keeps _
    forget_started-Reach ((id, time) ∷ l) =
        >>=-Keeps _ _ (or_else-Keeps 0 _ (exec-Keeps _ λ d h. next h (forget id)))
          λ _. forget_started-Reach l

    rescue_processing-Reach :
        (started : List (Text × Text)) (now threshold : ℕ) (l : List Text)
        → Keeps P (rescue_processing codec r started now threshold l)
    unfolding rescue_processing
    rescue_processing-Reach started now threshold [] =
        >>=-Keeps _ _ (forget_started-Reach started) λ _. pure-Keeps _
    rescue_processing-Reach started now threshold (raw ∷ l) =
        rescue_loop-Reach started now threshold (raw ∷ l)

    rescue_started-Reach :
        (now threshold : ℕ) (started : List (Text × Text))
        → Keeps P (rescue_started codec r now threshold started)
    unfolding rescue_started
    rescue_started-Reach now threshold [] = pure-Keeps _
    rescue_started-Reach now threshold (entry ∷ started) =
        >>=-Keeps _ _ (exec-Keeps _ λ d h. h)
          λ tasks. rescue_processing-Reach (entry ∷ started) now threshold tasks

    rescue_stuck_tasks-Reach :
        (timeout now : ℕ) → Keeps P (rescue_stuck_tasks codec (some r) timeout now)
    unfolding rescue_stuck_tasks
    rescue_stuck_tasks-Reach timeout now =
        >>=-Keeps _ _ (exec-Keeps _ λ d h. h)
          λ started. rescue_started-Reach now (timeout / 1_000_000_000) started

    run_call-Reach :
        (call : Call) → HasDigits call → (c : Conn D) → P c.db → P (run_call (some r) call c).db
    unfolding run_call
    run_call-Reach (pushes t) ok c h = (push_task-Reach t).keeps c h
    run_call-Reach (pops now) ok c h = (pop_task-Reach now).keeps c h
    run_call-Reach (reports res) ok c h = (push_result-Reach res).keeps c h
    run_call-Reach collects ok c h = (pop_result-Reach).keeps c h
    run_call-Reach (acks t) ok c h = (ack_task-Reach t ok).keeps c h
    run_call-Reach probes_depth ok c h = (queue_depth-Reach).keeps c h
    run_call-Reach probes_pending ok c h = (pending_set_size-Reach).keeps c h
    run_call-Reach (rescues timeout now) ok c h = (rescue_stuck_tasks-Reach timeout now).keeps c h
    run_call-Reach (releases id) ok c h = (remove_from_pending_set-Reach id).keeps c h

  -- The commands that a call sends, however far it gets, are steps of the queue protocol.
  pub run_call-steps :
      (r : Redis D) (call : Call) (c : Conn D)
      → HasDigits call
      → Reach codec r c.db (run_call (some r) call c).db
  run_call-steps r call c digits = run_call-Reach r c.db call digits c here

  -- From a sound state, after any calls whose ids are digits, under any network, the state is sound:
  -- each pending id has an entry that waits or is processed, and each entry is readable.
  pub run_calls-Sound :
      (r : Redis D) (calls : List Call) (c : Conn D)
      → All HasDigits calls
      → Sound codec (view r c.db)
      → Sound codec (view r (run_calls (some r) calls c).db)
  unfolding run_calls
  run_calls-Sound r [] c digits h = h
  run_calls-Sound r (call ∷ rest) c digits h =
      run_calls-Sound r rest (run_call (some r) call c) digits.1
        (Reach-Sound codec r (run_call-steps r call c digits.0) h)

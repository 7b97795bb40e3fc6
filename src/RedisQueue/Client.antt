-- ===== src/RedisQueue/Client.antt =====
-- The queue operations of client.go. Metrics and the texts of errors are left out.
use goods_hunter.Base.{ℕ, ◌==◌, Bool, true, false, List, [], ◌∷◌, Option, none, some, if◌then◌else◌}
use goods_hunter.Base.Text.{Text, is_empty}
use goods_hunter.Base.Decimal.{format_uint}
use goods_hunter.Redis.{
  Redis, task_queue, task_processing_queue, result_queue, task_pending_set, task_started_hash,
}
use goods_hunter.RedisQueue.Types.{
  FetchRequest, FetchResponse, Codec, Error, nil_task, nil_result, empty_task_id, marshal_failed,
  unmarshal_failed, no_task, no_result, task_exists, not_initialized,
}
use goods_hunter.RedisQueue.Call.{
  Result, ok, err, M, pure, fail, ◌>>=◌, ◌>>◌, or_else, exec, reading, with_rdb,
}

unfoldable pub or_fail : {D A : Type 0} → Option A → Error → M D A
or_fail none e = fail e
or_fail (some a) e = pure a

unfoldable pub guard : {D : Type 0} → Bool → Error → M D (Unit {0})
guard true e = pure tt
guard false e = fail e

unfoldable pub new_client_with_redis : {D : Type 0} → Option (Redis D) → Result (Redis D)
new_client_with_redis none = err not_initialized
new_client_with_redis (some r) = ok r

-- pushTaskScript: SADD, and LPUSH only if the id was added.
unfoldable pub push_task_script : {D : Type 0} → Redis D → Text → Text → D → ℕ × D
push_task_script r id raw d =
    let (added, d₁) = r.sadd task_pending_set id d in
    if added == 0 then (0, d₁) else (1, (r.lpush task_queue raw d₁).1)

-- The loop of ackTaskScript: the first entry that mentions the id.
unfoldable pub find_entry : Codec → Text → List Text → Option Text
find_entry codec id [] = none
find_entry codec id (raw ∷ rest) =
    if codec.mentions raw id then some raw else find_entry codec id rest

module _ {D : Type 0} (r : Redis D) where
  unfoldable pub remove_entry : Option Text → D → ℕ × D
  remove_entry none d = (0, d)
  remove_entry (some raw) d = (1, (r.lrem task_processing_queue raw d).1)

  unfoldable pub ack_task_script : Codec → Text → D → ℕ × D
  ack_task_script codec id d =
      let (removed, d₁) = remove_entry (find_entry codec id (r.lrange task_processing_queue d)) d in
      let d₂ = (r.srem task_pending_set id d₁).1 in (removed, (r.hdel task_started_hash id d₂).1)

module _ {D : Type 0} (codec : Codec) (client : Option (Redis D)) where
  unfoldable pub push_task : Option FetchRequest → M D (Unit {0})
  push_task none = fail nil_task
  push_task (some task) = with_rdb client λ r. do
    guard (if is_empty task.task_id then false else true) empty_task_id
    raw ← or_fail (codec.marshal_task task) marshal_failed
    result ← exec (push_task_script r task.task_id raw)
    guard (if result == 0 then false else true) task_exists

  unfoldable pub push_task_force : Option FetchRequest → M D (Unit {0})
  push_task_force none = fail nil_task
  push_task_force (some task) = with_rdb client λ r. do
    raw ← or_fail (codec.marshal_task task) marshal_failed
    _ ← exec (r.lpush task_queue raw)
    _ ←
        or_else 0
          (if is_empty task.task_id then pure 0 else exec (r.sadd task_pending_set task.task_id))
    pure tt

  -- `now` is time.Now().Unix() when the entry has been read.
  unfoldable pub pop_task : ℕ → M D FetchRequest
  pop_task now = with_rdb client λ r. do
    reply ← exec (r.rpoplpush task_queue task_processing_queue)
    raw ← or_fail reply no_task
    req ← or_fail (codec.unmarshal_task raw) unmarshal_failed
    _ ← or_else 0 (
        if is_empty req.task_id
        then pure 0
        else exec (r.hset task_started_hash req.task_id (format_uint now)))
    pure req

  unfoldable pub push_result : Option FetchResponse → M D (Unit {0})
  push_result none = fail nil_result
  push_result (some res) = with_rdb client λ r. do
    raw ← or_fail (codec.marshal_result res) marshal_failed
    _ ← exec (r.lpush result_queue raw)
    pure tt

  unfoldable pub pop_result : M D FetchResponse
  pop_result = with_rdb client λ r. do
    reply ← exec (r.rpop result_queue)
    raw ← or_fail reply no_result
    or_fail (codec.unmarshal_result raw) unmarshal_failed

  unfoldable pub ack_task : Option FetchRequest → M D (Unit {0})
  ack_task none = fail nil_task
  ack_task (some task) = with_rdb client λ r. do
    guard (if is_empty task.task_id then false else true) empty_task_id
    _ ← exec (ack_task_script r codec task.task_id)
    pure tt

module _ {D : Type 0} (client : Option (Redis D)) where
  unfoldable pub queue_depth : M D (ℕ × ℕ)
  queue_depth = with_rdb client λ r. do
    tasks ← exec (reading (r.llen task_queue))
    results ← exec (reading (r.llen result_queue))
    pure (tasks, results)

  unfoldable pub pending_set_size : M D ℕ
  pending_set_size = with_rdb client λ r. exec (reading (r.scard task_pending_set))

  unfoldable pub remove_from_pending_set : Text → M D (Unit {0})
  remove_from_pending_set id = with_rdb client λ r. do
    guard (if is_empty id then false else true) empty_task_id
    _ ← exec (r.srem task_pending_set id)
    pure tt

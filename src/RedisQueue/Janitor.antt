-- ===== src/RedisQueue/Janitor.antt =====
-- RescueStuckTasks and DeduplicateQueue of client.go.
use goods_hunter.Base.{
  ℕ, ◌+◌, ◌/◌, ◌==◌, ltb, leb, Bool, true, false, List, [], ◌∷◌, Option, none, some, if◌then◌else◌,
  any,
}
use goods_hunter.Base.Int.{ℤ, pos, pos_part, neg_part, eqb_ℤ}
use goods_hunter.Base.Text.{Text, text_eq, is_empty}
use goods_hunter.Base.Decimal.{scan_int}
use goods_hunter.Redis.{Redis, task_queue, task_processing_queue, task_started_hash, find_field}
use goods_hunter.RedisQueue.Types.{FetchRequest, Codec}
use goods_hunter.RedisQueue.Call.{M, pure, ◌>>=◌, ◌>>◌, or_else, exec, reading, with_rdb}

-- rescueScript: LPUSH and HDEL only if LREM removed the entry.
unfoldable pub rescue_script : {D : Type 0} → Redis D → Text → Text → D → ℕ × D
rescue_script r raw id d =
    let (removed, d₁) = r.lrem task_processing_queue raw d in
    if ltb 0 removed
    then (1, (r.hdel task_started_hash id (r.lpush task_queue raw d₁).1).1)
    else (0, d₁)

-- `now - since <= threshold`.
unfoldable pub within : ℕ → ℕ → ℤ → Bool
within now threshold since = leb (now + neg_part since) (threshold + pos_part since)

-- The guards of the loop over an entry's start time, or its creation time if there is none.
unfoldable pub is_overdue : ℕ → ℕ → ℤ → Option Text → Bool
unfolding within
is_overdue now threshold created none =
    if eqb_ℤ created (pos 0) then false else if within now threshold created then false else true
is_overdue now threshold created (some started) = elim (scan_int started) [
  | none ↦ false
  | some since ↦ if within now threshold since then false else true
]

module _ {D : Type 0} (codec : Codec) (r : Redis D) where
  -- One round of the loop: the entries that it requeues.
  unfoldable pub rescue_entry : List (Text × Text) → ℕ → ℕ → Text → Option FetchRequest → M D ℕ
  rescue_entry started now threshold raw none = pure 0
  rescue_entry started now threshold raw (some task) =
      if is_empty task.task_id
      then pure 0
      else if is_overdue now threshold task.created_at (find_field task.task_id started)
      then or_else 0
          (exec (rescue_script r raw task.task_id) >>= λ n. pure (if n == 1 then 1 else 0))
      else pure 0

  unfoldable pub rescue_loop : List (Text × Text) → ℕ → ℕ → List Text → M D ℕ
  unfolding rescue_entry is_overdue
  rescue_loop started now threshold [] = pure 0
  rescue_loop started now threshold (raw ∷ rest) = do
    n ← rescue_entry started now threshold raw (codec.unmarshal_task raw)
    m ← rescue_loop started now threshold rest
    pure (n + m)

  unfoldable pub forget_started : List (Text × Text) → M D (Unit {0})
  forget_started [] = pure tt
  forget_started ((id, _) ∷ rest) = do
    _ ← or_else 0 (exec (r.hdel task_started_hash id))
    forget_started rest

  unfoldable pub rescue_processing : List (Text × Text) → ℕ → ℕ → List Text → M D ℕ
  unfolding rescue_loop forget_started
  rescue_processing started now threshold [] = do forget_started started; pure 0
  rescue_processing started now threshold (raw ∷ rest) =
      rescue_loop started now threshold (raw ∷ rest)

  unfoldable pub rescue_started : ℕ → ℕ → List (Text × Text) → M D ℕ
  unfolding rescue_processing
  rescue_started now threshold [] = pure 0
  rescue_started now threshold (entry ∷ rest) = do
    tasks ← exec (reading (r.lrange task_processing_queue))
    rescue_processing (entry ∷ rest) now threshold tasks

-- `timeout` is in nanoseconds and `now` is in seconds. HGETALL's map is read in the order of its
-- list.
unfoldable pub rescue_stuck_tasks : {D : Type 0} → Codec → Option (Redis D) → ℕ → ℕ → M D ℕ
unfolding rescue_started
rescue_stuck_tasks codec client timeout now = with_rdb client λ r. do
  started ← exec (reading (r.hgetall task_started_hash))
  rescue_started codec r now (timeout / 1_000_000_000) started

module _ (codec : Codec) where
  unfoldable pub entry_id : Option FetchRequest → Option Text
  entry_id none = none
  entry_id (some task) = if is_empty task.task_id then none else some task.task_id

  -- The later entries of an id that has been seen.
  duplicates_from : List Text → Option Text → Text → (List Text → List Text) → List Text
  duplicates_from seen none raw more = more seen
  duplicates_from seen (some id) raw more =
      if any (text_eq id) seen then raw ∷ more seen else more (id ∷ seen)

  unfoldable pub duplicates : List Text → List Text → List Text
  unfolding duplicates_from entry_id
  duplicates [] seen = []
  duplicates (raw ∷ rest) seen =
      duplicates_from seen (entry_id (codec.unmarshal_task raw)) raw (duplicates rest)

unfoldable pub remove_all : {D : Type 0} → Redis D → List Text → M D ℕ
remove_all r [] = pure 0
remove_all r (raw ∷ rest) = do
  n ← or_else 0 (exec (r.lrem task_queue raw))
  m ← remove_all r rest
  pure ((if ltb 0 n then 1 else 0) + m)

unfoldable pub deduplicate_queue : {D : Type 0} → Codec → Option (Redis D) → M D ℕ
unfolding duplicates remove_all
deduplicate_queue codec client =
    with_rdb client
      λ r. do tasks ← exec (reading (r.lrange task_queue)); remove_all r (duplicates codec tasks [])

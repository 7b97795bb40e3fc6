-- ===== src/RedisQueue/View.antt =====
-- The queue that the scheduler and the crawlers share, as its five Redis keys hold it, and the
-- effect of each command and script of client.go on it.
use goods_hunter.Base.{
  ◌≡◌, refl, ◌∙◌, ap, Bool, true, false, List, ◌∷◌, Option, none, some, if◌then◌else◌, unsnoc,
  Bool-cases, inl, inr,
}
use goods_hunter.Base.Text.{Text}
use goods_hunter.Redis.{
  Redis, Contents, task_queue, task_processing_queue, result_queue, task_pending_set,
  task_started_hash, mark, erase, holds, move_tail, pop_tail,
}
use goods_hunter.RedisQueue.Types.{Codec}
use goods_hunter.RedisQueue.Client.{push_task_script, find_entry, remove_entry, ack_task_script}
use goods_hunter.RedisQueue.Janitor.{rescue_script}

pub record Queues : Type 0 where
  pub tasks : List Text
  pub processing : List Text
  pub results : List Text
  pub pending : Text → Bool
  pub started : Text → Option Text

abbrev pub queues : Contents → Queues
queues c = record {
  tasks = c.lists task_queue;
  processing = c.lists task_processing_queue;
  results = c.lists result_queue;
  pending = c.sets task_pending_set;
  started = c.hashes task_started_hash;
}

-- PushTask's script: nothing for a pending id, else the id becomes pending and the entry waits.
abbrev pub pushed : Text → Text → Queues → Queues
pushed id raw q = record q {
  tasks = if q.pending id then q.tasks else raw ∷ q.tasks;
  pending = mark id true q.pending;
}

abbrev pub moved : Option (List Text × Text) → Queues → Queues
moved none q = q
moved (some (rest, raw)) q = record q { tasks = rest; processing = raw ∷ q.processing }

abbrev pub erased : Option Text → List Text → List Text
erased none l = l
erased (some raw) l = erase raw l

abbrev pub acked : Option Text → Text → Queues → Queues
acked entry id q = record q {
  processing = erased entry q.processing;
  pending = mark id false q.pending;
  started = mark id none q.started;
}

abbrev pub rescued : Text → Text → Queues → Queues
rescued raw id q =
    if holds raw q.processing
    then record q {
      tasks = raw ∷ q.tasks;
      processing = erase raw q.processing;
      started = mark id none q.started;
    }
    else record q { processing = erase raw q.processing }

queues-move_tail :
    (o : Option (List Text × Text)) (c : Contents)
    → queues (move_tail task_queue task_processing_queue o c) ≡ moved o (queues c)
queues-move_tail none c = refl
queues-move_tail (some (rest, raw)) c = refl

abbrev pub rest_of : Option (List Text × Text) → List Text → List Text
rest_of none l = l
rest_of (some (rest, _)) l = rest

queues-pop_tail :
    (o : Option (List Text × Text)) (c : Contents)
    → queues (pop_tail result_queue o c)
      ≡ record (queues c) { results = rest_of o (queues c).results }
queues-pop_tail none c = refl
queues-pop_tail (some (rest, raw)) c = refl

module _ {D : Type 0} (r : Redis D) where
  abbrev pub view : D → Queues
  view d = queues (r.contents d)

  pub view-lpush :
      (raw : Text) (d : D)
      → view (r.lpush task_queue raw d).1 ≡ record (view d) { tasks = raw ∷ (view d).tasks }
  view-lpush raw d = rw (r.lpush_law task_queue raw d)

  pub view-rpoplpush :
      (d : D)
      → view (r.rpoplpush task_queue task_processing_queue d).1
        ≡ moved (unsnoc (view d).tasks) (view d)
  view-rpoplpush d =
      rw (r.rpoplpush_law task_queue task_processing_queue d)
        (queues-move_tail (unsnoc (view d).tasks) (r.contents d))

  pub view-rpop :
      (d : D)
      → view (r.rpop result_queue d).1
        ≡ record (view d) { results = rest_of (unsnoc (view d).results) (view d).results }
  view-rpop d =
      rw (r.rpop_law result_queue d) (queues-pop_tail (unsnoc (view d).results) (r.contents d))

  pub view-sadd :
      (id : Text) (d : D)
      → view (r.sadd task_pending_set id d).1
        ≡ record (view d) { pending = mark id true (view d).pending }
  view-sadd id d = rw (r.sadd_law task_pending_set id d)

  pub view-push_task_script :
      (id raw : Text) (d : D) → view (push_task_script r id raw d).1 ≡ pushed id raw (view d)
  unfolding push_task_script
  view-push_task_script id raw d = elim (Bool-cases ((view d).pending id)) [
    | inl old ↦
        let reply = r.sadd_reply task_pending_set id d in
        rw (reply, old) (rw (r.sadd_law task_pending_set id d))
    | inr new ↦
        let reply = r.sadd_reply task_pending_set id d in
        rw (reply, new)
          (rw (r.lpush_law task_queue raw (r.sadd task_pending_set id d).1)
            (rw (r.sadd_law task_pending_set id d)))
  ]

  -- The script answers 0 for a pending id and 1 for another.
  pub push_task_script_reply :
      (id raw : Text) (d : D)
      → (push_task_script r id raw d).0 ≡ (if (view d).pending id then 0 else 1)
  unfolding push_task_script
  push_task_script_reply id raw d = elim (Bool-cases ((view d).pending id)) [
    | inl old ↦ let reply = r.sadd_reply task_pending_set id d in rw (reply, old)
    | inr new ↦ let reply = r.sadd_reply task_pending_set id d in rw (reply, new)
  ]

  pub view-rescue_script :
      (raw id : Text) (d : D) → view (rescue_script r raw id d).1 ≡ rescued raw id (view d)
  unfolding rescue_script
  view-rescue_script raw id d = elim (Bool-cases (holds raw (view d).processing)) [
    | inl there ↦
        let reply = r.lrem_reply task_processing_queue raw d in
        let d₁ = (r.lrem task_processing_queue raw d).1 in
        rw (reply, there)
          (rw (r.hdel_law task_started_hash id (r.lpush task_queue raw d₁).1)
            (rw (r.lpush_law task_queue raw d₁) (rw (r.lrem_law task_processing_queue raw d))))
    | inr gone ↦
        let reply = r.lrem_reply task_processing_queue raw d in
        rw (reply, gone) (rw (r.lrem_law task_processing_queue raw d))
  ]

  pub rescue_script_reply :
      (raw id : Text) (d : D)
      → (rescue_script r raw id d).0 ≡ (if holds raw (view d).processing then 1 else 0)
  unfolding rescue_script
  rescue_script_reply raw id d = elim (Bool-cases (holds raw (view d).processing)) [
    | inl there ↦ let reply = r.lrem_reply task_processing_queue raw d in rw (reply, there)
    | inr gone ↦ let reply = r.lrem_reply task_processing_queue raw d in rw (reply, gone)
  ]

  pub view-lrem_tasks :
      (raw : Text) (d : D)
      → view (r.lrem task_queue raw d).1 ≡ record (view d) { tasks = erase raw (view d).tasks }
  view-lrem_tasks raw d = rw (r.lrem_law task_queue raw d)

  pub view-srem :
      (id : Text) (d : D)
      → view (r.srem task_pending_set id d).1
        ≡ record (view d) { pending = mark id false (view d).pending }
  view-srem id d = rw (r.srem_law task_pending_set id d)

  pub view-hset :
      (id v : Text) (d : D)
      → view (r.hset task_started_hash id v d).1
        ≡ record (view d) { started = mark id (some v) (view d).started }
  view-hset id v d = rw (r.hset_law task_started_hash id v d)

  pub view-hdel :
      (id : Text) (d : D)
      → view (r.hdel task_started_hash id d).1
        ≡ record (view d) { started = mark id none (view d).started }
  view-hdel id d = rw (r.hdel_law task_started_hash id d)

  pub view-remove_entry :
      (entry : Option Text) (d : D)
      → view (remove_entry r entry d).1
        ≡ record (view d) { processing = erased entry (view d).processing }
  unfolding remove_entry
  view-remove_entry none d = refl
  view-remove_entry (some raw) d = rw (r.lrem_law task_processing_queue raw d)

  pub view-ack_task_script :
      (codec : Codec) (id : Text) (d : D)
      → view (ack_task_script r codec id d).1
        ≡ acked (find_entry codec id (view d).processing) id (view d)
  unfolding ack_task_script
  view-ack_task_script codec id d =
      let entry = find_entry codec id (r.lrange task_processing_queue d) in
      let d₁ = (remove_entry r entry d).1 in
      view-hdel id (r.srem task_pending_set id d₁).1
      ∙ ap (λ (q : Queues). record q { started = mark id none q.started })
          (view-srem id d₁
            ∙ ap (λ (q : Queues). record q { pending = mark id false q.pending })
                (view-remove_entry entry d))
      ∙ ap
          (λ (l : List Text). record (view d) {
            processing = erased (find_entry codec id l) (view d).processing;
            pending = mark id false (view d).pending;
            started = mark id none (view d).started;
          })
          (r.lrange_reply task_processing_queue d)

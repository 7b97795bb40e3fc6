-- ===== src/RedisQueue/Reliable.antt =====
-- No task is lost: an id that is pending has an entry that waits or is being processed, whatever
-- the clients send, in whatever order, and whatever replies the network loses.
use goods_hunter.Base.{
  ◌≡◌, refl, ◌∙◌, sym, true, false, ◌||◌, List, Option, none, some, unsnoc, any, All, arith,
  Bool-cases, inl, inr,
}
use goods_hunter.Base.Text.{Text, is_empty, text_eq_iff}
use goods_hunter.Redis.{
  Redis, task_queue, task_processing_queue, result_queue, task_pending_set, task_started_hash, mark,
  holds,
}
use goods_hunter.RedisQueue.Types.{FetchRequest, Codec, all_digits}
use goods_hunter.RedisQueue.Client.{push_task_script, ack_task_script, find_entry}
use goods_hunter.RedisQueue.Janitor.{rescue_script}
use goods_hunter.RedisQueue.View.{
  Queues, view, pushed, moved, acked, rescued, view-push_task_script, view-ack_task_script,
  view-rescue_script, view-rpoplpush, view-hset, view-hdel, view-srem, view-rpop,
}
use goods_hunter.RedisQueue.Entries.{
  has_id, request_has_id_unique, Readable, marshal-Readable, marshal-has_id, find_entry-mentions,
  any-erase_miss, any-erase_hit, any-unsnoc, erase_absent, All-erase, All-holds, All-unsnoc,
}

pub record Sound (codec : Codec) (q : Queues) : Type 0 where
  pub accounted :
      (id : Text)
      → q.pending id ≡ true
      → (any (has_id codec id) q.tasks || any (has_id codec id) q.processing) ≡ true
  pub readable_tasks : All (Readable codec) q.tasks
  pub readable_processing : All (Readable codec) q.processing

module _ (codec : Codec) where
  pushed-Sound :
      (t : FetchRequest) (raw : Text) (q : Queues)
      → codec.marshal_task t ≡ some raw
      → Sound codec q
      → Sound codec (pushed t.task_id raw q)
  pushed-Sound t raw q e h = elim (Bool-cases (q.pending t.task_id)) [
    | inl old ↦ record {
      accounted = λ id p. rw old (ground (arith, h.accounted id, text_eq_iff t.task_id id));
      readable_tasks = rw old h.readable_tasks;
      readable_processing = h.readable_processing;
    }
    | inr new ↦ record {
      accounted = λ id p. rw new (ground (arith, h.accounted id, marshal-has_id codec t raw id e));
      readable_tasks = rw new (marshal-Readable codec t raw e, h.readable_tasks);
      readable_processing = h.readable_processing;
    }
  ]

  -- The start times and the results play no part.
  aside-Sound :
      (q : Queues) (results : List Text) (started : Text → Option Text)
      → Sound codec q
      → Sound codec (record q { results = results; started = started })
  aside-Sound q results started h = record {
    accounted = h.accounted;
    readable_tasks = h.readable_tasks;
    readable_processing = h.readable_processing;
  }

  released-Sound :
      (id : Text) (q : Queues)
      → Sound codec q
      → Sound codec (record q { pending = mark id false q.pending })
  released-Sound id q h = record {
    accounted = λ j p. ground (arith, h.accounted j);
    readable_tasks = h.readable_tasks;
    readable_processing = h.readable_processing;
  }

  moved-Sound :
      (o : Option (List Text × Text)) (q : Queues)
      → unsnoc q.tasks ≡ o
      → Sound codec q
      → Sound codec (moved o q)
  moved-Sound none q e h = h
  moved-Sound (some (rest, raw)) q e h = record {
    accounted =
        λ id p. ground (arith, h.accounted id p, any-unsnoc (has_id codec id) q.tasks rest raw e);
    readable_tasks = (All-unsnoc (Readable codec) q.tasks rest raw e h.readable_tasks).0;
    readable_processing = (
      (All-unsnoc (Readable codec) q.tasks rest raw e h.readable_tasks).1,
      h.readable_processing,
    );
  }

  rescued-Sound : (raw id : Text) (q : Queues) → Sound codec q → Sound codec (rescued raw id q)
  rescued-Sound raw id q h = elim (Bool-cases (holds raw q.processing)) [
    | inl there ↦ rw there (record {
      accounted = λ j p.
          ground (arith, h.accounted j p, any-erase_hit (has_id codec j) raw q.processing there);
      readable_tasks = (
        All-holds (Readable codec) raw q.processing h.readable_processing there,
        h.readable_tasks,
      );
      readable_processing = All-erase (Readable codec) raw q.processing h.readable_processing;
    })
    | inr gone ↦ rw (gone, erase_absent raw q.processing gone) h
  ]

  acked-Sound :
      (entry : Option Text) (id : Text) (q : Queues)
      → is_empty id ≡ false
      → all_digits id ≡ true
      → find_entry codec id q.processing ≡ entry
      → Sound codec q
      → Sound codec (acked entry id q)
  acked-Sound none id q full digits e h = record {
    accounted = λ j p. ground (arith, h.accounted j);
    readable_tasks = h.readable_tasks;
    readable_processing = h.readable_processing;
  }
  acked-Sound (some raw) id q full digits e h = record {
    accounted = λ j p. ground (
      arith,
      h.accounted j,
      any-erase_miss (has_id codec j) raw q.processing,
      request_has_id_unique (codec.unmarshal_task raw) id j names_id,
    );
    readable_tasks = h.readable_tasks;
    readable_processing = All-erase (Readable codec) raw q.processing h.readable_processing;
  }
    where
      found : (codec.mentions raw id ≡ true) × (holds raw q.processing ≡ true)
      found = find_entry-mentions codec id q.processing raw e

      names_id : has_id codec id raw ≡ true
      names_id =
          sym (
            (All-holds (Readable codec) raw q.processing h.readable_processing found.1).mentions_id
              id full digits)
          ∙ found.0

  -- One command or script that a client sends; those of several clients interleave.
  pub data Step {D : Type 0} (r : Redis D) : D → D → Type 0 where
    push :
        {d : D} (t : FetchRequest) (raw : Text)
        → codec.marshal_task t ≡ some raw
        → Step r d (push_task_script r t.task_id raw d).1
    pop : {d : D} → Step r d (r.rpoplpush task_queue task_processing_queue d).1
    start : {d : D} (id time : Text) → Step r d (r.hset task_started_hash id time d).1
    ack :
        {d : D} (id : Text)
        → is_empty id ≡ false
        → all_digits id ≡ true
        → Step r d (ack_task_script r codec id d).1
    rescue : {d : D} (raw id : Text) → Step r d (rescue_script r raw id d).1
    forget : {d : D} (id : Text) → Step r d (r.hdel task_started_hash id d).1
    release : {d : D} (id : Text) → Step r d (r.srem task_pending_set id d).1
    report : {d : D} (raw : Text) → Step r d (r.lpush result_queue raw d).1
    collect : {d : D} → Step r d (r.rpop result_queue d).1

  pub data Reach {D : Type 0} (r : Redis D) (d : D) : D → Type 0 where
    here : Reach r d d
    next : {e f : D} → Reach r d e → Step r e f → Reach r d f

  Step-Sound :
      {D : Type 0} (r : Redis D) {d e : D}
      → Step r d e
      → Sound codec (view r d)
      → Sound codec (view r e)
  Step-Sound r (push {d = d} t raw m) h =
      rw (view-push_task_script r t.task_id raw d) (pushed-Sound t raw (view r d) m h)
  Step-Sound r (pop {d = d}) h = rw (view-rpoplpush r d) (moved-Sound _ (view r d) refl h)
  Step-Sound r (start {d = d} id time) h = rw (view-hset r id time d) (aside-Sound (view r d) _ _ h)
  Step-Sound r (ack {d = d} id full digits) h =
      rw (view-ack_task_script r codec id d) (acked-Sound _ id (view r d) full digits refl h)
  Step-Sound r (rescue {d = d} raw id) h =
      rw (view-rescue_script r raw id d) (rescued-Sound raw id (view r d) h)
  Step-Sound r (forget {d = d} id) h = rw (view-hdel r id d) (aside-Sound (view r d) _ _ h)
  Step-Sound r (release {d = d} id) h = rw (view-srem r id d) (released-Sound id (view r d) h)
  Step-Sound r (report {d = d} raw) h =
      rw (r.lpush_law result_queue raw d) (aside-Sound (view r d) _ _ h)
  Step-Sound r (collect {d = d}) h = rw (view-rpop r d) (aside-Sound (view r d) _ _ h)

  -- Whatever the clients send from a sound state, no pending task is lost.
  pub Reach-Sound :
      {D : Type 0} (r : Redis D) {d e : D}
      → Reach r d e
      → Sound codec (view r d)
      → Sound codec (view r e)
  Reach-Sound r here h = h
  Reach-Sound r (next steps step) h = Step-Sound r step (Reach-Sound r steps h)

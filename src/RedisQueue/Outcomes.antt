-- ===== src/RedisQueue/Outcomes.antt =====
-- What each call returns and leaves behind when the network answers.
use goods_hunter.Base.{
  ℕ, suc, ◌≡◌, refl, ◌∙◌, ap, false, List, ◌∷◌, none, some, if◌then◌else◌, unsnoc, Bool-cases, inl,
  inr,
}
use goods_hunter.Base.Text.{Text, is_empty}
use goods_hunter.Base.Decimal.{format_uint}
use goods_hunter.Redis.{Redis, Conn, answered, task_queue, task_processing_queue, mark, popped}
use goods_hunter.RedisQueue.Types.{FetchRequest, Codec, no_task, task_exists}
use goods_hunter.RedisQueue.Call.{ok, err, exec, pure, fail, ◌>>=◌, or_else}
use goods_hunter.RedisQueue.Client.{
  push_task, pop_task, ack_task, push_task_script, find_entry, or_fail, guard,
}
use goods_hunter.RedisQueue.View.{
  Queues, view, pushed, acked, view-push_task_script, push_task_script_reply, view-ack_task_script,
  view-rpoplpush, view-hset, moved,
}

abbrev pub online : {D : Type 0} → D → ℕ → Conn D
online d n = record { db = d; net = λ _. answered; sent = n }

pub exec-online :
    {D A : Type 0} (f : D → A × D) (d : D) (n : ℕ)
    → exec f (online d n) ≡ (ok (f d).0, online (f d).1 (suc n))
unfolding exec
exec-online f d n = refl

module _ (codec : Codec) {D : Type 0} (r : Redis D) where
  -- With a network that answers, PushTask of a marshalled request that has an id adds it to the queue and marks its id, unless the id is
  -- pending: then it returns ErrTaskExists and changes nothing.
  pub push_task_outcome :
      (t : FetchRequest) (raw : Text) (d : D) (n : ℕ)
      → is_empty t.task_id ≡ false
      → codec.marshal_task t ≡ some raw
      → let result = push_task codec (some r) (some t) (online d n) in
        (result.0 ≡ (if (view r d).pending t.task_id then err task_exists else ok tt))
        × (view r result.1.db ≡ pushed t.task_id raw (view r d))
  unfolding push_task exec pure fail ◌>>=◌ guard or_fail
  push_task_outcome t raw d n named e = elim (Bool-cases ((view r d).pending t.task_id)) [
    | inl old ↦
        let reply : (push_task_script r t.task_id raw d).0 ≡ 0 =
          push_task_script_reply r t.task_id raw d ∙ rw old in
        rw named
          (rw e (rw reply (rw old, rw old (view-push_task_script r t.task_id raw d ∙ rw old))))
    | inr new ↦
        let reply : (push_task_script r t.task_id raw d).0 ≡ 1 =
          push_task_script_reply r t.task_id raw d ∙ rw new in
        rw named
          (rw e (rw reply (rw new, rw new (view-push_task_script r t.task_id raw d ∙ rw new))))
  ]

  -- With a network that answers, PopTask of a readable last entry that has an id returns its request,
  -- moves the entry to those in processing, and records the start time.
  pop_task_outcome :
      (now : ℕ) (t : FetchRequest) (raw : Text) (rest : List Text) (d : D) (n : ℕ)
      → unsnoc (view r d).tasks ≡ some (rest, raw)
      → codec.unmarshal_task raw ≡ some t
      → is_empty t.task_id ≡ false
      → let result = pop_task codec (some r) now (online d n) in
        (result.0 ≡ ok t)
        × (view r result.1.db ≡ record (view r d) {
          tasks = rest;
          processing = raw ∷ (view r d).processing;
          started = mark t.task_id (some (format_uint now)) (view r d).started;
        })
  unfolding pop_task exec pure fail ◌>>=◌ or_fail or_else
  pop_task_outcome now t raw rest d n tail e named =
      let reply = r.rpoplpush_reply task_queue task_processing_queue d in
      let d₁ = (r.rpoplpush task_queue task_processing_queue d).1 in
      rw (reply, tail)
        (rw e (
          rw named (
            refl,
            view-hset r t.task_id (format_uint now) d₁
                ∙ ap
                    (λ (q : Queues). record q {
                      started = mark t.task_id (some (format_uint now)) q.started;
                    })
                    (view-rpoplpush r d ∙ ap (λ o. moved o (view r d)) tail),
          )))

  -- With a network that answers, PopTask of an empty queue returns ErrNoTask and changes nothing.
  pop_task_empty :
      (now : ℕ) (d : D) (n : ℕ)
      → unsnoc (view r d).tasks ≡ none
      → let result = pop_task codec (some r) now (online d n) in
        (result.0 ≡ err no_task) × (view r result.1.db ≡ view r d)
  unfolding pop_task exec pure fail ◌>>=◌ or_fail or_else
  pop_task_empty now d n e =
      let reply : (r.rpoplpush task_queue task_processing_queue d).0 ≡ none =
        r.rpoplpush_reply task_queue task_processing_queue d ∙ ap popped e in
      rw reply (refl, view-rpoplpush r d ∙ ap (λ o. moved o (view r d)) e)

  -- With a network that answers, AckTask of a request that has an id succeeds: the first entry in
  -- processing that mentions the id goes, with the pending mark and the start time.
  pub ack_task_outcome :
      (t : FetchRequest) (d : D) (n : ℕ)
      → is_empty t.task_id ≡ false
      → let result = ack_task codec (some r) (some t) (online d n) in
        (result.0 ≡ ok tt)
        × (view r result.1.db
            ≡ acked (find_entry codec t.task_id (view r d).processing) t.task_id (view r d))
  unfolding ack_task exec pure fail ◌>>=◌ guard
  ack_task_outcome t d n named = rw named (refl, view-ack_task_script r codec t.task_id d)

-- ===== src/RedisQueue/Tests.antt =====
-- The theorems about the queue at concrete states of a server that meets the laws.
use goods_hunter.Base.{ℕ, zero, suc, ◌≡◌, refl, ap, List, [], ◌∷◌, some}
use goods_hunter.Base.Text.{Text, str, text_eq, is_empty}
use goods_hunter.Base.Decimal.{scan_int, is_digit}
use goods_hunter.Redis.{
  Delivery, answered, refused, lost, put, task_processing_queue, task_started_hash,
}
use goods_hunter.RedisQueue.Call.{ok}
use goods_hunter.RedisQueue.Client.{push_task, ack_task}
use goods_hunter.RedisQueue.Janitor.{rescue_stuck_tasks, is_overdue}
use goods_hunter.RedisQueue.View.{Queues, view}
use goods_hunter.RedisQueue.Reliable.{Sound}
use goods_hunter.RedisQueue.Calls.{Call, pushes, pops, acks, rescues, run_calls, run_calls-Sound}
use goods_hunter.RedisQueue.Outcomes.{online, push_task_outcome}
use goods_hunter.RedisQueue.Stand.{Server, server, empty_server, plain, plain_codec, marshal-plain}
use goods_hunter.RedisQueue.Rescue.{rescue_stuck_tasks_outcome, ack_after_rescue}

abbrev seven : Text
seven = str "7"

-- The second command's reply is lost, and the fourth command does not arrive.
abbrev flaky : ℕ → Delivery
flaky zero = answered
flaky (suc zero) = lost
flaky (suc (suc (suc zero))) = refused
flaky _ = answered

abbrev history : List Call
history =
    pushes (some (plain seven))
    ∷ pops 100
    ∷ rescues 5_000_000_000 200
    ∷ acks (some (plain seven))
    ∷ pushes (some (plain seven))
    ∷ []

empty-Sound : Sound plain_codec (view server empty_server)
empty-Sound = record { accounted = λ id p. cc; readable_tasks = tt; readable_processing = tt }

run_calls-Sound_example : Sound plain_codec (
    view server
      (run_calls plain_codec
        (some server)
        history
        (record { db = empty_server; net = flaky; sent = 0 })).db)
unfolding is_digit
run_calls-Sound_example =
    run_calls-Sound plain_codec server history (record { db = empty_server; net = flaky; sent = 0 })
      (tt, (tt, (tt, (refl, (tt, tt))))) empty-Sound

push_task_outcome_example :
    let result =
      (push_task plain_codec (some server) (some (plain seven)) (online empty_server 0)) in
    (result.0 ≡ ok tt) × ((view server result.1.db).tasks ≡ seven ∷ [])
unfolding is_empty
push_task_outcome_example =
    let (returned, queued) =
      push_task_outcome plain_codec server (plain seven) seven empty_server 0 refl
        (marshal-plain seven) in
    (returned, ap (λ (q : Queues). q.tasks) queued)

-- Task 7 was started at 100; task 8 at 4000.
abbrev busy : Server
busy = record empty_server {
  lists = put task_processing_queue (str "8" ∷ seven ∷ []) empty_server.lists;
  hashes =
      put task_started_hash ((seven, str "100") ∷ (str "8", str "4000") ∷ []) empty_server.hashes;
}

rescue_stuck_tasks_outcome_example :
    (rescue_stuck_tasks plain_codec (some server) 1_800_000_000_000 4100 (online busy 0)).0 ≡ ok 1
unfolding is_empty scan_int is_overdue text_eq
rescue_stuck_tasks_outcome_example =
    (rescue_stuck_tasks_outcome plain_codec server 1_800_000_000_000 4100 busy 0 (λ e. cc)).0

ack_after_rescue_example :
    let rescued =
      (rescue_stuck_tasks plain_codec (some server) 1_800_000_000_000 4100 (online busy 0)).1.db in
    let acked = (ack_task plain_codec (some server) (some (plain seven)) (online rescued 4)).1.db in
    (push_task plain_codec (some server) (some (plain seven)) (online acked 9)).0 ≡ ok tt
unfolding is_empty scan_int is_overdue text_eq
ack_after_rescue_example =
    (ack_after_rescue plain_codec server (plain seven) seven (str "8" ∷ []) [] 1_800_000_000_000
      4100 busy 0 4 9 refl (marshal-plain seven) (λ e. cc) refl refl).0

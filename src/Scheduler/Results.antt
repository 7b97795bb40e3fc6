-- ===== src/Scheduler/Results.antt =====
-- handleResult: what a result of the crawler changes. handleTask: a task goes to the Redis queue.
use goods_hunter.Base.{ℕ, Bool, true, false, not, ◌&&◌, [], ◌++◌, Option, none, some, if◌then◌else◌}
use goods_hunter.Base.Text.{Text, str, is_empty, text_eq, trim_space, to_lower}
use goods_hunter.Redis.{Redis, Conn}
use goods_hunter.RedisQueue.Types.{FetchResponse, Codec, task_exists}
use goods_hunter.RedisQueue.Call.{Result, ok, err, M}
use goods_hunter.RedisQueue.Client.{push_task}
use goods_hunter.Scheduler.Tasks.{
  Task, running, stopped, completed, CrawlStatus, failed, no_items, success, int_to_string,
  parse_task_id, request_of, classify_result,
}
use goods_hunter.Scheduler.Services.{Services, Site, Reply, answered, refused}
use goods_hunter.Scheduler.Items.{Batch, process_items}

abbrev pub crawl_status_text : CrawlStatus → Text
crawl_status_text failed = str "failed"
crawl_status_text no_items = str "no_items"
crawl_status_text success = str "success"

unfoldable pub set_task_crawl_status : {W : Type 0} → Services W → ℕ → CrawlStatus → Text → W → W
set_task_crawl_status v id status message w =
    let w1 =
      (v.set (str "task:crawl_status:" ++ int_to_string id) (crawl_status_text status) w).1 in
    let msg_key = str "task:crawl_message:" ++ int_to_string id in
    if is_empty message then (v.del msg_key w1).1 else (v.set msg_key message w1).1

abbrev pub is_first_run : Task → Bool
is_first_run task = elim task.baseline_at as (λ _. Bool) [ none ↦ true | some _ ↦ false ]

abbrev pub is_failed : CrawlStatus → Bool
is_failed failed = true
is_failed no_items = false
is_failed success = false

-- Whether there is a notifier, and the readings of the clock before the items and after them.
pub record Setting : Type 0 where
  pub notifier : Bool
  pub batch_time : ℕ
  pub max_items : ℕ
  pub now : ℕ

abbrev pub batch_of : Setting → Task → Text → Batch
batch_of c task email = record {
  task_id = task.id;
  keyword = task.keyword;
  notify = not (is_first_run task) && task.notify_enabled;
  notifier = c.notifier;
  user_email = email;
  batch_time = c.batch_time;
  max_items = c.max_items;
}

unfoldable pub take_items :
    {W : Type 0} → Services W → Setting → Task → FetchResponse → Text → Site W → Site W
take_items v c task resp email s =
    if is_failed (classify_result (some resp)).0
    then s
    else process_items v (batch_of c task email) resp.items s

-- The items, the times of the run, and the status that the task goes on with.
unfoldable pub take_in :
    {W : Type 0} → Services W → Setting → Task → FetchResponse → Text → Site W → Site W
unfolding take_items
take_in v c task resp email s =
    let s1 = take_items v c task resp email s in
    let baseline = is_first_run task && not (is_failed (classify_result (some resp)).0) in
    let w = (v.stamp task.id baseline c.now s1.world).1 in
    record {
      world = (v.set_status task.id (if task.one_shot then completed else running) w).1;
      sent = s1.sent;
    }

-- A guest's task is stopped when the mark that the guest is active has run out.
unfoldable pub guest_checked :
    {W : Type 0}
    → Services W
    → Setting
    → Task
    → FetchResponse
    → Text
    → Reply (Option Text) × W
    → Site W
    → Site W
unfolding take_in
guest_checked v c task resp email (answered none, w) s = record s {
  world = (v.set_status task.id stopped w).1;
}
guest_checked v c task resp email (answered (some mark), w) s =
    take_in v c task resp email (record s { world = w })
guest_checked v c task resp email (refused, w) s =
    take_in v c task resp email (record s { world = w })

unfoldable pub user_loaded :
    {W : Type 0}
    → Services W
    → Setting
    → Task
    → FetchResponse
    → Option (Text × Text) × W
    → Site W
    → Site W
unfolding guest_checked take_in
user_loaded v c task resp (none, w) s = take_in v c task resp [] (record s { world = w })
user_loaded v c task resp (some (email, role), w) s =
    if text_eq (to_lower (trim_space role)) (str "guest")
    then guest_checked v c task resp email
        (v.get (str "guest:active:" ++ int_to_string task.user_id) w) s
    else take_in v c task resp email (record s { world = w })

unfoldable pub task_loaded :
    {W : Type 0} → Services W → Setting → FetchResponse → Option Task × W → Site W → Bool × Site W
unfolding user_loaded set_task_crawl_status
task_loaded v c resp (none, w) s = (false, record s { world = w })
task_loaded v c resp (some task, w) s =
    let result = classify_result (some resp) in
    let w1 = set_task_crawl_status v task.id result.0 result.1 w in
    (true, user_loaded v c task resp (v.user task.user_id w1) s)

unfoldable pub id_parsed :
    {W : Type 0} → Services W → Setting → FetchResponse → Option ℕ → Site W → Bool × Site W
unfolding task_loaded
id_parsed v c resp none s = (false, s)
id_parsed v c resp (some id) s = task_loaded v c resp (v.task id s.world) s

-- Whether there was no error, and the site afterwards.
unfoldable pub handle_result :
    {W : Type 0} → Services W → Setting → FetchResponse → Site W → Bool × Site W
unfolding id_parsed
handle_result v c resp s = id_parsed v c resp (parse_task_id resp.task_id) s

-- A task that is pending already is no error.
unfoldable pub already_pending :
    {D : Type 0} → Result (Unit {0}) × Conn D → Result (Unit {0}) × Conn D
already_pending (ok u, c) = (ok u, c)
already_pending (err task_exists, c) = (ok tt, c)
already_pending (err e, c) = (err e, c)

unfoldable pub handle_task : {D : Type 0} → Codec → Option (Redis D) → Task → ℕ → M D (Unit {0})
unfolding already_pending
handle_task codec client task now c =
    already_pending (push_task codec client (some (request_of task now)) c)

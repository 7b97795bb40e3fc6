-- ===== src/Scheduler/Items.antt =====
-- processItems, upsertItem and linkTaskItem: the items of a result are stored and linked, and the
-- mails about them are sent.
use goods_hunter.Base.{
  ℕ, suc, ◌==◌, Bool, not, ◌&&◌, List, [], ◌∷◌, ◌++◌, Option, none, some, if◌then◌else◌,
}
use goods_hunter.Base.Int.{ℤ, pos, ltb_ℤ, eqb_ℤ}
use goods_hunter.Base.Text.{Text, str, is_empty, trim_space}
use goods_hunter.RedisQueue.Types.{Item}
use goods_hunter.Scheduler.Tasks.{int_to_string, atoi32}
use goods_hunter.Scheduler.Cleanup.{run_cleanup}
use goods_hunter.Scheduler.Services.{
  Services, Site, Mail, Reason, found_new_item, price_drop_detected, Reply, answered, refused,
}

-- The arguments of processItems, the start of the batch, and whether a notifier is there. Times
-- are numbers; 0 is Go's zero time.
pub record Batch : Type 0 where
  pub task_id : ℕ
  pub keyword : Text
  pub notify : Bool
  pub notifier : Bool
  pub user_email : Text
  pub batch_time : ℕ
  pub max_items : ℕ

abbrev pub dedup_key : ℕ → Text
dedup_key task_id = str "dedup:" ++ int_to_string task_id

upserted : {W : Type 0} → Services W → Item → Option ℕ × W → Option ℕ × W
upserted v it (none, w) = (none, w)
upserted v it (some id, w) = if id == 0 then v.item_id it.source_id w else (some id, w)

unfoldable pub upsert_item : {W : Type 0} → Services W → Item → W → Option ℕ × W
unfolding upserted
upsert_item v it w = upserted v it (v.create_item it w)

unfoldable pub link_task_item : {W : Type 0} → Services W → ℕ → ℕ → ℕ → ℕ → W → W
link_task_item v task_id id rank at w = (v.create_link task_id id rank at w).1

unfoldable pub may_send : Batch → Bool
may_send b = b.notify && b.notifier && not (is_empty b.user_email)

abbrev pub mail_item : Item → Item
mail_item it = record it { status = [] }

unfoldable pub send : {W : Type 0} → Services W → Batch → Item → Reason → ℤ → Site W → Site W
send v b it reason old_price s = record {
  world = (v.deliver s.world).1;
  sent =
      s.sent
      ++ (record {
        item = mail_item it;
        reason = reason;
        keyword = b.keyword;
        old_price = old_price;
        address = b.user_email;
      }
          ∷ []);
}

unfoldable pub stored_new :
    {W : Type 0} → Services W → Batch → ℕ → Item → ℕ → List Mail → Option ℕ × W → Site W
unfolding link_task_item may_send send
stored_new v b rank it link_time sent (none, w) = record { world = w; sent = sent }
stored_new {W} v b rank it link_time sent (some id, w) =
    let w1 = (v.hset (dedup_key b.task_id) it.source_id it.price w).1 in
    let s : Site W = record {
      world = link_task_item v b.task_id id rank link_time w1;
      sent = sent;
    } in
    if link_time == b.batch_time && may_send b then send v b it found_new_item (pos 0) s else s

unfoldable pub process_new : {W : Type 0} → Services W → Batch → ℕ → Item → ℕ → Site W → Site W
unfolding stored_new upsert_item
process_new v b rank it link_time s =
    stored_new v b rank it link_time s.sent (upsert_item v it s.world)

unfoldable pub unchanged : {W : Type 0} → Services W → Batch → ℕ → Option ℕ × W → W
unfolding link_task_item
unchanged v b rank (none, w) = w
unchanged v b rank (some id, w) = link_task_item v b.task_id id rank b.batch_time w

unfoldable pub stored_old :
    {W : Type 0} → Services W → Batch → ℕ → Item → ℤ → List Mail → Option ℕ × W → Site W
unfolding link_task_item may_send send
stored_old v b rank it old_price sent (none, w) = record { world = w; sent = sent }
stored_old {W} v b rank it old_price sent (some id, w) =
    let w1 = link_task_item v b.task_id id rank b.batch_time w in
    let w2 = (v.hset (dedup_key b.task_id) it.source_id it.price w1).1 in
    let w3 = if ltb_ℤ it.price old_price then (v.touch_link b.task_id id w2).1 else w2 in
    let s : Site W = record { world = w3; sent = sent } in
    if ltb_ℤ it.price old_price && may_send b
    then send v b it price_drop_detected old_price s
    else s

unfoldable pub process_old : {W : Type 0} → Services W → Batch → ℕ → Item → ℤ → Site W → Site W
unfolding stored_old unchanged upsert_item
process_old v b rank it old_price s =
    if eqb_ℤ it.price old_price
    then record { world = unchanged v b rank (v.item_id it.source_id s.world); sent = s.sent }
    else stored_old v b rank it old_price s.sent (upsert_item v it s.world)

unfoldable pub link_known : {W : Type 0} → ℕ → Option ℕ × W → ℕ × W
link_known last (none, w) = (last, w)
link_known last (some at, w) = (at, w)

unfoldable pub item_known : {W : Type 0} → Services W → Batch → ℕ → Option ℕ × W → ℕ × W
unfolding link_known
item_known v b last (none, w) = (last, w)
item_known v b last (some id, w) = link_known last (v.linked_at b.task_id id w)

-- lastKnownTime after an item that is known already.
unfoldable pub known_time : {W : Type 0} → Services W → Batch → Item → ℕ → W → ℕ × W
unfolding item_known
known_time v b it last w = item_known v b last (v.item_id it.source_id w)

unfoldable pub old_found :
    {W : Type 0} → Services W → Batch → ℕ → Item → ℤ → List Mail → ℕ × W → ℕ × Site W
unfolding process_old
old_found v b rank it old_price sent (last, w) =
    (last, process_old v b rank it old_price (record { world = w; sent = sent }))

unfoldable pub looked_up :
    {W : Type 0}
    → Services W
    → Batch
    → ℕ
    → Item
    → ℕ
    → List Mail
    → Reply (Option Text) × W
    → ℕ × Site W
unfolding process_new known_time old_found
looked_up v b rank it last sent (refused, w) = (last, record { world = w; sent = sent })
looked_up v b rank it last sent (answered none, w) = (
  last,
  process_new v b rank it (if last == 0 then b.batch_time else last)
      (record { world = w; sent = sent }),
)
looked_up v b rank it last sent (answered (some old), w) =
    old_found v b rank it (atoi32 old) sent (known_time v b it last w)

unfoldable pub process_item : {W : Type 0} → Services W → Batch → ℕ → Item → ℕ × Site W → ℕ × Site W
unfolding looked_up
process_item v b rank it (last, s) =
    if is_empty (trim_space it.source_id)
    then (last, s)
    else looked_up v b rank it last s.sent (v.hget (dedup_key b.task_id) it.source_id s.world)

unfoldable pub process_loop :
    {W : Type 0} → Services W → Batch → ℕ → List Item → ℕ × Site W → ℕ × Site W
unfolding process_item
process_loop v b rank [] s = s
process_loop v b rank (it ∷ items) s =
    process_loop v b (suc rank) items (process_item v b rank it s)

unfoldable pub process_items : {W : Type 0} → Services W → Batch → List Item → Site W → Site W
unfolding process_loop
process_items v b items s =
    let after = (process_loop v b 1 items (0, s)).1 in
    record { world = run_cleanup v b.max_items b.task_id after.world; sent = after.sent }

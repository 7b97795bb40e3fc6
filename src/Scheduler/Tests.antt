-- ===== src/Scheduler/Tests.antt =====
-- The scheduler over a small world: item "m1" is known at 1500 yen and linked at time 50.
use mathlib.Core.Option.{some-injective}
use goods_hunter.Base.{
  ℕ, suc, ◌≡◌, refl, subst, true, false, List, [], ◌∷◌, Option, none, some, length, take, keep, ltb,
  if◌then◌else◌, arith,
}
use goods_hunter.Base.Int.{pos, to_int32}
use goods_hunter.Base.Text.{Text, str, text_eq, is_empty, trim_space}
use goods_hunter.Base.Decimal.{parse_int}
use goods_hunter.RedisQueue.Types.{Item, FetchResponse}
use goods_hunter.RedisQueue.View.{view}
use goods_hunter.RedisQueue.Outcomes.{online}
use goods_hunter.RedisQueue.Stand.{server, empty_server, plain_codec, marshal-plain}
use goods_hunter.Scheduler.Tasks.{Task, running, int_to_string, atoi32, classify_result, request_of}
use goods_hunter.Scheduler.Dispatch.{enqueue_running_tasks, enqueue_running_tasks_all}
use goods_hunter.Scheduler.Cleanup.{
  run_cleanup, get_elem?, or_zero, run_cleanup-cleanup_old_items, cleanup_old_items,
  cleanup_old_items_ties,
}
use goods_hunter.Scheduler.Services.{Services, Site, answered}
use goods_hunter.Scheduler.Items.{Batch, process_items}
use goods_hunter.Scheduler.Notices.{SendsAll, process_items_mails}
use goods_hunter.Scheduler.Listener.{
  max_handlers, Listener, Turns, still, then_turn, acquires, pops, popping, listening, Balanced,
  Turns-Balanced,
}
use goods_hunter.Scheduler.Results.{Setting, handle_result, handle_task}
use goods_hunter.Scheduler.Handover.{handle_task_twice}
use goods_hunter.Scheduler.Outcomes.{IsSilent, handle_result_silent, handle_result_failed}

-- The world counts the writes about items.
abbrev known_price : Text → Option Text
known_price source = if text_eq source (str "m1") then some (str "1500") else none

abbrev watch : Task
watch = record {
  id = 7;
  user_id = 3;
  keyword = [];
  min_price = pos 0;
  max_price = pos 0;
  platform = pos 1;
  sort_by = pos 0;
  sort_order = pos 0;
  one_shot = false;
  status = running;
  notify_enabled = true;
  baseline_at = none;
}

abbrev shop : Services ℕ
shop = record {
  hget = λ key field w. (answered (known_price field), w);
  hset = λ key field price w. (true, w);
  set = λ key value w. (true, w);
  del = λ key w. (true, w);
  get = λ key w. (answered none, w);
  item_id = λ source w. (some 1, w);
  linked_at = λ task id w. (some 50, w);
  create_item = λ it w. (some 1, suc w);
  create_link = λ task id rank at w. (true, suc w);
  touch_link = λ task id w. (true, suc w);
  count_links = λ task w. (some 3, w);
  cutoff_time = λ task offset w. (some 0, w);
  delete_links = λ task at w. (true, suc w);
  task = λ id w. (some watch, w);
  user = λ id w. (some (str "a@b", str " Guest "), w);
  stamp = λ id baseline now w. (true, w);
  set_status = λ id status w. (true, w);
  deliver = λ w. (true, w);
}

abbrev site : Site ℕ
site = record { world = 0; sent = [] }

abbrev article : Text → ℕ → Item
article source price = record {
  source_id = source;
  title = str "Figure";
  price = pos price;
  image_url = [];
  item_url = [];
  status = [];
}

-- An item that is new, the known one at a lower price, and one that only a deeper fetch shows.
abbrev articles : List Item
articles = article (str "m9") 800 ∷ article (str "m1") 1200 ∷ article (str "m2") 500 ∷ []

abbrev batch : Batch
batch = record {
  task_id = 7;
  keyword = [];
  notify = true;
  notifier = true;
  user_email = str "a@b";
  batch_time = 100;
  max_items = 300;
}

abbrev setting : Setting
setting = record { notifier = true; batch_time = 100; max_items = 300; now = 101 }

two_mails : length (process_items shop batch articles site).sent ≡ 2
unfolding process_items is_empty trim_space text_eq atoi32 parse_int
two_mails = refl

process_items_mails_example :
    SendsAll shop batch 1 articles (0, site) (process_items shop batch articles site).sent
process_items_mails_example = process_items_mails shop batch articles site

abbrev reply : Text → FetchResponse
reply error = record { items = articles; error_message = error; task_id = str "7" }

handle_result_silent_example : (handle_result shop setting (reply []) site).1.sent ≡ []
handle_result_silent_example =
    handle_result_silent shop setting (reply []) site
      (λ n task h. subst IsSilent (some-injective watch task h) refl)

handle_result_failed_example :
    ((handle_result shop setting (reply (str "timeout")) site).1.world ≡ 0)
    × ((handle_result shop setting (reply (str "timeout")) site).1.sent ≡ [])
unfolding classify_result is_empty text_eq
handle_result_failed_example =
    handle_result_failed shop (λ w. w)
      (record {
        set_law = λ key value w. refl;
        del_law = λ key w. refl;
        get_law = λ key w. refl;
        task_law = λ id w. refl;
        user_law = λ id w. refl;
        stamp_law = λ id baseline now w. refl;
        status_law = λ id status w. refl;
      })
      setting (reply (str "timeout")) site refl

handle_task_twice_example :
    let once = (handle_task plain_codec (some server) watch 0 (online empty_server 0)).1.db in
    view server (handle_task plain_codec (some server) watch 0 (online once 1)).1.db
    ≡ view server once
unfolding request_of to_int32
handle_task_twice_example =
    handle_task_twice plain_codec server watch 0 0 (int_to_string 7) (int_to_string 7) empty_server
      0 1 (marshal-plain (int_to_string 7)) (marshal-plain (int_to_string 7))

abbrev ids : List ℕ
ids = 3 ∷ 5 ∷ 8 ∷ 13 ∷ 21 ∷ []

enqueue_running_tasks_all_example :
    enqueue_running_tasks (λ last limit. take limit (keep (ltb last) ids)) 2 1000 6 ≡ some ids
enqueue_running_tasks_all_example =
    enqueue_running_tasks_all (λ last limit. take limit (keep (ltb last) ids)) ids 2 1000 6
      (λ last limit. refl)
      (omega arith, (omega arith, (omega arith, (omega arith, (omega arith, tt))))) (omega arith)

cleanup_old_items_ties_example : cleanup_old_items 2 (7 ∷ 7 ∷ 7 ∷ 5 ∷ []) ≡ []
cleanup_old_items_ties_example =
    cleanup_old_items_ties 2 7 (7 ∷ 7 ∷ 7 ∷ 5 ∷ []) (omega arith) (omega arith) (omega arith)
      (omega arith, (omega arith, (omega arith, (omega arith, tt)))) refl

-- A table of links that is the world.
abbrev table : Services (List ℕ)
table = record {
  hget = λ key field w. (answered none, w);
  hset = λ key field price w. (true, w);
  set = λ key value w. (true, w);
  del = λ key w. (true, w);
  get = λ key w. (answered none, w);
  item_id = λ source w. (some 1, w);
  linked_at = λ task id w. (none, w);
  create_item = λ it w. (some 1, w);
  create_link = λ task id rank at w. (true, w);
  touch_link = λ task id w. (true, w);
  count_links = λ task w. (some (length w), w);
  cutoff_time = λ task offset w. (some (or_zero (get_elem? w offset)), w);
  delete_links = λ task at w. (true, keep (ltb at) w);
  task = λ id w. (none, w);
  user = λ id w. (none, w);
  stamp = λ id baseline now w. (true, w);
  set_status = λ id status w. (true, w);
  deliver = λ w. (true, w);
}

run_cleanup-cleanup_old_items_example :
    run_cleanup table 2 7 (9 ∷ 8 ∷ 7 ∷ []) ≡ cleanup_old_items 2 (9 ∷ 8 ∷ 7 ∷ [])
run_cleanup-cleanup_old_items_example =
    run_cleanup-cleanup_old_items table 7 (λ w. w)
      (record {
        count_law = λ w. refl;
        count_keeps = λ w. refl;
        cutoff_law = λ offset w. refl;
        cutoff_keeps = λ offset w. refl;
        delete_law = λ at w. refl;
      })
      2 (9 ∷ 8 ∷ 7 ∷ [])

-- One result is popped and its handler runs, while the loop waits for the next.
abbrev one_running : Listener
one_running = record { phase = popping; tokens = 2; handling = 1; popped = 1; handled = 0 }

to_one_running : Turns max_handlers listening one_running
to_one_running =
    then_turn
      (then_turn (then_turn still (acquires listening refl (omega arith)))
        (pops (record listening { phase = popping; tokens = 1 }) refl))
      (acquires (record listening { tokens = 1; handling = 1; popped = 1 }) refl (omega arith))

Turns-Balanced_example : Balanced max_handlers one_running
Turns-Balanced_example = Turns-Balanced to_one_running

-- ===== src/Crawler/WorkTests.antt =====
-- The work of a crawler at concrete inputs: the proxy, a task, a visit, the browser, the cookies.
use goods_hunter.Base.{◌*◌}
use goods_hunter.Crawler.Cookies.{
  Cookie, Jar, second, cookie_max_age, new_cookie_manager, load_cookies, load_stored, save_cookies,
  save_usable, usable, saves, used, used_all,
}
use goods_hunter.Crawler.Aged.{load_cookies_age}
use goods_hunter.Base.{length}
use goods_hunter.RedisQueue.Types.{Item}
use goods_hunter.Crawler.Visit.{
  Visit, Creation, page_made, creation_timed_out, waits, allowed, applied, items_there, got,
  rate_wait, crawl_once,
}
use goods_hunter.Crawler.Visited.{tally, is_opened, is_closed, is_started, is_ended, items_of}
use goods_hunter.Crawler.Tidy.{crawl_once_tidy, crawl_once_late}
use goods_hunter.Crawler.Drain.{
  Drain, Steps, done, more, locks, ends, sees, locked, waiting, starting, swapped, browser_started,
  sees_draining, closes_drain, drain_seen,
}
use goods_hunter.Crawler.Drained.{Kept, Steps-Kept}
use goods_hunter.Crawler.Stale.{track_page_end-early}
use goods_hunter.Crawler.Emptied.{During, begins, goes_on}
use goods_hunter.Crawler.Exchange.{During-pages, swap_browser-closed}
use goods_hunter.Base.{suc, ◌≡◌, ◌≤◌, refl, true, false, [], ◌∷◌, none, arith}
use goods_hunter.Base.Int.{pos}
use goods_hunter.Base.Text.{Text, str, is_empty, text_eq}
use goods_hunter.Crawler.Failure.{Failure}
use goods_hunter.RedisQueue.Types.{FetchRequest}
use goods_hunter.Base.{ℕ, ◌+◌, Bool, some, if◌then◌else◌, Bool-cases, inl, inr}
use goods_hunter.Crawler.Proxy.{
  Env, Settings, Node, ensure_browser_state, get_proxy_state, rotated, cache_state, cached_until,
  exists_answered,
}
use goods_hunter.Crawler.Crawl.{Outcome, crawled, failed, do_crawl}
use goods_hunter.Crawler.Recovery.{ensure_browser_state_recovers}
use goods_hunter.Crawler.Attempts.{do_crawl_ends}
use goods_hunter.Crawler.Worker.{returned, response_of, finish_task}
use goods_hunter.Crawler.Finished.{reported, finish_task_outcome}
use goods_hunter.Redis.{put, task_processing_queue, task_pending_set}
use goods_hunter.RedisQueue.Client.{find_entry}
use goods_hunter.RedisQueue.View.{view, acked}
use goods_hunter.RedisQueue.Outcomes.{online}
use goods_hunter.RedisQueue.Stand.{
  Server, server, empty_server, plain, plain_result, plain_codec, marshal_plain_result,
  marshal-plain_result,
}

-- A world that is a clock: the proxy is wanted, and its browser does not start.
abbrev no_start : Failure
no_start = record { context_done = false; message = str "launch failed" }

abbrev env : Env ℕ
env = record {
  clock = λ w. (w, w);
  exists_cooldown = λ w. (some true, w);
  set_cooldown_key = λ d w. (true, w);
  del_cooldown_key = λ w. (true, w);
  incr_failures = λ w. (some 12, w);
  expire_failures = λ w. (true, w);
  del_failures = λ w. (true, w);
  get_failures = λ w. (some 12, w);
  start_browser = λ p w. (if p then some no_start else none, w + 1);
  probe = λ w. (some (some (str "ok"), str "origin"), w);
  health_done = λ w. (false, w);
  backoff = λ d w. (false, w + d);
  task_done = λ w. (false, w);
}

abbrev settings : Settings
settings = record {
  has_redis = true;
  proxy_url = str "http://p";
  proxy_cooldown = 600;
  proxy_auto_switch = true;
  proxy_failure_threshold = 10;
  max_tasks = 2;
}

abbrev node : Node ℕ
node = record {
  world = 50;
  current_is_proxy = false;
  proxy_cache = false;
  proxy_cache_until = 0;
  force_proxy_once = false;
  crawls = 0;
}

ensure_browser_state_recovers_example :
    let after = (ensure_browser_state env settings node).1 in
    (after.current_is_proxy ≡ false)
    × ((ensure_browser_state env settings after).0 ≡ none)
    × ((ensure_browser_state env settings after).1.current_is_proxy ≡ false)
    × ((ensure_browser_state env settings after).1.world ≡ (env.clock after.world).1)
unfolding ensure_browser_state get_proxy_state rotated cache_state cached_until exists_answered
ensure_browser_state_recovers_example =
    ensure_browser_state_recovers env settings node no_start refl refl (omega arith)

-- crawlOnce finds the site blocked in direct mode.
abbrev crawl_blocked : FetchRequest → Bool → ℕ → Outcome × ℕ
crawl_blocked req p w = (
  if p
      then crawled (plain_result req.task_id)
      else failed (record { context_done = false; message = str "403_forbidden" }),
  w + 1,
)

do_crawl_ends_example :
    (r : Outcome × Node ℕ) × (do_crawl env settings crawl_blocked (plain (str "7")) 2 0 node
      ≡ some r)
    × (r.1.crawls ≤ 2)
do_crawl_ends_example =
    do_crawl_ends env settings crawl_blocked (plain (str "7")) 2 node (omega arith)

-- Task 7 is being processed.
abbrev working : Server
working = record empty_server {
  lists = put task_processing_queue (str "7" ∷ []) empty_server.lists;
  sets = put task_pending_set (text_eq (str "7")) empty_server.sets;
}

response-plain :
    (id : Text)
    → marshal_plain_result (response_of id (returned (crawled (plain_result id)))) ≡ some id
unfolding response_of
response-plain id = elim (Bool-cases (is_empty id)) [
  | inl blank ↦ rw blank (marshal-plain_result id)
  | inr named ↦ rw named (marshal-plain_result id)
]

finish_task_outcome_example :
    view server
      (finish_task plain_codec
        (some server)
        (plain (str "7"))
        (returned (crawled (plain_result (str "7"))))
        (online working 0)).1.db
    ≡ acked
        (find_entry plain_codec (str "7") (view server working).processing)
        (str "7")
        (reported (str "7") (view server working))
unfolding is_empty
finish_task_outcome_example =
    finish_task_outcome plain_codec server (plain (str "7"))
      (returned (crawled (plain_result (str "7")))) (str "7") working 0 refl
      (response-plain (str "7"))

Steps-Kept_example : Kept (record browser_started { rotation = locked })
Steps-Kept_example = Steps-Kept (more done (locks refl refl))

-- A rotation drains while a page is in use, which ends.
abbrev drained_page : Drain
drained_page = record browser_started {
  draining = true;
  signal = some false;
  active_pages = 1;
  pages = 0 ∷ [];
  rotation = waiting;
}

abbrev page_ended : Drain
page_ended = record drained_page { signal = some true; active_pages = 0; pages = [] }

page_over : During drained_page (record page_ended { rotation = starting false })
unfolding drain_seen
page_over =
    goes_on
      (goes_on
        (goes_on (goes_on {t = drained_page} begins refl (ends [] 0 [] refl refl)) refl
          (sees_draining [] 0 [] refl refl))
        refl (closes_drain 0 refl refl))
      refl (sees refl refl refl)

During-pages_example : page_ended.pages ≡ []
During-pages_example =
    During-pages (record { counted = refl; flagged = refl; signalled = refl }) refl refl refl refl
      refl refl page_over refl

swap_browser-closed_example :
    (m : Drain) × (u : Drain) × Steps browser_started m
    × Steps m u
    × (m.rotation ≡ swapped false)
    × (u.pages ≡ 0 ∷ [])
    × (u.closed ≡ 0 ∷ [])
swap_browser-closed_example = swap_browser-closed browser_started 0 refl refl refl refl

track_page_end-early_example :
    (u : Drain) × Steps browser_started u
    × (u.rotation ≡ swapped false)
    × (u.pages ≡ 0 ∷ [])
    × (u.retired ≡ 0 ∷ [])
    × (u.checked ≡ 0)
    × (u.holding ≡ [])
track_page_end-early_example = track_page_end-early browser_started 0 refl refl refl refl

-- A page comes, with two items and an element without one; a scroll brings no more.
abbrev camera : Item
camera = record {
  source_id = str "m1";
  title = str "camera";
  price = pos 900;
  image_url = [];
  item_url = [];
  status = [];
}

abbrev visit : Creation → Visit
visit creation = record {
  pace = waits allowed;
  is_using_proxy = false;
  jitter = none;
  admitted = true;
  creation = creation;
  script = applied;
  navigation = none;
  title = some (str "search");
  dom_block = [];
  race = items_there;
  no_items_text = false;
  info = none;
  text = [];
  body_text = [];
  rounds = (some 2, false, some 3) ∷ (some 3, false, none) ∷ [];
  elements = got (some camera ∷ none ∷ some camera ∷ []);
}

crawl_once_tidy_example :
    let r = crawl_once (pos 1) (visit page_made) in
    (tally is_opened r.1 ≡ tally is_closed r.1)
    × (tally is_started r.1 ≡ tally is_ended r.1)
    × (length (items_of r.0) ≤ 1)
crawl_once_tidy_example = crawl_once_tidy (pos 1) (visit page_made) refl

crawl_once_late_example :
    let r = crawl_once (pos 1) (visit (creation_timed_out true)) in
    tally is_opened r.1 ≡ suc (tally is_closed r.1)
unfolding rate_wait
crawl_once_late_example =
    crawl_once_late (pos 1) (visit (creation_timed_out true)) refl refl refl refl

-- A page with a cookie of the site and one of another, an hour ago.
abbrev shop_cookie : Cookie
shop_cookie = record { name = str "cf"; value = str "1"; domain = str ".mercari.com"; expires = 0 }

abbrev jar_at : ℕ → Jar
jar_at now = record {
  has_redis = true;
  now = now;
  page_cookies = some (shop_cookie ∷ record shop_cookie { domain = str "ads.jp" } ∷ []);
  marshals = true;
  set_ok = true;
  refreshes = false;
  stored = some (some (some (shop_cookie ∷ [])));
}

load_cookies_age_example :
    let r =
      load_cookies
        (jar_at (4000 * second))
        (used_all (saves (jar_at (400 * second)) ∷ []) new_cookie_manager) in
    (at : ℕ) × (r.1.created_at ≡ some at) × (4000 * second ≤ at + cookie_max_age)
unfolding used_all used save_cookies save_usable usable load_cookies load_stored text_eq
load_cookies_age_example =
    load_cookies_age (saves (jar_at (400 * second)) ∷ []) (jar_at (4000 * second)) (λ e. cc)

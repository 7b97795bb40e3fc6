-- ===== src/Crawler/Visit.antt =====
-- internal/crawler/crawl.go: crawlOnce, over what the calls of one visit answer.
use goods_hunter.Base.{
  ℕ, zero, suc, ltb, leb, Bool, false, not, ◌&&◌, ◌||◌, List, [], ◌∷◌, ◌++◌, Option, none, some,
  if◌then◌else◌,
}
use goods_hunter.Base.Int.{ℤ, pos, negsuc}
use goods_hunter.Base.Text.{Text, str, text_eq, is_empty}
use goods_hunter.RedisQueue.Types.{Item}
use goods_hunter.Crawler.Failure.{Failure}
use goods_hunter.Crawler.Crawl.{Outcome, crawled, failed, wrap}
use goods_hunter.Crawler.BlockType.{
  BlockType, cloudflare_challenge, captcha, forbidden_403, rate_limited_429, mercari_error_page,
  blank_page, empty_title, connection_error, suspicious_minimal_page, unknown, detect_block_type,
  is_blocked_page,
}
use goods_hunter.Crawler.Throttler.{Throttler, record_block, exit_cooldown}

-- The calls of the rate limiter: refusals, each with a wait, and the last.
pub data Pace : Type 0 where
  waits : Pace → Pace
  allowed degraded max_wait_over : Pace
  cancelled : Failure → Pace

-- A page's creation; after a timeout or the task's end the page may come late.
pub data Creation : Type 0 where
  page_made : Creation
  creation_failed : Failure → Creation
  creation_timed_out : Bool → Creation
  creation_cancelled : Failure → Bool → Creation

pub data Script : Type 0 where
  applied : Script
  script_failed : Failure → Script
  script_timed_out : Script
  script_cancelled : Failure → Script

pub data Race : Type 0 where
  items_there no_items_state challenge_page : Race
  race_failed : Failure → Race

-- The items that extractItem makes of the elements, none for an error.
pub data Elements : Type 0 where
  got : List (Option Item) → Elements
  get_failed get_timed_out : Failure → Elements

-- What the calls answer. The failures of the navigation and of the race have their prefix.
-- `title` is what page.Info tells crawlOnce, and `info` and `text` what isBlockedPage reads.
pub record Visit : Type 0 where
  pub pace : Pace
  pub is_using_proxy : Bool
  pub jitter : Option Failure
  pub admitted : Bool
  pub creation : Creation
  pub script : Script
  pub navigation : Option Failure
  pub title : Option Text
  pub dom_block : Text
  pub race : Race
  pub no_items_text : Bool
  pub info : Option (Text × Text)
  pub text : Text
  pub body_text : Text
  -- Each round: the items before and after the scroll, none for an error, and the timeout between.
  pub rounds : List (Option ℕ × Bool × Option ℕ)
  pub elements : Elements

-- What the visit does outside, the first first.
pub data Mark : Type 0 where
  page_started page_ended page_opened page_closed cookies_cleared : Mark
  block_recorded : Text → Mark
  scrolled cookies_saved success_recorded : Mark

unfoldable pub rate_wait : Pace → Option Failure
rate_wait (waits p) = rate_wait p
rate_wait allowed = none
rate_wait degraded = none
rate_wait max_wait_over = none
rate_wait (cancelled e) = some (wrap (str "rate limit wait timeout: ") e)

abbrev pub failure : Text → Failure
failure m = record { context_done = false; message = m }

abbrev pub blocked_as : Text → Outcome
blocked_as t = failed (failure (str "blocked_page: " ++ t))

abbrev pub response : List Item → Text → Outcome
response items e = crawled (record { items = items; error_message = e; task_id = [] })

abbrev pub fetch_limit : ℤ → ℕ
fetch_limit (pos zero) = 50
fetch_limit (pos (suc n)) = suc n
fetch_limit (negsuc n) = 50

-- The scrolls; `stuck` rounds have brought no more items.
unfoldable pub scroll : ℕ → ℕ → List (Option ℕ × Bool × Option ℕ) → List Mark
scroll limit stuck [] = []
scroll limit stuck ((none, late, after) ∷ rest) = []
scroll limit stuck ((some n, late, none) ∷ rest) = if leb limit n then [] else scrolled ∷ []
scroll limit stuck ((some n, late, some m) ∷ rest) =
    let again = scroll limit (suc stuck) rest in
    let fresh = scroll limit 0 rest in
    if leb limit n
    then []
    else if late
    then scrolled ∷ []
    else if leb m n
    then (if leb 3 (suc stuck) && ltb 0 n then scrolled ∷ [] else scrolled ∷ again)
    else scrolled ∷ fresh

-- The items of the elements, up to the limit; an element without an item is skipped.
unfoldable pub extract : ℕ → List (Option Item) → List Item
extract zero es = []
extract (suc left) [] = []
extract (suc left) (none ∷ es) = extract (suc left) es
extract (suc left) (some item ∷ es) = item ∷ extract left es

-- What detectBlockType returns.
abbrev pub block_label : BlockType → Text
block_label cloudflare_challenge = str "cloudflare_challenge"
block_label captcha = str "captcha"
block_label forbidden_403 = str "403_forbidden"
block_label rate_limited_429 = str "429_rate_limited"
block_label mercari_error_page = str "mercari_error_page"
block_label blank_page = str "blank_page"
block_label empty_title = str "empty_title"
block_label connection_error = str "connection_error"
block_label suspicious_minimal_page = str "suspicious_minimal_page"
block_label unknown = str "unknown"

abbrev pub awake : Throttler × Option ℕ → Throttler
awake (t, none) = t
awake (t, some slept) = exit_cooldown t

abbrev pub block_marks : Text → List Mark
block_marks block_type =
    if text_eq block_type (str "403_forbidden")
    then cookies_cleared ∷ block_recorded block_type ∷ []
    else block_recorded block_type ∷ []

-- handleBlockEvent, once a sleep is over: its marks, and the throttler.
unfoldable pub handle_block_event : Option ℤ → ℕ → Text → Throttler → List Mark × Throttler
handle_block_event redis jitter block_type t =
    (block_marks block_type, awake (record_block redis jitter t))

abbrev pub saved : List Item → List Mark
saved [] = success_recorded ∷ []
saved (_ ∷ _) = cookies_saved ∷ success_recorded ∷ []

unfoldable pub get_items : ℕ → List Mark → Elements → Outcome × List Mark
unfolding extract
get_items limit scrolls (got []) = (response [] [], scrolls)
get_items limit scrolls (got (e ∷ es)) =
    let items = extract limit (e ∷ es) in (response items [], scrolls ++ saved items)
get_items limit scrolls (get_failed e) = (failed (wrap (str "get elements: ") e), scrolls)
get_items limit scrolls (get_timed_out e) =
    (failed (wrap (str "get elements timeout: ") e), scrolls)

abbrev pub late_type : Option Text → Text → BlockType
late_type none body = unknown
late_type (some title) body = detect_block_type title body

unfoldable pub raced : ℤ → Visit → Race → Outcome × List Mark
unfolding get_items scroll
raced max_fetch_count v items_there =
    let limit = fetch_limit max_fetch_count in get_items limit (scroll limit 0 v.rounds) v.elements
raced max_fetch_count v no_items_state = (response [] (str "no_items"), [])
raced max_fetch_count v challenge_page =
    if v.no_items_text
    then (response [] (str "no_items"), [])
    else (blocked_as (str "challenge"), [])
raced max_fetch_count v (race_failed e) =
    let block_type = block_label (late_type v.title v.body_text) in
    if v.no_items_text
    then (response [] (str "no_items"), [])
    else if is_blocked_page v.info v.text
    then (blocked_as block_type, block_marks block_type)
    else (failed (wrap (str "wait for items: ") e), [])

unfoldable pub inspected : ℤ → Visit → Outcome × List Mark
unfolding raced
inspected max_fetch_count v =
    if is_empty v.dom_block
    then raced max_fetch_count v v.race
    else (blocked_as v.dom_block, block_marks v.dom_block)

unfoldable pub titled : ℤ → Visit → Option Text → Outcome × List Mark
unfolding inspected
titled max_fetch_count v none = inspected max_fetch_count v
titled max_fetch_count v (some title) =
    let block_type = block_label (detect_block_type title []) in
    if text_eq title (str "about:blank") || is_empty title
    then (blocked_as block_type, block_marks block_type)
    else inspected max_fetch_count v

unfoldable pub navigated : ℤ → Visit → Option Failure → Outcome × List Mark
unfolding titled
navigated max_fetch_count v none = titled max_fetch_count v v.title
navigated max_fetch_count v (some e) = (failed e, [])

-- The page is closed at the end, on every way.
unfoldable pub with_page : ℤ → Visit → Script → Outcome × List Mark
unfolding navigated
with_page max_fetch_count v applied =
    let r = navigated max_fetch_count v v.navigation in (r.0, r.1 ++ (page_closed ∷ []))
with_page max_fetch_count v (script_failed e) =
    (failed (wrap (str "apply stealth script: ") e), page_closed ∷ [])
with_page max_fetch_count v script_timed_out =
    (failed (failure (str "apply stealth script timeout after 5s")), page_closed ∷ [])
with_page max_fetch_count v (script_cancelled e) =
    (failed (wrap (str "context cancelled during stealth script: ") e), page_closed ∷ [])

-- The channel pageResultCh, when nobody receives from it any more: a send has room, or its select
-- takes the default branch, which closes the page.
pub record ResultChannel : Type 0 where
  pub capacity : ℕ
  pub buffered : ℕ

abbrev pub page_result_ch : ResultChannel
page_result_ch = record { capacity = 1; buffered = 0 }

unfoldable pub try_send : ResultChannel → Option ResultChannel
try_send ch =
    if ltb ch.buffered ch.capacity then some (record ch { buffered = suc ch.buffered }) else none

abbrev pub cleaned_up : Option ResultChannel → List Mark
cleaned_up (some ch) = []
cleaned_up none = page_closed ∷ []

-- The creation that ends after the wait for it: its page is opened, and its result sent.
unfoldable pub late_page : Bool → List Mark
unfolding try_send
late_page late = if late then page_opened ∷ cleaned_up (try_send page_result_ch) else []

unfoldable pub with_browser : ℤ → Visit → Creation → Outcome × List Mark
unfolding with_page late_page
with_browser max_fetch_count v page_made =
    let r = with_page max_fetch_count v v.script in (r.0, page_opened ∷ r.1)
with_browser max_fetch_count v (creation_failed e) =
    (failed (wrap (str "create page failed: ") e), [])
with_browser max_fetch_count v (creation_timed_out late) =
    (failed (failure (str "create page timeout after 10s")), late_page late)
with_browser max_fetch_count v (creation_cancelled e late) =
    (failed (wrap (str "context cancelled during page creation: ") e), late_page late)

unfoldable pub tracked : ℤ → Visit → Outcome × List Mark
unfolding with_browser
tracked max_fetch_count v =
    let r = with_browser max_fetch_count v v.creation in
    if not v.admitted
    then (failed (failure (str "browser draining, task needs retry")), [])
    else (r.0, page_started ∷ r.1 ++ (page_ended ∷ []))

unfoldable pub delayed : ℤ → Visit → Option Failure → Outcome × List Mark
unfolding tracked
delayed max_fetch_count v none = tracked max_fetch_count v
delayed max_fetch_count v (some e) =
    let go_on = tracked max_fetch_count v in
    if v.is_using_proxy
    then go_on
    else (failed (wrap (str "context cancelled during jitter: ") e), [])

unfoldable pub paced : ℤ → Visit → Option Failure → Outcome × List Mark
unfolding delayed
paced max_fetch_count v none = delayed max_fetch_count v v.jitter
paced max_fetch_count v (some e) = (failed e, [])

unfoldable pub crawl_once : ℤ → Visit → Outcome × List Mark
unfolding paced rate_wait
crawl_once max_fetch_count v = paced max_fetch_count v (rate_wait v.pace)

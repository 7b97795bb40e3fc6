-- ===== src/Crawler/Proxy.antt =====
-- internal/crawler/proxy.go: whether the crawler goes through the proxy, and the failures in a row.
use goods_hunter.Base.{
  ℕ, zero, suc, ◌+◌, ◌-◌, ◌^◌, ◌==◌, ltb, Bool, true, false, not, ◌&&◌, ◌||◌, Option, none, some,
  if◌then◌else◌,
}
use goods_hunter.Base.Text.{Text, str, text_eq, is_empty, contains}
use goods_hunter.Crawler.Failure.{Failure}

-- What the service reaches outside, on a world `W`: Redis, the clock, the browser's start, and the
-- contexts. A command that fails gives none, or false.
pub record Env (W : Type 0) : Type 0 where
  pub clock : W → ℕ × W
  pub exists_cooldown : W → Option Bool × W
  pub set_cooldown_key : ℕ → W → Bool × W
  pub del_cooldown_key : W → Bool × W
  pub incr_failures : W → Option ℕ × W
  pub expire_failures : W → Bool × W
  pub del_failures : W → Bool × W
  pub get_failures : W → Option ℕ × W
  -- startBrowser, through the proxy or not: none when it runs.
  pub start_browser : Bool → W → Option Failure × W
  -- The test browser at the test address: title, if the page tells it, and text; none when the
  -- browser, the page or the load fails.
  pub probe : W → Option (Option Text × Text) × W
  -- The context of the health check has ended; a wait of that many seconds is cut short by it.
  pub health_done : W → Bool × W
  pub backoff : ℕ → W → Bool × W
  -- The task's context has ended.
  pub task_done : W → Bool × W

pub record Settings : Type 0 where
  pub has_redis : Bool
  pub proxy_url : Text
  pub proxy_cooldown : ℕ
  pub proxy_auto_switch : Bool
  pub proxy_failure_threshold : ℕ
  pub max_tasks : ℕ

abbrev pub proxy_cache_ttl : ℕ
proxy_cache_ttl = 5

-- The fields of Service that change here, the world, and the calls of crawlOnce so far.
pub record Node (W : Type 0) : Type 0 where
  pub world : W
  pub current_is_proxy : Bool
  pub proxy_cache : Bool
  pub proxy_cache_until : ℕ
  pub force_proxy_once : Bool
  pub crawls : ℕ

abbrev pub bool_eq : Bool → Bool → Bool
bool_eq true b = b
bool_eq false b = not b

abbrev pub at_world : {W : Type 0} → Node W → W → Node W
at_world n w = record n { world = w }

unfoldable pub cached_until : {W : Type 0} → Bool → ℕ → Node W → W → Node W
cached_until state until n w = record n {
  world = w;
  proxy_cache = state;
  proxy_cache_until = until;
}

-- The local cache holds `state` for the time to live from now.
unfoldable pub cache_state : {W : Type 0} → Env W → Bool → Node W → W → Node W
unfolding cached_until
cache_state env state n w =
    let read = env.clock w in cached_until state (read.0 + proxy_cache_ttl) n read.1

unfoldable pub exists_answered : {W : Type 0} → ℕ → Node W → Option Bool × W → Bool × Node W
unfolding cached_until
exists_answered now n (none, w) = (n.proxy_cache, at_world n w)
exists_answered now n (some state, w) = (state, cached_until state (now + proxy_cache_ttl) n w)

unfoldable pub get_proxy_state : {W : Type 0} → Env W → Settings → Node W → Bool × Node W
unfolding exists_answered
get_proxy_state env c n =
    let read = env.clock n.world in
    let now = read.0 in
    if ltb now n.proxy_cache_until
    then (n.proxy_cache, at_world n read.1)
    else if not c.has_redis
    then (false, at_world n read.1)
    else exists_answered now n (env.exists_cooldown read.1)

-- Whether there was no error; a failed SET changes the cache alone.
unfoldable pub set_proxy_cooldown : {W : Type 0} → Env W → Settings → ℕ → Node W → Bool × Node W
unfolding cache_state
set_proxy_cooldown env c duration n =
    let seconds = if duration == 0 then c.proxy_cooldown else duration in
    if not c.has_redis
    then (false, n)
    else (true, cache_state env true n (env.set_cooldown_key seconds n.world).1)

unfoldable pub clear_proxy_cooldown : {W : Type 0} → Env W → Settings → Node W → Bool × Node W
unfolding cache_state
clear_proxy_cooldown env c n =
    if not c.has_redis
    then (false, n)
    else (true, cache_state env false n (env.del_cooldown_key n.world).1)

unfoldable pub rotated :
    {W : Type 0} → Env W → Bool → Node W → Option Failure × W → Option Failure × Node W
unfolding cache_state
rotated env use_proxy n (none, w) = (none, record n { world = w; current_is_proxy = use_proxy })
rotated env use_proxy n (some e, w) =
    (some e, if use_proxy then cache_state env false n w else at_world n w)

-- The error, if there is one. With one goroutine the second test, under the lock, is the first.
unfoldable pub ensure_browser_state :
    {W : Type 0} → Env W → Settings → Node W → Option Failure × Node W
unfolding rotated
ensure_browser_state env c n =
    let asked = get_proxy_state env c n in
    if bool_eq asked.0 asked.1.current_is_proxy
    then (none, asked.1)
    else rotated env asked.0 asked.1 (env.start_browser asked.0 asked.1.world)

loads : Option (Option Text × Text) → Bool
loads none = false
loads (some (none, body)) = false
loads (some (some title, body)) =
    (not (is_empty title)
      && not (text_eq title (str "about:blank"))
      && contains body (str "origin"))
    || not (text_eq title (str "about:blank"))

unfoldable pub check_proxy_health : {W : Type 0} → Env W → Settings → W → Bool × W
unfolding loads
check_proxy_health env c w =
    if is_empty c.proxy_url then (false, w) else (loads (env.probe w).0, (env.probe w).1)

-- `left` tries are left of `max_retries`.
unfoldable pub check_proxy_health_with_retry :
    {W : Type 0} → Env W → Settings → ℕ → ℕ → W → Bool × W
check_proxy_health_with_retry env c max_retries zero w = (false, w)
check_proxy_health_with_retry env c max_retries (suc left) w =
    let done = env.health_done w in
    let checked = check_proxy_health env c done.1 in
    let waited = env.backoff (2 ^ (max_retries - suc left)) checked.1 in
    let next = if left == 0 then checked.1 else waited.1 in
    let rest = check_proxy_health_with_retry env c max_retries left next in
    if done.0
    then (false, done.1)
    else if checked.0
    then (true, checked.1)
    else if not (left == 0) && waited.0
    then (false, waited.1)
    else rest

incremented : {W : Type 0} → Env W → Option ℕ × W → ℕ × W
incremented env (none, w) = (0, w)
incremented env (some count, w) = (count, (env.expire_failures w).1)

unfoldable pub incr_consecutive_failures : {W : Type 0} → Env W → Settings → W → ℕ × W
unfolding incremented
incr_consecutive_failures env c w =
    if not c.has_redis then (0, w) else incremented env (env.incr_failures w)

unfoldable pub reset_consecutive_failures : {W : Type 0} → Env W → Settings → W → W
reset_consecutive_failures env c w = if not c.has_redis then w else (env.del_failures w).1

abbrev failures_or_zero : Option ℕ → ℕ
failures_or_zero none = 0
failures_or_zero (some n) = n

unfoldable pub get_consecutive_failures : {W : Type 0} → Env W → Settings → W → ℕ × W
get_consecutive_failures env c w =
    if not c.has_redis
    then (0, w)
    else (failures_or_zero (env.get_failures w).0, (env.get_failures w).1)

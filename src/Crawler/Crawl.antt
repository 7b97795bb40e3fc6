-- ===== src/Crawler/Crawl.antt =====
-- internal/crawler/crawl.go: FetchItems and doCrawl, with crawlOnce as an argument, so that what is
-- shown holds for any outcome of it.
use goods_hunter.Base.{
  ℕ, zero, suc, ltb, Bool, true, false, not, ◌&&◌, ◌++◌, Option, none, some, if◌then◌else◌,
}
use goods_hunter.Base.Text.{Text, str}
use goods_hunter.RedisQueue.Types.{FetchRequest, FetchResponse}
use goods_hunter.Crawler.Failure.{Failure, should_activate_proxy}
use goods_hunter.Crawler.Proxy.{
  Env, Settings, Node, at_world, ensure_browser_state, set_proxy_cooldown,
  check_proxy_health_with_retry, incr_consecutive_failures, reset_consecutive_failures,
}

-- `attempt == 0`.
abbrev pub is_first : ℕ → Bool
is_first zero = true
is_first (suc _) = false

pub data Outcome : Type 0 where
  crawled : FetchResponse → Outcome
  failed : Failure → Outcome

-- fmt.Errorf with "%w" at the end.
abbrev pub wrap : Text → Failure → Failure
wrap prefix e = record { context_done = e.context_done; message = prefix ++ e.message }

abbrev pub no_redis : Failure
no_redis = record { context_done = false; message = str "redis client is not initialized" }

abbrev pub Crawl : Type 0 → Type 0
Crawl W = FetchRequest → Bool → W → Outcome × W

module _ {W : Type 0} (env : Env W) (c : Settings) (crawl_once : Crawl W) (req : FetchRequest) where
  unfoldable pub once : Node W → Outcome × Node W
  once n =
      let result = crawl_once req n.current_is_proxy n.world in
      (result.0, record n { world = result.1; crawls = suc n.crawls })

  -- The proxy is healthy: the task's context decides between a retry and the error.
  unfoldable pub activated :
      (Node W → Option (Outcome × Node W)) → Failure → Node W → Option (Outcome × Node W)
  activated again e n =
      let n1 = at_world n (reset_consecutive_failures env c n.world) in
      let n2 = (set_proxy_cooldown env c c.proxy_cooldown n1).1 in
      let done = env.task_done n2.world in
      let n3 = at_world n2 done.1 in
      let retried = again n3 in
      if done.0
      then some (failed (wrap (str "proxy activated, task needs retry: ") e), n3)
      else retried

  unfoldable pub crawl_failed :
      (Node W → Option (Outcome × Node W)) → ℕ → Failure → Node W → Option (Outcome × Node W)
  unfolding activated
  crawl_failed again attempt e n =
      let counted = incr_consecutive_failures env c n.world in
      let n1 = at_world n counted.1 in
      let checked = check_proxy_health_with_retry env c 2 2 counted.1 in
      let n2 = at_world n checked.1 in
      let retried = activated again e n2 in
      if c.proxy_auto_switch
        && is_first attempt
        && not n.current_is_proxy
        && should_activate_proxy (some e)
      then (if ltb counted.0 c.proxy_failure_threshold
          then some (failed e, n1)
          else if not checked.0
          then some (failed (wrap (str "direct failed and proxy unhealthy: ") e), n2)
          else retried)
      else some (failed e, n1)

  unfoldable pub crawl_ended :
      (Node W → Option (Outcome × Node W)) → ℕ → Outcome × Node W → Option (Outcome × Node W)
  unfolding crawl_failed
  crawl_ended again attempt (crawled r, n) =
      some (crawled r, at_world n (reset_consecutive_failures env c n.world))
  crawl_ended again attempt (failed e, n) = crawl_failed again attempt e n

  unfoldable pub cooldown_forced :
      (Node W → Option (Outcome × Node W)) → Bool × Node W → Option (Outcome × Node W)
  cooldown_forced again (false, n) = some (failed no_redis, n)
  cooldown_forced again (true, n) = again n

  unfoldable pub ensured :
      (Node W → Option (Outcome × Node W)) → ℕ → Option Failure × Node W → Option (Outcome × Node W)
  unfolding crawl_ended cooldown_forced once
  ensured again attempt (some e, n) = some (failed (wrap (str "ensure browser state: ") e), n)
  ensured again attempt (none, n) =
      if is_first attempt && not n.current_is_proxy && n.force_proxy_once
      then cooldown_forced again
          (set_proxy_cooldown env c c.proxy_cooldown (record n { force_proxy_once = false }))
      else crawl_ended again attempt (once n)

  -- none when the fuel runs out first.
  unfoldable pub do_crawl : ℕ → ℕ → Node W → Option (Outcome × Node W)
  unfolding ensured
  do_crawl zero attempt n = none
  do_crawl (suc fuel) attempt n =
      ensured (do_crawl fuel (suc attempt)) attempt (ensure_browser_state env c n)

-- ===== src/Crawler/Attempts.antt =====
-- doCrawl ends, and calls crawlOnce at most twice for a task.
use goods_hunter.Base.{
  ℕ, zero, suc, ◌+◌, ◌≤◌, ltb, ◌≡◌, refl, ◌∙◌, Bool, true, false, not, ◌&&◌, Option, none, some,
  if◌then◌else◌, arith, Bool-cases, inl, inr,
}
use goods_hunter.RedisQueue.Types.{FetchRequest}
use goods_hunter.Crawler.Failure.{Failure, should_activate_proxy}
use goods_hunter.Crawler.Proxy.{
  Env, Settings, Node, at_world, reset_consecutive_failures, ensure_browser_state, get_proxy_state,
  set_proxy_cooldown, check_proxy_health_with_retry, incr_consecutive_failures, rotated,
  exists_answered, cached_until, cache_state, bool_eq,
}
use goods_hunter.Crawler.Crawl.{
  is_first, Outcome, crawled, failed, Crawl, do_crawl, ensured, crawl_ended, crawl_failed,
  activated, cooldown_forced, once,
}

-- crawlOnce has been called at most `m` times so far.
abbrev Ends : {W : Type 0} → ℕ → Option (Outcome × Node W) → Type 0
Ends {W} m o = (r : Outcome × Node W) × (o ≡ some r) × (r.1.crawls ≤ m)

if_both {ℓ} :
    {A : Type 0} (P : A → Type ℓ) (b : Bool) (x y : A) → P x → P y → P (if b then x else y)
if_both P true x y hx hy = hx
if_both P false x y hx hy = hy

never_later : (b x y : Bool) → (b && false && x && y) ≡ false
never_later true x y = refl
never_later false x y = refl

module _ {W : Type 0} (env : Env W) (c : Settings) where
  -- The same number of calls of crawlOnce.
  abbrev Same : ℕ → Node W → Type 0
  Same m n = n.crawls ≡ m

  exists_answered-crawls :
      (now : ℕ) (n : Node W) (reply : Option Bool × W)
      → (exists_answered now n reply).1.crawls ≡ n.crawls
  unfolding exists_answered cached_until
  exists_answered-crawls now n (none, w) = refl
  exists_answered-crawls now n (some state, w) = refl

  get_proxy_state-crawls : (n : Node W) → (get_proxy_state env c n).1.crawls ≡ n.crawls
  unfolding get_proxy_state
  get_proxy_state-crawls n =
      let now = (env.clock n.world).0 in
      let w = (env.clock n.world).1 in
      if_both (λ (r : Bool × Node W). Same n.crawls r.1) (ltb now n.proxy_cache_until) _ _ refl
        (if_both (λ (r : Bool × Node W). Same n.crawls r.1) (not c.has_redis) _ _ refl
          (exists_answered-crawls now n (env.exists_cooldown w)))

  rotated-crawls :
      (use_proxy : Bool) (n : Node W) (reply : Option Failure × W)
      → (rotated env use_proxy n reply).1.crawls ≡ n.crawls
  unfolding rotated cache_state cached_until
  rotated-crawls use_proxy n (none, w) = refl
  rotated-crawls true n (some e, w) = refl
  rotated-crawls false n (some e, w) = refl

  ensure_browser_state-crawls : (n : Node W) → (ensure_browser_state env c n).1.crawls ≡ n.crawls
  unfolding ensure_browser_state
  ensure_browser_state-crawls n =
      let asked = get_proxy_state env c n in
      if_both (λ (r : Option Failure × Node W). Same n.crawls r.1)
        (bool_eq asked.0 asked.1.current_is_proxy) _ _ (get_proxy_state-crawls n)
        (rotated-crawls asked.0 asked.1 (env.start_browser asked.0 asked.1.world)
          ∙ get_proxy_state-crawls n)

  set_proxy_cooldown-crawls :
      (duration : ℕ) (n : Node W) → (set_proxy_cooldown env c duration n).1.crawls ≡ n.crawls
  unfolding set_proxy_cooldown cache_state cached_until
  set_proxy_cooldown-crawls duration n =
      if_both (λ (r : Bool × Node W). Same n.crawls r.1) (not c.has_redis) _ _ refl refl

  module _ (crawl_once : Crawl W) (req : FetchRequest) where
    -- A later attempt makes one call, and none after it.
    crawl_ended-later :
        (again : Node W → Option (Outcome × Node W)) (a m : ℕ) (result : Outcome × Node W)
        → result.1.crawls ≤ m
        → Ends m (crawl_ended env c crawl_once req again (suc a) result)
    unfolding crawl_ended crawl_failed
    crawl_ended-later again a m (crawled r, n) h = (_, refl, h)
    crawl_ended-later again a m (failed e, n) h =
        rw
          (never_later c.proxy_auto_switch (not n.current_is_proxy)
            (should_activate_proxy (some e)))
          ((_, refl, h))

    ensured-later :
        (again : Node W → Option (Outcome × Node W)) (a m : ℕ) (state : Option Failure × Node W)
        → suc state.1.crawls ≤ m
        → Ends m (ensured env c crawl_once req again (suc a) state)
    unfolding ensured once
    ensured-later again a m (some e, n) h = (_, refl, omega arith)
    ensured-later again a m (none, n) h =
        crawl_ended-later again a m (once env c crawl_once req n) h

    do_crawl-later :
        (fuel a m : ℕ) (n : Node W)
        → suc n.crawls ≤ m
        → Ends m (do_crawl env c crawl_once req (suc fuel) (suc a) n)
    unfolding do_crawl
    do_crawl-later fuel a m n h =
        let same = ensure_browser_state-crawls n in
        ensured-later (do_crawl env c crawl_once req fuel (suc (suc a))) a m
          (ensure_browser_state env c n) (omega arith)

    activated-Ends :
        (again : Node W → Option (Outcome × Node W)) (m : ℕ) (e : Failure) (n : Node W)
        → ((k : Node W) → k.crawls ≡ n.crawls → Ends m (again k))
        → n.crawls ≤ m
        → Ends m (activated env c crawl_once req again e n)
    unfolding activated
    activated-Ends again m e n retry h =
        let n1 = at_world n (reset_consecutive_failures env c n.world) in
        let n2 = (set_proxy_cooldown env c c.proxy_cooldown n1).1 in
        let same = set_proxy_cooldown-crawls c.proxy_cooldown n1 in
        elim (Bool-cases (env.task_done n2.world).0) [
          | inl done ↦ rw done ((_, refl, omega arith))
          | inr time ↦ rw time (retry _ same)
        ]

    crawl_ended-Ends :
        (again : Node W → Option (Outcome × Node W)) (attempt m : ℕ) (result : Outcome × Node W)
        → ((k : Node W) → k.crawls ≡ result.1.crawls → Ends m (again k))
        → result.1.crawls ≤ m
        → Ends m (crawl_ended env c crawl_once req again attempt result)
    unfolding crawl_ended crawl_failed
    crawl_ended-Ends again attempt m (crawled r, n) retry h = (_, refl, h)
    crawl_ended-Ends again attempt m (failed e, n) retry h =
        let counted = incr_consecutive_failures env c n.world in
        let checked = check_proxy_health_with_retry env c 2 2 counted.1 in
        elim (Bool-cases (
          c.proxy_auto_switch
          && is_first attempt
          && not n.current_is_proxy
          && should_activate_proxy (some e))) [
            | inr off ↦ rw off ((_, refl, h))
            | inl on ↦ elim (Bool-cases (ltb counted.0 c.proxy_failure_threshold)) [
              | inl few ↦ rw (on, few) ((_, refl, h))
              | inr many ↦ elim (Bool-cases checked.0) [
                | inl healthy ↦ rw (on, many, healthy) (activated-Ends again m e _ retry h)
                | inr ill ↦ rw (on, many, ill) ((_, refl, h))
              ]
            ]
          ]

    cooldown_forced-Ends :
        (again : Node W → Option (Outcome × Node W)) (m : ℕ) (state : Bool × Node W)
        → ((k : Node W) → k.crawls ≡ state.1.crawls → Ends m (again k))
        → state.1.crawls ≤ m
        → Ends m (cooldown_forced env c crawl_once req again state)
    unfolding cooldown_forced
    cooldown_forced-Ends again m (false, n) retry h = (_, refl, h)
    cooldown_forced-Ends again m (true, n) retry h = retry n refl

    ensured-Ends :
        (again : Node W → Option (Outcome × Node W)) (attempt m : ℕ)
        (state : Option Failure × Node W)
        → ((k : Node W) → k.crawls ≤ suc state.1.crawls → Ends m (again k))
        → suc state.1.crawls ≤ m
        → Ends m (ensured env c crawl_once req again attempt state)
    unfolding ensured once
    ensured-Ends again attempt m (some e, n) retry h = (_, refl, omega arith)
    ensured-Ends again attempt m (none, n) retry h =
        let held = record n { force_proxy_once = false } in
        let same = set_proxy_cooldown-crawls c.proxy_cooldown held in
        elim (Bool-cases (is_first attempt && not n.current_is_proxy && n.force_proxy_once)) [
          | inl forced ↦
              rw forced
                (cooldown_forced-Ends again m _ (λ k e. retry k (omega arith)) (omega arith))
          | inr free ↦ rw free (
              crawl_ended-Ends again attempt m (once env c crawl_once req n)
                (λ k e. retry k (omega arith)) h)
        ]

    -- Whatever crawlOnce, Redis and the browser do, doCrawl returns, on any fuel of two or more, and
    -- has called crawlOnce at most twice.
    pub do_crawl_ends :
        (fuel : ℕ) (n : Node W)
        → 2 ≤ fuel
        → (r : Outcome × Node W) × (do_crawl env c crawl_once req fuel 0 n ≡ some r)
          × (r.1.crawls ≤ n.crawls + 2)
    unfolding do_crawl
    do_crawl_ends zero n enough = absurd (omega arith)
    do_crawl_ends (suc zero) n enough = absurd (omega arith)
    do_crawl_ends (suc (suc fuel)) n enough =
        let same = ensure_browser_state-crawls n in
        ensured-Ends (do_crawl env c crawl_once req (suc fuel) 1) 0 (n.crawls + 2)
          (ensure_browser_state env c n)
          (λ k h. do_crawl-later fuel 0 (n.crawls + 2) k (omega arith)) (omega arith)

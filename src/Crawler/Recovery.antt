-- ===== src/Crawler/Recovery.antt =====
-- After a switch to the proxy that failed, the crawler goes on in direct mode.
use mathlib.Core.Bool.{true≢false}
use mathlib.Core.Option.{none-ne-some}
use goods_hunter.Base.{
  ℕ, ◌<◌, ltb, ◌≡◌, refl, ◌∙◌, sym, ap, Bool, true, false, not, Option, none, some, if◌then◌else◌,
  arith, Bool-cases, inl, inr,
}
use goods_hunter.Crawler.Failure.{Failure}
use goods_hunter.Crawler.Proxy.{
  Env, Settings, Node, ensure_browser_state, get_proxy_state, rotated, exists_answered,
  cached_until, cache_state, bool_eq,
}

module _ {W : Type 0} (env : Env W) (c : Settings) where
  exists_answered-current :
      (now : ℕ) (n : Node W) (reply : Option Bool × W)
      → (exists_answered now n reply).1.current_is_proxy ≡ n.current_is_proxy
  unfolding exists_answered cached_until
  exists_answered-current now n (none, w) = refl
  exists_answered-current now n (some state, w) = refl

  get_proxy_state-current :
      (n : Node W) → (get_proxy_state env c n).1.current_is_proxy ≡ n.current_is_proxy
  unfolding get_proxy_state
  get_proxy_state-current n =
      let read = env.clock n.world in
      elim (Bool-cases (ltb read.0 n.proxy_cache_until)) [
        | inl fresh ↦ rw fresh
        | inr old ↦ elim (Bool-cases c.has_redis) [
          | inl there ↦
              rw (old, there) (exists_answered-current read.0 n (env.exists_cooldown read.1))
          | inr gone ↦ rw (old, gone)
        ]
      ]

  bool_eq-direct :
      (asked current : Bool) → current ≡ false → bool_eq asked current ≡ false → asked ≡ true
  bool_eq-direct true current h e = refl
  bool_eq-direct false current h e = absurd (true≢false (sym (ap not h) ∙ e))

  rotated-failed :
      (n : Node W) (reply : Option Failure × W) (e : Failure)
      → (rotated env true n reply).0 ≡ some e
      → ((rotated env true n reply).1.current_is_proxy ≡ n.current_is_proxy)
        × ((rotated env true n reply).1.proxy_cache ≡ false)
  unfolding rotated cache_state cached_until
  rotated-failed n (none, w) e h = absurd (none-ne-some e h)
  rotated-failed n (some e', w) e h = (refl, refl)

  switch-failed :
      (same p : Bool) (n : Node W) (reply : Option Failure × W) (e : Failure)
      → (same ≡ false → p ≡ true)
      → (if same then (none, n) else rotated env p n reply).0 ≡ some e
      → ((if same then (none, n) else rotated env p n reply).1.current_is_proxy
          ≡ n.current_is_proxy)
        × ((if same then (none, n) else rotated env p n reply).1.proxy_cache ≡ false)
  switch-failed true p n reply e q h = absurd (none-ne-some e h)
  switch-failed false true n reply e q h = rotated-failed n reply e h
  switch-failed false false n reply e q h = absurd (true≢false (sym (q refl)))

  ensure_browser_state-failed :
      (n : Node W) (e : Failure)
      → n.current_is_proxy ≡ false
      → (ensure_browser_state env c n).0 ≡ some e
      → ((ensure_browser_state env c n).1.current_is_proxy ≡ false)
        × ((ensure_browser_state env c n).1.proxy_cache ≡ false)
  unfolding ensure_browser_state
  ensure_browser_state-failed n e direct h =
      let asked = get_proxy_state env c n in
      let still = get_proxy_state-current n ∙ direct in
      let (kept, off) =
        switch-failed (bool_eq asked.0 asked.1.current_is_proxy) asked.0 asked.1
          (env.start_browser asked.0 asked.1.world) e
          (bool_eq-direct asked.0 asked.1.current_is_proxy still) h in
      (kept ∙ still, off)

  ensure_browser_state-cached :
      (n : Node W)
      → n.current_is_proxy ≡ false
      → n.proxy_cache ≡ false
      → (env.clock n.world).0 < n.proxy_cache_until
      → ((ensure_browser_state env c n).0 ≡ none)
        × ((ensure_browser_state env c n).1.current_is_proxy ≡ false)
        × ((ensure_browser_state env c n).1.world ≡ (env.clock n.world).1)
  unfolding ensure_browser_state get_proxy_state
  ensure_browser_state-cached n direct off fresh =
      let early : ltb (env.clock n.world).0 n.proxy_cache_until ≡ true = ground arith in
      rw (early, off, direct) ((refl, refl, refl))

  -- In direct mode, when the switch to the proxy fails, the mode stays; and until the cached state
  -- runs out the next call succeeds, in direct mode still, and only reads the clock: it starts no
  -- browser and asks nothing of Redis.
  pub ensure_browser_state_recovers :
      (n : Node W) (e : Failure)
      → n.current_is_proxy ≡ false
      → (ensure_browser_state env c n).0 ≡ some e
      → let after = (ensure_browser_state env c n).1 in
        (env.clock after.world).0 < after.proxy_cache_until
        → (after.current_is_proxy ≡ false)
          × ((ensure_browser_state env c after).0 ≡ none)
          × ((ensure_browser_state env c after).1.current_is_proxy ≡ false)
          × ((ensure_browser_state env c after).1.world ≡ (env.clock after.world).1)
  ensure_browser_state_recovers n e direct h fresh =
      let after = (ensure_browser_state env c n).1 in
      let (still, off) = ensure_browser_state-failed n e direct h in
      let (succeeds, direct_still, clock_only) =
        ensure_browser_state-cached after still off fresh in
      (still, succeeds, direct_still, clock_only)

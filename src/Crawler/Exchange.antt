-- ===== src/Crawler/Exchange.antt =====
-- A rotation that waits in time exchanges a browser without pages, but for the page that was between
-- the check and the count.
use mathlib.Core.Bool.{true≢false}
use mathlib.Core.Option.{some-injective}
use goods_hunter.Base.{
  ℕ, suc, ◌==◌, ◌≡◌, refl, ◌∙◌, sym, ap, true, false, not, ◌||◌, [], ◌∷◌, some, any, leb, arith,
}
use goods_hunter.Crawler.Drain.{
  Drain, unlocked, locked, waiting, starting, swapped, start_draining, drain_seen, is_over,
  read_browser, retire, swap_browser, Steps, done, more, checks, reads, counts, locks, drains, sees,
  swaps, closes,
}
use goods_hunter.Crawler.Drained.{in_time, Kept}
use goods_hunter.Crawler.Emptied.{During, During-Empty, or_true}

-- When a rotation has begun to drain, and then no page is between the check and the count and none
-- between its decrement and the close of the channel, a wait that ends without a timeout leaves no
-- page in use, up to the exchange of the browser and after it.
pub During-pages :
    {s u : Drain}
    → Kept s
    → s.rotation ≡ waiting
    → s.signal ≡ some false
    → s.checked ≡ 0
    → s.holding ≡ []
    → s.ending ≡ []
    → s.closing ≡ 0
    → During s u
    → in_time u.rotation ≡ true
    → u.pages ≡ []
During-pages {s} k r open_ checked holding ending closing steps timely =
    (During-Empty steps (record {
      kept = k;
      no_checked = checked;
      no_holding = holding;
      signal_empty =
          λ closed_. absurd (true≢false (sym (some-injective false true (sym open_ ∙ closed_))));
      ending_empty = λ zero_. absurd (true≢false (sym zero_ ∙ ap (any (λ n. n == 0)) ending));
      closing_empty = λ one. absurd (true≢false (sym one ∙ ap (leb 1) closing));
      in_time_empty = λ early. absurd (true≢false (sym early ∙ ap in_time r));
    })).in_time_empty
      timely

pub start_draining-off :
    (s : Drain)
    → s.draining ≡ false
    → record s { draining = true; signal = some false; rotation = waiting }
      ≡ record (start_draining s) { rotation = waiting }
unfolding start_draining
start_draining-off s off = simp off refl

drain_seen-idle : (s : Drain) → s.active_pages ≡ 0 → drain_seen s ≡ true
unfolding drain_seen
drain_seen-idle s idle =
    let zero_ : (s.active_pages == 0) ≡ true = ground arith in
    ap (λ b. not s.draining || b || is_over s.signal) zero_
    ∙ ap (λ b. b || is_over s.signal) (or_true (not s.draining))

-- From every state with a browser that runs, no rotation and no page in use, a page that reads the
-- browser before a rotation and is counted after the exchange is in use on that browser when it is
-- closed, although the rotation did not time out.
pub swap_browser-closed :
    (s : Drain) (b : ℕ)
    → s.browser ≡ some b
    → s.rotation ≡ unlocked
    → s.draining ≡ false
    → s.active_pages ≡ 0
    → (m : Drain) × (u : Drain) × Steps s m
      × Steps m u
      × (m.rotation ≡ swapped false)
      × (u.pages ≡ b ∷ s.pages)
      × (u.closed ≡ b ∷ s.closed)
swap_browser-closed s b there free off idle =
    let s1 = record s { checked = suc s.checked } in
    let s2 = record s { holding = read_browser s.browser s.holding } in
    let s3 = record s2 { rotation = locked } in
    let s4 = record s3 { draining = true; signal = some false; rotation = waiting } in
    let s5 = record s4 { rotation = starting false } in
    let m = record (swap_browser s5) { rotation = swapped false } in
    let s7 = record m {
      holding = s.holding;
      active_pages = suc s.active_pages;
      pages = b ∷ s.pages;
    } in
    let u = record s7 { retired = s.retired; closed = b ∷ s.closed } in
    let begun =
      more
        (more (more (more done (checks off refl)) (reads s.checked refl free refl))
          (locks free refl))
        (drains refl (start_draining-off s3 off)) in
    let exchanged =
      more (more begun (sees refl (drain_seen-idle s4 idle) refl)) (swaps false refl refl) in
    let held = ap (λ o. read_browser o s.holding) there in
    let gone = ap (λ o. retire o s.retired) there in
    (
      m,
      u,
      exchanged,
      more (more done (counts [] b s.holding held refl)) (closes [] b s.retired gone refl),
      refl,
      refl,
      refl,
    )

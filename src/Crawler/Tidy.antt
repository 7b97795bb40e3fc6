-- ===== src/Crawler/Tidy.antt =====
-- What a visit of crawlOnce opens and closes.
use goods_hunter.Base.{
  ℕ, suc, ◌+◌, ◌≤◌, ◌≡◌, refl, ◌∙◌, ap, subst, Bool, true, false, not, List, [], ◌∷◌, ◌++◌, Option,
  none, some, if◌then◌else◌, length, arith,
}
use goods_hunter.Base.Int.{ℤ}
use goods_hunter.Crawler.Failure.{Failure}
use goods_hunter.Crawler.Crawl.{Outcome, failed}
use goods_hunter.Crawler.Visit.{
  Visit, Mark, page_started, page_ended, page_closed, Creation, page_made, creation_failed,
  creation_timed_out, creation_cancelled, Script, applied, script_failed, script_timed_out,
  script_cancelled, rate_wait, fetch_limit, navigated, with_page, late_page, try_send, with_browser,
  tracked, delayed, paced, crawl_once,
}
use goods_hunter.Crawler.Visited.{
  tally, is_opened, is_closed, is_started, is_ended, tally-append, navigated-Fine, items_of,
}

-- The mark of a creation that comes after its timeout.
abbrev pub is_late : Creation → Bool
is_late page_made = false
is_late (creation_failed e) = false
is_late (creation_timed_out late) = late
is_late (creation_cancelled e late) = late

-- The counts of the marks of pages.
record Counted (opened closed started ended : ℕ) (limit : ℕ) (r : Outcome × List Mark)
    : Type 0 where
  opens : tally is_opened r.1 ≡ opened
  closes : tally is_closed r.1 ≡ closed
  starts : tally is_started r.1 ≡ started
  finishes : tally is_ended r.1 ≡ ended
  brings : length (items_of r.0) ≤ limit

with_page-Counted :
    (limit : ℤ) (v : Visit) (script : Script)
    → Counted 0 1 0 0 (fetch_limit limit) (with_page limit v script)
unfolding with_page tally
with_page-Counted limit v applied =
    let h = navigated-Fine limit v v.navigation in
    let ms = (navigated limit v v.navigation).1 in
    let opened = h.quiet is_opened (record {
      cleared = refl;
      recorded = λ t. refl;
      scrolls = refl;
      saves = refl;
      succeeds = refl;
    }) in
    let closed = h.quiet is_closed (record {
      cleared = refl;
      recorded = λ t. refl;
      scrolls = refl;
      saves = refl;
      succeeds = refl;
    }) in
    let started = h.quiet is_started (record {
      cleared = refl;
      recorded = λ t. refl;
      scrolls = refl;
      saves = refl;
      succeeds = refl;
    }) in
    let ended = h.quiet is_ended (record {
      cleared = refl;
      recorded = λ t. refl;
      scrolls = refl;
      saves = refl;
      succeeds = refl;
    }) in
    record {
      opens = tally-append is_opened ms (page_closed ∷ []) ∙ omega arith;
      closes = tally-append is_closed ms (page_closed ∷ []) ∙ omega arith;
      starts = tally-append is_started ms (page_closed ∷ []) ∙ omega arith;
      finishes = tally-append is_ended ms (page_closed ∷ []) ∙ omega arith;
      brings = h.few;
    }
with_page-Counted limit v (script_failed e) = record {
  opens = refl;
  closes = refl;
  starts = refl;
  finishes = refl;
  brings = omega arith;
}
with_page-Counted limit v script_timed_out = record {
  opens = refl;
  closes = refl;
  starts = refl;
  finishes = refl;
  brings = omega arith;
}
with_page-Counted limit v (script_cancelled e) = record {
  opens = refl;
  closes = refl;
  starts = refl;
  finishes = refl;
  brings = omega arith;
}

abbrev late_count : Bool → ℕ
late_count late = if late then 1 else 0

-- Every page is closed and every start ended, but for a late page.
record Even (left limit : ℕ) (r : Outcome × List Mark) : Type 0 where
  pages : tally is_opened r.1 ≡ tally is_closed r.1 + left
  tracks : tally is_started r.1 ≡ tally is_ended r.1
  brings : length (items_of r.0) ≤ limit

late-Even :
    (limit : ℕ) (e : Failure) (late : Bool)
    → Even (late_count late) limit (failed e, late_page late)
unfolding tally late_page try_send
late-Even limit e true = record { pages = refl; tracks = refl; brings = omega arith }
late-Even limit e false = record { pages = refl; tracks = refl; brings = omega arith }

with_browser-Even :
    (limit : ℤ) (v : Visit) (creation : Creation)
    → Even (late_count (is_late creation)) (fetch_limit limit) (with_browser limit v creation)
unfolding with_browser tally
with_browser-Even limit v page_made =
    let h = with_page-Counted limit v v.script in
    let opened = h.opens in
    let closed = h.closes in
    let started = h.starts in
    let ended = h.finishes in
    record { pages = omega arith; tracks = omega arith; brings = h.brings }
with_browser-Even limit v (creation_failed e) = record {
  pages = refl;
  tracks = refl;
  brings = omega arith;
}
with_browser-Even limit v (creation_timed_out late) = late-Even (fetch_limit limit) _ late
with_browser-Even limit v (creation_cancelled e late) = late-Even (fetch_limit limit) _ late

enclosed-Even :
    (left limit : ℕ) (r : Outcome × List Mark)
    → Even left limit r
    → Even left limit (r.0, page_started ∷ r.1 ++ (page_ended ∷ []))
unfolding tally
enclosed-Even left limit r h =
    let pages = h.pages in
    let tracks = h.tracks in
    let opened = tally-append is_opened r.1 (page_ended ∷ []) in
    let closed = tally-append is_closed r.1 (page_ended ∷ []) in
    let started = tally-append is_started r.1 (page_ended ∷ []) in
    let ended = tally-append is_ended r.1 (page_ended ∷ []) in
    record { pages = omega arith; tracks = omega arith; brings = h.brings }

failed-Even : (limit : ℕ) (e : Failure) → Even 0 limit (failed e, [])
unfolding tally
failed-Even limit e = record { pages = refl; tracks = refl; brings = omega arith }

if_Even :
    (limit : ℕ) (b : Bool) (x y : Outcome × List Mark)
    → Even 0 limit x
    → Even 0 limit y
    → Even 0 limit (if b then x else y)
if_Even limit true x y hx hy = hx
if_Even limit false x y hx hy = hy

tracked-Even :
    (limit : ℤ) (v : Visit)
    → is_late v.creation ≡ false
    → Even 0 (fetch_limit limit) (tracked limit v)
unfolding tracked
tracked-Even limit v early =
    let h = with_browser-Even limit v v.creation in
    if_Even (fetch_limit limit) (not v.admitted) _ _ (failed-Even (fetch_limit limit) _) (
      subst
        (λ b. Even (late_count b) (fetch_limit limit) (
          (with_browser limit v v.creation).0,
          page_started ∷ (with_browser limit v v.creation).1 ++ (page_ended ∷ []),
        ))
        early
        (enclosed-Even (late_count (is_late v.creation)) (fetch_limit limit)
          (with_browser limit v v.creation) h))

delayed-Even :
    (limit : ℤ) (v : Visit) (jitter : Option Failure)
    → is_late v.creation ≡ false
    → Even 0 (fetch_limit limit) (delayed limit v jitter)
unfolding delayed
delayed-Even limit v none early = tracked-Even limit v early
delayed-Even limit v (some e) early =
    if_Even (fetch_limit limit) v.is_using_proxy _ _ (tracked-Even limit v early)
      (failed-Even (fetch_limit limit) _)

paced-Even :
    (limit : ℤ) (v : Visit) (stop : Option Failure)
    → is_late v.creation ≡ false
    → Even 0 (fetch_limit limit) (paced limit v stop)
unfolding paced
paced-Even limit v none early = delayed-Even limit v v.jitter early
paced-Even limit v (some e) early = failed-Even (fetch_limit limit) e

-- However a visit ends, when its page does not come after the wait for it: every page that it opens
-- is closed, every start of a page that it counts is ended, and it brings no more items than the
-- number configured, or 50 when that is not positive.
pub crawl_once_tidy :
    (limit : ℤ) (v : Visit)
    → is_late v.creation ≡ false
    → let r = crawl_once limit v in
      (tally is_opened r.1 ≡ tally is_closed r.1)
      × (tally is_started r.1 ≡ tally is_ended r.1)
      × (length (items_of r.0) ≤ fetch_limit limit)
unfolding crawl_once
crawl_once_tidy limit v early =
    let h = paced-Even limit v (rate_wait v.pace) early in
    let pages = h.pages in (omega arith, h.tracks, h.brings)

-- In a visit that the rate limit, the delay and the draining let through, a page that comes after
-- the wait for it is never closed: its result finds room in the channel, so that the branch that
-- closes it is not taken.
pub crawl_once_late :
    (limit : ℤ) (v : Visit)
    → rate_wait v.pace ≡ none
    → v.jitter ≡ none
    → v.admitted ≡ true
    → is_late v.creation ≡ true
    → let r = crawl_once limit v in tally is_opened r.1 ≡ suc (tally is_closed r.1)
unfolding crawl_once paced delayed tracked
crawl_once_late limit v paced_ calm open_ late =
    let h = with_browser-Even limit v v.creation in
    let around =
      enclosed-Even (late_count (is_late v.creation)) (fetch_limit limit)
        (with_browser limit v v.creation) h in
    let pages =
      around.pages
      ∙ ap
          (λ b.
            tally is_closed
              (page_started ∷ (with_browser limit v v.creation).1 ++ (page_ended ∷ []))
            + late_count b)
          late in
    rw (paced_, calm, open_) (pages ∙ omega arith)

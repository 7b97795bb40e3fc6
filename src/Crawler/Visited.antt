-- ===== src/Crawler/Visited.antt =====
-- What a visit of crawlOnce brings at most, and which marks it leaves.
use goods_hunter.Base.{
  ℕ, zero, suc, ◌+◌, ◌≤◌, ltb, leb, ◌≡◌, refl, ◌∙◌, ap, Bool, true, false, ◌&&◌, ◌||◌, List, [],
  ◌∷◌, ◌++◌, Option, none, some, if◌then◌else◌, length, arith, Bool-cases, inl, inr,
}
use goods_hunter.Base.Int.{ℤ}
use goods_hunter.Base.Text.{Text, str, text_eq, is_empty}
use goods_hunter.RedisQueue.Types.{Item}
use goods_hunter.Crawler.Failure.{Failure}
use goods_hunter.Crawler.Crawl.{Outcome, crawled, failed}
use goods_hunter.Crawler.BlockType.{detect_block_type, is_blocked_page}
use goods_hunter.Crawler.Visit.{
  Visit, Mark, page_started, page_ended, page_opened, page_closed, cookies_cleared, block_recorded,
  scrolled, cookies_saved, success_recorded, Race, items_there, no_items_state, challenge_page,
  race_failed, Elements, got, get_failed, get_timed_out, fetch_limit, scroll, extract, block_label,
  block_marks, saved, get_items, late_type, raced, inspected, titled, navigated, blocked_as,
}

unfoldable pub tally : (Mark → Bool) → List Mark → ℕ
tally p [] = 0
tally p (m ∷ ms) = let rest = tally p ms in if p m then suc rest else rest

abbrev pub is_opened : Mark → Bool
is_opened page_opened = true
is_opened _ = false

abbrev pub is_closed : Mark → Bool
is_closed page_closed = true
is_closed _ = false

abbrev pub is_started : Mark → Bool
is_started page_started = true
is_started _ = false

abbrev pub is_ended : Mark → Bool
is_ended page_ended = true
is_ended _ = false

-- A test that no mark but those of pages passes.
pub record Blind (p : Mark → Bool) : Type 0 where
  pub cleared : p cookies_cleared ≡ false
  pub recorded : (t : Text) → p (block_recorded t) ≡ false
  pub scrolls : p scrolled ≡ false
  pub saves : p cookies_saved ≡ false
  pub succeeds : p success_recorded ≡ false

pub tally-append :
    (p : Mark → Bool) (xs ys : List Mark) → tally p (xs ++ ys) ≡ tally p xs + tally p ys
unfolding tally
tally-append p [] ys = omega arith
tally-append p (m ∷ ms) ys = elim (Bool-cases (p m)) [
  | inl yes_ ↦ rw yes_ (omega (arith, tally-append p ms ys))
  | inr no_ ↦ rw no_ (tally-append p ms ys)
]

block_marks-tally : (p : Mark → Bool) (t : Text) → Blind p → tally p (block_marks t) ≡ 0
unfolding tally
block_marks-tally p t h = elim (Bool-cases (text_eq t (str "403_forbidden"))) [
  | inl banned ↦ rw (banned, h.cleared, h.recorded t) refl
  | inr other ↦ rw (other, h.recorded t) refl
]

saved-tally : (p : Mark → Bool) (items : List Item) → Blind p → tally p (saved items) ≡ 0
unfolding tally
saved-tally p [] h = rw h.succeeds refl
saved-tally p (_ ∷ _) h = rw (h.saves, h.succeeds) refl

marks_if :
    (p : Mark → Bool) (b : Bool) (x y : List Mark)
    → tally p x ≡ 0
    → tally p y ≡ 0
    → tally p (if b then x else y) ≡ 0
marks_if p true x y hx hy = hx
marks_if p false x y hx hy = hy

one_more :
    (p : Mark → Bool) (ms : List Mark) → Blind p → tally p ms ≡ 0 → tally p (scrolled ∷ ms) ≡ 0
unfolding tally
one_more p ms h e = rw h.scrolls e

scroll-tally :
    (p : Mark → Bool) (limit stuck : ℕ) (rounds : List (Option ℕ × Bool × Option ℕ))
    → Blind p
    → tally p (scroll limit stuck rounds) ≡ 0
unfolding scroll tally
scroll-tally p limit stuck [] h = refl
scroll-tally p limit stuck ((none, late, after) ∷ rest) h = refl
scroll-tally p limit stuck ((some n, late, none) ∷ rest) h =
    marks_if p (leb limit n) _ _ refl (one_more p [] h refl)
scroll-tally p limit stuck ((some n, late, some m) ∷ rest) h =
    let again = one_more p _ h (scroll-tally p limit (suc stuck) rest h) in
    let fresh = one_more p _ h (scroll-tally p limit 0 rest h) in
    let last = one_more p [] h refl in
    marks_if p (leb limit n) _ _ refl (
      marks_if p late _ _ last
        (marks_if p (leb m n) _ _ (marks_if p (leb 3 (suc stuck) && ltb 0 n) _ _ last again) fresh))

abbrev pub items_of : Outcome → List Item
items_of (crawled r) = r.items
items_of (failed e) = []

-- No marks of pages, and at most that many items.
pub record Fine (limit : ℕ) (r : Outcome × List Mark) : Type 0 where
  pub quiet : (p : Mark → Bool) → Blind p → tally p r.1 ≡ 0
  pub few : length (items_of r.0) ≤ limit

if_Fine :
    (limit : ℕ) (b : Bool) (x y : Outcome × List Mark)
    → Fine limit x
    → Fine limit y
    → Fine limit (if b then x else y)
if_Fine limit true x y hx hy = hx
if_Fine limit false x y hx hy = hy

extract-length : (limit : ℕ) (es : List (Option Item)) → length (extract limit es) ≤ limit
unfolding extract
extract-length zero es = omega arith
extract-length (suc left) [] = omega arith
extract-length (suc left) (none ∷ es) = extract-length (suc left) es
extract-length (suc left) (some item ∷ es) = omega (arith, extract-length left es)

get_items-Fine :
    (limit : ℕ) (scrolls : List Mark) (es : Elements)
    → ((p : Mark → Bool) → Blind p → tally p scrolls ≡ 0)
    → Fine limit (get_items limit scrolls es)
unfolding get_items
get_items-Fine limit scrolls (got []) h = record { quiet = h; few = omega arith }
get_items-Fine limit scrolls (got (e ∷ es)) h = record {
  quiet = λ p blind.
      tally-append p scrolls (saved (extract limit (e ∷ es)))
      ∙ let one = h p blind in
        let two = saved-tally p (extract limit (e ∷ es)) blind in omega arith;
  few = extract-length limit (e ∷ es);
}
get_items-Fine limit scrolls (get_failed e) h = record { quiet = h; few = omega arith }
get_items-Fine limit scrolls (get_timed_out e) h = record { quiet = h; few = omega arith }

empty_Fine : (limit : ℕ) (o : Outcome) → items_of o ≡ [] → Fine limit (o, [])
unfolding tally
empty_Fine limit o e = record { quiet = λ p blind. refl; few = let n = ap length e in omega arith }

block_Fine : (limit : ℕ) (t : Text) → Fine limit (blocked_as t, block_marks t)
block_Fine limit t = record { quiet = λ p blind. block_marks-tally p t blind; few = omega arith }

raced-Fine : (limit : ℤ) (v : Visit) (race : Race) → Fine (fetch_limit limit) (raced limit v race)
unfolding raced
raced-Fine limit v items_there =
    get_items-Fine (fetch_limit limit) (scroll (fetch_limit limit) 0 v.rounds) v.elements
      (λ p blind. scroll-tally p (fetch_limit limit) 0 v.rounds blind)
raced-Fine limit v no_items_state = empty_Fine (fetch_limit limit) _ refl
raced-Fine limit v challenge_page =
    if_Fine (fetch_limit limit) v.no_items_text _ _ (empty_Fine (fetch_limit limit) _ refl)
      (empty_Fine (fetch_limit limit) _ refl)
raced-Fine limit v (race_failed e) =
    if_Fine (fetch_limit limit) v.no_items_text _ _ (empty_Fine (fetch_limit limit) _ refl) (
      if_Fine (fetch_limit limit) (is_blocked_page v.info v.text) _ _
        (block_Fine (fetch_limit limit) (block_label (late_type v.title v.body_text)))
        (empty_Fine (fetch_limit limit) _ refl))

inspected-Fine : (limit : ℤ) (v : Visit) → Fine (fetch_limit limit) (inspected limit v)
unfolding inspected
inspected-Fine limit v =
    if_Fine (fetch_limit limit) (is_empty v.dom_block) _ _ (raced-Fine limit v v.race)
      (block_Fine (fetch_limit limit) v.dom_block)

titled-Fine :
    (limit : ℤ) (v : Visit) (title : Option Text) → Fine (fetch_limit limit) (titled limit v title)
unfolding titled
titled-Fine limit v none = inspected-Fine limit v
titled-Fine limit v (some title) =
    if_Fine (fetch_limit limit) (text_eq title (str "about:blank") || is_empty title) _ _
      (block_Fine (fetch_limit limit) (block_label (detect_block_type title [])))
      (inspected-Fine limit v)

pub navigated-Fine :
    (limit : ℤ) (v : Visit) (e : Option Failure) → Fine (fetch_limit limit) (navigated limit v e)
unfolding navigated
navigated-Fine limit v none = titled-Fine limit v v.title
navigated-Fine limit v (some e) = empty_Fine (fetch_limit limit) _ refl

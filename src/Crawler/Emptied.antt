-- ===== src/Crawler/Emptied.antt =====
-- A draining of the browser that no page enters: what its channel and its phase say of the pages.
use mathlib.Core.Bool.{true≢false}
use mathlib.Core.Option.{none-ne-some}
use goods_hunter.Base.{
  ℕ, suc, ◌-◌, ◌==◌, ◌≡◌, ◌≢◌, refl, ◌∙◌, sym, ap, subst, Bool, true, false, not, ◌&&◌, ◌||◌, List,
  [], ◌∷◌, ◌++◌, Option, none, some, if◌then◌else◌, length, any, leb, arith, Bool-cases, inl, inr,
}
use goods_hunter.Crawler.Drain.{
  Drain, drain_seen, is_over, complete_draining, Step, checks, reads, counts, ends, sees_draining,
  closes_drain, locks, drains, sees, times_out, swaps, fails, unlocks, closes, restarts,
}
use goods_hunter.Crawler.Drained.{is_draining, in_time, has_signal, ends-counted, Kept, Step-Kept}

-- Steps of one draining: each starts while the flag is set.
pub data During (s : Drain) : Drain → Type 0 where
  begins : During s s
  goes_on : {t u : Drain} → During s t → t.draining ≡ true → Step t u → During s u

-- Nobody is between the check and the count; what the channel, the phase, and the pages that have
-- ended, say of the pages in use.
pub record Empty (s : Drain) : Type 0 where
  pub kept : Kept s
  pub no_checked : s.checked ≡ 0
  pub no_holding : s.holding ≡ []
  pub signal_empty : s.signal ≡ some true → s.pages ≡ []
  pub ending_empty : any (λ left. left == 0) s.ending ≡ true → s.pages ≡ []
  pub closing_empty : leb 1 s.closing ≡ true → s.pages ≡ []
  pub in_time_empty : in_time s.rotation ≡ true → s.pages ≡ []

no_pages : (xs : List ℕ) → length xs ≡ 0 → xs ≡ []
no_pages [] e = refl
no_pages (x ∷ xs) e = absurd (omega arith)

nil-ne-middle : (xs : List ℕ) (y : ℕ) (zs : List ℕ) → ¬ ([] ≡ xs ++ y ∷ zs)
nil-ne-middle [] y zs e = cc
nil-ne-middle (x ∷ xs) y zs e = cc

signal_seen :
    {P : Type 0} (o : Option Bool)
    → (o ≡ some true → P)
    → has_signal o ≡ true
    → is_over o ≡ true
    → P
signal_seen none p there e = absurd (true≢false (sym there))
signal_seen (some x) p there e = p (ap some e)

drain_seen-Empty : (s : Drain) → Empty s → s.draining ≡ true → drain_seen s ≡ true → s.pages ≡ []
unfolding drain_seen
drain_seen-Empty s h on seen = elim (Bool-cases (s.active_pages == 0)) [
  | inl none_left ↦ no_pages s.pages (let k = h.kept.counted in ground arith)
  | inr some_left ↦ signal_seen s.signal h.signal_empty (h.kept.signalled ∙ on) (
      sym (
        ap (λ b. not b || s.active_pages == 0 || is_over s.signal) on
        ∙ ap (λ b. false || b || is_over s.signal) some_left)
      ∙ seen)
]

pub or_true : (x : Bool) → (x || true) ≡ true
or_true true = refl
or_true false = refl

any-without :
    (before : List ℕ) (left : ℕ) (after : List ℕ)
    → any (λ n. n == 0) (before ++ after) ≡ true
    → any (λ n. n == 0) (before ++ left ∷ after) ≡ true
any-without [] left after h = ground (arith, h)
any-without (x ∷ before) left after h = ground (arith, any-without before left after, h)

any-middle :
    (before : List ℕ) (left : ℕ) (after : List ℕ)
    → (left == 0) ≡ true
    → any (λ n. n == 0) (before ++ left ∷ after) ≡ true
any-middle [] left after h = ground (arith, h)
any-middle (x ∷ before) left after h = ground (arith, any-middle before left after h)

-- A page that ends, with the count that it leaves.
ended_left :
    {P : Type 0} (left : ℕ) (ending : List ℕ)
    → any (λ n. n == 0) (left ∷ ending) ≡ true
    → (left ≡ 0 → P)
    → (any (λ n. n == 0) ending ≡ true → P)
    → P
ended_left left ending e last before = elim (Bool-cases (left == 0)) [
  | inl final ↦ last (ground arith)
  | inr some_left ↦ before (ground arith)
]

-- One more closes the channel only when it has left no page, and sees the flag.
more_closing :
    {P : Type 0} (on : Bool) (left n : ℕ)
    → leb 1 (if on && left == 0 then suc n else n) ≡ true
    → ((left == 0) ≡ true → P)
    → (leb 1 n ≡ true → P)
    → P
more_closing on left n e last before = elim (Bool-cases (on && left == 0)) [
  | inl final ↦ last (ground arith)
  | inr early ↦ before (subst (λ b. leb 1 (if b then suc n else n) ≡ true) early e)
]

less_closing : (m n : ℕ) → m ≡ suc n → leb 1 m ≡ true
less_closing m n e = ground arith

off-ne-on :
    {P : Type 0} (s : Drain) → Empty s → s.draining ≡ true → is_draining s.rotation ≡ false → P
off-ne-on s h on off = absurd (true≢false (sym on ∙ h.kept.flagged ∙ off))

Step-Empty : {s u : Drain} → Step s u → s.draining ≡ true → Empty s → Empty u
unfolding complete_draining
Step-Empty {s} (checks off e) on h = absurd (true≢false (sym on ∙ off))
Step-Empty {s} (reads n c r e) on h = off-ne-on s h on (ap is_draining r)
Step-Empty (counts before b after c e) on h =
    absurd (nil-ne-middle before b after (sym h.no_holding ∙ c))
Step-Empty {s} (ends before b after c e) on h =
    let full : s.pages ≢ [] = λ none_. nil-ne-middle before b after (sym none_ ∙ c) in
    record {
      kept = Step-Kept (ends before b after c e) h.kept;
      no_checked = ap (λ (x : Drain). x.checked) e ∙ h.no_checked;
      no_holding = ap (λ (x : Drain). x.holding) e ∙ h.no_holding;
      signal_empty =
          λ old. absurd (full (h.signal_empty (sym (ap (λ (x : Drain). x.signal) e) ∙ old)));
      ending_empty = λ some_zero.
          ap (λ (x : Drain). x.pages) e
          ∙ ended_left (s.active_pages - 1) s.ending
              (sym (ap (λ (x : Drain). any (λ n. n == 0) x.ending) e) ∙ some_zero)
              (λ last.
                no_pages (before ++ after)
                  (sym (ends-counted s before b after h.kept.counted c) ∙ last))
              (λ old. absurd (full (h.ending_empty old)));
      closing_empty = λ old.
          absurd (full (h.closing_empty (sym (ap (λ (x : Drain). leb 1 x.closing) e) ∙ old)));
      in_time_empty = λ timely.
          absurd (full (h.in_time_empty (sym (ap (λ (x : Drain). in_time x.rotation) e) ∙ timely)));
    }
Step-Empty {s} (sees_draining before left after c e) on h = subst Empty (sym e) (record {
  kept = Step-Kept (sees_draining before left after c refl) h.kept;
  no_checked = h.no_checked;
  no_holding = h.no_holding;
  signal_empty = h.signal_empty;
  ending_empty = λ some_zero.
      h.ending_empty (ap (any (λ n. n == 0)) c ∙ any-without before left after some_zero);
  closing_empty = λ one.
      more_closing s.draining left s.closing one
        (λ final. h.ending_empty (ap (any (λ n. n == 0)) c ∙ any-middle before left after final))
        h.closing_empty;
  in_time_empty = h.in_time_empty;
})
Step-Empty {s} (closes_drain n c e) on h = subst Empty (sym e) (record {
  kept = Step-Kept (closes_drain n c refl) h.kept;
  no_checked = h.no_checked;
  no_holding = h.no_holding;
  signal_empty = λ closed_. h.closing_empty (less_closing s.closing n c);
  ending_empty = h.ending_empty;
  closing_empty = λ one. h.closing_empty (less_closing s.closing n c);
  in_time_empty = h.in_time_empty;
})
Step-Empty {s} (locks r e) on h = off-ne-on s h on (ap is_draining r)
Step-Empty {s} (drains r e) on h = off-ne-on s h on (ap is_draining r)
Step-Empty {s} (sees r seen e) on h = subst Empty (sym e) (record {
  kept = Step-Kept (sees r seen refl) h.kept;
  no_checked = h.no_checked;
  no_holding = h.no_holding;
  signal_empty = h.signal_empty;
  ending_empty = h.ending_empty;
  closing_empty = h.closing_empty;
  in_time_empty = λ timely. drain_seen-Empty s h on seen;
})
Step-Empty {s} (times_out r e) on h = subst Empty (sym e) (record {
  kept = Step-Kept (times_out r refl) h.kept;
  no_checked = h.no_checked;
  no_holding = h.no_holding;
  signal_empty = h.signal_empty;
  ending_empty = h.ending_empty;
  closing_empty = h.closing_empty;
  in_time_empty = λ timely. absurd (true≢false (sym timely));
})
Step-Empty {s} (swaps late r e) on h = subst Empty (sym e) (record {
  kept = Step-Kept (swaps late r refl) h.kept;
  no_checked = h.no_checked;
  no_holding = h.no_holding;
  signal_empty = h.signal_empty;
  ending_empty = h.ending_empty;
  closing_empty = h.closing_empty;
  in_time_empty = λ timely. h.in_time_empty (ap in_time r ∙ timely);
})
Step-Empty {s} (fails late r e) on h = subst Empty (sym e) (record {
  kept = Step-Kept (fails late r refl) h.kept;
  no_checked = h.no_checked;
  no_holding = h.no_holding;
  signal_empty = λ closed_. absurd (none-ne-some true closed_);
  ending_empty = h.ending_empty;
  closing_empty = h.closing_empty;
  in_time_empty = λ timely. absurd (true≢false (sym timely));
})
Step-Empty {s} (unlocks late r e) on h = subst Empty (sym e) (record {
  kept = Step-Kept (unlocks late r refl) h.kept;
  no_checked = h.no_checked;
  no_holding = h.no_holding;
  signal_empty = λ closed_. absurd (none-ne-some true closed_);
  ending_empty = h.ending_empty;
  closing_empty = h.closing_empty;
  in_time_empty = λ timely. absurd (true≢false (sym timely));
})
Step-Empty {s} (closes before b after c e) on h = subst Empty (sym e) (record {
  kept = Step-Kept (closes before b after c refl) h.kept;
  no_checked = h.no_checked;
  no_holding = h.no_holding;
  signal_empty = h.signal_empty;
  ending_empty = h.ending_empty;
  closing_empty = h.closing_empty;
  in_time_empty = h.in_time_empty;
})
Step-Empty {s} (restarts starts r e) on h = off-ne-on s h on (ap is_draining r)

pub During-Empty : {s u : Drain} → During s u → Empty s → Empty u
During-Empty begins h = h
During-Empty (goes_on steps on step) h = Step-Empty step on (During-Empty steps h)

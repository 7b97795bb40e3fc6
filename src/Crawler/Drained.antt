-- ===== src/Crawler/Drained.antt =====
-- The exchange of the browser against the pages that use it.
use goods_hunter.Base.{
  ℕ, suc, ◌-◌, ◌≡◌, refl, ◌∙◌, sym, ap, subst, Bool, true, false, not, List, ◌∷◌, ◌++◌, Option,
  none, some, length, length-append, arith,
}
use goods_hunter.Crawler.Drain.{
  Drain, Rotation, unlocked, locked, waiting, starting, swapped, start_draining, complete_draining,
  close_signal, Step, Steps, done, more, checks, reads, counts, ends, sees_draining, closes_drain,
  locks, drains, sees, times_out, swaps, fails, unlocks, closes, restarts, browser_started,
}

abbrev pub is_draining : Rotation → Bool
is_draining unlocked = false
is_draining locked = false
is_draining waiting = true
is_draining (starting _) = true
is_draining (swapped _) = true

-- The wait has ended, and not by a timeout.
abbrev pub in_time : Rotation → Bool
in_time (starting late) = not late
in_time (swapped late) = not late
in_time unlocked = false
in_time locked = false
in_time waiting = false

abbrev pub has_signal : Option Bool → Bool
has_signal none = false
has_signal (some _) = true

-- The counter is the number of pages, and the flag and its channel are there from startDraining to
-- completeDraining.
pub record Kept (s : Drain) : Type 0 where
  pub counted : s.active_pages ≡ length s.pages
  pub flagged : s.draining ≡ is_draining s.rotation
  pub signalled : has_signal s.signal ≡ s.draining

length-middle :
    (before : List ℕ) (b : ℕ) (after : List ℕ)
    → length (before ++ b ∷ after) ≡ suc (length (before ++ after))
length-middle before b after =
    length-append before (b ∷ after) ∙ sym (let e = length-append before after in omega arith)

one_less : (n m : ℕ) → n ≡ suc m → n - 1 ≡ m
one_less n m h = omega arith

close_signal-has_signal : (o : Option Bool) → has_signal (close_signal o) ≡ has_signal o
close_signal-has_signal none = refl
close_signal-has_signal (some x) = refl

pub ends-counted :
    (s : Drain) (before : List ℕ) (b : ℕ) (after : List ℕ)
    → s.active_pages ≡ length s.pages
    → s.pages ≡ before ++ b ∷ after
    → s.active_pages - 1 ≡ length (before ++ after)
ends-counted s before b after k e =
    one_less s.active_pages (length (before ++ after))
      (k ∙ ap length e ∙ length-middle before b after)

start_draining-Kept :
    (s : Drain)
    → Kept s
    → s.rotation ≡ locked
    → Kept (record (start_draining s) { rotation = waiting })
unfolding start_draining
start_draining-Kept s k e =
    let off : s.draining ≡ false = k.flagged ∙ ap is_draining e in
    simp off (record { counted = k.counted; flagged = refl; signalled = refl })

pub Step-Kept : {s u : Drain} → Step s u → Kept s → Kept u
unfolding complete_draining
Step-Kept (checks off e) k =
    subst Kept (sym e)
      (record { counted = k.counted; flagged = k.flagged; signalled = k.signalled })
Step-Kept (reads n c r e) k =
    subst Kept (sym e)
      (record { counted = k.counted; flagged = k.flagged; signalled = k.signalled })
Step-Kept (counts before b after c e) k =
    subst Kept (sym e)
      (record { counted = ap suc k.counted; flagged = k.flagged; signalled = k.signalled })
Step-Kept {s} (ends before b after c e) k = subst Kept (sym e) (record {
  counted = ends-counted s before b after k.counted c;
  flagged = k.flagged;
  signalled = k.signalled;
})
Step-Kept (sees_draining before left after c e) k =
    subst Kept (sym e)
      (record { counted = k.counted; flagged = k.flagged; signalled = k.signalled })
Step-Kept {s} (closes_drain n c e) k = subst Kept (sym e) (record {
  counted = k.counted;
  flagged = k.flagged;
  signalled = close_signal-has_signal s.signal ∙ k.signalled;
})
Step-Kept (locks r e) k = subst Kept (sym e) (record {
  counted = k.counted;
  flagged = k.flagged ∙ ap is_draining r;
  signalled = k.signalled;
})
Step-Kept {s} (drains r e) k = subst Kept (sym e) (start_draining-Kept s k r)
Step-Kept (sees r c e) k = subst Kept (sym e) (record {
  counted = k.counted;
  flagged = k.flagged ∙ ap is_draining r;
  signalled = k.signalled;
})
Step-Kept (times_out r e) k = subst Kept (sym e) (record {
  counted = k.counted;
  flagged = k.flagged ∙ ap is_draining r;
  signalled = k.signalled;
})
Step-Kept (swaps late r e) k = subst Kept (sym e) (record {
  counted = k.counted;
  flagged = k.flagged ∙ ap is_draining r;
  signalled = k.signalled;
})
Step-Kept (fails late r e) k =
    subst Kept (sym e) (record { counted = k.counted; flagged = refl; signalled = refl })
Step-Kept (unlocks late r e) k =
    subst Kept (sym e) (record { counted = k.counted; flagged = refl; signalled = refl })
Step-Kept (closes before b after c e) k =
    subst Kept (sym e)
      (record { counted = k.counted; flagged = k.flagged; signalled = k.signalled })
Step-Kept (restarts starts r e) k =
    subst Kept (sym e)
      (record { counted = k.counted; flagged = k.flagged; signalled = k.signalled })

-- In every interleaving of pages, rotations and restarts the counter is the number of pages in use,
-- and the service is draining, with a channel to say its end, just from startDraining to
-- completeDraining.
pub Steps-Kept : {s : Drain} → Steps browser_started s → Kept s
Steps-Kept done = record { counted = refl; flagged = refl; signalled = refl }
Steps-Kept (more steps step) = Step-Kept step (Steps-Kept steps)

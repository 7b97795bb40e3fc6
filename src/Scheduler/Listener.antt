-- ===== src/Scheduler/Listener.antt =====
-- StartResultListener, and StartWorker of internal/crawler/crawl.go, which is built the same way:
-- the loop takes a token of a limited number, pops a result or a task, and starts a handler, which
-- gives the token back. Each step is what the loop or one handler does at once.
use goods_hunter.Base.{ℕ, suc, ◌+◌, ◌≤◌, ◌<◌, ◌≡◌, refl, ap, ◌-◌, arith}

-- The loop waits for a token, pops with a token in hand, or has returned.
pub data Phase : Type 0 where
  acquiring popping returned : Phase

-- The tokens in the semaphore, the handlers that run, and the results popped and handled so far.
pub record Listener : Type 0 where
  pub phase : Phase
  pub tokens : ℕ
  pub handling : ℕ
  pub popped : ℕ
  pub handled : ℕ

abbrev pub max_handlers : ℕ
max_handlers = 10

-- A pop that gives no result, an error or nil, gives the token back. A handler ends by its return, or by a panic that it recovers from.
pub data Turn (limit : ℕ) : Listener → Listener → Type 0 where
  acquires :
      (l : Listener)
      → l.phase ≡ acquiring
      → l.tokens < limit
      → Turn limit l (record l { phase = popping; tokens = suc l.tokens })
  cancelled : (l : Listener) → l.phase ≡ acquiring → Turn limit l (record l { phase = returned })
  pop_fails :
      (l : Listener) (n : ℕ)
      → l.phase ≡ popping
      → l.tokens ≡ suc n
      → Turn limit l (record l { phase = acquiring; tokens = n })
  pop_cancelled :
      (l : Listener) (n : ℕ)
      → l.phase ≡ popping
      → l.tokens ≡ suc n
      → Turn limit l (record l { phase = returned; tokens = n })
  pops :
      (l : Listener)
      → l.phase ≡ popping
      → Turn limit l
          (record l { phase = acquiring; handling = suc l.handling; popped = suc l.popped })
  ends :
      (l : Listener) (n m : ℕ)
      → l.handling ≡ suc n
      → l.tokens ≡ suc m
      → Turn limit l (record l { tokens = m; handling = n; handled = suc l.handled })

abbrev pub listening : Listener
listening = record { phase = acquiring; tokens = 0; handling = 0; popped = 0; handled = 0 }

pub data Turns (limit : ℕ) : Listener → Listener → Type 0 where
  still : {l : Listener} → Turns limit l l
  then_turn : {l k m : Listener} → Turns limit l k → Turn limit k m → Turns limit l m

-- The token that the loop itself holds.
abbrev pub in_hand : Phase → ℕ
in_hand acquiring = 0
in_hand popping = 1
in_hand returned = 0

pub record Balanced (limit : ℕ) (l : Listener) : Type 0 where
  pub tokens_held : l.tokens ≡ l.handling + in_hand l.phase
  pub bounded : l.tokens ≤ limit
  pub none_lost : l.popped ≡ l.handling + l.handled

Turn-Balanced : {limit : ℕ} {l k : Listener} → Turn limit l k → Balanced limit l → Balanced limit k
Turn-Balanced (acquires l here room) h =
    let held_here = ap in_hand here in
    let tokens = h.tokens_held in
    let bound = h.bounded in
    let lost = h.none_lost in
    record { tokens_held = omega arith; bounded = omega arith; none_lost = omega arith }
Turn-Balanced (cancelled l here) h =
    let held_here = ap in_hand here in
    let tokens = h.tokens_held in
    let bound = h.bounded in
    let lost = h.none_lost in
    record { tokens_held = omega arith; bounded = omega arith; none_lost = omega arith }
Turn-Balanced (pop_fails l n here held) h =
    let held_here = ap in_hand here in
    let tokens = h.tokens_held in
    let bound = h.bounded in
    let lost = h.none_lost in
    record { tokens_held = omega arith; bounded = omega arith; none_lost = omega arith }
Turn-Balanced (pop_cancelled l n here held) h =
    let held_here = ap in_hand here in
    let tokens = h.tokens_held in
    let bound = h.bounded in
    let lost = h.none_lost in
    record { tokens_held = omega arith; bounded = omega arith; none_lost = omega arith }
Turn-Balanced (pops l here) h =
    let held_here = ap in_hand here in
    let tokens = h.tokens_held in
    let bound = h.bounded in
    let lost = h.none_lost in
    record { tokens_held = omega arith; bounded = omega arith; none_lost = omega arith }
Turn-Balanced (ends l n m run held) h =
    let tokens = h.tokens_held in
    let bound = h.bounded in
    let lost = h.none_lost in
    record { tokens_held = omega arith; bounded = omega arith; none_lost = omega arith }

-- With any limit, in every interleaving from the start, the semaphore has one token for each handler that runs and
-- one for a pop under way, at most the limit in all, and each result or task popped was handled or is in hand.
pub Turns-Balanced : {limit : ℕ} {l : Listener} → Turns limit listening l → Balanced limit l
Turns-Balanced still = record { tokens_held = refl; bounded = omega arith; none_lost = refl }
Turns-Balanced (then_turn turns turn) = Turn-Balanced turn (Turns-Balanced turns)

-- While a handler runs or a pop is under way, in every interleaving from the start, the semaphore
-- holds a token, so giving it back does not wait.
Turns-free :
    {limit : ℕ} {l : Listener}
    → Turns limit listening l
    → 0 < l.handling + in_hand l.phase
    → (m : ℕ) × (l.tokens ≡ suc m)
Turns-free {limit} {l} turns busy =
    let held = (Turns-Balanced turns).tokens_held in (l.tokens - 1, omega arith)

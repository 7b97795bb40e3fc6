-- ===== src/Crawler/Throttler.antt =====
-- internal/crawler/adaptive.go, AdaptiveThrottler: a node counts its consecutive blocks, takes a
-- higher count from Redis when it gets one, and goes to sleep at the third.
use goods_hunter.Base.Int.{ℤ, pos, negsuc, ltb_ℤ, to_int32, low_bits}
use goods_hunter.Base.{
  ℕ, zero, suc, ◌+◌, ◌-◌, ◌*◌, ◌^◌, ◌≤◌, ◌<◌, leb, ◌≡◌, refl, ◌⊎◌, inl, inr, Bool-cases, Bool, true,
  false, not, ◌&&◌, ◌||◌, Option, none, some, if◌then◌else◌, arith,
}

abbrev pub second : ℕ
second = 1_000_000_000

abbrev pub block_threshold_for_sleep : ℕ
block_threshold_for_sleep = 3

abbrev pub min_sleep_duration : ℕ
min_sleep_duration = 30 * second

abbrev pub max_sleep_duration : ℕ
max_sleep_duration = 60 * second

abbrev pub max_int32 : ℕ
max_int32 = 2 ^ 31 - 1

pub record Throttler : Type 0 where
  pub consecutive_blocks : ℤ  -- int32
  pub in_cooldown : Bool

abbrev pub new_throttler : Throttler
new_throttler = record { consecutive_blocks = pos 0; in_cooldown = false }

-- z + 1.
abbrev pub suc_ℤ : ℤ → ℤ
suc_ℤ (pos n) = pos (suc n)
suc_ℤ (negsuc zero) = pos 0
suc_ℤ (negsuc (suc n)) = negsuc n

-- The count that RecordBlock goes by: the INCR's reply, if it comes and is higher, as an int32.
unfoldable pub shared_count : ℤ → Option ℤ → ℤ
shared_count count none = count
shared_count count (some redis_count) =
    if ltb_ℤ count redis_count then to_int32 redis_count else count

-- RecordBlock. `redis` is the reply of INCR, none without a client or on an error; `jitter` is
-- rand.Int63n(max - min). It returns the sleep, none for false.
unfoldable pub record_block : Option ℤ → ℕ → Throttler → Throttler × Option ℕ
unfolding shared_count
record_block redis jitter t =
    let local = to_int32 (suc_ℤ t.consecutive_blocks) in
    let count = shared_count local redis in
    let t' = record t { consecutive_blocks = local } in
    if not (ltb_ℤ count (pos block_threshold_for_sleep)) && not t.in_cooldown
    then (record t' { in_cooldown = true }, some (min_sleep_duration + jitter))
    else (t', none)

-- RecordSuccess; the Bool says whether it deletes the shared counter.
unfoldable pub record_success : Bool → Throttler → Throttler × Bool
record_success has_redis t = (new_throttler, has_redis && ltb_ℤ (pos 0) t.consecutive_blocks)

unfoldable pub exit_cooldown : Throttler → Throttler
exit_cooldown t = record t { in_cooldown = false }

unfoldable pub get_consecutive_blocks : Throttler → ℤ
get_consecutive_blocks t = t.consecutive_blocks

unfoldable pub should_reduce_concurrency : Throttler → Bool
should_reduce_concurrency t = not (ltb_ℤ t.consecutive_blocks (pos block_threshold_for_sleep))

-- The count of the other nodes, as far as Redis tells it.
abbrev pub told : Option ℕ → ℕ
told none = 0
told (some n) = n

abbrev pub reply_of : Option ℕ → Option ℤ
reply_of none = none
reply_of (some n) = some (pos n)

to_int32-pos : (n : ℕ) → n < 2 ^ 31 → to_int32 (pos n) ≡ pos n
unfolding to_int32 low_bits
to_int32-pos n h = ground arith

-- The count is at least three when this node has met three blocks or Redis tells of three.
shared_count-reached :
    (n : ℕ) (redis : Option ℕ)
    → told redis < 2 ^ 31
    → not (ltb_ℤ (shared_count (pos n) (reply_of redis)) (pos 3)) ≡ (leb 3 n || leb 3 (told redis))
unfolding shared_count
shared_count-reached n none h = ground arith
shared_count-reached n (some m) h = rw (to_int32-pos m h) (ground arith)

-- The two ends of RecordBlock.
block_outcome :
    (n : ℕ) (cooling : Bool) (told_ jitter : ℕ)
    → jitter < 30 * second
    → let r : Throttler × Option ℕ =
        if (leb 3 (suc n) || leb 3 told_) && not cooling
        then (
          record { consecutive_blocks = pos (suc n); in_cooldown = true },
          some (min_sleep_duration + jitter),
        )
        else (record { consecutive_blocks = pos (suc n); in_cooldown = cooling }, none) in
      (r.0.consecutive_blocks ≡ pos (suc n))
      × ((r.1 ≡ none)
            × (r.0.in_cooldown ≡ cooling)
            × ((cooling ≡ true) ⊎ ((suc n < 3) × (told_ < 3)))
          ⊎ ((d : ℕ) × (r.1 ≡ some d)
              × (30 * second ≤ d)
              × (d < 60 * second)
              × (r.0.in_cooldown ≡ true)
              × (cooling ≡ false)
              × ((3 ≤ suc n) ⊎ (3 ≤ told_))))
block_outcome n cooling told_ jitter short =
    elim (Bool-cases ((leb 3 (suc n) || leb 3 told_) && not cooling)) [
      | inl sleeps ↦ rw sleeps (
        refl,
        inr (
          min_sleep_duration + jitter,
          refl,
          omega arith,
          omega arith,
          refl,
          ground (arith, sleeps),
          ground (arith, sleeps),
        ),
      )
      | inr stays ↦ rw stays (refl, inl (refl, refl, ground (arith, stays)))
    ]

-- With counts below 2^31 and a jitter below 30 s, RecordBlock counts the block, and asks for a sleep
-- exactly when the node is not in its cooldown and it has met three blocks in a row itself, or Redis
-- tells of three or more; the sleep is then at least 30 s, less than 60 s, and the cooldown entered.
pub record_block_outcome :
    (n : ℕ) (cooling : Bool) (redis : Option ℕ) (jitter : ℕ)
    → suc n < 2 ^ 31
    → told redis < 2 ^ 31
    → jitter < 30 * second
    → let t : Throttler = record { consecutive_blocks = pos n; in_cooldown = cooling } in
      let t' = (record_block (reply_of redis) jitter t).0 in
      let sleep = (record_block (reply_of redis) jitter t).1 in
      (t'.consecutive_blocks ≡ pos (suc n))
      × ((sleep ≡ none)
            × (t'.in_cooldown ≡ cooling)
            × ((cooling ≡ true) ⊎ ((suc n < 3) × (told redis < 3)))
          ⊎ ((d : ℕ) × (sleep ≡ some d)
              × (30 * second ≤ d)
              × (d < 60 * second)
              × (t'.in_cooldown ≡ true)
              × (cooling ≡ false)
              × ((3 ≤ suc n) ⊎ (3 ≤ told redis))))
unfolding record_block
record_block_outcome n cooling redis jitter small_count small_reply short =
    let counted = to_int32-pos (suc n) small_count in
    let reached = shared_count-reached (suc n) redis small_reply in
    rw counted (rw reached (block_outcome n cooling (told redis) jitter short))

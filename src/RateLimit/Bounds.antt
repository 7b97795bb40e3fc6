-- ===== src/RateLimit/Bounds.antt =====
-- How many requests the bucket lets through.
use goods_hunter.Base.{
  ℕ, ap, true, ◌+◌, ◌-◌, ◌*◌, ◌≤◌, ◌<◌, ◌≡◌, min, List, [], ◌∷◌, none, some, arith, sym, ◌∙◌, ltb,
}
use native.Mathlib.Nat.{div-add-mod', mod-lt, sub_self, zero-mul}
use goods_hunter.RateLimit.Bucket.{Bucket, spend, token_bucket, refilled, ttl}

-- The requests of one bucket in turn, each at its client's time: how many pass.
unfoldable pub run : ℕ → ℕ → List ℕ → Bucket → ℕ × Bucket
run rate burst [] b = (0, b)
run rate burst (now ∷ rest) b =
    let (reply, b') = token_bucket rate burst now 1 b in
    let (passed, b'') = run rate burst rest b' in (reply + passed, b'')

-- A bucket that holds `tokens` thousandths since `ts`.
abbrev pub holding : ℕ → ℕ → Bucket
holding tokens ts = record { tokens = some tokens; ts = some ts }

token_bucket_spends :
    (rate burst now : ℕ) (b : Bucket)
    → 0 < rate
    → 0 < burst
    → token_bucket rate burst now 1 b ≡ spend 1 (refilled rate burst now b)
unfolding token_bucket
token_bucket_spends rate burst now b r h = ground arith

mul_mono : (a b c : ℕ) → a ≤ b → a * c ≤ b * c
mul_mono a b c h = grind arith

abbrev pub fresh : Bucket
fresh = record { tokens = none; ts = none }

refilled_full :
    (rate burst now tokens ts : ℕ)
    → 0 < burst
    → burst * 1000 ≤ (now - ts) * rate
    → refilled rate burst now (holding tokens ts) ≡ (burst * 1000, now)
unfolding refilled
refilled_full rate burst now tokens ts h k =
    let more : ltb 0 ((now - ts) * rate) ≡ true = ground arith in
    let full : min (burst * 1000) (tokens + (now - ts) * rate) ≡ burst * 1000 = omega arith in
    rw more (rw full)

refilled-fresh_full : (rate burst now : ℕ) → refilled rate burst now fresh ≡ (burst * 1000, now)
unfolding refilled
refilled-fresh_full rate burst now =
    let none_passed : (now - now) * rate ≡ 0 =
      ap (λ (n : ℕ). n * rate) (sub_self now) ∙ zero-mul rate in
    rw none_passed

ttl_enough : (rate burst : ℕ) → 0 < rate → burst * 1000 ≤ ttl rate burst * rate
unfolding ttl
ttl_enough rate burst h =
    omega
      (arith, div-add-mod' (burst * 2000 + (rate - 1)) rate, mod-lt (burst * 2000 + (rate - 1)) h)

-- A key that nobody has used for its time to live may be gone: the next request finds the bucket
-- as if it had stayed, if the clocks of its client and of the server agree.
pub token_bucket-expired :
    (rate burst now tokens ts : ℕ)
    → 0 < rate
    → 0 < burst
    → ts + ttl rate burst ≤ now
    → token_bucket rate burst now 1 fresh ≡ token_bucket rate burst now 1 (holding tokens ts)
token_bucket-expired rate burst now tokens ts r h k =
    let idle : ttl rate burst * rate ≤ (now - ts) * rate =
      mul_mono (ttl rate burst) (now - ts) rate (omega arith) in
    let full : burst * 1000 ≤ (now - ts) * rate = omega (arith, idle, ttl_enough rate burst r) in
    token_bucket_spends rate burst now fresh r h
    ∙ ap (spend 1)
        (refilled-fresh_full rate burst now ∙ sym (refilled_full rate burst now tokens ts h full))
    ∙ sym (token_bucket_spends rate burst now (holding tokens ts) r h)

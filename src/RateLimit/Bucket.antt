-- ===== src/RateLimit/Bucket.antt =====
-- tokenBucketLua and Allow. The script's tokens are thousandths here, so that its refill of
-- delta * rate / 1000 is exact; the rounding of its floating-point numbers is not modelled.
use goods_hunter.Base.{
  ℕ, ◌+◌, ◌-◌, ◌*◌, ◌/◌, ◌==◌, ltb, min, Bool, false, not, ◌&&◌, ◌||◌, Option, none, some,
  if◌then◌else◌,
}
use goods_hunter.Base.Int.{ℤ, pos, negsuc, eqb_ℤ}
use goods_hunter.Base.Text.{Text, is_empty, text_eq, str}
use goods_hunter.Base.Decimal.{parse_int}

-- The hash at the bucket's key: its fields "tokens" and "ts", none where they are missing.
pub record Bucket : Type 0 where
  pub tokens : Option ℕ
  pub ts : Option ℕ

abbrev pub get_or : Option ℕ → ℕ → ℕ
get_or none d = d
get_or (some n) d = n

-- The bucket's tokens and time after the refill. `now - ts` stops at 0, as math.max has it.
unfoldable pub refilled : ℕ → ℕ → ℕ → Bucket → ℕ × ℕ
refilled rate burst now b =
    let tokens = get_or b.tokens (burst * 1000) in
    let ts = get_or b.ts now in
    let refill = (now - ts) * rate in
    if ltb 0 refill then (min (burst * 1000) (tokens + refill), now) else (tokens, ts)

-- The test for enough tokens, and the hash that either branch writes.
unfoldable pub spend : ℕ → ℕ × ℕ → ℕ × Bucket
spend requested (tokens, ts) =
    if ltb tokens (requested * 1000)
    then (0, record { tokens = some tokens; ts = some ts })
    else (1, record { tokens = some (tokens - requested * 1000); ts = some ts })

-- The script's reply, 1 or 0, and the hash that it leaves.
unfoldable pub token_bucket : ℕ → ℕ → ℕ → ℕ → Bucket → ℕ × Bucket
token_bucket rate burst now requested b =
    if rate == 0 || burst == 0 then (1, b) else spend requested (refilled rate burst now b)

-- The milliseconds after which the key expires: ceil(burst / rate * 1000 * 2).
unfoldable pub ttl : ℕ → ℕ → ℕ
ttl rate burst = (burst * 2000 + (rate - 1)) / rate

-- A reply as go-redis hands it over.
pub data Reply : Type 0 where
  int_reply : ℤ → Reply
  text_reply : Text → Reply
  other_reply : Reply

abbrev int_or_zero : Option ℤ → ℤ
int_or_zero none = pos 0
int_or_zero (some n) = n

unfoldable pub to_int64 : Reply → ℤ
to_int64 (int_reply n) = n
to_int64 (text_reply t) = if is_empty t then pos 0 else int_or_zero (parse_int t)
to_int64 other_reply = pos 0

pub data Verdict : Type 0 where
  allowed refused : Verdict
  client_nil key_empty eval_failed invalid_result : Verdict

-- `res != int64(0) && res != "0"`.
abbrev is_zero_reply : Reply → Bool
is_zero_reply (int_reply n) = eqb_ℤ n (pos 0)
is_zero_reply (text_reply t) = text_eq t (str "0")
is_zero_reply other_reply = false

judge : Option Reply → Verdict
unfolding to_int64
judge none = eval_failed
judge (some res) =
    if eqb_ℤ (to_int64 res) (pos 0) && not (is_zero_reply res)
    then invalid_result
    else if eqb_ℤ (to_int64 res) (pos 1)
    then allowed
    else refused

abbrev is_positive : ℤ → Bool
is_positive (pos n) = ltb 0 n
is_positive (negsuc n) = false

abbrev magnitude : ℤ → ℕ
magnitude (pos n) = n
magnitude (negsuc n) = 0

-- Allow with a reply of the server: `deliver` is what the connection makes of the script's reply.
unfoldable pub allow : Bool → Text → ℤ → ℤ → ℕ → (ℕ → Option Reply) → Bucket → Verdict × Bucket
unfolding judge
allow client_is_nil key limit burst now deliver b =
    if client_is_nil
    then (client_nil, b)
    else if is_empty key
    then (key_empty, b)
    else if not (is_positive limit && is_positive burst)
    then (allowed, b)
    else let (reply, b') = token_bucket (magnitude limit) (magnitude burst) now 1 b in
      (judge (deliver reply), b')

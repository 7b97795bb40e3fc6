-- ===== src/Base/Decimal.antt =====
-- Decimal numerals: strconv.FormatUint and strconv.ParseUint at base 10 and 64 bits.
use Prim.Native.Nat.{ℕ, zero, suc, ◌+◌, ◌-◌, ◌*◌, ◌/◌, ◌%◌, ◌^◌, ◌≤◌, ◌<◌}
use mathlib.Core.Path.{◌≡◌, refl, ◌∙◌}
use mathlib.Core.Bool.{Bool, true, false, ◌&&◌, not}
use mathlib.Core.List.{[], ◌∷◌, ◌++◌, reverse, reverse-append, reverse-cons}
use mathlib.Core.Logic.{◌≢◌, inl, inr}
use mathlib.Core.Option.{Option, none, some}
use native.Mathlib.Omega.{arith}
use goods_hunter.Base.Tests.{ltb, leb, ◌==◌, if◌then◌else◌, Bool-cases}
use goods_hunter.Base.Text.{Text, is_space, is_empty, trim_left, trim_space}
use goods_hunter.Base.Int.{ℤ, pos, sub_ℕ}
use mathlib.Core.Option

unfoldable pub is_digit : ℕ → Bool
is_digit c = leb b'0' c && leb c b'9'

-- The digits of `n`, most significant first, before `rest`. `n + 1` rounds are enough.
digits_onto : ℕ → ℕ → Text → Text
digits_onto zero n rest = rest
digits_onto (suc f) n rest =
    let more = digits_onto f (n / 10) ((b'0' + n % 10) ∷ rest) in
    if ltb n 10 then (b'0' + n) ∷ rest else more

unfoldable pub format_uint : ℕ → Text
unfolding digits_onto
format_uint n = digits_onto (suc n) n []

-- The value of a run of digits after `acc`; none at another character.
digits_value : ℕ → Text → Option ℕ
unfolding is_digit
digits_value acc [] = some acc
digits_value acc (c ∷ s) =
    let more = digits_value (acc * 10 + (c - b'0')) s in if is_digit c then more else none

abbrev pub max_uint64 : ℕ
max_uint64 = 2 ^ 64 - 1

in_range : ℕ → Option ℕ → Option ℕ
in_range limit none = none
in_range limit (some n) = if leb n limit then some n else none

-- ParseUint: an empty text, a sign, another character and a value past 64 bits are errors.
unfoldable pub parse_uint : Text → Option ℕ
unfolding digits_value in_range
parse_uint [] = none
parse_uint (c ∷ s) = in_range max_uint64 (digits_value 0 (c ∷ s))

digits_value_step :
    (acc d : ℕ) (rest : Text)
    → d < 10
    → digits_value acc ((b'0' + d) ∷ rest) ≡ digits_value (acc * 10 + d) rest
unfolding digits_value
digits_value_step acc d rest h = ground arith

-- Reading what was printed before `rest` goes on at `rest` with the number read.
digits_value-digits_onto :
    (f n : ℕ) (rest : Text) → n < f → digits_value 0 (digits_onto f n rest) ≡ digits_value n rest
unfolding digits_onto
digits_value-digits_onto zero n rest h = elim h [ ]
digits_value-digits_onto (suc f) n rest h = elim (Bool-cases (ltb n 10)) [
  | inl small ↦ rw small (ground (arith, digits_value_step 0 n rest))
  | inr big ↦ rw big (
      digits_value-digits_onto f (n / 10) ((b'0' + n % 10) ∷ rest) (ground arith)
      ∙ ground (arith, digits_value_step (n / 10) (n % 10) rest))
]

digits_value-format_uint : (n : ℕ) → digits_value 0 (format_uint n) ≡ some n
unfolding format_uint digits_value
digits_value-format_uint n = digits_value-digits_onto (suc n) n [] (omega arith)

parse_uint-nonempty : (t : Text) → t ≢ [] → parse_uint t ≡ in_range max_uint64 (digits_value 0 t)
unfolding parse_uint
parse_uint-nonempty [] h = absurd (h refl)
parse_uint-nonempty (c ∷ s) h = refl

digits_onto-ne-nil : (f n c : ℕ) (rest : Text) → digits_onto f n (c ∷ rest) ≢ []
unfolding digits_onto
digits_onto-ne-nil zero n c rest = λ e. cc
digits_onto-ne-nil (suc f) n c rest =
    ground (arith, digits_onto-ne-nil f (n / 10) (b'0' + n % 10) (c ∷ rest))

pub format_uint-ne-nil : (n : ℕ) → format_uint n ≢ []
unfolding format_uint digits_onto
format_uint-ne-nil n = ground (arith, digits_onto-ne-nil n (n / 10) (b'0' + n % 10) [])

-- Every 64-bit number is read back from its decimal form.
pub parse_uint-format_uint : (n : ℕ) → n ≤ max_uint64 → parse_uint (format_uint n) ≡ some n
unfolding in_range
parse_uint-format_uint n h =
    parse_uint-nonempty (format_uint n) (format_uint-ne-nil n)
    ∙ rw (digits_value-format_uint n) (ground arith)

-- fmt.Sscanf with "%d" into an int64: blanks that are no newline, a sign, and the digits up to
-- the first other character.
leading_digits : Text → Text
unfolding is_digit
leading_digits [] = []
leading_digits (c ∷ s) = if is_digit c then c ∷ leading_digits s else []

skip_blanks : Text → Text
unfolding is_space
skip_blanks [] = []
skip_blanks (c ∷ s) = if is_space c && not (c == 10) then skip_blanks s else c ∷ s

magnitude : ℕ → Text → Option ℕ
unfolding digits_value in_range
magnitude limit [] = none
magnitude limit (c ∷ s) = in_range limit (digits_value 0 (c ∷ s))

signed : ℕ → Text → Option ℤ
unfolding leading_digits magnitude
signed c s =
    if c == b'-'
    then Option.map (λ n. sub_ℕ 0 n) (magnitude (2 ^ 63) (leading_digits s))
    else if c == b'+'
    then Option.map pos (magnitude (2 ^ 63 - 1) (leading_digits s))
    else Option.map pos (magnitude (2 ^ 63 - 1) (leading_digits (c ∷ s)))

scan_sign : Text → Option ℤ
unfolding signed
scan_sign [] = none
scan_sign (c ∷ s) = signed c s

unfoldable pub scan_int : Text → Option ℤ
unfolding skip_blanks scan_sign
scan_int s = scan_sign (skip_blanks s)

scan_int_runs : scan_int (b' ' ∷ format_uint 1700000000) ≡ some (pos 1700000000)
unfolding scan_int format_uint
scan_int_runs = refl

-- strconv.ParseInt at base 10 and 64 bits: an optional sign, then digits only.
parse_signed : ℕ → Text → Option ℤ
unfolding magnitude digits_value in_range
parse_signed c s =
    if c == b'-'
    then Option.map (λ n. sub_ℕ 0 n) (magnitude (2 ^ 63) s)
    else if c == b'+'
    then Option.map pos (magnitude (2 ^ 63 - 1) s)
    else Option.map pos (magnitude (2 ^ 63 - 1) (c ∷ s))

unfoldable pub parse_int : Text → Option ℤ
unfolding parse_signed
parse_int [] = none
parse_int (c ∷ s) = parse_signed c s

parse_int_runs : parse_int (b'-' ∷ format_uint 42) ≡ some (sub_ℕ 0 42)
unfolding parse_int format_uint
parse_int_runs = refl

magnitude-nonempty :
    (limit : ℕ) (t : Text) → t ≢ [] → magnitude limit t ≡ in_range limit (digits_value 0 t)
unfolding magnitude
magnitude-nonempty limit [] h = absurd (h refl)
magnitude-nonempty limit (c ∷ s) h = refl

digits_value-head : (c : ℕ) (s : Text) (v : ℕ) → digits_value 0 (c ∷ s) ≡ some v → is_digit c ≡ true
unfolding digits_value
digits_value-head c s v e = ground arith

digit_no_sign : (c : ℕ) → is_digit c ≡ true → ((c == b'-') ≡ false) × ((c == b'+') ≡ false)
unfolding is_digit
digit_no_sign c h = (ground arith, ground arith)

-- Without a sign in front it is the number.
parse_int-unsigned :
    (t : Text) (v : ℕ)
    → digits_value 0 t ≡ some v
    → t ≢ []
    → parse_int t ≡ Option.map pos (magnitude (2 ^ 63 - 1) t)
unfolding parse_int parse_signed
parse_int-unsigned [] v e h = absurd (h refl)
parse_int-unsigned (c ∷ s) v e h =
    let (no_minus, no_plus) = digit_no_sign c (digits_value-head c s v e) in
    rw no_minus (rw no_plus)

pub parse_int-format_uint : (n : ℕ) → n < 2 ^ 63 → parse_int (format_uint n) ≡ some (pos n)
unfolding in_range
parse_int-format_uint n h =
    parse_int-unsigned (format_uint n) n (digits_value-format_uint n) (format_uint-ne-nil n)
    ∙ rw (magnitude-nonempty (2 ^ 63 - 1) (format_uint n) (format_uint-ne-nil n))
        (rw (digits_value-format_uint n) (ground arith))

pub digit_no_space : (c : ℕ) → is_digit c ≡ true → is_space c ≡ false
unfolding is_digit is_space
digit_no_space c h = ground arith

trim_left-snoc :
    (c : ℕ) (s : Text)
    → is_space c ≡ false
    → (t : Text) × (trim_left (s ++ (c ∷ [])) ≡ t ++ (c ∷ []))
unfolding trim_left
trim_left-snoc c [] h = ([], rw h)
trim_left-snoc c (x ∷ s) h = elim (Bool-cases (is_space x)) [
  | inl blank ↦ rw blank (trim_left-snoc c s h)
  | inr ink ↦ rw ink ((x ∷ s, refl))
]

is_empty-reverse : (t : Text) (c : ℕ) → is_empty (reverse (t ++ (c ∷ []))) ≡ false
unfolding is_empty
is_empty-reverse t c = rw (reverse-append t (c ∷ []))

trim_space-ink : (c : ℕ) (s : Text) → is_space c ≡ false → is_empty (trim_space (c ∷ s)) ≡ false
unfolding trim_space trim_left
trim_space-ink c s h =
    let (t, rest) = trim_left-snoc c (reverse s) h in
    rw (h, reverse-cons c s, rest) (is_empty-reverse t c)

trim_space-digits :
    (t : Text) (v : ℕ) → digits_value 0 t ≡ some v → t ≢ [] → is_empty (trim_space t) ≡ false
trim_space-digits [] v e h = absurd (h refl)
trim_space-digits (c ∷ s) v e h = trim_space-ink c s (digit_no_space c (digits_value-head c s v e))

pub trim_space-format_uint : (n : ℕ) → is_empty (trim_space (format_uint n)) ≡ false
trim_space-format_uint n =
    trim_space-digits (format_uint n) n (digits_value-format_uint n) (format_uint-ne-nil n)

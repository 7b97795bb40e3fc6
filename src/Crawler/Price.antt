-- ===== src/Crawler/Price.antt =====
-- internal/crawler/parse.go, parsePrice.
use goods_hunter.Base.{
  ℕ, ◌^◌, ◌<◌, ◌==◌, ltb, ◌≡◌, refl, ap, ◌∙◌, Bool, true, false, ◌&&◌, ◌||◌, not, List, [], ◌∷◌,
  ◌++◌, Option, none, some, if◌then◌else◌, length, arith,
}
use goods_hunter.Base.Int.{ℤ, pos, ltb_ℤ}
use goods_hunter.Base.Text.{Text, remove_char, trim_space, is_empty}
use goods_hunter.Base.Decimal.{is_digit, parse_int, format_uint, parse_int-format_uint}

pub data PriceError : Type 0 where
  empty_price no_digits no_valid_digits : PriceError

pub data Price : Type 0 where
  ok : ℤ → Price
  err : PriceError → Price

abbrev pub yen : ℕ
yen = 0xa5

abbrev pub wide_yen : ℕ
wide_yen = 0xffe5

-- The class \s of package regexp.
unfoldable pub is_blank : ℕ → Bool
is_blank c = c == 9 || c == 10 || c == 12 || c == 13 || c == 32

unfoldable pub skip_blanks : Text → Text
unfolding is_blank
skip_blanks [] = []
skip_blanks (c ∷ s) = if is_blank c then skip_blanks s else c ∷ s

-- [0-9,]*
unfoldable pub amount_run : Text → Text
unfolding is_digit
amount_run [] = []
amount_run (c ∷ s) = if is_digit c || c == b',' then c ∷ amount_run s else []

-- [0-9][0-9,]*
unfoldable pub amount_at : Text → Option Text
unfolding amount_run is_digit
amount_at [] = none
amount_at (c ∷ s) = if is_digit c then some (c ∷ amount_run s) else none

or_later : Option Text → Option Text → Option Text
or_later none later = later
or_later (some m) later = some m

-- priceWithCurrencyRe: the group of the leftmost match.
unfoldable pub find_amount : Text → Option Text
unfolding amount_at skip_blanks or_later
find_amount [] = none
find_amount (c ∷ s) =
    let later = find_amount s in
    if c == yen || c == wide_yen then or_later (amount_at (skip_blanks s)) later else later

-- priceRe: the runs of digits, from left to right.
unfoldable pub digit_run : Text → Text
unfolding is_digit
digit_run [] = []
digit_run (c ∷ s) = if is_digit c then c ∷ digit_run s else []

unfoldable pub runs_from : Bool → Text → List Text
unfolding digit_run is_digit
runs_from inside [] = []
runs_from inside (c ∷ s) =
    let rest = runs_from (is_digit c) s in
    if is_digit c && not inside then (c ∷ digit_run s) ∷ rest else rest

unfoldable pub digit_runs : Text → List Text
unfolding runs_from
digit_runs = runs_from false

-- The best match so far: its value and length.
abbrev Best : Type 0
Best = Option (ℤ × ℕ)

better : ℤ → ℕ → Best → Best
better val len none = some (val, len)
better val len (some (best_val, best_len)) =
    if ltb best_len len || (len == best_len && ltb_ℤ best_val val)
    then some (val, len)
    else some (best_val, best_len)

consider : Option ℤ → ℕ → Best → Best
unfolding better
consider none len best = best
consider (some val) len best = better val len best

unfoldable pub best_of : List Text → Best → Best
unfolding consider parse_int
best_of [] best = best
best_of (m ∷ ms) best = best_of ms (consider (parse_int m) (length m) best)

found_price : Best → Price
found_price none = err no_valid_digits
found_price (some (val, _)) = ok val

price_of_runs : List Text → Price
unfolding best_of found_price
price_of_runs [] = err no_digits
price_of_runs (m ∷ ms) = found_price (best_of (m ∷ ms) none)

unfoldable pub cleaned : Text → Text
unfolding remove_char trim_space
cleaned txt = trim_space (remove_char b',' (remove_char wide_yen (remove_char yen txt)))

price_of_cleaned : Text → Price
unfolding price_of_runs digit_runs
price_of_cleaned t = if is_empty t then err empty_price else price_of_runs (digit_runs t)

amount_value : Option Text → Option ℤ
unfolding remove_char parse_int
amount_value none = none
amount_value (some m) = parse_int (remove_char b',' m)

price_or : Option ℤ → Text → Price
unfolding price_of_cleaned cleaned is_empty
price_or (some val) txt = ok val
price_or none txt = price_of_cleaned (cleaned txt)

unfoldable pub parse_price : Text → Price
unfolding amount_value find_amount price_or
parse_price txt = price_or (amount_value (find_amount txt)) txt

abbrev pub all_chars : (ℕ → Bool) → Text → Bool
all_chars p [] = true
all_chars p (c ∷ s) = p c && all_chars p s

abbrev pub is_amount_char : ℕ → Bool
is_amount_char c = is_digit c || c == b','

amount_run_all : (s : Text) → all_chars is_amount_char s ≡ true → amount_run s ≡ s
unfolding amount_run
amount_run_all [] h = refl
amount_run_all (c ∷ s) h = ground (arith, amount_run_all s)

skip_blanks_all :
    (blanks : Text) (c : ℕ) (s : Text)
    → all_chars is_blank blanks ≡ true
    → is_digit c ≡ true
    → skip_blanks (blanks ++ c ∷ s) ≡ c ∷ s
unfolding skip_blanks is_digit
skip_blanks_all [] c s h d = ground arith
skip_blanks_all (b ∷ blanks) c s h d = ground (arith, skip_blanks_all blanks c s)

amount_at_all :
    (c : ℕ) (s : Text)
    → is_digit c ≡ true
    → all_chars is_amount_char s ≡ true
    → amount_at (c ∷ s) ≡ some (c ∷ s)
unfolding amount_at
amount_at_all c s d h = rw d (rw (amount_run_all s h))

find_amount-amount :
    (blanks : Text) (c : ℕ) (s : Text)
    → all_chars is_blank blanks ≡ true
    → is_digit c ≡ true
    → all_chars is_amount_char s ≡ true
    → find_amount (yen ∷ blanks ++ c ∷ s) ≡ some (c ∷ s)
unfolding find_amount
find_amount-amount blanks c s b d h =
    ap (λ t. or_later (amount_at t) (find_amount (blanks ++ c ∷ s)))
      (skip_blanks_all blanks c s b d)
    ∙ ap (λ o. or_later o (find_amount (blanks ++ c ∷ s))) (amount_at_all c s d h)

-- A yen sign, blanks, and digits with commas among them that spell `n` give the price `n`.
pub parse_price-amount :
    (n : ℕ) (blanks : Text) (c : ℕ) (s : Text)
    → n < 2 ^ 63
    → all_chars is_blank blanks ≡ true
    → is_digit c ≡ true
    → all_chars is_amount_char s ≡ true
    → remove_char b',' (c ∷ s) ≡ format_uint n
    → parse_price (yen ∷ blanks ++ c ∷ s) ≡ ok (pos n)
unfolding parse_price
parse_price-amount n blanks c s small b d h e =
    ap (λ o. price_or (amount_value o) (yen ∷ blanks ++ c ∷ s))
      (find_amount-amount blanks c s b d h)
    ∙ ap (λ o. price_or o (yen ∷ blanks ++ c ∷ s)) (ap parse_int e ∙ parse_int-format_uint n small)

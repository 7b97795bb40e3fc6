-- ===== src/Api/NewRow.antt =====
-- A table with one more row, and the digits of a code, which trimming leaves as they are.
use mathlib.Core.Option.{none-ne-some}
use mathlib.Core.List.{reverse, reverse-cons, reverse-reverse, append_assoc, append-nil}
use goods_hunter.Base.Decimal.{is_digit, digit_no_space}
use goods_hunter.Base.{
  ℕ, zero, suc, ◌+◌, ◌%◌, ◌++◌, ◌<◌, ◌==◌, ◌≡◌, refl, ◌∙◌, sym, ap, subst, true, false, List, [],
  ◌∷◌, Option, none, some, if◌then◌else◌, arith, Bool-cases, inl, inr,
}
use goods_hunter.Base.Text.{Text, text_eq, text_eq_iff, is_space, trim_left, trim_space}
use goods_hunter.Api.Users.{User, Users, put_row, create_row, find_email, find_from, has_email}
use goods_hunter.Api.Auth.{Replies, lookup, digits_of}

-- The table has one more row than `t`, with that user.
pub record New (u : User) (t t' : Users) : Type 0 where
  pub next : t'.next_id ≡ suc t.next_id
  pub older : (k : ℕ) → k < t.next_id → t'.row k ≡ t.row k
  pub newest : t'.row t.next_id ≡ some u

pub put_row-New :
    (u u' : User) (t t' : Users)
    → u'.id ≡ t.next_id
    → New u t t'
    → New u' t (put_row u'.id (some u') t')
unfolding put_row
put_row-New u u' t t' same h = record {
  next = h.next;
  older = λ k below. let other : (k == u'.id) ≡ false = ground arith in rw other (h.older k below);
  newest = let here : (t.next_id == u'.id) ≡ true = ground arith in rw here;
}

pub create_row-New : (make : ℕ → User) (t : Users) → New (make t.next_id) t (create_row make t)
unfolding create_row put_row
create_row-New make t = record {
  next = refl;
  older = λ k below. let other : (k == t.next_id) ≡ false = ground arith in rw other;
  newest = let here : (t.next_id == t.next_id) ≡ true = ground arith in rw here;
}

none-skipped :
    (email : Text) (o rest : Option User)
    → (if has_email email o then o else rest) ≡ none
    → (has_email email o ≡ false) × (rest ≡ none)
unfolding has_email
none-skipped email none rest e = (refl, e)
none-skipped email (some u) rest e = elim (Bool-cases (text_eq u.email email)) [
  | inl here ↦
      absurd (none-ne-some u (sym (subst (λ b. (if b then some u else rest) ≡ none) here e)))
  | inr past ↦ (past, subst (λ b. (if b then some u else rest) ≡ none) past e)
]

find_from-New :
    (email : Text) (left id last : ℕ) (u : User) (t t' : Users)
    → find_from email left id t ≡ none
    → u.email ≡ email
    → last ≡ id + left
    → ((k : ℕ) → k < last → t'.row k ≡ t.row k)
    → t'.row last ≡ some u
    → find_from email (suc left) id t' ≡ some u
unfolding find_from has_email
find_from-New email zero id last u t t' absent named at older newest =
    let there : t'.row id ≡ some u = subst (λ k. t'.row k ≡ some u) (omega arith) newest in
    let same : text_eq u.email email ≡ true = (text_eq_iff u.email email).1 named in
    rw (there, same)
find_from-New email (suc left) id last u t t' absent named at older newest =
    let (past, later) = none-skipped email (t.row id) (find_from email left (suc id) t) absent in
    let old = older id (omega arith) in
    let found =
      find_from-New email left (suc id) last u t t' later named (omega arith) older newest in
    let skipped : has_email email (t'.row id) ≡ false = ap (has_email email) old ∙ past in
    rw skipped found

pub lookup-New :
    (r : Replies) (email : Text) (u : User) (t t' : Users)
    → r.find_ok ≡ true
    → find_email email t ≡ none
    → u.email ≡ email
    → New u t t'
    → lookup r email t' ≡ some u
unfolding lookup find_email
lookup-New r email u t t' ok absent named h =
    ap (λ b. if b then find_from email t'.next_id 0 t' else none) ok
    ∙ ap (λ n. find_from email n 0 t') h.next
    ∙ find_from-New email t.next_id 0 t.next_id u t t' absent named (omega arith) h.older h.newest

digit-ink : (b : ℕ) → is_space (b'0' + b % 10) ≡ false
unfolding is_digit
digit-ink b = digit_no_space (b'0' + b % 10) (ground arith)

trim_left-ink : (c : ℕ) (s : Text) → is_space c ≡ false → trim_left (c ∷ s) ≡ c ∷ s
unfolding trim_left
trim_left-ink c s ink = rw ink

trim_left-reverse_digits :
    (bs : List ℕ) (rest : Text)
    → trim_left rest ≡ rest
    → trim_left (reverse (digits_of bs) ++ rest) ≡ reverse (digits_of bs) ++ rest
unfolding digits_of
trim_left-reverse_digits [] rest h = h
trim_left-reverse_digits (b ∷ bs) rest h =
    let d = b'0' + b % 10 in
    let shape =
      ap (λ (x : Text). x ++ rest) (reverse-cons d (digits_of bs))
      ∙ append_assoc (reverse (digits_of bs)) (d ∷ []) rest in
    subst (λ (x : Text). trim_left x ≡ x) (sym shape)
      (trim_left-reverse_digits bs (d ∷ rest) (trim_left-ink d rest (digit-ink b)))

trim_left-digits : (bs : List ℕ) → trim_left (digits_of bs) ≡ digits_of bs
unfolding digits_of trim_left
trim_left-digits [] = refl
trim_left-digits (b ∷ bs) = trim_left-ink (b'0' + b % 10) (digits_of bs) (digit-ink b)

pub trim_space-digits_of : (bs : List ℕ) → trim_space (digits_of bs) ≡ digits_of bs
unfolding trim_space trim_left
trim_space-digits_of bs =
    let back =
      ap trim_left (sym (append-nil (reverse (digits_of bs))))
      ∙ trim_left-reverse_digits bs [] refl
      ∙ append-nil (reverse (digits_of bs)) in
    ap (λ s. reverse (trim_left (reverse s))) (trim_left-digits bs)
    ∙ ap reverse back
    ∙ reverse-reverse (digits_of bs)

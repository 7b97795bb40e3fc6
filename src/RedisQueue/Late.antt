-- ===== src/RedisQueue/Late.antt =====
-- Which entries in processing are late, and lists with one entry taken out.
use goods_hunter.Base.{
  ltb, ◌+◌, ℕ, ◌≡◌, refl, Bool, true, false, List, [], ◌∷◌, ◌++◌, Option, none, some, if◌then◌else◌,
  All, any, keep, arith, Bool-cases, inl, inr,
}
use goods_hunter.Base.Int.{ℤ, pos, eqb_ℤ, pos_part, neg_part}
use goods_hunter.Base.Decimal.{scan_int}
use goods_hunter.Base.Text.{Text, text_eq_iff, text_eq_refl, is_empty}
use goods_hunter.Redis.{erase, holds}
use goods_hunter.RedisQueue.Types.{FetchRequest, Codec}
use goods_hunter.RedisQueue.Janitor.{is_overdue, within}

-- The time that an entry's age is counted from: its start, or its creation where no start is kept.
abbrev pub since : ℤ → Option Text → Option ℤ
since created none = if eqb_ℤ created (pos 0) then none else some created
since created (some start) = scan_int start

-- More seconds than the threshold have passed since then.
abbrev pub older : ℕ → ℕ → Option ℤ → Bool
older now threshold none = false
older now threshold (some t) = ltb (threshold + pos_part t) (now + neg_part t)

-- The entries that the janitor is to requeue: those with an id that are older than the threshold.
abbrev pub request_late : (Text → Option Text) → ℕ → ℕ → Option FetchRequest → Bool
request_late started now threshold none = false
request_late started now threshold (some t) =
    if is_empty t.task_id
    then false
    else older now threshold (since t.created_at (started t.task_id))

within-older :
    (now threshold : ℕ) (t : ℤ)
    → (if within now threshold t then false else true) ≡ older now threshold (some t)
unfolding within
within-older now threshold t = ground arith

scanned-older :
    (now threshold : ℕ) (o : Option ℤ)
    → elim o as (λ _. Bool) [
      | none ↦ false
      | some t ↦ if within now threshold t then false else true
    ]
      ≡ older now threshold o
scanned-older now threshold none = refl
scanned-older now threshold (some t) = within-older now threshold t

pub is_overdue-older :
    (now threshold : ℕ) (created : ℤ) (start : Option Text)
    → is_overdue now threshold created start ≡ older now threshold (since created start)
unfolding is_overdue
is_overdue-older now threshold created none = elim (Bool-cases (eqb_ℤ created (pos 0))) [
  | inl unset ↦ rw unset
  | inr set ↦ rw set (within-older now threshold created)
]
is_overdue-older now threshold created (some start) = scanned-older now threshold (scan_int start)

abbrev pub is_late : Codec → (Text → Option Text) → ℕ → ℕ → Text → Bool
is_late codec started now threshold raw =
    request_late started now threshold (codec.unmarshal_task raw)

-- LPUSH of each in turn.
abbrev pub pushed_onto : List Text → List Text → List Text
pushed_onto [] tasks = tasks
pushed_onto (raw ∷ l) tasks = pushed_onto l (raw ∷ tasks)

pub erase-middle :
    (p : Text → Bool) (raw : Text) (before after : List Text)
    → All (λ x. p x ≡ false) before
    → p raw ≡ true
    → (erase raw (before ++ raw ∷ after) ≡ before ++ after)
      × (holds raw (before ++ raw ∷ after) ≡ true)
erase-middle p raw [] after h e = rw (text_eq_refl raw) (refl, refl)
erase-middle p raw (x ∷ before) after h e =
    ground (arith, erase-middle p raw before after h.1 e, text_eq_iff raw x, h.0)

pub All-append {ℓ} :
    (P : Text → Type ℓ) (xs ys : List Text) → All P xs → All P ys → All P (xs ++ ys)
All-append P [] ys hx hy = hy
All-append P (x ∷ xs) ys hx hy = (hx.0, All-append P xs ys hx.1 hy)

pub holds-middle :
    (raw : Text) (before after : List Text) → holds raw (before ++ raw ∷ after) ≡ true
holds-middle raw [] after = rw (text_eq_refl raw)
holds-middle raw (x ∷ before) after = ground (arith, holds-middle raw before after)

any-pushed_onto :
    (p : Text → Bool) (l tasks : List Text)
    → any p tasks ≡ true
    → any p (pushed_onto l tasks) ≡ true
any-pushed_onto p [] tasks h = h
any-pushed_onto p (x ∷ l) tasks h = any-pushed_onto p l (x ∷ tasks) (ground arith)

-- An entry that is picked and pushed is then found.
pub any-pushed_onto-keep :
    (p late : Text → Bool) (raw : Text) (before after tasks : List Text)
    → p raw ≡ true
    → late raw ≡ true
    → any p (pushed_onto (keep late (before ++ raw ∷ after)) tasks) ≡ true
any-pushed_onto-keep p late raw [] after tasks found picked =
    rw picked (any-pushed_onto p (keep late after) (raw ∷ tasks) (ground arith))
any-pushed_onto-keep p late raw (x ∷ before) after tasks found picked = elim (Bool-cases (late x)) [
  | inl over ↦ rw over (any-pushed_onto-keep p late raw before after (x ∷ tasks) found picked)
  | inr fresh ↦ rw fresh (any-pushed_onto-keep p late raw before after tasks found picked)
]

-- ===== src/Scheduler/Cleanup.antt =====
-- cleanupOldItems: it drops the oldest of a task's items once there are more than the limit.
use mathlib.Core.Option.{some-injective, none-ne-some}
use goods_hunter.Scheduler.Services.{Services}
use goods_hunter.Base.{
  ◌∙◌, ap, sym, ℕ, zero, suc, ◌≤◌, ◌<◌, ◌==◌, ltb, leb, ◌≡◌, refl, List, [], ◌∷◌, Option, none,
  some, if◌then◌else◌, length, keep, All, arith, subst, ◌⊎◌, inl, inr, Bool-cases,
}

abbrev pub get_elem? : List ℕ → ℕ → Option ℕ
get_elem? [] i = none
get_elem? (x ∷ xs) zero = some x
get_elem? (x ∷ xs) (suc i) = get_elem? xs i

delete_through : List ℕ → Option ℕ → List ℕ
delete_through times none = times
delete_through times (some cutoff) = if cutoff == 0 then times else keep (ltb cutoff) times

-- `times` are the creation times of the task's items as the query orders them, newest first; a
-- time of 0 is Go's zero time. What is left when no query fails.
unfoldable pub cleanup_old_items : ℕ → List ℕ → List ℕ
unfolding delete_through
cleanup_old_items max_items times =
    if max_items == 0
    then times
    else if leb (length times) max_items
    then times
    else delete_through times (get_elem? times max_items)

abbrev pub or_zero : Option ℕ → ℕ
or_zero none = 0
or_zero (some t) = t

cut : {W : Type 0} → Services W → ℕ → Option ℕ × W → W
cut v task_id (none, w) = w
cut v task_id (some cutoff, w) = if cutoff == 0 then w else (v.delete_links task_id cutoff w).1

counted : {W : Type 0} → Services W → ℕ → ℕ → Option ℕ × W → W
unfolding cut
counted v max_items task_id (none, w) = w
counted v max_items task_id (some count, w) =
    if leb count max_items then w else cut v task_id (v.cutoff_time task_id max_items w)

-- cleanupOldItems as the queries that it makes: any of them may fail, and ends it.
unfoldable pub run_cleanup : {W : Type 0} → Services W → ℕ → ℕ → W → W
unfolding counted
run_cleanup v max_items task_id w =
    if max_items == 0 then w else counted v max_items task_id (v.count_links task_id w)

-- `times` are the creation times of the task's links, newest first, and no query fails.
pub record LinkTable {W : Type 0} (v : Services W) (task_id : ℕ) (times : W → List ℕ) : Type 0 where
  pub count_law : (w : W) → (v.count_links task_id w).0 ≡ some (length (times w))
  pub count_keeps : (w : W) → times (v.count_links task_id w).1 ≡ times w
  pub cutoff_law :
      (offset : ℕ) (w : W)
      → (v.cutoff_time task_id offset w).0 ≡ some (or_zero (get_elem? (times w) offset))
  pub cutoff_keeps : (offset : ℕ) (w : W) → times (v.cutoff_time task_id offset w).1 ≡ times w
  pub delete_law :
      (cutoff : ℕ) (w : W) → times (v.delete_links task_id cutoff w).1 ≡ keep (ltb cutoff) (times w)

delete_through-or_zero :
    (times : List ℕ) (cutoff : Option ℕ)
    → delete_through times cutoff
      ≡ (if or_zero cutoff == 0 then times else keep (ltb (or_zero cutoff)) times)
unfolding delete_through
delete_through-or_zero times none = refl
delete_through-or_zero times (some t) = refl

cut_lem :
    {W : Type 0} (v : Services W) (task_id : ℕ) (times : W → List ℕ) (at : ℕ) (found : Option ℕ × W)
    → LinkTable v task_id times
    → found.0 ≡ some at
    → times (cut v task_id found)
      ≡ (if at == 0 then times found.1 else keep (ltb at) (times found.1))
unfolding cut
cut_lem v task_id times at found table e = rw e (elim (Bool-cases (at == 0)) [
  | inl unset ↦ rw unset
  | inr set ↦ rw set (table.delete_law at found.1)
])

-- When no query fails, the queries leave the creation times that the list function leaves.
pub run_cleanup-cleanup_old_items :
    {W : Type 0} (v : Services W) (task_id : ℕ) (times : W → List ℕ)
    → LinkTable v task_id times
    → (max_items : ℕ) (w : W)
    → times (run_cleanup v max_items task_id w) ≡ cleanup_old_items max_items (times w)
unfolding run_cleanup counted cleanup_old_items
run_cleanup-cleanup_old_items v task_id times table max_items w =
    elim (Bool-cases (max_items == 0)) [
      | inl off ↦ rw off
      | inr on ↦ elim (Bool-cases (leb (length (times w)) max_items)) [
        | inl few ↦ rw (on, table.count_law w) (rw few (table.count_keeps w))
        | inr many ↦
            let w1 = (v.count_links task_id w).1 in
            let cutoff = v.cutoff_time task_id max_items w1 in
            let same : times cutoff.1 ≡ times w =
              table.cutoff_keeps max_items w1 ∙ table.count_keeps w in
            let asked =
              table.cutoff_law max_items w1
              ∙ ap (λ ts. some (or_zero (get_elem? ts max_items))) (table.count_keeps w) in
            rw (on, table.count_law w)
              (rw many (
                cut_lem v task_id times (or_zero (get_elem? (times w) max_items)) cutoff table asked
                ∙ ap
                    (λ ts.
                      if or_zero (get_elem? (times w) max_items) == 0
                      then ts
                      else keep (ltb (or_zero (get_elem? (times w) max_items))) ts)
                    same
                ∙ sym (delete_through-or_zero (times w) (get_elem? (times w) max_items))))
      ]
    ]

abbrev pub Falls : List ℕ → Type 0
Falls [] = Unit {0}
Falls (t ∷ ts) = All (λ u. u ≤ t) ts × Falls ts

keep-none : (cutoff : ℕ) (ts : List ℕ) → All (λ u. u ≤ cutoff) ts → keep (ltb cutoff) ts ≡ []
keep-none cutoff [] h = refl
keep-none cutoff (t ∷ ts) h = ground (arith, keep-none cutoff ts h.1)

keep-newer :
    (n cutoff : ℕ) (ts : List ℕ)
    → Falls ts
    → get_elem? ts n ≡ some cutoff
    → length (keep (ltb cutoff) ts) ≤ n
keep-newer zero cutoff [] h e = omega arith
keep-newer zero cutoff (t ∷ ts) h e = ground (arith, keep-none t ts h.0)
keep-newer (suc n) cutoff [] h e = omega arith
keep-newer (suc n) cutoff (t ∷ ts) h e = ground (arith, keep-newer n cutoff ts h.1 e)

elem_below : (n : ℕ) (ts : List ℕ) → n < length ts → (t : ℕ) × (get_elem? ts n ≡ some t)
elem_below n [] h = absurd (omega arith)
elem_below zero (t ∷ ts) h = (t, refl)
elem_below (suc n) (t ∷ ts) h = elem_below n ts (omega arith)

elem-All : (P : ℕ → Type 0) (n t : ℕ) (ts : List ℕ) → All P ts → get_elem? ts n ≡ some t → P t
elem-All P n t [] h e = absurd (none-ne-some t e)
elem-All P zero t (u ∷ ts) h e = subst P (some-injective u t e) h.0
elem-All P (suc n) t (u ∷ ts) h e = elem-All P n t ts h.1 e

≤_total_split : (m n : ℕ) → (m ≤ n) ⊎ (n < m)
≤_total_split m n = elim (Bool-cases (leb m n)) [
  | inl e ↦ inl (grind arith)
  | inr e ↦ inr (grind arith)
]

-- No more than the limit, which is above 0, is left of the items, newest first, if all times are
-- past the zero time.
cleanup_old_items_bound :
    (max_items : ℕ) (times : List ℕ)
    → 0 < max_items
    → Falls times
    → All (λ t. 0 < t) times
    → length (cleanup_old_items max_items times) ≤ max_items
unfolding cleanup_old_items
cleanup_old_items_bound max_items times h falls past =
    elim (≤_total_split (length times) max_items) [
      | inl few ↦ ground arith
      | inr many ↦
          let found = elem_below max_items times many in
          let newer = keep-newer max_items found.0 times falls found.1 in
          let late = elem-All _ max_items found.0 times past found.1 in
          let hit : get_elem? times max_items ≡ some found.0 = found.1 in
          rw hit (ground (arith, newer, late))
    ]

-- When no link is newer than the one just past the limit, as when the newest ones beyond the limit
-- share one time, nothing is left.
pub cleanup_old_items_ties :
    (max_items : ℕ) (time : ℕ) (times : List ℕ)
    → 0 < max_items
    → 0 < time
    → max_items < length times
    → All (λ t. t ≤ time) times
    → get_elem? times max_items ≡ some time
    → cleanup_old_items max_items times ≡ []
unfolding cleanup_old_items
cleanup_old_items_ties max_items time times h past many newest hit =
    rw hit (ground (arith, keep-none time times newest))

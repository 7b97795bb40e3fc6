-- ===== src/Api/Own.antt =====
-- What a change of one user's rows keeps.
use mathlib.Core.List.{append-nil}
use goods_hunter.Base.{
  ℕ, suc, ◌+◌, ◌<◌, ◌≤◌, ◌==◌, ◌≡◌, ◌≢◌, refl, ◌∙◌, sym, ap, Bool, true, false, not, ◌&&◌, List, [],
  ◌∷◌, ◌++◌, if◌then◌else◌, map, length, length-append, arith, Bool-cases, inl, inr, ◌⊎◌,
}
use goods_hunter.Base.Text.{Text}
use goods_hunter.Api.Tasks.{TaskRow, Site, App}
use goods_hunter.Api.Changes.{keep, owned, count_tasks, update_rows, max_tasks}
use goods_hunter.Api.Removal.{names}

module _ {A : Type 0} (p : A → Bool) where
  keep-append : (xs ys : List A) → keep p (xs ++ ys) ≡ keep p xs ++ keep p ys
  unfolding keep
  keep-append [] ys = refl
  keep-append (x ∷ xs) ys = elim (Bool-cases (p x)) [
    | inl yes_ ↦ rw yes_ (ap (λ l. x ∷ l) (keep-append xs ys))
    | inr no_ ↦ rw no_ (keep-append xs ys)
  ]

  -- A map that moves only what `p` leaves out.
  keep-map :
      (f : A → A)
      → ((x : A) → p (f x) ≡ p x)
      → ((x : A) → p x ≡ true → f x ≡ x)
      → (xs : List A) → keep p (map f xs) ≡ keep p xs
  unfolding keep
  keep-map f same fixed [] = refl
  keep-map f same fixed (x ∷ xs) = elim (Bool-cases (p x)) [
    | inl yes_ ↦ rw (same x, yes_, fixed x yes_) (ap (λ l. x ∷ l) (keep-map f same fixed xs))
    | inr no_ ↦ rw (same x, no_) (keep-map f same fixed xs)
  ]

  -- What another test leaves of it.
  pub keep-keep :
      (r : A → Bool)
      → ((x : A) → p x ≡ true → r x ≡ true)
      → (xs : List A) → keep p (keep r xs) ≡ keep p xs
  unfolding keep
  keep-keep r all [] = refl
  keep-keep r all (x ∷ xs) = elim (Bool-cases (p x)) [
    | inl yes_ ↦ rw (all x yes_, yes_) (ap (λ l. x ∷ l) (keep-keep r all xs))
    | inr no_ ↦ elim (Bool-cases (r x)) [
      | inl stays ↦ rw (stays, no_) (keep-keep r all xs)
      | inr goes ↦ rw (goes, no_) (keep-keep r all xs)
    ]
  ]

  keep-length : (r : A → Bool) (xs : List A) → length (keep p (keep r xs)) ≤ length (keep p xs)
  unfolding keep
  keep-length r [] = omega arith
  keep-length r (x ∷ xs) =
      let rest = keep-length r xs in
      elim (Bool-cases (p x)) [
        | inl yes_ ↦ elim (Bool-cases (r x)) [
          | inl stays ↦ rw (stays, yes_) (omega arith)
          | inr goes ↦ rw (goes, yes_) (omega arith)
        ]
        | inr no_ ↦ elim (Bool-cases (r x)) [
          | inl stays ↦ rw (stays, no_) rest
          | inr goes ↦ rw (goes, no_) rest
        ]
      ]

  -- A map that no test sees.
  keep-length-map :
      (f : A → A)
      → ((x : A) → p (f x) ≡ p x)
      → (xs : List A) → length (keep p (map f xs)) ≡ length (keep p xs)
  unfolding keep
  keep-length-map f same [] = refl
  keep-length-map f same (x ∷ xs) = elim (Bool-cases (p x)) [
    | inl yes_ ↦ rw (same x, yes_) (ap suc (keep-length-map f same xs))
    | inr no_ ↦ rw (same x, no_) (keep-length-map f same xs)
  ]

-- What a request of `user` does: the rows of the others stay, and the user's number of rows stays
-- within any bound that is the limit at least.
pub record Own (app : App) (user : ℕ) (s s' : Site) : Type 0 where
  pub others : (other : ℕ) → user ≢ other → keep (owned other) s'.rows ≡ keep (owned other) s.rows
  pub bounded :
      count_tasks user s' ≤ count_tasks user s
      ⊎ (count_tasks user s' ≤ max_tasks app.max_tasks_per_user)

pub Own-refl : (app : App) (user : ℕ) (s : Site) → Own app user s s
Own-refl app user s = record { others = λ o h. refl; bounded = inl (omega arith) }

-- The same rows.
pub rows-Own : (app : App) (user : ℕ) (s s' : Site) → s'.rows ≡ s.rows → Own app user s s'
unfolding count_tasks
rows-Own app user s s' same = record {
  others = λ o h. ap (keep (owned o)) same;
  bounded = inl (let e = ap (λ l. length (keep (owned user) l)) same in omega arith);
}

pub other_owner : (user other n : ℕ) → user ≢ other → (n == other) ≡ true → (n == user) ≡ false
other_owner user other n apart h =
    let same : n ≡ other = ground arith in
    elim (Bool-cases (n == user)) [
      | inl mine ↦ absurd (apart (let too : n ≡ user = ground arith in sym too ∙ same))
      | inr no_ ↦ no_
    ]

and_false : (b : Bool) → (b && false) ≡ false
and_false true = refl
and_false false = refl

pub update_rows-Own :
    (app : App) (id : Text) (user : ℕ) (change : TaskRow → TaskRow) (s : Site)
    → ((t : TaskRow) → (change t).user_id ≡ t.user_id)
    → Own app user s (update_rows app id user change s)
unfolding update_rows count_tasks
update_rows-Own app id user change s kept =
    let f : TaskRow → TaskRow =
      λ t. if app.matches_id id t.id && owned user t then change t else t in
    let same : (o : ℕ) (t : TaskRow) → owned o (f t) ≡ owned o t = λ o t.
      elim (Bool-cases (app.matches_id id t.id && owned user t)) [
        | inl hit ↦ rw hit (ap (λ n. n == o) (kept t))
        | inr miss ↦ rw miss
      ] in
    record {
      others = λ o apart.
          keep-map (owned o) f (same o)
            (λ t h. rw (other_owner user o t.user_id apart h, and_false (app.matches_id id t.id)))
            s.rows;
      bounded = inl (let e = keep-length-map (owned user) f (same user) s.rows in omega arith);
    }

pub snoc-Own :
    (app : App) (user : ℕ) (row : TaskRow) (s s' : Site)
    → s'.rows ≡ s.rows ++ (row ∷ [])
    → row.user_id ≡ user
    → count_tasks user s < max_tasks app.max_tasks_per_user
    → Own app user s s'
unfolding count_tasks keep
snoc-Own app user row s s' more mine room = record {
  others = λ o apart.
      let new : owned o row ≡ false = ground arith in
      ap (keep (owned o)) more
      ∙ keep-append (owned o) s.rows (row ∷ [])
      ∙ rw new (append-nil (keep (owned o) s.rows));
  bounded = inr (
      let own : owned user row ≡ true = ground arith in
      let counted : length (keep (owned user) s'.rows) ≡ length (keep (owned user) s.rows) + 1 =
        ap (λ l. length (keep (owned user) l)) more
        ∙ ap length (keep-append (owned user) s.rows (row ∷ []))
        ∙ rw own (length-append (keep (owned user) s.rows) (row ∷ [])) in
      omega arith);
}

pub removed-Own :
    (app : App) (id : Text) (user : ℕ) (s s' : Site)
    → s'.rows ≡ keep (λ (t : TaskRow). not (names app id user t)) s.rows
    → Own app user s s'
unfolding count_tasks
removed-Own app id user s s' less = record {
  others = λ o apart.
      ap (keep (owned o)) less
      ∙ keep-keep (owned o) (λ (t : TaskRow). not (names app id user t))
          (λ t h. rw (other_owner user o t.user_id apart h, and_false (app.matches_id id t.id)))
          s.rows;
  bounded = inl (
      let e = ap (λ l. length (keep (owned user) l)) less in
      let short = keep-length (owned user) (λ (t : TaskRow). not (names app id user t)) s.rows in
      omega arith);
}

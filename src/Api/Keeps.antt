-- ===== src/Api/Keeps.antt =====
-- What keeps the rows of verified users, of the statements on the table and of a code's issue.
use mathlib.Core.Bool.{true≢false}
use mathlib.Core.Option.{none-ne-some, some-injective}
use goods_hunter.Base.{
  ℕ, zero, suc, ◌<◌, ◌≤◌, ◌==◌, ◌≡◌, refl, ◌∙◌, sym, ap, Bool, true, false, Option, none, some,
  if◌then◌else◌, arith, Bool-cases, inl, inr, ◌⊎◌,
}
use goods_hunter.Base.Text.{Text}
use goods_hunter.Api.Users.{User, Users, put_row, create_row, find_email, find_from, has_email}
use goods_hunter.Api.Auth.{
  Handler, Replies, issue_code, code_issued, generate_code, lookup, code_sent, code_sent_new,
}

-- Each row has the id that it stands at.
abbrev pub Keyed : Users → Type 0
Keyed t = (k : ℕ) (u : User) → t.row k ≡ some u → u.id ≡ k

-- What a request may do to the table: the rows of verified users stay.
pub record Keeps (t t' : Users) : Type 0 where
  pub keyed : Keyed t → Keyed t'
  pub verified :
      Keyed t
      → (k : ℕ) (u : User) → k < t.next_id
      → t.row k ≡ some u
      → u.is_verified ≡ true
      → t'.row k ≡ some u
  pub grows : t.next_id ≤ t'.next_id

pub Keeps-refl : (t : Users) → Keeps t t
Keeps-refl t = record { keyed = λ h. h; verified = λ h k u below e v. e; grows = omega arith }

pub Keeps-trans : {t t' t'' : Users} → Keeps t t' → Keeps t' t'' → Keeps t t''
Keeps-trans a b =
    let first = a.grows in
    let second = b.grows in
    record {
      keyed = λ h. b.keyed (a.keyed h);
      verified = λ h k u below e v.
          b.verified (a.keyed h) k u (omega arith) (a.verified h k u below e v) v;
      grows = omega arith;
    }

pick :
    (b : Bool) (x y : Option User) (v : User)
    → (if b then x else y) ≡ some v
    → ((b ≡ true) × (x ≡ some v)) ⊎ ((b ≡ false) × (y ≡ some v))
pick true x y v e = inl (refl, e)
pick false x y v e = inr (refl, e)

same_id : (m n : ℕ) → (m == n) ≡ true → m ≡ n
same_id m n h = ground arith

put_row-Keyed :
    (id : ℕ) (u : User) (t : Users) → u.id ≡ id → Keyed t → Keyed (put_row id (some u) t)
unfolding put_row
put_row-Keyed id u t here h k v e = elim (pick (k == id) (some u) (t.row k) v e) [
  | inl (at, new) ↦
      ap (λ (w : User). w.id) (sym (some-injective u v new)) ∙ here ∙ sym (same_id k id at)
  | inr (other, old) ↦ h k v old
]

pub put_row-Keeps :
    (k : ℕ) (u u' : User) (t : Users)
    → t.row k ≡ some u
    → u.is_verified ≡ false
    → u'.id ≡ u.id
    → Keeps t (put_row u.id (some u') t)
unfolding put_row
put_row-Keeps k u u' t there unverified same = record {
  keyed = put_row-Keyed u.id u' t same;
  verified = λ h j v below e ver. elim (Bool-cases (j == u.id)) [
    | inl at ↦
        let here : t.row j ≡ some u = ap t.row (same_id j u.id at ∙ h k u there) ∙ there in
        let one : u ≡ v = some-injective u v (sym here ∙ e) in
        absurd (true≢false (sym ver ∙ ap (λ (w : User). w.is_verified) (sym one) ∙ unverified))
    | inr other ↦ rw other e
  ];
  grows = omega arith;
}

pub create_row-Keeps :
    (make : ℕ → User) (t : Users) → (make t.next_id).id ≡ t.next_id → Keeps t (create_row make t)
unfolding create_row put_row
create_row-Keeps make t same = record {
  keyed =
      λ h. put_row-Keyed t.next_id (make t.next_id) (record t { next_id = suc t.next_id }) same h;
  verified = λ h j v below e ver. let other : (j == t.next_id) ≡ false = ground arith in rw other e;
  grows = omega arith;
}

find_from-found :
    (email : Text) (left id : ℕ) (t : Users) (u : User)
    → find_from email left id t ≡ some u
    → (k : ℕ) × (t.row k ≡ some u)
unfolding find_from
find_from-found email zero id t u e = absurd (none-ne-some u e)
find_from-found email (suc left) id t u e =
    elim (pick (has_email email (t.row id)) (t.row id) (find_from email left (suc id) t) u e) [
      | inl (here, found) ↦ (id, found)
      | inr (past, found) ↦ find_from-found email left (suc id) t u found
    ]

pub lookup-found :
    (r : Replies) (email : Text) (t : Users) (u : User)
    → lookup r email t ≡ some u
    → (k : ℕ) × (t.row k ≡ some u)
unfolding lookup find_email
lookup-found r email t u e = elim (pick r.find_ok (find_email email t) none u e) [
  | inl (ok, found) ↦ find_from-found email t.next_id 0 t u found
  | inr (bad, found) ↦ absurd (none-ne-some u found)
]

-- The code of an unverified user.
code_issued-Keeps :
    (h : Handler) (r : Replies) (k : ℕ) (u : User) (t : Users) (code : Option Text)
    → t.row k ≡ some u
    → u.is_verified ≡ false
    → Keeps t (code_issued h r u t code).1
unfolding code_issued
code_issued-Keeps h r k u t none there new = Keeps-refl t
code_issued-Keeps h r k u t (some code) there new =
    let saved = put_row-Keeps k u _ t there new refl in
    elim (Bool-cases r.save_ok) [
      | inr lost ↦ rw lost (Keeps-refl t)
      | inl kept ↦ elim (Bool-cases h.has_mailer) [
        | inr silent ↦ rw (kept, silent) saved
        | inl mails ↦ elim (Bool-cases r.mail_ok) [
          | inl sent ↦ rw (kept, mails, sent) saved
          | inr failed ↦ rw (kept, mails, failed) saved
        ]
      ]
    ]

pub issue_code-Keeps :
    (h : Handler) (r : Replies) (k : ℕ) (u : User) (t : Users)
    → t.row k ≡ some u
    → u.is_verified ≡ false
    → Keeps t (issue_code h r u t).1
unfolding issue_code
issue_code-Keeps h r k u t there new =
    code_issued-Keeps h r k u t (generate_code r.random 6) there new

pub code_sent-table : (x : Option Text × Users) → (code_sent x).1 ≡ x.1
unfolding code_sent
code_sent-table (none, t) = refl
code_sent-table (some e, t) = refl

removed-Keeps : (id : ℕ) (t t' : Users) → t.next_id ≤ id → Keeps t t' → Keeps t (put_row id none t')
unfolding put_row
removed-Keeps id t t' past h =
    let grown = h.grows in
    record {
      keyed = λ key j v e. elim (pick (j == id) none (t'.row j) v e) [
        | inl (at, gone) ↦ absurd (none-ne-some v gone)
        | inr (other, old) ↦ h.keyed key j v old
      ];
      verified = λ key j v below e ver.
          let other : (j == id) ≡ false = ground arith in rw other (h.verified key j v below e ver);
      grows = omega arith;
    }

pub create_row-there :
    (make : ℕ → User) (t : Users) → (create_row make t).row t.next_id ≡ some (make t.next_id)
unfolding create_row put_row
create_row-there make t = let self : (t.next_id == t.next_id) ≡ true = ground arith in rw self

pub code_sent_new-Keeps :
    (r : Replies) (t : Users) (x : Option Text × Users)
    → Keeps t x.1
    → Keeps t (code_sent_new r t.next_id x).1
unfolding code_sent_new
code_sent_new-Keeps r t (none, t') h = h
code_sent_new-Keeps r t (some e, t') h = elim (Bool-cases r.delete_ok) [
  | inl gone ↦ rw gone (removed-Keeps t.next_id t t' (omega arith) h)
  | inr kept ↦ rw kept h
]

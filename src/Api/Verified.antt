-- ===== src/Api/Verified.antt =====
-- No registration, guest login, verification or resend changes the row of a verified user.
use goods_hunter.Base.{
  ℕ, ◌<◌, ◌≡◌, refl, sym, subst, true, false, not, ◌||◌, List, [], ◌∷◌, Option, none, some,
  Bool-cases, inl, inr,
}
use goods_hunter.Base.Text.{Text, str, text_eq, is_empty, trim_space}
use goods_hunter.Api.Users.{User, Users, create_row}
use goods_hunter.Api.Auth.{
  Handler, Replies, Answer, RegisterRequest, register, guest_login, verify_email, resend_code,
  issue_code, lookup, normal_email, register_found, password_hashed, guest_found, guest_hashed,
  verify_found, resend_found, resend_now, wait_left, new_user, demo_email, expired,
}
use goods_hunter.Api.Keeps.{
  Keyed, Keeps, Keeps-refl, Keeps-trans, create_row-Keeps, put_row-Keeps, lookup-found,
  issue_code-Keeps, code_sent-table, code_sent_new-Keeps, create_row-there,
}

password_hashed-Keeps :
    (h : Handler) (r : Replies) (email : Text) (t : Users) (hashed : Option Text)
    → Keeps t (password_hashed h r email t hashed).1
unfolding password_hashed
password_hashed-Keeps h r email t none = Keeps-refl t
password_hashed-Keeps h r email t (some hashed) =
    let make = new_user email hashed (str "admin") false in
    let t' = create_row make t in
    let made : Keeps t t' = create_row-Keeps make t refl in
    let sent = issue_code-Keeps h r t.next_id (make t.next_id) t' (create_row-there make t) refl in
    elim (Bool-cases r.create_ok) [
      | inl ok ↦
          simp ok
            (code_sent_new-Keeps r t (issue_code h r (make t.next_id) t') (Keeps-trans made sent))
      | inr bad ↦ simp bad (Keeps-refl t)
    ]

abbrev Found : Users → Option User → Type 0
Found t o = (u : User) → o ≡ some u → (k : ℕ) × (t.row k ≡ some u)

register_found-Keeps :
    (h : Handler) (r : Replies) (email password : Text) (t : Users) (o : Option User)
    → Found t o
    → Keeps t (register_found h r email password t o).1
unfolding register_found
register_found-Keeps h r email password t none found = elim (Bool-cases r.find_ok) [
  | inl ok ↦ simp ok (password_hashed-Keeps h r email t (h.bcrypt.hash password))
  | inr bad ↦ simp bad (Keeps-refl t)
]
register_found-Keeps h r email password t (some u) found = elim (Bool-cases u.is_verified) [
  | inl old ↦ simp old (Keeps-refl t)
  | inr new ↦
      let (k, there) = found u refl in
      simp new (
        subst (Keeps t) (sym (code_sent-table (issue_code h r u t)))
          (issue_code-Keeps h r k u t there new))
]

register-Keeps :
    (h : Handler) (r : Replies) (req : Option RegisterRequest) (t : Users)
    → Keeps t (register h r req t).1
unfolding register
register-Keeps h r none t = Keeps-refl t
register-Keeps h r (some req) t = elim (Bool-cases (is_empty h.invite_code)) [
  | inl shut ↦ rw shut (Keeps-refl t)
  | inr open_ ↦ elim (Bool-cases (text_eq (trim_space req.invite_code) h.invite_code)) [
    | inl right ↦
        rw (open_, right)
          (register_found-Keeps h r (normal_email h req.email) req.password t
            (lookup r (normal_email h req.email) t) (lookup-found r (normal_email h req.email) t))
    | inr wrong ↦ rw (open_, wrong) (Keeps-refl t)
  ]
]

guest_hashed-Keeps :
    (h : Handler) (r : Replies) (t : Users) (hashed : Option Text)
    → Keeps t (guest_hashed h r t hashed).1
unfolding guest_hashed
guest_hashed-Keeps h r t none = Keeps-refl t
guest_hashed-Keeps h r t (some hashed) = elim (Bool-cases r.create_ok) [
  | inl ok ↦ simp ok (create_row-Keeps (new_user demo_email hashed (str "guest") true) t refl)
  | inr bad ↦ simp bad (Keeps-refl t)
]

guest_found-Keeps :
    (h : Handler) (r : Replies) (random_password : Text) (t : Users) (o : Option User)
    → Keeps t (guest_found h r random_password t o).1
unfolding guest_found
guest_found-Keeps h r random_password t none = elim (Bool-cases r.find_ok) [
  | inl ok ↦ simp ok (guest_hashed-Keeps h r t (h.bcrypt.hash random_password))
  | inr bad ↦ simp bad (Keeps-refl t)
]
guest_found-Keeps h r random_password t (some u) = Keeps-refl t

verify_found-Keeps :
    (r : Replies) (code : Text) (t : Users) (o : Option User)
    → Found t o
    → Keeps t (verify_found r code t o).1
unfolding verify_found
verify_found-Keeps r code t none found = Keeps-refl t
verify_found-Keeps r code t (some u) found = elim (Bool-cases u.is_verified) [
  | inl old ↦ simp old (Keeps-refl t)
  | inr new ↦
      elim (Bool-cases (is_empty u.verify_code || not (text_eq u.verify_code (trim_space code)))) [
        | inl wrong ↦ rw (new, wrong) (Keeps-refl t)
        | inr right ↦ elim (Bool-cases (expired r.now u.verify_code_expires_at)) [
          | inl late ↦ rw (new, right, late) (Keeps-refl t)
          | inr timely ↦ elim (Bool-cases r.save_ok) [
            | inl saved ↦
                let (k, there) = found u refl in
                rw (new, right, timely, saved) (put_row-Keeps k u _ t there new refl)
            | inr lost ↦ rw (new, right, timely, lost) (Keeps-refl t)
          ]
        ]
      ]
]

resend_now-Keeps :
    (h : Handler) (r : Replies) (k : ℕ) (u : User) (t : Users) (left : Option ℕ)
    → t.row k ≡ some u
    → u.is_verified ≡ false
    → Keeps t (resend_now h r u t left).1
unfolding resend_now
resend_now-Keeps h r k u t none there new =
    subst (Keeps t) (sym (code_sent-table (issue_code h r u t)))
      (issue_code-Keeps h r k u t there new)
resend_now-Keeps h r k u t (some left) there new = Keeps-refl t

resend_found-Keeps :
    (h : Handler) (r : Replies) (t : Users) (o : Option User)
    → Found t o
    → Keeps t (resend_found h r t o).1
unfolding resend_found
resend_found-Keeps h r t none found = Keeps-refl t
resend_found-Keeps h r t (some u) found = elim (Bool-cases u.is_verified) [
  | inl old ↦ simp old (Keeps-refl t)
  | inr new ↦
      let (k, there) = found u refl in
      simp new (resend_now-Keeps h r k u t (wait_left r.now u.verify_code_sent_at) there new)
]

-- A request of the accounts, and what the calls answer while it is handled.
pub data Request : Type 0 where
  registers : Option RegisterRequest → Request
  visits : Text → Request
  verifies : Option (Text × Text) → Request
  resends : Option Text → Request

unfoldable pub serve : Handler → Replies → Request → Users → Answer × Users
serve h r (registers req) t = register h r req t
serve h r (visits random_password) t = guest_login h r random_password t
serve h r (verifies req) t = verify_email h r req t
serve h r (resends req) t = resend_code h r req t

serve-Keeps : (h : Handler) (r : Replies) (q : Request) (t : Users) → Keeps t (serve h r q t).1
unfolding serve guest_login verify_email resend_code
serve-Keeps h r (registers req) t = register-Keeps h r req t
serve-Keeps h r (visits random_password) t =
    guest_found-Keeps h r random_password t (lookup r demo_email t)
serve-Keeps h r (verifies none) t = Keeps-refl t
serve-Keeps h r (verifies (some (email, code))) t =
    verify_found-Keeps r code t (lookup r (normal_email h email) t)
      (lookup-found r (normal_email h email) t)
serve-Keeps h r (resends none) t = Keeps-refl t
serve-Keeps h r (resends (some email)) t =
    resend_found-Keeps h r t (lookup r (normal_email h email) t)
      (lookup-found r (normal_email h email) t)

unfoldable pub serve_all : Handler → List (Replies × Request) → Users → Users
serve_all h [] t = t
serve_all h ((r, q) ∷ qs) t = serve_all h qs (serve h r q t).1

serve_all-Keeps :
    (h : Handler) (qs : List (Replies × Request)) (t : Users) → Keeps t (serve_all h qs t)
unfolding serve_all
serve_all-Keeps h [] t = Keeps-refl t
serve_all-Keeps h ((r, q) ∷ qs) t =
    Keeps-trans (serve-Keeps h r q t) (serve_all-Keeps h qs (serve h r q t).1)

-- In a table whose rows stand at their ids, the row of a verified user, at an id that was given out,
-- stays as it is, whatever registrations, guest logins, verifications and resends come and whatever
-- calls fail.
pub serve_all_verified :
    (h : Handler) (qs : List (Replies × Request)) (t : Users) (k : ℕ) (u : User)
    → Keyed t
    → k < t.next_id
    → t.row k ≡ some u
    → u.is_verified ≡ true
    → (serve_all h qs t).row k ≡ some u
serve_all_verified h qs t k u key below there verified =
    (serve_all-Keeps h qs t).verified key k u below there verified

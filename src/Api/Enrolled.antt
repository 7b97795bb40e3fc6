-- ===== src/Api/Enrolled.antt =====
-- From the registration of a new email, by the code that is mailed, to a login.
use mathlib.Core.Bool.{true≢false}
use goods_hunter.Base.{
  ℕ, ◌+◌, ◌*◌, ◌≤◌, ltb, ◌≡◌, refl, ◌∙◌, sym, ap, Bool, true, false, not, ◌||◌, List, [], ◌∷◌,
  Option, none, some, if◌then◌else◌, arith, Bool-cases, inl, inr,
}
use goods_hunter.Base.Text.{Text, str, text_eq, text_eq_refl, is_empty, trim_space}
use goods_hunter.Api.Users.{User, Users, put_row, create_row, find_email}
use goods_hunter.Api.Token.{issue_token, nanos}
use goods_hunter.Api.Auth.{
  Handler, Replies, Answer, token, message, login, login_found, lookup, normal_email, token_signed,
  RegisterRequest, register, register_found, password_hashed, code_sent_new, issue_code,
  code_issued, generate_code, code_of, digits_of, new_user, verify_email, verify_found, expired,
}
use goods_hunter.Api.NewRow.{put_row-New, create_row-New, lookup-New, trim_space-digits_of}

-- The calls that a request may make all succeed.
pub record Works (h : Handler) (r : Replies) : Type 0 where
  pub finds : r.find_ok ≡ true
  pub creates : r.create_ok ≡ true
  pub saves : r.save_ok ≡ true
  pub has_mailer : h.has_mailer ≡ true
  pub mails : r.mail_ok ≡ true

abbrev coded : Replies → Text → User → User
coded r code u = record u {
  verify_code = code;
  verify_code_expires_at = some (r.now + 600 * nanos);
  verify_code_sent_at = some r.now;
}

if_false : (b : Bool) (x y : Option Text × Users) → b ≡ true → (if not b then x else y) ≡ y
if_false true x y e = refl
if_false false x y e = absurd (true≢false (sym e))

code_issued-sent :
    (h : Handler) (r : Replies) (u : User) (t : Users) (code : Text)
    → Works h r
    → code_issued h r u t (some code) ≡ (none, put_row u.id (some (coded r code u)) t)
unfolding code_issued
code_issued-sent h r u t code w =
    if_false r.save_ok _ _ w.saves
    ∙ if_false h.has_mailer _ _ w.has_mailer
    ∙ if_false r.mail_ok _ _ w.mails

answered : (b : Bool) (x y : Answer × Users) → b ≡ true → (if not b then x else y) ≡ y
answered true x y e = refl
answered false x y e = absurd (true≢false (sym e))

password_hashed-sent :
    (h : Handler) (r : Replies) (email hashed : Text) (b : ℕ) (bs : List ℕ) (t : Users)
    → Works h r
    → r.random 6 ≡ some (b ∷ bs)
    → let u = coded r (digits_of (b ∷ bs)) (new_user email hashed (str "admin") false t.next_id) in
      password_hashed h r email t (some hashed) ≡ (
        message 200 (str "verification code sent"),
        put_row t.next_id (some u) (create_row (new_user email hashed (str "admin") false) t),
      )
unfolding password_hashed code_sent_new issue_code generate_code code_of
password_hashed-sent h r email hashed b bs t w random =
    let make = new_user email hashed (str "admin") false in
    answered r.create_ok _ _ w.creates
    ∙ ap
        (λ o.
          code_sent_new r t.next_id
            (code_issued h r (make t.next_id) (create_row make t) (code_of o)))
        random
    ∙ ap (code_sent_new r t.next_id)
        (code_issued-sent h r (make t.next_id) (create_row make t) (digits_of (b ∷ bs)) w)

if_true : (b : Bool) (x y : Answer × Users) → b ≡ true → (if b then x else y) ≡ x
if_true true x y e = refl
if_true false x y e = absurd (true≢false (sym e))

if_not : (b : Bool) (x y : Answer × Users) → b ≡ false → (if b then x else y) ≡ y
if_not true x y e = absurd (true≢false e)
if_not false x y e = refl

passed : (b : Bool) (x y : Answer) → b ≡ true → (if not b then x else y) ≡ y
passed true x y e = refl
passed false x y e = absurd (true≢false (sym e))

lookup-none :
    (r : Replies) (email : Text) (t : Users) → find_email email t ≡ none → lookup r email t ≡ none
unfolding lookup
lookup-none r email t absent = elim (Bool-cases r.find_ok) [
  | inl ok ↦ ap (λ b. if b then find_email email t else none) ok ∙ absent
  | inr bad ↦ ap (λ b. if b then find_email email t else none) bad
]

register-sent :
    (h : Handler) (r : Replies) (req : RegisterRequest) (t : Users) (hashed : Text) (b : ℕ)
    (bs : List ℕ)
    → Works h r
    → r.random 6 ≡ some (b ∷ bs)
    → is_empty h.invite_code ≡ false
    → text_eq (trim_space req.invite_code) h.invite_code ≡ true
    → find_email (normal_email h req.email) t ≡ none
    → h.bcrypt.hash req.password ≡ some hashed
    → let u =
        coded r
          (digits_of (b ∷ bs))
          (new_user (normal_email h req.email) hashed (str "admin") false t.next_id) in
      register h r (some req) t ≡ (
        message 200 (str "verification code sent"),
        put_row t.next_id
            (some u)
            (create_row (new_user (normal_email h req.email) hashed (str "admin") false) t),
      )
unfolding register register_found
register-sent h r req t hashed b bs w random open_ invited absent hash =
    let email = normal_email h req.email in
    if_not (is_empty h.invite_code) _ _ open_
    ∙ answered (text_eq (trim_space req.invite_code) h.invite_code) _ _ invited
    ∙ ap (register_found h r email req.password t) (lookup-none r email t absent)
    ∙ if_true r.find_ok _ _ w.finds
    ∙ ap (password_hashed h r email t) hash
    ∙ password_hashed-sent h r email hashed b bs t w random

abbrev confirmed : User → User
confirmed u = record u {
  is_verified = true;
  verify_code = [];
  verify_code_expires_at = none;
  verify_code_sent_at = none;
}

is_empty-digits : (b : ℕ) (bs : List ℕ) → (is_empty (digits_of (b ∷ bs)) || not true) ≡ false
unfolding is_empty digits_of
is_empty-digits b bs = refl

not_past : (now end_ : ℕ) → now ≤ end_ → ltb end_ now ≡ false
not_past now end_ h = ground arith

-- The code of a row that is not verified.
verify_found-right :
    (r : Replies) (b : ℕ) (bs : List ℕ) (end_ : ℕ) (t : Users) (u : User)
    → r.save_ok ≡ true
    → u.is_verified ≡ false
    → u.verify_code ≡ digits_of (b ∷ bs)
    → u.verify_code_expires_at ≡ some end_
    → r.now ≤ end_
    → verify_found r (digits_of (b ∷ bs)) t (some u)
      ≡ (message 200 (str "verified"), put_row u.id (some (confirmed u)) t)
unfolding verify_found expired
verify_found-right r b bs end_ t u saves new code ends timely =
    let typed = digits_of (b ∷ bs) in
    let same : text_eq typed (trim_space typed) ≡ true =
      ap (text_eq typed) (trim_space-digits_of (b ∷ bs)) ∙ text_eq_refl typed in
    let right : (is_empty u.verify_code || not (text_eq u.verify_code (trim_space typed))) ≡ false =
      ap (λ c. is_empty c || not (text_eq c (trim_space typed))) code
      ∙ ap (λ e. is_empty typed || not e) same
      ∙ is_empty-digits b bs in
    let open_ : expired r.now u.verify_code_expires_at ≡ false =
      ap (expired r.now) ends ∙ not_past r.now end_ timely in
    if_not u.is_verified _ _ new
    ∙ if_not (is_empty u.verify_code || not (text_eq u.verify_code (trim_space typed))) _ _ right
    ∙ if_not (expired r.now u.verify_code_expires_at) _ _ open_
    ∙ answered r.save_ok _ _ saves

login_found-matching :
    (h : Handler) (r : Replies) (password : Text) (u : User) (tok : Text)
    → u.is_verified ≡ true
    → h.bcrypt.matches u.password password ≡ true
    → issue_token h.jwt r.now u.id u.role ≡ some tok
    → login_found h r password (some u) ≡ token tok
unfolding login_found token_signed
login_found-matching h r password u tok verified matching signed =
    passed u.is_verified _ _ verified
    ∙ passed (h.bcrypt.matches u.password password) _ _ matching
    ∙ ap token_signed signed

-- With calls that succeed, the random bytes, the hash and the token among them, a matching
-- invitation and an email that no row has, registration answers
-- that the code was sent; that code, within its ten minutes, verifies the email; and a login with the
-- same email and password then answers with the token signed for the new row's id as admin.
pub register_verify_login :
    (h : Handler) (r1 r2 r3 : Replies) (req : RegisterRequest) (t : Users) (hashed tok : Text)
    (b : ℕ) (bs : List ℕ)
    → Works h r1
    → Works h r2
    → Works h r3
    → r1.random 6 ≡ some (b ∷ bs)
    → r2.now ≤ r1.now + 600 * nanos
    → is_empty h.invite_code ≡ false
    → text_eq (trim_space req.invite_code) h.invite_code ≡ true
    → find_email (normal_email h req.email) t ≡ none
    → h.bcrypt.hash req.password ≡ some hashed
    → issue_token h.jwt r3.now t.next_id (str "admin") ≡ some tok
    → let registered = register h r1 (some req) t in
      let verified = verify_email h r2 (some (req.email, digits_of (b ∷ bs))) registered.1 in
      (registered.0 ≡ message 200 (str "verification code sent"))
      × (verified.0 ≡ message 200 (str "verified"))
      × (login h r3 (some (req.email, req.password)) verified.1 ≡ token tok)
unfolding verify_email login
register_verify_login h r1 r2 r3 req t hashed tok b bs w1 w2 w3 random timely open_ invited absent
      hash signed =
    let email = normal_email h req.email in
    let u = new_user email hashed (str "admin") false t.next_id in
    let u1 = coded r1 (digits_of (b ∷ bs)) u in
    let made = create_row-New (new_user email hashed (str "admin") false) t in
    let t0 = create_row (new_user email hashed (str "admin") false) t in
    let t1 = put_row t.next_id (some u1) t0 in
    let new1 = put_row-New u u1 t t0 refl made in
    let t2 = put_row t.next_id (some (confirmed u1)) t1 in
    let new2 = put_row-New u1 (confirmed u1) t t1 refl new1 in
    let one = register-sent h r1 req t hashed b bs w1 random open_ invited absent hash in
    let found1 = lookup-New r2 email u1 t t1 w2.finds absent refl new1 in
    let two : verify_found r2 (digits_of (b ∷ bs)) t1 (lookup r2 email t1)
        ≡ (message 200 (str "verified"), t2) =
      ap (verify_found r2 (digits_of (b ∷ bs)) t1) found1
      ∙ verify_found-right r2 b bs (r1.now + 600 * nanos) t1 u1 w2.saves refl refl refl timely in
    let found2 = lookup-New r3 email (confirmed u1) t t2 w3.finds absent refl new2 in
    let three : login_found h r3 req.password (lookup r3 email t2) ≡ token tok =
      ap (login_found h r3 req.password) found2
      ∙ login_found-matching h r3 req.password (confirmed u1) tok refl
          (h.bcrypt.matches_law req.password hashed hash) signed in
    rw (one, two) ((refl, refl, three))

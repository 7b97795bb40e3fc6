-- ===== src/Api/Access.antt =====
-- A token that was issued grants its user access, and a login issues one to a verified user only.
use mathlib.Core.Bool.{true≢false}
use mathlib.Core.Option.{none-ne-some}
use goods_hunter.Base.{
  ℕ, zero, suc, ◌≡◌, ◌≢◌, refl, ◌∙◌, sym, ap, Bool, true, false, subst, not, Option, none, some,
  if◌then◌else◌, Bool-cases, inl, inr,
}
use goods_hunter.Base.Text.{Text, str, text_eq_iff}
use goods_hunter.Api.Users.{User, Users, find_email, find_from, has_email}
use goods_hunter.Api.Token.{issue_token}
use goods_hunter.Api.Auth.{
  Handler, Replies, Answer, token, message, login, login_found, lookup, normal_email, token_signed,
}

-- What a login with a token has found.
pub record Admitted (h : Handler) (r : Replies) (email password : Text) (t : Users) (tok : Text)
    : Type 0 where
  pub user : User
  pub place : ℕ
  pub stored : t.row place ≡ some user
  pub named : user.email ≡ normal_email h email
  pub verified : user.is_verified ≡ true
  pub matching : h.bcrypt.matches user.password password ≡ true
  pub signed : issue_token h.jwt r.now user.id user.role ≡ some tok

pick-else :
    (b : Bool) (x y : Answer) (v : Answer)
    → (if b then x else y) ≡ v
    → x ≢ v
    → (b ≡ false) × (y ≡ v)
pick-else true x y v e other = absurd (other e)
pick-else false x y v e other = (refl, e)

message-ne-token : (n : ℕ) (s tok : Text) → message n s ≢ token tok
message-ne-token n s tok = λ e. cc

token_signed-some : (o : Option Text) (tok : Text) → token_signed o ≡ token tok → o ≡ some tok
unfolding token_signed
token_signed-some none tok e = absurd (message-ne-token 500 (str "sign token failed") tok e)
token_signed-some (some t) tok e = cc

not-false : (b : Bool) → not b ≡ false → b ≡ true
not-false true e = refl
not-false false e = absurd (true≢false e)

find_from-named :
    (email : Text) (left id : ℕ) (t : Users) (u : User)
    → find_from email left id t ≡ some u
    → (k : ℕ) × (t.row k ≡ some u) × (has_email email (some u) ≡ true)
unfolding find_from
find_from-named email zero id t u e = absurd (none-ne-some u e)
find_from-named email (suc left) id t u e = elim (Bool-cases (has_email email (t.row id))) [
  | inl here ↦
      let found : t.row id ≡ some u =
        subst (λ b. (if b then t.row id else find_from email left (suc id) t) ≡ some u) here e in
      (id, found, sym (ap (has_email email) found) ∙ here)
  | inr past ↦
      find_from-named email left (suc id) t u
        (subst (λ b. (if b then t.row id else find_from email left (suc id) t) ≡ some u) past e)
]

lookup-named :
    (r : Replies) (email : Text) (t : Users) (u : User)
    → lookup r email t ≡ some u
    → (k : ℕ) × (t.row k ≡ some u) × (u.email ≡ email)
unfolding lookup find_email has_email
lookup-named r email t u e = elim (Bool-cases r.find_ok) [
  | inl ok ↦
      let (k, there, same) =
        find_from-named email t.next_id 0 t u
          (subst (λ b. (if b then find_email email t else none) ≡ some u) ok e) in
      (k, there, (text_eq_iff u.email email).0 same)
  | inr bad ↦
      absurd (none-ne-some u (subst (λ b. (if b then find_email email t else none) ≡ some u) bad e))
]

login_found-Admitted :
    (h : Handler) (r : Replies) (email password : Text) (t : Users) (o : Option User) (tok : Text)
    → ((u : User) → o ≡ some u → (k : ℕ) × (t.row k ≡ some u) × (u.email ≡ normal_email h email))
    → login_found h r password o ≡ token tok
    → Admitted h r email password t tok
unfolding login_found
login_found-Admitted h r email password t none tok found e =
    absurd (message-ne-token 401 (str "invalid credentials") tok e)
login_found-Admitted h r email password t (some u) tok found e =
    let (verified, e1) =
      pick-else (not u.is_verified) (message 403 (str "email not verified")) _ (token tok) e
        (message-ne-token 403 (str "email not verified") tok) in
    let (matching, e2) =
      pick-else (not (h.bcrypt.matches u.password password))
        (message 401 (str "invalid credentials")) _ (token tok) e1
        (message-ne-token 401 (str "invalid credentials") tok) in
    let (k, there, same) = found u refl in
    record {
      user = u;
      place = k;
      stored = there;
      named = same;
      verified = not-false u.is_verified verified;
      matching = not-false (h.bcrypt.matches u.password password) matching;
      signed = token_signed-some (issue_token h.jwt r.now u.id u.role) tok e2;
    }

-- A login that answers with a token has found a row with the email given, in lower case and trimmed,
-- that is verified and whose hash the password matches, and the token is that user's.
pub login-Admitted :
    (h : Handler) (r : Replies) (email password : Text) (t : Users) (tok : Text)
    → login h r (some (email, password)) t ≡ token tok
    → Admitted h r email password t tok
unfolding login
login-Admitted h r email password t tok e =
    login_found-Admitted h r email password t (lookup r (normal_email h email) t) tok
      (lookup-named r (normal_email h email) t) e

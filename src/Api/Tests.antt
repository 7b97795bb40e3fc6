-- ===== src/Api/Tests.antt =====
-- Accounts and tokens at a concrete handler.
use mathlib.Core.Option.{some-injective}
use native.Mathlib.Decide.{ℕ_discrete}
use goods_hunter.Base.{
  ℕ, ◌*◌, ◌<◌, ◌==◌, ltb, ◌≡◌, refl, ◌∙◌, sym, ap, true, List, [], ◌∷◌, Option, none, some,
  if◌then◌else◌, arith,
}
use goods_hunter.Base.Decimal.{format_uint}
use goods_hunter.Base.Text.{Text, str, text_eq, text_eq_refl, is_empty, trim_space, to_lower}
use goods_hunter.RedisQueue.Stand.{choose, choose_self, choose-inverse}
use goods_hunter.Api.Users.{User, Users, find_email, find_from, has_email}
use goods_hunter.Api.Token.{Claims, Jwt, nanos, claims_of, issue_token}
use goods_hunter.Api.Auth.{
  Bcrypt, Replies, Handler, RegisterRequest, new_handler, message, token, register, verify_email,
  login, digits_of, normal_email, lookup, login_found, token_signed,
}
use goods_hunter.Api.Access.{Admitted, login-Admitted}
use goods_hunter.Api.Enrolled.{Works, register_verify_login}
use goods_hunter.Api.Verified.{
  Request, registers, visits, verifies, resends, serve_all, serve_all_verified,
}
use goods_hunter.Api.Keeps.{Keyed}

-- Signed at time 0 for an admin, a token is its subject.
abbrev plain_claims : Text → Claims
plain_claims t = record { subject = t; role = str "admin"; expires_at = 86400; issued_at = 0 }

Claims-discrete : Discrete Claims
Claims-discrete = hlevel ℕ_discrete

unfoldable plain_sign : Claims → Option Text
plain_sign c = choose (Claims-discrete c (plain_claims c.subject)) c.subject

plain_sign_self : (t : Text) → plain_sign (plain_claims t) ≡ some t
unfolding plain_sign
plain_sign_self t = choose_self (Claims-discrete (plain_claims t) (plain_claims t)) t

abbrev plain_read : ℕ → Text → Option Claims
plain_read now t = if ltb now (86400 * nanos) then some (plain_claims t) else none

plain_read-sign :
    (c : Claims) (t : Text) (now : ℕ)
    → plain_sign c ≡ some t
    → now < c.expires_at * 1_000_000_000
    → plain_read now t ≡ some c
unfolding plain_sign
plain_read-sign c t now e h =
    let (p, q) = choose-inverse (Claims-discrete c (plain_claims c.subject)) c.subject t e in
    let same = p ∙ ap plain_claims q in
    let ends = ap (λ (x : Claims). x.expires_at) p in
    let early : ltb now (86400 * nanos) ≡ true = ground arith in rw early (ap some (sym same))

abbrev plain_jwt : Jwt
plain_jwt = record { sign = plain_sign; read = plain_read; read_law = plain_read-sign }

text_eq_hashed : (p hashed : Text) → some p ≡ some hashed → text_eq hashed p ≡ true
text_eq_hashed p hashed e = ap (λ x. text_eq x p) (sym (some-injective p hashed e)) ∙ text_eq_refl p

-- A hash that is the password.
abbrev plain_bcrypt : Bcrypt
plain_bcrypt = record {
  hash = λ p. some p;
  matches = text_eq;
  matches_law = λ p hashed e. text_eq_hashed p hashed e;
}

abbrev handler : Handler
handler = new_handler plain_jwt plain_bcrypt to_lower true (str " hunt ")

abbrev calls : ℕ → Replies
calls now = record {
  now = now;
  find_ok = true;
  create_ok = true;
  save_ok = true;
  delete_ok = true;
  mail_ok = true;
  random = λ n. some (7 ∷ 11 ∷ 250 ∷ 3 ∷ 4 ∷ 99 ∷ []);
}

calls-Works : (now : ℕ) → Works handler (calls now)
calls-Works now = record {
  finds = refl;
  creates = refl;
  saves = refl;
  has_mailer = refl;
  mails = refl;
}

abbrev no_users : Users
no_users = record { row = λ k. none; next_id = 5 }

abbrev enrol : RegisterRequest
enrol = record { email = str " Ada@x.jp"; password = str "secret"; invite_code = str "hunt" }

signed_five : issue_token plain_jwt 0 5 (str "admin") ≡ some (format_uint 5)
unfolding issue_token claims_of
signed_five = plain_sign_self (format_uint 5)

invited : text_eq (trim_space (str "hunt")) handler.invite_code ≡ true
unfolding text_eq trim_space
invited = refl

register_verify_login_example :
    let registered = register handler (calls 0) (some enrol) no_users in
    let verified =
      verify_email handler
        (calls (60 * nanos))
        (some (enrol.email, digits_of (7 ∷ 11 ∷ 250 ∷ 3 ∷ 4 ∷ 99 ∷ [])))
        registered.1 in
    (registered.0 ≡ message 200 (str "verification code sent"))
    × (verified.0 ≡ message 200 (str "verified"))
    × (login handler (calls 0) (some (enrol.email, enrol.password)) verified.1
        ≡ token (format_uint 5))
unfolding is_empty find_email find_from trim_space
register_verify_login_example =
    register_verify_login handler (calls 0) (calls (60 * nanos)) (calls 0) enrol no_users
      (str "secret") (format_uint 5) 7 (11 ∷ 250 ∷ 3 ∷ 4 ∷ 99 ∷ []) (calls-Works 0)
      (calls-Works (60 * nanos)) (calls-Works 0) refl (omega arith) refl invited refl refl
      signed_five

abbrev ada : User
ada = record {
  id = 0;
  email = str "ada@x.jp";
  password = str "secret";
  role = str "admin";
  is_verified = true;
  verify_code = [];
  verify_code_expires_at = none;
  verify_code_sent_at = none;
}

abbrev one_user : Users
one_user = record { row = λ k. if k == 0 then some ada else none; next_id = 1 }

ada_logs_in :
    login handler (calls 0) (some (str "ADA@x.jp ", str "secret")) one_user ≡ token (format_uint 0)
unfolding login normal_email lookup find_email find_from has_email login_found token_signed
    issue_token claims_of text_eq to_lower trim_space
ada_logs_in = ap token_signed (plain_sign_self (format_uint 0))

login-Admitted_example :
    Admitted handler (calls 0) (str "ADA@x.jp ") (str "secret") one_user (format_uint 0)
login-Admitted_example =
    login-Admitted handler (calls 0) (str "ADA@x.jp ") (str "secret") one_user (format_uint 0)
      ada_logs_in

one_user-Keyed : Keyed one_user
one_user-Keyed k u e = ground (arith)

abbrev requests : List (Replies × Request)
requests =
    (calls 3, registers (some (record enrol { email = str "ada@x.jp" })))
    ∷ (calls 4, resends (some (str "ada@x.jp")))
    ∷ (calls 5, verifies (some (str "ada@x.jp", str "123456")))
    ∷ (calls 6, visits (str "r"))
    ∷ []

serve_all_verified_example : (serve_all handler requests one_user).row 0 ≡ some ada
serve_all_verified_example =
    serve_all_verified handler requests one_user 0 ada one_user-Keyed (omega arith) refl refl

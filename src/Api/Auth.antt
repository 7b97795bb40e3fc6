-- ===== src/Api/Auth.antt =====
-- internal/api/auth/auth.go: registration, login, and the verification of an email.
use goods_hunter.Base.{
  ℕ, ◌+◌, ◌*◌, ◌-◌, ◌/◌, ◌%◌, ◌==◌, ltb, ◌≡◌, Bool, true, false, not, ◌||◌, List, [], ◌∷◌, Option,
  none, some, if◌then◌else◌,
}
use goods_hunter.Base.Text.{Text, str, text_eq, is_empty, trim_space}
use goods_hunter.Api.Users.{User, Users, put_row, create_row, find_email}
use goods_hunter.Api.Token.{Jwt, issue_token, nanos}

-- bcrypt: a hash, if it succeeds, and the comparison.
pub record Bcrypt : Type 0 where
  pub hash : Text → Option Text
  pub matches : Text → Text → Bool
  pub matches_law :
      (password hashed : Text) → hash password ≡ some hashed → matches hashed password ≡ true

-- What the calls answer while one request is handled: whether each query, statement and mail
-- succeeds, the random bytes, and the clock.
pub record Replies : Type 0 where
  pub now : ℕ
  pub find_ok : Bool
  pub create_ok : Bool
  pub save_ok : Bool
  pub delete_ok : Bool
  pub mail_ok : Bool
  pub random : ℕ → Option (List ℕ)

-- `lower` is strings.ToLower.
pub record Handler : Type 0 where
  pub jwt : Jwt
  pub bcrypt : Bcrypt
  pub lower : Text → Text
  pub has_mailer : Bool
  pub invite_code : Text

-- NewHandler.
abbrev pub new_handler : Jwt → Bcrypt → (Text → Text) → Bool → Text → Handler
new_handler jwt bcrypt lower has_mailer invite_code = record {
  jwt = jwt;
  bcrypt = bcrypt;
  lower = lower;
  has_mailer = has_mailer;
  invite_code = trim_space invite_code;
}

-- The status, with the message, the token or the seconds to wait.
pub data Answer : Type 0 where
  message : ℕ → Text → Answer
  token : Text → Answer
  retry_after : ℕ → Answer

-- generateCode and the codes' lengths: a digit for each random byte.
unfoldable pub digits_of : List ℕ → Text
digits_of [] = []
digits_of (b ∷ bs) = (b'0' + b % 10) ∷ digits_of bs

unfoldable pub code_of : Option (List ℕ) → Option Text
unfolding digits_of
code_of none = none
code_of (some bytes) = some (digits_of bytes)

unfoldable pub generate_code : (ℕ → Option (List ℕ)) → ℕ → Option Text
unfolding code_of
generate_code random n = if n == 0 then none else code_of (random n)

-- issueCode's error, or none, and the table.
unfoldable pub code_issued : Handler → Replies → User → Users → Option Text → Option Text × Users
code_issued h r u t none = (some (str "generate code failed"), t)
code_issued h r u t (some code) =
    let u' = record u {
      verify_code = code;
      verify_code_expires_at = some (r.now + 600 * nanos);
      verify_code_sent_at = some r.now;
    } in
    let t' = put_row u.id (some u') t in
    if not r.save_ok
    then (some (str "save code failed"), t)
    else if not h.has_mailer
    then (some (str "email notifier not configured"), t')
    else if not r.mail_ok
    then (some (str "send verification failed"), t')
    else (none, t')

unfoldable pub issue_code : Handler → Replies → User → Users → Option Text × Users
unfolding code_issued generate_code
issue_code h r u t = code_issued h r u t (generate_code r.random 6)

unfoldable pub normal_email : Handler → Text → Text
normal_email h email = trim_space (h.lower email)

-- The row with that email, if the query succeeds.
unfoldable pub lookup : Replies → Text → Users → Option User
lookup r email t = if r.find_ok then find_email email t else none

pub record RegisterRequest : Type 0 where
  pub email : Text
  pub password : Text
  pub invite_code : Text

unfoldable pub code_sent : Option Text × Users → Answer × Users
code_sent (none, t) = (message 200 (str "verification code sent"), t)
code_sent (some e, t) = (message 500 e, t)

-- The new row goes again when its code cannot be sent.
unfoldable pub code_sent_new : Replies → ℕ → Option Text × Users → Answer × Users
code_sent_new r id (none, t) = (message 200 (str "verification code sent"), t)
code_sent_new r id (some e, t) = (message 500 e, if r.delete_ok then put_row id none t else t)

abbrev pub new_user : Text → Text → Text → Bool → ℕ → User
new_user email hashed role is_verified id = record {
  id = id;
  email = email;
  password = hashed;
  role = role;
  is_verified = is_verified;
  verify_code = [];
  verify_code_expires_at = none;
  verify_code_sent_at = none;
}

unfoldable pub password_hashed : Handler → Replies → Text → Users → Option Text → Answer × Users
unfolding code_sent_new
password_hashed h r email t none = (message 500 (str "hash password failed"), t)
password_hashed h r email t (some hashed) =
    let make = new_user email hashed (str "admin") false in
    let t' = create_row make t in
    if not r.create_ok
    then (message 500 (str "create user failed"), t)
    else code_sent_new r t.next_id (issue_code h r (make t.next_id) t')

unfoldable pub register_found :
    Handler → Replies → Text → Text → Users → Option User → Answer × Users
unfolding password_hashed code_sent
register_found h r email password t none =
    if r.find_ok
    then password_hashed h r email t (h.bcrypt.hash password)
    else (message 500 (str "query user failed"), t)
register_found h r email password t (some u) =
    if u.is_verified
    then (message 409 (str "email already exists"), t)
    else code_sent (issue_code h r u t)

unfoldable pub register : Handler → Replies → Option RegisterRequest → Users → Answer × Users
unfolding register_found
register h r none t = (message 400 (str "bad request"), t)
register h r (some req) t =
    let email = normal_email h req.email in
    if is_empty h.invite_code
    then (message 403 (str "registration disabled"), t)
    else if not (text_eq (trim_space req.invite_code) h.invite_code)
    then (message 403 (str "invalid invite code"), t)
    else register_found h r email req.password t (lookup r email t)

unfoldable pub token_signed : Option Text → Answer
token_signed none = message 500 (str "sign token failed")
token_signed (some t) = token t

unfoldable pub login_found : Handler → Replies → Text → Option User → Answer
unfolding token_signed
login_found h r password none = message 401 (str "invalid credentials")
login_found h r password (some u) =
    if not u.is_verified
    then message 403 (str "email not verified")
    else if not (h.bcrypt.matches u.password password)
    then message 401 (str "invalid credentials")
    else token_signed (issue_token h.jwt r.now u.id u.role)

-- The request's email and password.
unfoldable pub login : Handler → Replies → Option (Text × Text) → Users → Answer
unfolding login_found
login h r none t = message 400 (str "bad request")
login h r (some (email, password)) t = login_found h r password (lookup r (normal_email h email) t)

abbrev pub demo_email : Text
demo_email = str "demo@goodshunter.com"

unfoldable pub guest_hashed : Handler → Replies → Users → Option Text → Answer × Users
unfolding token_signed
guest_hashed h r t none = (message 500 (str "hash password failed"), t)
guest_hashed h r t (some hashed) =
    let t' = create_row (new_user demo_email hashed (str "guest") true) t in
    if not r.create_ok
    then (message 500 (str "create guest failed"), t)
    else (token_signed (issue_token h.jwt r.now t.next_id (str "guest")), t')

unfoldable pub guest_found : Handler → Replies → Text → Users → Option User → Answer × Users
unfolding guest_hashed token_signed
guest_found h r random_password t none =
    if r.find_ok
    then guest_hashed h r t (h.bcrypt.hash random_password)
    else (message 500 (str "query guest failed"), t)
guest_found h r random_password t (some u) = (token_signed (issue_token h.jwt r.now u.id u.role), t)

unfoldable pub guest_login : Handler → Replies → Text → Users → Answer × Users
unfolding guest_found
guest_login h r random_password t = guest_found h r random_password t (lookup r demo_email t)

unfoldable pub expired : ℕ → Option ℕ → Bool
expired now none = true
expired now (some at) = ltb at now

unfoldable pub verify_found : Replies → Text → Users → Option User → Answer × Users
unfolding expired
verify_found r code t none = (message 401 (str "invalid code"), t)
verify_found r code t (some u) =
    let u' = record u {
      is_verified = true;
      verify_code = [];
      verify_code_expires_at = none;
      verify_code_sent_at = none;
    } in
    if u.is_verified
    then (message 200 (str "already verified"), t)
    else if is_empty u.verify_code || not (text_eq u.verify_code (trim_space code))
    then (message 401 (str "invalid code"), t)
    else if expired r.now u.verify_code_expires_at
    then (message 401 (str "code expired"), t)
    else if not r.save_ok
    then (message 500 (str "verify failed"), t)
    else (message 200 (str "verified"), put_row u.id (some u') t)

-- The request's email and code.
unfoldable pub verify_email : Handler → Replies → Option (Text × Text) → Users → Answer × Users
unfolding verify_found
verify_email h r none t = (message 400 (str "bad request"), t)
verify_email h r (some (email, code)) t = verify_found r code t (lookup r (normal_email h email) t)

-- The seconds left of the 60 since the last code.
unfoldable pub wait_left : ℕ → Option ℕ → Option ℕ
wait_left now none = none
wait_left now (some at) =
    if ltb now (at + 60 * nanos) then some ((at + 60 * nanos - now) / nanos) else none

unfoldable pub resend_now : Handler → Replies → User → Users → Option ℕ → Answer × Users
unfolding code_sent
resend_now h r u t none = code_sent (issue_code h r u t)
resend_now h r u t (some left) = (retry_after left, t)

unfoldable pub resend_found : Handler → Replies → Users → Option User → Answer × Users
unfolding resend_now wait_left
resend_found h r t none = (message 401 (str "email not found"), t)
resend_found h r t (some u) =
    if u.is_verified
    then (message 400 (str "already verified"), t)
    else resend_now h r u t (wait_left r.now u.verify_code_sent_at)

unfoldable pub resend_code : Handler → Replies → Option Text → Users → Answer × Users
unfolding resend_found
resend_code h r none t = (message 400 (str "bad request"), t)
resend_code h r (some email) t = resend_found h r t (lookup r (normal_email h email) t)

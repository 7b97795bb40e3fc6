-- ===== src/Api/Token.antt =====
-- issueToken of internal/api/auth/auth.go, and internal/api/middleware/jwt.go.
use goods_hunter.Base.{
  ℕ, ◌+◌, ◌*◌, ◌/◌, ◌^◌, ◌<◌, ◌==◌, ltb, ◌≡◌, [], ◌∷◌, Option, none, some, if◌then◌else◌,
}
use goods_hunter.Base.Int.{ℤ, pos, sub_ℕ}
use goods_hunter.Base.Text.{Text, str, text_eq, is_empty, to_lower, trim_space}
use goods_hunter.Base.Decimal.{format_uint, parse_uint}

-- The expiry and the time of issue are in seconds.
pub record Claims : Type 0 where
  pub subject : Text
  pub role : Text
  pub expires_at : ℕ
  pub issued_at : ℕ

-- jwt with HS256 and the server's secret: a token that was signed is read back until it expires.
pub record Jwt : Type 0 where
  pub sign : Claims → Option Text
  pub read : ℕ → Text → Option Claims
  pub read_law :
      (c : Claims) (t : Text) (now : ℕ)
      → sign c ≡ some t
      → now < c.expires_at * 1_000_000_000
      → read now t ≡ some c

abbrev pub nanos : ℕ
nanos = 1_000_000_000

unfoldable pub claims_of : ℕ → ℕ → Text → Claims
claims_of now user_id role = record {
  subject = format_uint user_id;
  role = role;
  expires_at = (now + 24 * 60 * 60 * nanos) / nanos;
  issued_at = now / nanos;
}

unfoldable pub issue_token : Jwt → ℕ → ℕ → Text → Option Text
unfolding claims_of
issue_token jwt now user_id role = jwt.sign (claims_of now user_id role)

pub data Access : Type 0 where
  missing_authorization invalid_header invalid_token invalid_subject invalid_user_id : Access
  -- The user's id, as an int, and role.
  granted : ℤ → Text → Access

-- strings.SplitN at the first blank.
unfoldable pub split_blank : Text → Option (Text × Text)
split_blank [] = none
split_blank (c ∷ s) =
    let rest = split_blank s in
    if c == 32 then some ([], s) else elim rest as (λ _. Option (Text × Text)) [
      | none ↦ none
      | some (before, after) ↦ some (c ∷ before, after)
    ]

unfoldable pub int_of_uint : ℕ → ℤ
int_of_uint n = if ltb n (2 ^ 63) then pos n else sub_ℕ n (2 ^ 64)

unfoldable pub normal_role : Text → Text
normal_role role = let r = trim_space (to_lower role) in if is_empty r then str "admin" else r

unfoldable pub subject_parsed : Text → Option ℕ → Access
unfolding int_of_uint normal_role
subject_parsed role none = invalid_user_id
subject_parsed role (some uid) = granted (int_of_uint uid) (normal_role role)

unfoldable pub claims_read : Option Claims → Access
unfolding subject_parsed
claims_read none = invalid_token
claims_read (some c) =
    if is_empty c.subject then invalid_subject else subject_parsed c.role (parse_uint c.subject)

unfoldable pub header_split : Jwt → ℕ → Option (Text × Text) → Access
unfolding claims_read
header_split jwt now none = invalid_header
header_split jwt now (some (scheme, token)) =
    if text_eq (to_lower scheme) (str "bearer")
    then claims_read (jwt.read now token)
    else invalid_header

unfoldable pub auth_middleware : Jwt → ℕ → Text → Access
unfolding header_split split_blank
auth_middleware jwt now header =
    if is_empty header then missing_authorization else header_split jwt now (split_blank header)

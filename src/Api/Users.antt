-- ===== src/Api/Users.antt =====
-- internal/model/user.go: the table of users, by its primary key.
use goods_hunter.Base.{ℕ, zero, suc, ◌==◌, Bool, false, Option, none, some, if◌then◌else◌}
use goods_hunter.Base.Text.{Text, text_eq}

-- Times are in nanoseconds.
pub record User : Type 0 where
  pub id : ℕ
  pub email : Text
  pub password : Text
  pub role : Text
  pub is_verified : Bool
  pub verify_code : Text
  pub verify_code_expires_at : Option ℕ
  pub verify_code_sent_at : Option ℕ

-- The rows by their ids, and the next id to give out.
pub record Users : Type 0 where
  pub row : ℕ → Option User
  pub next_id : ℕ

-- Save and Delete of a row.
unfoldable pub put_row : ℕ → Option User → Users → Users
put_row id u t = record t { row = λ k. if k == id then u else t.row k }

-- Create: the row gets the next id.
unfoldable pub create_row : (ℕ → User) → Users → Users
unfolding put_row
create_row make t = put_row t.next_id (some (make t.next_id)) (record t { next_id = suc t.next_id })

unfoldable pub has_email : Text → Option User → Bool
has_email email none = false
has_email email (some u) = text_eq u.email email

-- First of the rows with that email: by increasing id, `left` of them from `id` on.
unfoldable pub find_from : Text → ℕ → ℕ → Users → Option User
unfolding has_email
find_from email zero id t = none
find_from email (suc left) id t =
    let rest = find_from email left (suc id) t in
    if has_email email (t.row id) then t.row id else rest

unfoldable pub find_email : Text → Users → Option User
unfolding find_from
find_email email t = find_from email t.next_id 0 t

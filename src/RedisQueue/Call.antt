-- ===== src/RedisQueue/Call.antt =====
-- A method of the client: it talks to the server through a connection, and returns a value or an
-- error. `exec` sends one command or one script.
use goods_hunter.Base.{suc, ◌≡◌, ap, Option, none, some}
use goods_hunter.Redis.{Redis, Conn, Delivery, answered, refused, lost}
use goods_hunter.RedisQueue.Types.{Error, network, not_initialized}

pub data Result {ℓ} (A : Type ℓ) : Type ℓ where
  ok : A → Result A
  err : Error → Result A

abbrev pub M : Type 0 → Type 0 → Type 0
M D A = Conn D → Result A × Conn D

unfoldable pub pure : {D A : Type 0} → A → M D A
pure a c = (ok a, c)

unfoldable pub fail : {D A : Type 0} → Error → M D A
fail e c = (err e, c)

abbrev pub bind_result : {D A B : Type 0} → (A → M D B) → Result A × Conn D → Result B × Conn D
bind_result f (ok a, c) = f a c
bind_result f (err e, c) = (err e, c)

infixl 5 ◌>>=◌ ◌>>◌
unfoldable pub ◌>>=◌ : {D A B : Type 0} → M D A → (A → M D B) → M D B
◌>>=◌ m f c = bind_result f (m c)

abbrev pub ◌>>◌ : {D B : Type 0} → M D (Unit {0}) → M D B → M D B
m >> k = m >>= λ _. k

abbrev pub or_else_result : {D A : Type 0} → A → Result A × Conn D → Result A × Conn D
or_else_result a (ok x, c) = (ok x, c)
or_else_result a (err e, c) = (ok a, c)

-- The error is dropped, with `a` for the value.
unfoldable pub or_else : {D A : Type 0} → A → M D A → M D A
or_else a m c = or_else_result a (m c)

deliver : {D A : Type 0} → Delivery → (D → A × D) → Conn D → Result A × Conn D
deliver answered f c = (ok (f c.db).0, record c { db = (f c.db).1; sent = suc c.sent })
deliver refused f c = (err network, record c { sent = suc c.sent })
deliver lost f c = (err network, record c { db = (f c.db).1; sent = suc c.sent })

unfoldable pub exec : {D A : Type 0} → (D → A × D) → M D A
unfolding deliver
exec f c = deliver (c.net c.sent) f c

-- A command that only reads.
abbrev pub reading : {D A : Type 0} → (D → A) → D → A × D
reading f d = (f d, d)

-- `c == nil || c.rdb == nil`.
abbrev pub with_rdb : {D A : Type 0} → Option (Redis D) → (Redis D → M D A) → M D A
with_rdb none k = fail not_initialized
with_rdb (some r) k = k r

-- Whatever the network does, the method keeps `P` of the data base.
pub record Keeps {ℓ} {D A : Type 0} (P : D → Type ℓ) (m : M D A) : Type ℓ where
  pub keeps : (c : Conn D) → P c.db → P (m c).1.db

module _ {ℓ} {D : Type 0} (P : D → Type ℓ) where
  deliver-keeps :
      {A : Type 0} (n : Delivery) (f : D → A × D)
      → ((d : D) → P d → P (f d).1)
      → (c : Conn D) → P c.db
      → P (deliver n f c).1.db
  unfolding deliver
  deliver-keeps answered f keep c h = keep c.db h
  deliver-keeps refused f keep c h = h
  deliver-keeps lost f keep c h = keep c.db h

  bind_result-Keeps :
      {A B : Type 0} (f : A → M D B)
      → ((a : A) → Keeps P (f a))
      → (r : Result A × Conn D) → P r.1.db
      → P (bind_result f r).1.db
  bind_result-Keeps f keep (ok a, c) h = (keep a).keeps c h
  bind_result-Keeps f keep (err e, c) h = h

  or_else_result-keeps :
      {A : Type 0} (a : A) (r : Result A × Conn D) → P r.1.db → P (or_else_result a r).1.db
  or_else_result-keeps a (ok x, c) h = h
  or_else_result-keeps a (err e, c) h = h

module _ {ℓ} {D : Type 0} {P : D → Type ℓ} where
  pub pure-Keeps : {A : Type 0} (a : A) → Keeps P (pure a)
  unfolding pure
  pure-Keeps a = record { keeps = λ c h. h }

  pub fail-Keeps : {A : Type 0} (e : Error) → Keeps {A = A} P (fail e)
  unfolding fail
  fail-Keeps e = record { keeps = λ c h. h }

  pub exec-Keeps : {A : Type 0} (f : D → A × D) → ((d : D) → P d → P (f d).1) → Keeps P (exec f)
  unfolding exec
  exec-Keeps f keep = record { keeps = λ c h. deliver-keeps P (c.net c.sent) f keep c h }

  pub >>=-Keeps :
      {A B : Type 0} (m : M D A) (f : A → M D B)
      → Keeps P m
      → ((a : A) → Keeps P (f a))
      → Keeps P (m >>= f)
  unfolding ◌>>=◌
  >>=-Keeps m f km kf = record { keeps = λ c h. bind_result-Keeps P f kf (m c) (km.keeps c h) }

  pub or_else-Keeps : {A : Type 0} (a : A) (m : M D A) → Keeps P m → Keeps P (or_else a m)
  unfolding or_else
  or_else-Keeps a m k = record { keeps = λ c h. or_else_result-keeps P a (m c) (k.keeps c h) }

pub >>=-run :
    {D A B : Type 0} (m : M D A) (f : A → M D B) (a : A) (c c' : Conn D)
    → m c ≡ (ok a, c')
    → (m >>= f) c ≡ f a c'
unfolding ◌>>=◌
>>=-run m f a c c' e = ap (bind_result f) e

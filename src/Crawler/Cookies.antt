-- ===== src/Crawler/Cookies.antt =====
-- internal/crawler/adaptive.go: CookieManager, with the mutex left out. Redis, the page, the JSON
-- codec and the random number are what the calls answer.
use goods_hunter.Base.{
  ℕ, ◌*◌, ◌-◌, ltb, Bool, true, false, not, ◌&&◌, ◌||◌, List, [], ◌∷◌, Option, none, some,
  if◌then◌else◌,
}
use goods_hunter.Base.Text.{Text, str, text_eq}

-- Times are in nanoseconds; `expires` is in seconds, and 0 for a cookie of the session.
pub record Cookie : Type 0 where
  pub name : Text
  pub value : Text
  pub domain : Text
  pub expires : ℕ

-- `created_at` is none for the zero time.
pub record Cookies : Type 0 where
  pub cached : List Cookie
  pub cache_time : ℕ
  pub created_at : Option ℕ

pub record Jar : Type 0 where
  pub has_redis : Bool
  pub now : ℕ
  pub page_cookies : Option (List Cookie)
  pub marshals : Bool
  pub set_ok : Bool
  pub refreshes : Bool
  -- None for an error; the cookies that the value holds, none for a value that is no JSON.
  pub stored : Option (Option (Option (List Cookie)))

abbrev pub second : ℕ
second = 1_000_000_000

abbrev pub cache_ttl : ℕ
cache_ttl = 5 * 60 * second

abbrev pub cookie_max_age : ℕ
cookie_max_age = 2 * 3600 * second

abbrev pub new_cookie_manager : Cookies
new_cookie_manager = record { cached = []; cache_time = 0; created_at = none }

abbrev pub is_usable : ℕ → Cookie → Bool
is_usable now c =
    (text_eq c.domain (str ".mercari.com") || text_eq c.domain (str "jp.mercari.com"))
    && not (ltb 0 c.expires && ltb (c.expires * second) now)

unfoldable pub usable : ℕ → List Cookie → List Cookie
usable now [] = []
usable now (c ∷ cs) = let rest = usable now cs in if is_usable now c then c ∷ rest else rest

abbrev pub created : ℕ → Option ℕ → Option ℕ
created now none = some now
created now (some at) = some at

abbrev pub hold : ℕ → List Cookie → Cookies → Cookies
hold now cs s = record { cached = cs; cache_time = now; created_at = created now s.created_at }

unfoldable pub save_usable : Jar → List Cookie → Cookies → Cookies
save_usable jar [] s = s
save_usable jar (c ∷ cs) s = if jar.marshals && jar.set_ok then hold jar.now (c ∷ cs) s else s

-- SaveCookies; its errors are logged by the caller.
unfoldable pub save_cookies : Jar → Option (List Cookie) → Cookies → Cookies
unfolding save_usable usable
save_cookies jar none s = s
save_cookies jar (some cs) s = if jar.has_redis then save_usable jar (usable jar.now cs) s else s

abbrev pub clear_cookies : Cookies
clear_cookies = new_cookie_manager

abbrev pub is_old : ℕ → Option ℕ → Bool
is_old now none = false
is_old now (some at) = ltb cookie_max_age (now - at)

abbrev pub has_cookies : List Cookie → Bool
has_cookies [] = false
has_cookies (_ ∷ _) = true

unfoldable pub load_stored :
    Jar → Option (Option (Option (List Cookie))) → Cookies → List Cookie × Cookies
load_stored jar none s = ([], s)
load_stored jar (some none) s = ([], s)
load_stored jar (some (some none)) s = ([], s)
load_stored jar (some (some (some cs))) s = (cs, hold jar.now cs s)

-- LoadCookies: the cookies that go to the page, and the manager after it.
unfoldable pub load_cookies : Jar → Cookies → List Cookie × Cookies
unfolding load_stored
load_cookies jar s =
    if not jar.has_redis || jar.refreshes
    then ([], s)
    else if is_old jar.now s.created_at
    then ([], clear_cookies)
    else if has_cookies s.cached && ltb (jar.now - s.cache_time) cache_ttl
    then (s.cached, s)
    else load_stored jar jar.stored s

-- The calls of one process.
pub data Use : Type 0 where
  saves loads : Jar → Use
  clears : Use

unfoldable pub used : Use → Cookies → Cookies
unfolding save_cookies load_cookies
used (saves jar) s = save_cookies jar jar.page_cookies s
used (loads jar) s = (load_cookies jar s).1
used clears s = clear_cookies

unfoldable pub used_all : List Use → Cookies → Cookies
unfolding used
used_all [] s = s
used_all (u ∷ us) s = used u (used_all us s)

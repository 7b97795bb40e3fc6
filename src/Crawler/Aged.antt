-- ===== src/Crawler/Aged.antt =====
-- Which cookies a load can give to a page.
use mathlib.Core.Option.{none-ne-some}
use goods_hunter.Base.{
  ℕ, ◌+◌, ◌-◌, ◌≤◌, ltb, ◌≡◌, ◌≢◌, refl, sym, Bool, true, false, not, ◌&&◌, ◌||◌, List, [], ◌∷◌,
  Option, none, some, if◌then◌else◌, arith,
}
use goods_hunter.Crawler.Cookies.{
  Cookie, Cookies, Jar, cookie_max_age, cache_ttl, hold, created, save_usable, usable, save_cookies,
  clear_cookies, new_cookie_manager, is_old, has_cookies, load_stored, load_cookies, Use, saves,
  loads, clears, used, used_all,
}

-- Cached cookies have a time of creation.
abbrev Dated : Cookies → Type 0
Dated s = s.created_at ≡ none → s.cached ≡ []

created-ne-none : (now : ℕ) (o : Option ℕ) → created now o ≢ none
created-ne-none now none e = none-ne-some now (sym e)
created-ne-none now (some at) e = none-ne-some at (sym e)

hold-Dated : (now : ℕ) (cs : List Cookie) (s : Cookies) → Dated (hold now cs s)
hold-Dated now cs s e = absurd (created-ne-none now s.created_at e)

if_Dated : (b : Bool) (x y : Cookies) → Dated x → Dated y → Dated (if b then x else y)
if_Dated true x y hx hy = hx
if_Dated false x y hx hy = hy

save_usable-Dated :
    (jar : Jar) (cs : List Cookie) (s : Cookies) → Dated s → Dated (save_usable jar cs s)
unfolding save_usable
save_usable-Dated jar [] s h = h
save_usable-Dated jar (c ∷ cs) s h =
    if_Dated (jar.marshals && jar.set_ok) _ _ (hold-Dated jar.now (c ∷ cs) s) h

save_cookies-Dated :
    (jar : Jar) (cs : Option (List Cookie)) (s : Cookies) → Dated s → Dated (save_cookies jar cs s)
unfolding save_cookies
save_cookies-Dated jar none s h = h
save_cookies-Dated jar (some cs) s h =
    if_Dated jar.has_redis _ _ (save_usable-Dated jar (usable jar.now cs) s h) h

-- The cookies given are from within the limit.
Young : ℕ → List Cookie × Cookies → Type 0
Young now r =
    Dated r.1 × (r.0 ≢ [] → (at : ℕ) × (r.1.created_at ≡ some at) × (now ≤ at + cookie_max_age))

nothing-Young : (now : ℕ) (s : Cookies) → Dated s → Young now ([], s)
unfolding Young
nothing-Young now s h = (h, λ full. absurd (full refl))

not_old :
    (now : ℕ) (o : Option ℕ)
    → o ≢ none
    → is_old now o ≡ false
    → (at : ℕ) × (o ≡ some at) × (now ≤ at + cookie_max_age)
not_old now none there young = absurd (there refl)
not_old now (some at) there young = (at, refl, ground arith)

created-Young :
    (now : ℕ) (o : Option ℕ)
    → is_old now o ≡ false
    → (at : ℕ) × (created now o ≡ some at) × (now ≤ at + cookie_max_age)
created-Young now none young = (now, refl, omega arith)
created-Young now (some at) young = (at, refl, ground arith)

load_stored-Young :
    (jar : Jar) (stored : Option (Option (Option (List Cookie)))) (s : Cookies)
    → Dated s
    → is_old jar.now s.created_at ≡ false
    → Young jar.now (load_stored jar stored s)
unfolding load_stored Young
load_stored-Young jar none s h young = nothing-Young jar.now s h
load_stored-Young jar (some none) s h young = nothing-Young jar.now s h
load_stored-Young jar (some (some none)) s h young = nothing-Young jar.now s h
load_stored-Young jar (some (some (some cs))) s h young =
    (hold-Dated jar.now cs s, λ full. created-Young jar.now s.created_at young)

if_Young :
    (now : ℕ) (b : Bool) (x y : List Cookie × Cookies)
    → Young now x
    → (b ≡ false → Young now y)
    → Young now (if b then x else y)
if_Young now true x y hx hy = hx
if_Young now false x y hx hy = hy refl

kept-Young :
    (now : ℕ) (s : Cookies) → Dated s → is_old now s.created_at ≡ false → Young now (s.cached, s)
unfolding Young
kept-Young now s h young = (h, λ full. not_old now s.created_at (λ none_. full (h none_)) young)

load_cookies-Young : (jar : Jar) (s : Cookies) → Dated s → Young jar.now (load_cookies jar s)
unfolding load_cookies
load_cookies-Young jar s h =
    if_Young jar.now (not jar.has_redis || jar.refreshes) _ _ (nothing-Young jar.now s h) (λ on.
      if_Young jar.now (is_old jar.now s.created_at) _ _
        (nothing-Young jar.now clear_cookies (λ e. refl))
        (λ young.
          if_Young jar.now (has_cookies s.cached && ltb (jar.now - s.cache_time) cache_ttl) _ _
            (kept-Young jar.now s h young) (λ past. load_stored-Young jar jar.stored s h young)))

used_all-Dated : (us : List Use) → Dated (used_all us new_cookie_manager)
unfolding used_all used Young
used_all-Dated [] = λ e. refl
used_all-Dated (saves jar ∷ us) =
    save_cookies-Dated jar jar.page_cookies (used_all us new_cookie_manager) (used_all-Dated us)
used_all-Dated (loads jar ∷ us) =
    (load_cookies-Young jar (used_all us new_cookie_manager) (used_all-Dated us)).0
used_all-Dated (clears ∷ us) = λ e. refl

-- Whatever has been saved, loaded and cleared before, a load that gives cookies to the page has a
-- time of creation for them, and that is at most two hours ago.
pub load_cookies_age :
    (us : List Use) (jar : Jar)
    → let r = load_cookies jar (used_all us new_cookie_manager) in
      r.0 ≢ [] → (at : ℕ) × (r.1.created_at ≡ some at) × (jar.now ≤ at + cookie_max_age)
unfolding Young
load_cookies_age us jar full =
    (load_cookies-Young jar (used_all us new_cookie_manager) (used_all-Dated us)).1 full

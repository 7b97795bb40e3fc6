-- ===== src/Api/Twice.antt =====
-- The mark that handleCreateTask leaves, whether it creates a task or not.
use mathlib.Core.Bool.{true≢false}
use goods_hunter.Base.{
  ℕ, ◌+◌, ◌<◌, ◌≤◌, ltb, leb, ◌≡◌, refl, ◌∙◌, sym, ap, Bool, true, false, not, ◌||◌, Option, none,
  some, if◌then◌else◌, arith,
}
use goods_hunter.Base.Int.{ℤ}
use goods_hunter.Base.Text.{Text, str, text_eq, text_eq_refl, is_empty}
use goods_hunter.Api.Tasks.{
  TaskRow, Site, App, Query, TaskAnswer, skipped_duplicate, is_duplicate, mark_key, CreateRequest,
  map_sort_and_order, is_invalid, build_dedup_url,
}
use goods_hunter.Api.Changes.{
  count_tasks, create_task, create_checked, create_typed, insert_task, max_tasks,
}

-- A creation that comes as far as the deduplicator, and Redis answers.
pub record Asks (app : App) (q : Query) (user : ℕ) (role : Text) (req : CreateRequest) (s : Site)
    : Type 0 where
  pub no_guest : text_eq role (str "guest") ≡ false
  pub counts : q.count_ok ≡ true
  pub room : count_tasks user s < max_tasks app.max_tasks_per_user
  pub valid : is_invalid (map_sort_and_order req.sort).0 ≡ false
  pub marks_ok : q.mark_ok ≡ true

abbrev pub url_of : App → CreateRequest → Text
url_of app req =
    build_dedup_url app req.keyword req.min_price req.max_price req.platform
      (map_sort_and_order req.sort)

if_not : (b : Bool) (x y : TaskAnswer × Site) → b ≡ false → (if b then x else y) ≡ y
if_not true x y e = absurd (true≢false e)
if_not false x y e = refl

negated : (b : Bool) → b ≡ true → not b ≡ false
negated true e = refl
negated false e = absurd (true≢false (sym e))

create_task-Asks :
    (app : App) (q : Query) (user : ℕ) (role : Text) (req : CreateRequest) (s : Site)
    → Asks app q user role req s
    → create_task app q user role (some req) s
      ≡ create_checked q user req
          (map_sort_and_order req.sort)
          (is_duplicate app q (url_of app req) s)
unfolding create_task
create_task-Asks app q user role req s a =
    let full : leb (max_tasks app.max_tasks_per_user) (count_tasks user s) ≡ false =
      let h = a.room in ground arith in
    if_not (text_eq role (str "guest")) _ _ a.no_guest
    ∙ if_not (not q.count_ok) _ _ (negated q.count_ok a.counts)
    ∙ if_not (leb (max_tasks app.max_tasks_per_user) (count_tasks user s)) _ _ full
    ∙ if_not (is_invalid (map_sort_and_order req.sort).0) _ _ a.valid

site_marks :
    (b : Bool) (x y : TaskAnswer × Site) (m : Text → ℕ)
    → x.1.marks ≡ m
    → y.1.marks ≡ m
    → (if b then x else y).1.marks ≡ m
site_marks true x y m hx hy = hx
site_marks false x y m hx hy = hy

call_marks :
    (b : Bool) (x y : Site) (m : Text → ℕ)
    → x.marks ≡ m
    → y.marks ≡ m
    → (if b then x else y).marks ≡ m
call_marks true x y m hx hy = hx
call_marks false x y m hx hy = hy

insert_task-marks : (q : Query) (row : TaskRow) (s : Site) → (insert_task q row s).1.marks ≡ s.marks
unfolding insert_task
insert_task-marks q row s =
    site_marks (not q.create_ok) _ _ s.marks refl
      (call_marks (text_eq row.status (str "running")) _ _ s.marks refl refl)

create_typed-marks :
    (q : Query) (user : ℕ) (req : CreateRequest) (sort : ℤ × ℤ) (s : Site)
    → (create_typed q user req sort s).1.marks ≡ s.marks
unfolding create_typed
create_typed-marks q user req sort s = site_marks _ _ _ s.marks (insert_task-marks q _ s) refl

create_checked-marks :
    (q : Query) (user : ℕ) (req : CreateRequest) (sort : ℤ × ℤ) (x : Option Bool × Site)
    → (create_checked q user req sort x).1.marks ≡ x.1.marks
unfolding create_checked
create_checked-marks q user req sort (none, s) = create_typed-marks q user req sort s
create_checked-marks q user req sort (some false, s) = create_typed-marks q user req sort s
create_checked-marks q user req sort (some true, s) = refl

option_if : (b : Bool) (x y : Option Bool × Site) → b ≡ false → (if b then x else y) ≡ y
option_if true x y e = absurd (true≢false e)
option_if false x y e = refl

is_duplicate-asked :
    (app : App) (q : Query) (url : Text) (s : Site)
    → (not app.has_deduper || is_empty url) ≡ false
    → q.mark_ok ≡ true
    → is_duplicate app q url s ≡ (
        if ltb q.now (s.marks (mark_key app url)) then (some true, s) else (
          some false,
          record s {
            marks = λ k. if text_eq k (mark_key app url) then q.now + app.dedup_ttl else s.marks k;
          },
        ))
unfolding is_duplicate
is_duplicate-asked app q url s there ok =
    option_if (not app.has_deduper || is_empty url) _ _ there
    ∙ option_if (not q.mark_ok) _ _ (negated q.mark_ok ok)

-- After IsDuplicate the key lasts at least the time to live, unless it was taken before.
is_duplicate-marks :
    (app : App) (q : Query) (url : Text) (s : Site)
    → (not app.has_deduper || is_empty url) ≡ false
    → q.mark_ok ≡ true
    → s.marks (mark_key app url) ≤ q.now
    → (is_duplicate app q url s).1.marks (mark_key app url) ≡ q.now + app.dedup_ttl
is_duplicate-marks app q url s there ok unmarked =
    let free : ltb q.now (s.marks (mark_key app url)) ≡ false = ground arith in
    ap (λ (x : Option Bool × Site). x.1.marks (mark_key app url))
      (is_duplicate-asked app q url s there ok)
    ∙ rw (free, text_eq_refl (mark_key app url)) refl

is_duplicate-taken :
    (app : App) (q : Query) (url : Text) (s : Site)
    → (not app.has_deduper || is_empty url) ≡ false
    → q.mark_ok ≡ true
    → q.now < s.marks (mark_key app url)
    → is_duplicate app q url s ≡ (some true, s)
is_duplicate-taken app q url s there ok taken =
    let held : ltb q.now (s.marks (mark_key app url)) ≡ true = ground arith in
    is_duplicate-asked app q url s there ok ∙ rw held refl

-- A creation that comes as far as a deduplicator that answers, with an address that has no mark,
-- leaves one, also when it then answers that the type is invalid or that the statement failed.
-- Within the time to live, any user's creation with the same keyword, prices, platform and sort that
-- comes as far is then answered as a duplicate, and changes nothing.
pub create_task_twice :
    (app : App) (q q' : Query) (user user' : ℕ) (role role' status' type' : Text)
    (req : CreateRequest) (s : Site)
    → (not app.has_deduper || is_empty (url_of app req)) ≡ false
    → Asks app q user role req s
    → s.marks (mark_key app (url_of app req)) ≤ q.now
    → q'.now < q.now + app.dedup_ttl
    → let s1 = (create_task app q user role (some req) s).1 in
      let req' = record req { status = status'; task_type = type' } in
      Asks app q' user' role' req' s1
      → create_task app q' user' role' (some req') s1 ≡ (skipped_duplicate, s1)
unfolding create_checked
create_task_twice app q q' user user' role role' status' type' req s there first unmarked soon
      second =
    let url = url_of app req in
    let s1 = (create_task app q user role (some req) s).1 in
    let req' = record req { status = status'; task_type = type' } in
    let marked : s1.marks (mark_key app url) ≡ q.now + app.dedup_ttl =
      ap (λ (x : TaskAnswer × Site). x.1.marks (mark_key app url))
        (create_task-Asks app q user role req s first)
      ∙ ap (λ (m : Text → ℕ). m (mark_key app url))
          (create_checked-marks q user req (map_sort_and_order req.sort) (is_duplicate app q url s))
      ∙ is_duplicate-marks app q url s there first.marks_ok unmarked in
    create_task-Asks app q' user' role' req' s1 second
    ∙ ap (create_checked q' user' req' (map_sort_and_order req.sort))
        (is_duplicate-taken app q' url s1 there second.marks_ok (omega arith))

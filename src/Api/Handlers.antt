-- ===== src/Api/Handlers.antt =====
-- What each handler does to the rows of its user, and of the others.
use goods_hunter.Base.{
  ℕ, ◌<◌, ◌≤◌, ltb, leb, ◌≡◌, refl, ◌∙◌, sym, ap, subst, Bool, true, false, not, ◌&&◌, ◌||◌, List,
  [], ◌∷◌, ◌++◌, Option, none, some, if◌then◌else◌, length, arith, ◌⊎◌,
}
use goods_hunter.Base.Int.{ℤ}
use goods_hunter.Base.Text.{Text, str, text_eq, is_empty}
use goods_hunter.Api.Tasks.{
  TaskRow, Site, App, Query, TaskAnswer, is_duplicate, mark_key, stopped, map_sort_and_order,
  build_dedup_url, is_invalid, unmark, CreateRequest,
}
use goods_hunter.Api.Changes.{
  keep, owned, count_tasks, create_task, create_checked, create_typed, insert_task, toggle_notify,
  update_task_status, update_task, update_rows, UpdateRequest, max_tasks, start_found,
  apply_updates, given, is_blank, is_negative, is_positive, nothing_given, called, first_row,
}
use goods_hunter.Api.Removal.{delete_parsed, delete_rows, delete_items, released, names, address_of}
use goods_hunter.Api.Own.{Own, Own-refl, rows-Own, update_rows-Own, snoc-Own, removed-Own}

pub if_Own :
    (app : App) (user : ℕ) (s : Site) (b : Bool) (x y : TaskAnswer × Site)
    → Own app user s x.1
    → Own app user s y.1
    → Own app user s (if b then x else y).1
if_Own app user s true x y hx hy = hx
if_Own app user s false x y hx hy = hy

site_if :
    (b : Bool) (x y : Site) (rows : List TaskRow)
    → x.rows ≡ rows
    → y.rows ≡ rows
    → (if b then x else y).rows ≡ rows
site_if true x y rows hx hy = hx
site_if false x y rows hx hy = hy

rows_if :
    (b : Bool) (x y : Option Bool × Site) (rows : List TaskRow)
    → x.1.rows ≡ rows
    → y.1.rows ≡ rows
    → (if b then x else y).1.rows ≡ rows
rows_if true x y rows hx hy = hx
rows_if false x y rows hx hy = hy

room_Own :
    (app : App) (user : ℕ) (s : Site) (b : Bool) (x y : TaskAnswer × Site)
    → Own app user s x.1
    → (b ≡ false → Own app user s y.1)
    → Own app user s (if b then x else y).1
room_Own app user s true x y hx hy = hx
room_Own app user s false x y hx hy = hy refl

insert_task-Own :
    (app : App) (q : Query) (user : ℕ) (row : TaskRow) (s0 s : Site)
    → s.rows ≡ s0.rows
    → row.user_id ≡ user
    → count_tasks user s0 < max_tasks app.max_tasks_per_user
    → Own app user s0 (insert_task q row s).1
unfolding insert_task
insert_task-Own app q user row s0 s same mine room =
    if_Own app user s0 (not q.create_ok) _ _ (rows-Own app user s0 s same) (
      snoc-Own app user row s0 _
        (site_if (text_eq row.status (str "running")) _ _ (s0.rows ++ (row ∷ []))
          (ap (λ l. l ++ (row ∷ [])) same) (ap (λ l. l ++ (row ∷ [])) same))
        mine room)

create_typed-Own :
    (app : App) (q : Query) (user : ℕ) (req : CreateRequest) (sort : ℤ × ℤ) (s0 s : Site)
    → s.rows ≡ s0.rows
    → count_tasks user s0 < max_tasks app.max_tasks_per_user
    → Own app user s0 (create_typed q user req sort s).1
unfolding create_typed
create_typed-Own app q user req sort s0 s same room =
    if_Own app user s0 _ _ _ (insert_task-Own app q user _ s0 s same refl room)
      (rows-Own app user s0 s same)

create_checked-Own :
    (app : App) (q : Query) (user : ℕ) (req : CreateRequest) (sort : ℤ × ℤ) (s0 : Site)
    (x : Option Bool × Site)
    → x.1.rows ≡ s0.rows
    → count_tasks user s0 < max_tasks app.max_tasks_per_user
    → Own app user s0 (create_checked q user req sort x).1
unfolding create_checked
create_checked-Own app q user req sort s0 (none, s) same room =
    create_typed-Own app q user req sort s0 s same room
create_checked-Own app q user req sort s0 (some false, s) same room =
    create_typed-Own app q user req sort s0 s same room
create_checked-Own app q user req sort s0 (some true, s) same room = rows-Own app user s0 s same

is_duplicate-rows :
    (app : App) (q : Query) (url : Text) (s : Site) → (is_duplicate app q url s).1.rows ≡ s.rows
unfolding is_duplicate
is_duplicate-rows app q url s = rows_if (not app.has_deduper || is_empty url) _ _ s.rows refl (
    rows_if (not q.mark_ok) _ _ s.rows refl
      (rows_if (ltb q.now (s.marks (mark_key app url))) _ _ s.rows refl refl))

pub create_task-Own :
    (app : App) (q : Query) (user : ℕ) (role : Text) (req : Option CreateRequest) (s : Site)
    → Own app user s (create_task app q user role req s).1
unfolding create_task
create_task-Own app q user role none s =
    if_Own app user s (text_eq role (str "guest")) _ _ (Own-refl app user s) (Own-refl app user s)
create_task-Own app q user role (some req) s =
    let unchanged = Own-refl app user s in
    let sort = map_sort_and_order req.sort in
    let url = build_dedup_url app req.keyword req.min_price req.max_price req.platform sort in
    if_Own app user s (text_eq role (str "guest")) _ _ unchanged (
      if_Own app user s (not q.count_ok) _ _ unchanged (
        room_Own app user s (leb (max_tasks app.max_tasks_per_user) (count_tasks user s)) _ _
          unchanged
          (λ room. if_Own app user s (is_invalid sort.0) _ _ unchanged (
            create_checked-Own app q user req sort s (is_duplicate app q url s)
              (is_duplicate-rows app q url s) (ground arith)))))

pub toggle_notify-Own :
    (app : App) (q : Query) (user : ℕ) (id : Text) (on : Option Bool) (s : Site)
    → Own app user s (toggle_notify app q user id on s).1
unfolding toggle_notify
toggle_notify-Own app q user id none s = Own-refl app user s
toggle_notify-Own app q user id (some on) s =
    if_Own app user s (not q.update_ok) _ _ (Own-refl app user s)
      (update_rows-Own app id user _ s (λ t. refl))

start_found-rows : (o : Option TaskRow) (s : Site) → (start_found o s).rows ≡ s.rows
unfolding start_found
start_found-rows none s = refl
start_found-rows (some t) s = refl

Own-rows :
    (app : App) (user : ℕ) (s s1 s2 : Site)
    → s2.rows ≡ s1.rows
    → Own app user s s1
    → Own app user s s2
unfolding count_tasks
Own-rows app user s s1 s2 same h =
    let e = ap (λ l. length (keep (owned user) l)) same in
    record {
      others = λ o apart. ap (keep (owned o)) same ∙ h.others o apart;
      bounded =
          subst (λ n. (n ≤ count_tasks user s) ⊎ (n ≤ max_tasks app.max_tasks_per_user)) (sym e)
            h.bounded;
    }

pub update_task_status-Own :
    (app : App) (q : Query) (user : ℕ) (id : Text) (status : Option Text) (s : Site)
    → Own app user s (update_task_status app q user id status s).1
unfolding update_task_status
update_task_status-Own app q user id none s = Own-refl app user s
update_task_status-Own app q user id (some status) s =
    let s' = update_rows app id user (λ (t : TaskRow). record t { status = status }) s in
    if_Own app user s (not (text_eq status (str "running")) && not (text_eq status (str "stopped")))
      _ _ (Own-refl app user s)
      (if_Own app user s (not q.update_ok) _ _ (Own-refl app user s) (
        Own-rows app user s s' _
          (site_if (text_eq status (str "running")) _ _ s'.rows (start_found-rows _ s') refl)
          (update_rows-Own app id user _ s (λ t. refl))))

pub update_task-Own :
    (app : App) (q : Query) (user : ℕ) (role id : Text) (u : Option UpdateRequest) (s : Site)
    → Own app user s (update_task app q user role id u s).1
unfolding update_task
update_task-Own app q user role id none s =
    if_Own app user s (text_eq role (str "guest")) _ _ (Own-refl app user s) (Own-refl app user s)
update_task-Own app q user role id (some u) s =
    let unchanged = Own-refl app user s in
    if_Own app user s (text_eq role (str "guest")) _ _ unchanged (
      if_Own app user s (given is_blank u.keyword) _ _ unchanged (
        if_Own app user s (given is_negative u.min_price) _ _ unchanged (
          if_Own app user s (given is_negative u.max_price) _ _ unchanged (
            if_Own app user s (given (λ p. not (is_positive p)) u.platform) _ _ unchanged (
              if_Own app user s (given (λ t. is_invalid (map_sort_and_order t).0) u.sort) _ _
                unchanged
                (if_Own app user s (nothing_given u) _ _ unchanged (
                  if_Own app user s (not q.update_ok) _ _ unchanged
                    (update_rows-Own app id user (apply_updates u) s (λ t. refl)))))))))

unmark-rows : (app : App) (q : Query) (url : Text) (s : Site) → (unmark app q url s).rows ≡ s.rows
unfolding unmark
unmark-rows app q url s =
    site_if (not app.has_deduper || is_empty url || not q.unmark_ok) _ _ s.rows refl refl

delete_items-rows :
    (app : App) (q : Query) (user : ℕ) (id : Text) (s : Site)
    → (delete_items app q user id s).rows ≡ s.rows
unfolding delete_items
delete_items-rows app q user id s = refl

pub delete_parsed-Own :
    (app : App) (q : Query) (user : ℕ) (id : Text) (n : Option ℕ) (s : Site)
    → Own app user s (delete_parsed app q user id n s).1
unfolding delete_parsed delete_rows
delete_parsed-Own app q user id none s = Own-refl app user s
delete_parsed-Own app q user id (some n) s =
    let url = address_of app (if q.select_ok then first_row (names app id user) s.rows else none) in
    let s1 = delete_items app q user id (released app q id (called (stopped n) s)) in
    let same =
      delete_items-rows app q user id (released app q id (called (stopped n) s))
      ∙ site_if app.has_queue _ _ s.rows refl refl in
    if_Own app user s (leb n 4_294_967_295) _ _
      (if_Own app user s (not q.delete_ok) _ _ (rows-Own app user s s1 same) (
        removed-Own app id user s _ (
          unmark-rows app q url
            (record s1 { rows = keep (λ (t : TaskRow). not (names app id user t)) s1.rows })
          ∙ ap (keep (λ (t : TaskRow). not (names app id user t))) same)))
      (Own-refl app user s)

-- ===== src/Api/Changes.antt =====
-- internal/api/server.go: handleCreateTask, handleUpdateTask, handleUpdateTaskStatus,
-- handleToggleNotify and handleDeleteTask.
use goods_hunter.Base.{
  ℕ, zero, suc, ◌==◌, ltb, leb, Bool, true, false, not, ◌&&◌, ◌||◌, List, [], ◌∷◌, ◌++◌, Option,
  none, some, if◌then◌else◌, map, length, any,
}
use goods_hunter.Base.Int.{ℤ, pos, negsuc}
use goods_hunter.Base.Text.{Text, str, text_eq, is_empty, to_lower, trim_space}
use goods_hunter.Base.Decimal.{is_digit, parse_uint}
use goods_hunter.Api.Tasks.{
  TaskRow, Call, started, stopped, Site, App, Query, TaskAnswer, error, created, skipped_duplicate,
  updated, enabled, status_set, is_duplicate, map_sort_and_order, is_invalid, CreateRequest,
  build_dedup_url,
}

unfoldable pub keep : {A : Type 0} → (A → Bool) → List A → List A
keep p [] = []
keep p (x ∷ xs) = let rest = keep p xs in if p x then x ∷ rest else rest

-- The rows of a user.
abbrev pub owned : ℕ → TaskRow → Bool
owned user t = t.user_id == user

unfoldable pub count_tasks : ℕ → Site → ℕ
unfolding keep
count_tasks user s = length (keep (owned user) s.rows)

abbrev pub max_tasks : ℤ → ℕ
max_tasks (pos zero) = 3
max_tasks (pos (suc n)) = suc n
max_tasks (negsuc n) = 3

abbrev pub or_running : Text → Text
or_running status = if is_empty status then str "running" else status

abbrev pub or_monitor : Text → Text
or_monitor t = if is_empty t then str "monitor" else t

abbrev pub called : Call → Site → Site
called c s = record s { calls = c ∷ s.calls }

-- The database gives the row its id, and turns its notifications on.
unfoldable pub insert_task : Query → TaskRow → Site → TaskAnswer × Site
insert_task q row s =
    let s' = record s { rows = s.rows ++ (row ∷ []); next_id = suc s.next_id } in
    if not q.create_ok then (error 500 (str "create task failed"), s) else (
      created row.id,
      if text_eq row.status (str "running") then called (started row) s' else s',
    )

-- From the task's status on.
unfoldable pub create_typed : Query → ℕ → CreateRequest → ℤ × ℤ → Site → TaskAnswer × Site
unfolding insert_task
create_typed q user req sort s =
    let task_type = or_monitor (to_lower (trim_space req.task_type)) in
    if text_eq task_type (str "monitor") || text_eq task_type (str "oneshot")
    then insert_task q
        (record {
          id = s.next_id;
          user_id = user;
          keyword = req.keyword;
          min_price = req.min_price;
          max_price = req.max_price;
          platform = req.platform;
          sort_by = sort.0;
          sort_order = sort.1;
          status = or_running req.status;
          task_type = task_type;
          notify_enabled = true;
        })
        s
    else (error 400 (str "invalid task type"), s)

unfoldable pub create_checked :
    Query → ℕ → CreateRequest → ℤ × ℤ → Option Bool × Site → TaskAnswer × Site
unfolding create_typed
create_checked q user req sort (none, s) = create_typed q user req sort s
create_checked q user req sort (some false, s) = create_typed q user req sort s
create_checked q user req sort (some true, s) = (skipped_duplicate, s)

unfoldable pub create_task :
    App → Query → ℕ → Text → Option CreateRequest → Site → TaskAnswer × Site
unfolding create_checked count_tasks
create_task app q user role none s =
    if text_eq role (str "guest")
    then (error 403 (str "演示模式下禁止创建/删除任务"), s)
    else (error 400 (str "bad request"), s)
create_task app q user role (some req) s =
    let sort = map_sort_and_order req.sort in
    let url = build_dedup_url app req.keyword req.min_price req.max_price req.platform sort in
    if text_eq role (str "guest")
    then (error 403 (str "演示模式下禁止创建/删除任务"), s)
    else if not q.count_ok
    then (error 500 (str "count tasks failed"), s)
    else if leb (max_tasks app.max_tasks_per_user) (count_tasks user s)
    then (error 403 (str "task limit reached"), s)
    else if is_invalid sort.0
    then (error 400 (str "invalid sort"), s)
    else create_checked q user req sort (is_duplicate app q url s)

-- UPDATE ... WHERE id = ? AND user_id = ?.
unfoldable pub update_rows : App → Text → ℕ → (TaskRow → TaskRow) → Site → Site
update_rows app id user change s = record s {
  rows =
      map (λ (t : TaskRow). if app.matches_id id t.id && owned user t then change t else t) s.rows;
}

unfoldable pub toggle_notify : App → Query → ℕ → Text → Option Bool → Site → TaskAnswer × Site
unfolding update_rows
toggle_notify app q user id none s = (error 400 (str "bad request"), s)
toggle_notify app q user id (some on) s =
    if not q.update_ok
    then (error 500 (str "update notify failed"), s)
    else (enabled on, update_rows app id user (λ (t : TaskRow). record t { notify_enabled = on }) s)

-- ParseUint at 32 bits, its error dropped: past the range it is the largest, and for another text 0.
abbrev pub task_number : Bool → Option ℕ → ℕ
task_number digits none = if digits then 4_294_967_295 else 0
task_number digits (some n) = if leb n 4_294_967_295 then n else 4_294_967_295

abbrev pub first_row : (TaskRow → Bool) → List TaskRow → Option TaskRow
first_row p [] = none
first_row p (t ∷ ts) = let rest = first_row p ts in if p t then some t else rest

unfoldable pub start_found : Option TaskRow → Site → Site
start_found none s = s
start_found (some t) s = called (started t) s

abbrev pub all_digits : Text → Bool
all_digits id = not (is_empty id) && not (any (λ c. not (is_digit c)) id)

unfoldable pub update_task_status : App → Query → ℕ → Text → Option Text → Site → TaskAnswer × Site
unfolding update_rows start_found
update_task_status app q user id none s = (error 400 (str "bad request"), s)
update_task_status app q user id (some status) s =
    let n = task_number (all_digits id) (parse_uint id) in
    let s' = update_rows app id user (λ (t : TaskRow). record t { status = status }) s in
    let found =
      if q.select_ok
      then first_row (λ (t : TaskRow). t.id == n && owned user t) s'.rows
      else none in
    if not (text_eq status (str "running")) && not (text_eq status (str "stopped"))
    then (error 400 (str "invalid status"), s)
    else if not q.update_ok
    then (error 500 (str "update failed"), s)
    else (
      status_set status,
      if text_eq status (str "running") then start_found found s' else called (stopped n) s',
    )

pub record UpdateRequest : Type 0 where
  pub keyword : Option Text
  pub min_price : Option ℤ
  pub max_price : Option ℤ
  pub platform : Option ℤ
  pub sort : Option Text

abbrev pub given {ℓ} : {A : Type ℓ} → (A → Bool) → Option A → Bool
given p none = false
given p (some x) = p x

abbrev pub value {ℓ} : {A : Type ℓ} → A → Option A → A
value old none = old
value old (some new) = new

abbrev pub is_negative : ℤ → Bool
is_negative (pos n) = false
is_negative (negsuc n) = true

abbrev pub is_positive : ℤ → Bool
is_positive (pos n) = ltb 0 n
is_positive (negsuc n) = false

abbrev pub is_blank : Text → Bool
is_blank s = is_empty (trim_space s)

abbrev pub sorted : Option Text → ℤ × ℤ → ℤ × ℤ
sorted none old = old
sorted (some s) old = map_sort_and_order s

abbrev pub trimmed : Option Text → Text → Text
trimmed none old = old
trimmed (some s) old = trim_space s

abbrev pub apply_updates : UpdateRequest → TaskRow → TaskRow
apply_updates u t =
    let sort = sorted u.sort (t.sort_by, t.sort_order) in
    record t {
      keyword = trimmed u.keyword t.keyword;
      min_price = value t.min_price u.min_price;
      max_price = value t.max_price u.max_price;
      platform = value t.platform u.platform;
      sort_by = sort.0;
      sort_order = sort.1;
    }

abbrev pub nothing_given : UpdateRequest → Bool
nothing_given u = not (
    given (λ _. true) u.keyword
    || given (λ _. true) u.min_price
    || given (λ _. true) u.max_price
    || given (λ _. true) u.platform
    || given (λ _. true) u.sort)

unfoldable pub update_task :
    App → Query → ℕ → Text → Text → Option UpdateRequest → Site → TaskAnswer × Site
unfolding update_rows
update_task app q user role id none s =
    if text_eq role (str "guest")
    then (error 403 (str "演示模式下禁止修改任务"), s)
    else (error 400 (str "bad request"), s)
update_task app q user role id (some u) s =
    if text_eq role (str "guest")
    then (error 403 (str "演示模式下禁止修改任务"), s)
    else if given is_blank u.keyword
    then (error 400 (str "invalid keyword"), s)
    else if given is_negative u.min_price
    then (error 400 (str "invalid min_price"), s)
    else if given is_negative u.max_price
    then (error 400 (str "invalid max_price"), s)
    else if given (λ p. not (is_positive p)) u.platform
    then (error 400 (str "invalid platform"), s)
    else if given (λ t. is_invalid (map_sort_and_order t).0) u.sort
    then (error 400 (str "invalid sort"), s)
    else if nothing_given u
    then (error 400 (str "no updates"), s)
    else if not q.update_ok
    then (error 500 (str "update failed"), s)
    else (updated, update_rows app id user (apply_updates u) s)

-- ===== src/Api/TaskTests.antt =====
-- The task handlers and the deletion of an account at concrete tables.
use goods_hunter.Base.{false, ◌≤◌, ℕ, ◌≡◌, refl, true, List, [], ◌∷◌, ◌++◌, none, some, arith}
use goods_hunter.Base.Int.{pos}
use goods_hunter.Base.Decimal.{format_uint}
use goods_hunter.Base.Text.{Text, str, text_eq, is_empty, trim_space, to_lower}
use goods_hunter.Base.{◌⊎◌}
use goods_hunter.Api.Tasks.{TaskAnswer, deleted}
use goods_hunter.Api.Account.{
  Statements, Session, delete_account, delete_links, delete_orphans, delete_items, delete_rows,
  commit_account, pluck, exec_tx, begin_tx, write_tx, commit_tx, release_all, when_nil, orphaned,
  linked_items, owned_ids, without_links,
}
use goods_hunter.Api.Deletion.{Untouched, Gone, delete_account_outcome}
use goods_hunter.Api.Users.{Users}
use goods_hunter.Crawler.Address.{Values}
use goods_hunter.Api.Tasks.{
  TaskRow, Site, App, Query, new_deduplicator, skipped_duplicate, CreateRequest, is_duplicate,
  map_sort_and_order, build_dedup_url, cut_bar,
}
use goods_hunter.Api.Changes.{keep, owned, count_tasks, create_task, create_checked, create_typed}
use goods_hunter.Api.Owners.{
  creates, updates, sets_status, notifies, deletes, serve_task, serve_task_others, Asked,
  serve_tasks, serve_tasks_limit,
}
use goods_hunter.Api.Twice.{create_task_twice}

-- Ids are compared as numerals, a hash is the address, and the values are joined.
abbrev flat : Values → Text
flat [] = []
flat ((k, v) ∷ values) = k ++ (v ++ flat values)

abbrev app : App
app = record {
  max_tasks_per_user = pos 2;
  dedup_ttl = new_deduplicator (pos 100);
  has_deduper = true;
  has_queue = true;
  sum = λ url. url;
  encode = λ values. str "q=" ++ flat values;
  matches_id = λ id n. text_eq id (format_uint n);
}

abbrev query : ℕ → Query
query now = record {
  now = now;
  count_ok = true;
  create_ok = true;
  update_ok = true;
  select_ok = true;
  mark_ok = true;
  unmark_ok = true;
  links_read = true;
  links_deleted = true;
  items_read = true;
  items_deleted = true;
  delete_ok = true;
}

abbrev camera : CreateRequest
camera = record {
  keyword = str "camera";
  min_price = pos 0;
  max_price = pos 9000;
  platform = pos 2;
  sort = str "price|asc";
  status = [];
  task_type = str "weekly";
}

abbrev row_of : ℕ → ℕ → TaskRow
row_of id user = record {
  id = id;
  user_id = user;
  keyword = str "lens";
  min_price = pos 0;
  max_price = pos 0;
  platform = pos 1;
  sort_by = pos 0;
  sort_order = pos 0;
  status = str "running";
  task_type = str "monitor";
  notify_enabled = true;
}

-- A task of user 8, with an item.
abbrev site : Site
site = record {
  rows = row_of 4 8 ∷ [];
  next_id = 5;
  links = (4, 60) ∷ [];
  items = 60 ∷ [];
  marks = λ k. 0;
  calls = [];
}

serve_task_others_example :
    keep (owned 8) (serve_task app (query 3) 9 (str "admin") (deletes (str "4")) site).1.rows
    ≡ keep (owned 8) site.rows
serve_task_others_example =
    serve_task_others app (query 3) 9 8 (str "admin") (deletes (str "4")) site
      (λ e. absurd (omega arith))

abbrev asked : List Asked
asked =
    (query 3, 9, str "admin", creates (some camera))
    ∷ (query 4, 8, str "admin", creates (some (record camera { task_type = [] })))
    ∷ (query 500, 8, str "admin", creates (some (record camera { task_type = [] })))
    ∷ (
      query 501,
      8,
      str "admin",
      updates (str "4") (
          some (record {
            keyword = some (str " film ");
            min_price = none;
            max_price = some (pos 5);
            platform = none;
            sort = some (str "likes");
          })),
    )
    ∷ (query 502, 8, str "guest", notifies (str "4") (some false))
    ∷ (query 503, 8, str "admin", sets_status (str "4") (some (str "stopped")))
    ∷ []

few_tasks : (u : ℕ) → count_tasks u site ≤ 2
unfolding count_tasks keep
few_tasks u = ground arith

serve_tasks_limit_example : count_tasks 8 (serve_tasks app asked site) ≤ 2
serve_tasks_limit_example = serve_tasks_limit app asked site few_tasks 8

-- The first is refused for its type; another user's, which is valid, is a duplicate.
create_task_twice_example :
    let s1 = (create_task app (query 3) 9 (str "admin") (some camera) site).1 in
    create_task app
      (query 50)
      8
      (str "admin")
      (some (record camera { status = []; task_type = str "monitor" }))
      s1
    ≡ (skipped_duplicate, s1)
unfolding is_empty create_task create_checked create_typed is_duplicate map_sort_and_order
    build_dedup_url text_eq trim_space to_lower count_tasks keep cut_bar
create_task_twice_example =
    create_task_twice app (query 3) (query 50) 9 8 (str "admin") (str "admin") [] (str "monitor")
      camera site refl
      (record { no_guest = refl; counts = refl; room = omega arith; valid = refl; marks_ok = refl })
      (omega arith) (omega arith)
      (record { no_guest = refl; counts = refl; room = omega arith; valid = refl; marks_ok = refl })

abbrev accounts : Users
accounts = record { row = λ k. none; next_id = 9 }

abbrev statements : Statements
statements = record {
  begins = true;
  loads_tasks = true;
  loads_items = true;
  deletes_links = true;
  loads_orphans = true;
  deletes_items = true;
  deletes_tasks = true;
  deletes_user = true;
  commits = true;
}

-- User 8 goes with task 4, its link and the item that no other task has.
abbrev session : Session
session = record { site = site; users = accounts; tx = none }

abbrev after_deletion : TaskAnswer × Session
after_deletion = delete_account app statements 8 (str "admin") session

delete_account_outcome_example :
    (after_deletion.1.tx ≡ none)
    × (Untouched session after_deletion.1
        ⊎ ((after_deletion.0 ≡ deleted (str "true")) × Gone 8 session after_deletion.1))
delete_account_outcome_example = delete_account_outcome app statements 8 (str "admin") session refl

no_items_left : after_deletion.1.site.items ≡ []
unfolding delete_account delete_links delete_orphans delete_items delete_rows commit_account pluck
    when_nil orphaned linked_items owned_ids without_links exec_tx begin_tx write_tx commit_tx
    release_all keep text_eq
no_items_left = refl

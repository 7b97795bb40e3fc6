-- ===== src/Api/Removal.antt =====
-- internal/api/server.go: handleDeleteTask.
use goods_hunter.Base.{
  ℕ, ◌==◌, leb, Bool, not, ◌&&◌, List, [], Option, none, some, if◌then◌else◌, map, any,
}
use goods_hunter.Base.Text.{Text, str, text_eq}
use goods_hunter.Base.Decimal.{parse_uint}
use goods_hunter.Api.Tasks.{
  TaskRow, stopped, unpended, Site, App, Query, TaskAnswer, error, deleted, unmark, build_dedup_url,
}
use goods_hunter.Api.Changes.{keep, owned, called, first_row}

abbrev pub names : App → Text → ℕ → TaskRow → Bool
names app id user t = app.matches_id id t.id && owned user t

-- The address of the user's task, if the query finds it.
abbrev pub address_of : App → Option TaskRow → Text
address_of app none = []
address_of app (some t) =
    build_dedup_url app t.keyword t.min_price t.max_price t.platform (t.sort_by, t.sort_order)

abbrev pub one_of : List ℕ → ℕ → Bool
one_of ids n = any (λ m. m == n) ids

-- The links of the user's task of that id.
abbrev pub linked : App → Text → ℕ → Site → ℕ × ℕ → Bool
linked app id user s link =
    app.matches_id id link.0 && any (λ (t : TaskRow). t.id == link.0 && owned user t) s.rows

-- The links go, and the items that no other link names.
unfoldable pub delete_items : App → Query → ℕ → Text → Site → Site
unfolding keep
delete_items app q user id s =
    let item_ids =
      if q.links_read then map (λ (l : ℕ × ℕ). l.1) (keep (linked app id user s) s.links) else [] in
    let links =
      if q.links_deleted
      then keep (λ (l : ℕ × ℕ). not (linked app id user s l)) s.links
      else s.links in
    let is_orphan : ℕ → Bool =
      λ n. q.items_read && one_of item_ids n && not (one_of (map (λ (l : ℕ × ℕ). l.1) links) n) in
    record s {
      links = links;
      items = if q.items_deleted then keep (λ (n : ℕ). not (is_orphan n)) s.items else s.items;
    }

abbrev pub released : App → Query → Text → Site → Site
released app q id s = if app.has_queue then called (unpended id) s else s

unfoldable pub delete_rows : App → Query → ℕ → Text → Text → Site → TaskAnswer × Site
unfolding keep unmark
delete_rows app q user id url s =
    if not q.delete_ok then (error 500 (str "delete task failed"), s) else (
      deleted id,
      unmark app q url
          (record s { rows = keep (λ (t : TaskRow). not (names app id user t)) s.rows }),
    )

unfoldable pub delete_parsed : App → Query → ℕ → Text → Option ℕ → Site → TaskAnswer × Site
unfolding delete_items delete_rows
delete_parsed app q user id none s = (error 400 (str "invalid task id"), s)
delete_parsed app q user id (some n) s =
    let url = address_of app (if q.select_ok then first_row (names app id user) s.rows else none) in
    if leb n 4_294_967_295
    then delete_rows app q user id url
        (delete_items app q user id (released app q id (called (stopped n) s)))
    else (error 400 (str "invalid task id"), s)

unfoldable pub delete_task : App → Query → ℕ → Text → Text → Site → TaskAnswer × Site
unfolding delete_parsed
delete_task app q user role id s =
    if text_eq role (str "guest")
    then (error 403 (str "演示模式下禁止创建/删除任务"), s)
    else delete_parsed app q user id (parse_uint id) s

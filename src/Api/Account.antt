-- ===== src/Api/Account.antt =====
-- internal/api/server.go: handleDeleteAccount, a transaction.
use goods_hunter.Base.{ℕ, Bool, not, ◌&&◌, List, [], ◌∷◌, Option, none, some, if◌then◌else◌, map}
use goods_hunter.Base.Text.{Text, str, text_eq}
use goods_hunter.Base.Decimal.{format_uint}
use goods_hunter.Api.Users.{Users, put_row}
use goods_hunter.Api.Tasks.{TaskRow, stopped, unpended, Site, App, TaskAnswer, error, deleted}
use goods_hunter.Api.Changes.{keep, owned, called}
use goods_hunter.Api.Removal.{one_of}

-- Whether each statement of the transaction succeeds, and its commit.
pub record Statements : Type 0 where
  pub begins : Bool
  pub loads_tasks : Bool
  pub loads_items : Bool
  pub deletes_links : Bool
  pub loads_orphans : Bool
  pub deletes_items : Bool
  pub deletes_tasks : Bool
  pub deletes_user : Bool
  pub commits : Bool

-- The scheduler and the queue drop the tasks; no rollback takes that back.
unfoldable pub release_all : App → List ℕ → Site → Site
release_all app [] s = s
release_all app (id ∷ ids) s =
    let s' = called (stopped id) s in
    release_all app ids (if app.has_queue then called (unpended (format_uint id)) s' else s')

-- The tables that the transaction works on.
pub record Tables : Type 0 where
  pub rows : List TaskRow
  pub links : List (ℕ × ℕ)
  pub items : List ℕ
  pub users : Users

-- The committed tables, with the server's other state, and the open transaction's copy, if any.
pub record Session : Type 0 where
  pub site : Site
  pub users : Users
  pub tx : Option Tables

abbrev pub committed : Session → Tables
committed s = record {
  rows = s.site.rows;
  links = s.site.links;
  items = s.site.items;
  users = s.users;
}

-- The database: Begin, what a statement of the transaction reads, what one writes, Rollback, and
-- Commit when it succeeds.
unfoldable pub begin_tx : Session → Session
begin_tx s = record s { tx = some (committed s) }

abbrev pub seen_by : Tables → Option Tables → Tables
seen_by c none = c
seen_by c (some x) = x

abbrev pub written : (Tables → Tables) → Option Tables → Option Tables
written f none = none
written f (some x) = some (f x)

unfoldable pub write_tx : (Tables → Tables) → Session → Session
write_tx f s = record s { tx = written f s.tx }

unfoldable pub rollback_tx : Session → Session
rollback_tx s = record s { tx = none }

unfoldable pub commit_tx : Session → Session
commit_tx s =
    let x = seen_by (committed s) s.tx in
    record {
      site = record (s.site) { rows = x.rows; links = x.links; items = x.items };
      users = x.users;
      tx = none;
    }

-- The rest of the handler.
abbrev pub Rest : Type 0
Rest = Session → TaskAnswer × Session

-- The guards on the length of a list.
unfoldable pub when_nil : List ℕ → Rest → Rest → Rest
when_nil [] m n = m
when_nil (_ ∷ _) m n = n

-- A statement that reads, and one that writes: on an error the transaction is rolled back.
unfoldable pub pluck : Bool → Text → (Tables → List ℕ) → (List ℕ → Rest) → Rest
unfolding rollback_tx
pluck works text get next s =
    if works then next (get (seen_by (committed s) s.tx)) s else (error 500 text, rollback_tx s)

unfoldable pub exec_tx : Bool → Text → (Tables → Tables) → Rest → Rest
unfolding rollback_tx write_tx
exec_tx works text f next s = if works then next (write_tx f s) else (error 500 text, rollback_tx s)

unfoldable pub commit_account : Statements → Rest
unfolding commit_tx rollback_tx
commit_account q s =
    if q.commits
    then (deleted (str "true"), commit_tx s)
    else (error 500 (str "commit failed"), rollback_tx s)

unfoldable pub delete_rows : Statements → ℕ → Rest
unfolding exec_tx commit_account keep
delete_rows q user =
    exec_tx q.deletes_tasks (str "delete tasks failed")
      (λ x. record x { rows = keep (λ (t : TaskRow). not (owned user t)) x.rows })
      (exec_tx q.deletes_user (str "delete user failed")
        (λ x. record x { users = put_row user none x.users }) (commit_account q))

unfoldable pub delete_items : Statements → ℕ → List ℕ → Rest
unfolding exec_tx delete_rows keep
delete_items q user orphans = when_nil orphans (delete_rows q user) (
    exec_tx q.deletes_items (str "delete items failed")
      (λ x. record x { items = keep (λ (n : ℕ). not (one_of orphans n)) x.items })
      (delete_rows q user))

-- The items of the list that no task has any more.
unfoldable pub orphaned : List ℕ → Tables → List ℕ
unfolding keep
orphaned item_ids x =
    let linked = map (λ (l : ℕ × ℕ). l.1) x.links in
    keep (λ (n : ℕ). one_of item_ids n && not (one_of linked n)) x.items

unfoldable pub linked_items : List ℕ → Tables → List ℕ
unfolding keep
linked_items ids x = map (λ (l : ℕ × ℕ). l.1) (keep (λ (l : ℕ × ℕ). one_of ids l.0) x.links)

unfoldable pub owned_ids : ℕ → Tables → List ℕ
unfolding keep
owned_ids user x = map (λ (r : TaskRow). r.id) (keep (owned user) x.rows)

unfoldable pub delete_orphans : Statements → ℕ → List ℕ → Rest
unfolding pluck delete_items delete_rows orphaned
delete_orphans q user item_ids = when_nil item_ids (delete_rows q user) (
    pluck q.loads_orphans (str "load orphaned items failed") (orphaned item_ids)
      (delete_items q user))

unfoldable pub without_links : List ℕ → Tables → Tables
unfolding keep
without_links ids x = record x { links = keep (λ (l : ℕ × ℕ). not (one_of ids l.0)) x.links }

unfoldable pub delete_links : Statements → ℕ → List ℕ → Rest
unfolding pluck exec_tx delete_orphans linked_items without_links
delete_links q user ids = when_nil ids (delete_orphans q user []) (
    pluck q.loads_items (str "load items failed") (linked_items ids) (λ item_ids.
      exec_tx q.deletes_links (str "delete task_items failed") (without_links ids)
        (delete_orphans q user item_ids)))

unfoldable pub delete_account : App → Statements → ℕ → Text → Rest
unfolding begin_tx pluck delete_links release_all owned_ids
delete_account app q user role s =
    if text_eq role (str "guest")
    then (error 403 (str "演示账号不可注销"), s)
    else if not q.begins
    then (error 500 (str "transaction failed"), s)
    else pluck q.loads_tasks (str "load tasks failed") (owned_ids user)
        (λ ids s'. delete_links q user ids (record s' { site = release_all app ids s'.site }))
        (begin_tx s)

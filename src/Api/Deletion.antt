-- ===== src/Api/Deletion.antt =====
-- What the deletion of an account leaves behind: all or nothing, and no open transaction.
use goods_hunter.Base.{
  ℕ, ◌==◌, ◌≡◌, ◌≢◌, refl, ◌∙◌, ap, Bool, true, false, not, List, [], ◌∷◌, none, some,
  if◌then◌else◌, arith, Bool-cases, inl, inr, ◌⊎◌,
}
use goods_hunter.Base.Text.{Text, str, text_eq}
use goods_hunter.Base.Decimal.{format_uint}
use goods_hunter.Api.Users.{Users, put_row}
use goods_hunter.Api.Tasks.{TaskRow, stopped, unpended, Site, App, TaskAnswer, deleted}
use goods_hunter.Api.Changes.{keep, owned, called}
use goods_hunter.Api.Own.{keep-keep, other_owner}
use goods_hunter.Api.Account.{
  Statements, Tables, Session, Rest, committed, when_nil, release_all, begin_tx, write_tx,
  rollback_tx, commit_tx, pluck, exec_tx, commit_account, delete_rows, delete_items, delete_orphans,
  delete_links, delete_account, orphaned, linked_items, owned_ids, without_links,
}

-- The committed tables are as before.
pub record Untouched (s s' : Session) : Type 0 where
  pub same_rows : s'.site.rows ≡ s.site.rows
  pub same_links : s'.site.links ≡ s.site.links
  pub same_items : s'.site.items ≡ s.site.items
  pub same_users : s'.users ≡ s.users

-- The user's rows are gone, and those of the others are not.
pub record Gone (user : ℕ) (s s' : Session) : Type 0 where
  pub no_rows : keep (owned user) s'.site.rows ≡ []
  pub others :
      (other : ℕ) → user ≢ other → keep (owned other) s'.site.rows ≡ keep (owned other) s.site.rows
  pub no_user : s'.users.row user ≡ none
  pub other_users : (k : ℕ) → k ≢ user → s'.users.row k ≡ s.users.row k

keep-not : {A : Type 0} (p : A → Bool) (xs : List A) → keep p (keep (λ x. not (p x)) xs) ≡ []
unfolding keep
keep-not p [] = refl
keep-not p (x ∷ xs) = elim (Bool-cases (p x)) [
  | inl yes_ ↦ rw yes_ (keep-not p xs)
  | inr no_ ↦ rw (no_, no_) (keep-not p xs)
]

record SameTables (s s' : Site) : Type 0 where
  same_rows : s'.rows ≡ s.rows
  same_links : s'.links ≡ s.links
  same_items : s'.items ≡ s.items

release_all-tables : (app : App) (ids : List ℕ) (s : Site) → SameTables s (release_all app ids s)
unfolding release_all
release_all-tables app [] s = record { same_rows = refl; same_links = refl; same_items = refl }
release_all-tables app (id ∷ ids) s = elim (Bool-cases app.has_queue) [
  | inl there ↦
      let h =
        release_all-tables app ids (called (unpended (format_uint id)) (called (stopped id) s)) in
      simp there
        (record { same_rows = h.same_rows; same_links = h.same_links; same_items = h.same_items })
  | inr gone ↦
      let h = release_all-tables app ids (called (stopped id) s) in
      simp gone
        (record { same_rows = h.same_rows; same_links = h.same_links; same_items = h.same_items })
]

put_row-none : (user : ℕ) (t : Users) → (put_row user none t).row user ≡ none
unfolding put_row
put_row-none user t = let same : (user == user) ≡ true = ground arith in rw same refl

put_row-other : (user k : ℕ) (t : Users) → k ≢ user → (put_row user none t).row k ≡ t.row k
unfolding put_row
put_row-other user k t apart = elim (Bool-cases (k == user)) [
  | inl same ↦ absurd (apart (ground arith))
  | inr other ↦ rw other refl
]

module _ (user : ℕ) (s0 : Session) where
  -- A transaction is open, on tables with `P`, and nothing is committed yet.
  Open : (Tables → Type 0) → Session → Type 0
  Open P s = Untouched s0 s × ((x : Tables) × (s.tx ≡ some x) × P x)

  Ends : TaskAnswer × Session → Type 0
  Ends r = (r.1.tx ≡ none) × (Untouched s0 r.1 ⊎ ((r.0 ≡ deleted (str "true")) × Gone user s0 r.1))

  rolled_back-Ends :
      (P : Tables → Type 0) (a : TaskAnswer) (s : Session) → Open P s → Ends (a, rollback_tx s)
  unfolding Open Ends rollback_tx
  rolled_back-Ends P a s (same, rest) = (
    refl,
    inl (record {
      same_rows = same.same_rows;
      same_links = same.same_links;
      same_items = same.same_items;
      same_users = same.same_users;
    }),
  )

  pluck-Ends :
      (P : Tables → Type 0) (works : Bool) (text : Text) (get : Tables → List ℕ)
      (next : List ℕ → Rest)
      → ((l : List ℕ) (s : Session) → Open P s → Ends (next l s))
      → (s : Session) → Open P s
      → Ends (pluck works text get next s)
  unfolding pluck
  pluck-Ends P true text get next k s o = k _ s o
  pluck-Ends P false text get next k s o = rolled_back-Ends P _ s o

  exec_tx-Ends :
      (P Q : Tables → Type 0) (works : Bool) (text : Text) (f : Tables → Tables) (next : Rest)
      → ((x : Tables) → P x → Q (f x))
      → ((s : Session) → Open Q s → Ends (next s))
      → (s : Session) → Open P s
      → Ends (exec_tx works text f next s)
  unfolding exec_tx Open write_tx
  exec_tx-Ends P Q true text f next step k s (same, (x, opened, holds)) = k (write_tx f s) (
    record {
      same_rows = same.same_rows;
      same_links = same.same_links;
      same_items = same.same_items;
      same_users = same.same_users;
    },
    (f x, rw opened, step x holds),
  )
  exec_tx-Ends P Q false text f next step k s o = rolled_back-Ends P _ s o

  -- The tables before the rows go, between the two statements, and before the commit.
  Whole : Tables → Type 0
  Whole x = (x.rows ≡ s0.site.rows) × (x.users ≡ s0.users)

  mine : TaskRow → Bool
  mine r = not (owned user r)

  Halved : Tables → Type 0
  Halved x = (x.rows ≡ keep mine s0.site.rows) × (x.users ≡ s0.users)

  Ready : Tables → Type 0
  Ready x = (x.rows ≡ keep mine s0.site.rows) × (x.users ≡ put_row user none s0.users)

  Ready-Gone : (s : Session) (x : Tables) → s.tx ≡ some x → Ready x → Gone user s0 (commit_tx s)
  unfolding commit_tx Ready mine
  Ready-Gone s x opened (rows, users) = rw opened (record {
    no_rows = ap (keep (owned user)) rows ∙ keep-not (owned user) s0.site.rows;
    others = λ o apart.
        ap (keep (owned o)) rows
        ∙ keep-keep (owned o) (λ (r : TaskRow). not (owned user r))
            (λ r h. ap not (other_owner user o r.user_id apart h)) s0.site.rows;
    no_user = ap (λ (t : Users). t.row user) users ∙ put_row-none user s0.users;
    other_users =
        λ k apart. ap (λ (t : Users). t.row k) users ∙ put_row-other user k s0.users apart;
  })

  commit_tx-closed : (s : Session) → (commit_tx s).tx ≡ none
  unfolding commit_tx
  commit_tx-closed s = refl

  commit_account-Ends : (q : Statements) (s : Session) → Open Ready s → Ends (commit_account q s)
  unfolding commit_account Open Ends
  commit_account-Ends q s (same, (x, opened, holds)) = elim (Bool-cases q.commits) [
    | inl works ↦ rw works (commit_tx-closed s, inr (refl, Ready-Gone s x opened holds))
    | inr fails ↦ rw fails (rolled_back-Ends Ready _ s (same, (x, opened, holds)))
  ]

  delete_rows-Ends : (q : Statements) (s : Session) → Open Whole s → Ends (delete_rows q user s)
  unfolding delete_rows Whole Halved Ready mine
  delete_rows-Ends q =
      exec_tx-Ends Whole Halved _ _ _ _ (λ x h. (ap (keep mine) h.0, h.1))
        (exec_tx-Ends Halved Ready _ _ _ _ (λ x h. (h.0, ap (put_row user none) h.1))
          (commit_account-Ends q))

  when_nil-Ends :
      (l : List ℕ) (m n : Rest)
      → ((s : Session) → Open Whole s → Ends (m s))
      → ((s : Session) → Open Whole s → Ends (n s))
      → (s : Session) → Open Whole s
      → Ends (when_nil l m n s)
  unfolding when_nil
  when_nil-Ends [] m n km kn = km
  when_nil-Ends (_ ∷ _) m n km kn = kn

  delete_items-Ends :
      (q : Statements) (orphans : List ℕ) (s : Session)
      → Open Whole s
      → Ends (delete_items q user orphans s)
  unfolding delete_items Whole
  delete_items-Ends q orphans =
      when_nil-Ends orphans _ _ (delete_rows-Ends q)
        (exec_tx-Ends Whole Whole _ _ _ _ (λ x h. h) (delete_rows-Ends q))

  delete_orphans-Ends :
      (q : Statements) (item_ids : List ℕ) (s : Session)
      → Open Whole s
      → Ends (delete_orphans q user item_ids s)
  unfolding delete_orphans
  delete_orphans-Ends q item_ids = when_nil-Ends item_ids _ _ (delete_rows-Ends q) (
      pluck-Ends Whole q.loads_orphans (str "load orphaned items failed") (orphaned item_ids)
        (delete_items q user) (delete_items-Ends q))

  delete_links-Ends :
      (q : Statements) (ids : List ℕ) (s : Session)
      → Open Whole s
      → Ends (delete_links q user ids s)
  unfolding delete_links without_links Whole
  delete_links-Ends q ids = when_nil-Ends ids _ _ (delete_orphans-Ends q []) (
      pluck-Ends Whole q.loads_items (str "load items failed") (linked_items ids) _ λ item_ids.
        exec_tx-Ends Whole Whole q.deletes_links (str "delete task_items failed")
          (without_links ids) (delete_orphans q user item_ids) (λ x h. h)
          (delete_orphans-Ends q item_ids))

  released-Open :
      (app : App) (ids : List ℕ) (s : Session)
      → Open Whole s
      → Open Whole (record s { site = release_all app ids s.site })
  unfolding Open
  released-Open app ids s (same, rest) =
      let kept = release_all-tables app ids s.site in
      (
        record {
          same_rows = kept.same_rows ∙ same.same_rows;
          same_links = kept.same_links ∙ same.same_links;
          same_items = kept.same_items ∙ same.same_items;
          same_users = same.same_users;
        },
        rest,
      )

  begun-Open : Open Whole (begin_tx s0)
  unfolding Open Whole begin_tx
  begun-Open = (
    record { same_rows = refl; same_links = refl; same_items = refl; same_users = refl },
    (committed s0, refl, (refl, refl)),
  )

refused-Ends :
    (user : ℕ) (s : Session) (b : Bool) (a : TaskAnswer) (y : TaskAnswer × Session)
    → s.tx ≡ none
    → Ends user s y
    → Ends user s (if b then (a, s) else y)
unfolding Ends
refused-Ends user s true a y idle h = (
  idle,
  inl (record { same_rows = refl; same_links = refl; same_items = refl; same_users = refl }),
)
refused-Ends user s false a y idle h = h

-- Whatever statement fails, the deletion of an account is all or nothing and leaves no transaction
-- open: the committed tables are as before, or the answer is that it is deleted, the user's row and
-- all their tasks are gone, and the rows of the other users and their tasks are the same.
pub delete_account_outcome :
    (app : App) (q : Statements) (user : ℕ) (role : Text) (s : Session)
    → s.tx ≡ none
    → let r = delete_account app q user role s in
      (r.1.tx ≡ none) × (Untouched s r.1 ⊎ ((r.0 ≡ deleted (str "true")) × Gone user s r.1))
unfolding delete_account Ends
delete_account_outcome app q user role s idle =
    refused-Ends user s (text_eq role (str "guest")) _ _ idle (
      refused-Ends user s (not q.begins) _ _ idle (
        pluck-Ends user s (Whole user s) q.loads_tasks (str "load tasks failed") (owned_ids user) _
          (λ ids s' o. delete_links-Ends user s q ids _ (released-Open user s app ids s' o))
          (begin_tx s) (begun-Open user s)))

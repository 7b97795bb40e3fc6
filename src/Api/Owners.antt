-- ===== src/Api/Owners.antt =====
-- A user's requests leave the tasks of the others alone, and no user gets more than the limit.
use mathlib.Core.Bool.{true≢false}
use goods_hunter.Base.{
  ℕ, ◌≤◌, ◌==◌, ◌≡◌, ◌≢◌, ◌∙◌, sym, ap, subst, Bool, true, List, [], ◌∷◌, Option, length, arith,
  Bool-cases, inl, inr, ◌⊎◌,
}
use goods_hunter.Base.Text.{Text, str, text_eq}
use goods_hunter.Base.Decimal.{parse_uint}
use goods_hunter.Api.Tasks.{Site, App, Query, TaskAnswer, CreateRequest}
use goods_hunter.Api.Changes.{
  keep, owned, count_tasks, create_task, toggle_notify, update_task_status, update_task,
  UpdateRequest, max_tasks,
}
use goods_hunter.Api.Removal.{delete_task}
use goods_hunter.Api.Own.{Own, Own-refl}
use goods_hunter.Api.Handlers.{
  create_task-Own, update_task-Own, update_task_status-Own, toggle_notify-Own, delete_parsed-Own,
  if_Own,
}

-- A request of a user, with the path's id.
pub data Change : Type 0 where
  creates : Option CreateRequest → Change
  updates : Text → Option UpdateRequest → Change
  sets_status : Text → Option Text → Change
  notifies : Text → Option Bool → Change
  deletes : Text → Change

-- The requests of the user with that id and role.
unfoldable pub serve_task : App → Query → ℕ → Text → Change → Site → TaskAnswer × Site
serve_task app q user role (creates req) s = create_task app q user role req s
serve_task app q user role (updates id req) s = update_task app q user role id req s
serve_task app q user role (sets_status id req) s = update_task_status app q user id req s
serve_task app q user role (notifies id req) s = toggle_notify app q user id req s
serve_task app q user role (deletes id) s = delete_task app q user role id s

serve_task-Own :
    (app : App) (q : Query) (user : ℕ) (role : Text) (c : Change) (s : Site)
    → Own app user s (serve_task app q user role c s).1
unfolding serve_task delete_task
serve_task-Own app q user role (creates req) s = create_task-Own app q user role req s
serve_task-Own app q user role (updates id req) s = update_task-Own app q user role id req s
serve_task-Own app q user role (sets_status id req) s = update_task_status-Own app q user id req s
serve_task-Own app q user role (notifies id req) s = toggle_notify-Own app q user id req s
serve_task-Own app q user role (deletes id) s =
    if_Own app user s (text_eq role (str "guest")) _ _ (Own-refl app user s)
      (delete_parsed-Own app q user id (parse_uint id) s)

-- Whatever a user asks for, and whatever statements fail, the tasks of every other user are the same
-- rows in the same order afterwards.
pub serve_task_others :
    (app : App) (q : Query) (user other : ℕ) (role : Text) (c : Change) (s : Site)
    → user ≢ other
    → keep (owned other) (serve_task app q user role c s).1.rows ≡ keep (owned other) s.rows
serve_task_others app q user other role c s apart =
    (serve_task-Own app q user role c s).others other apart

-- One request: the user, the role and what is asked.
abbrev pub Asked : Type 0
Asked = Query × ℕ × Text × Change

unfoldable pub serve_tasks : App → List Asked → Site → Site
unfolding serve_task
serve_tasks app [] s = s
serve_tasks app ((q, user, role, c) ∷ rest) s =
    serve_tasks app rest (serve_task app q user role c s).1

bound_held : (limit a b : ℕ) → (a ≤ b) ⊎ (a ≤ limit) → b ≤ limit → a ≤ limit
bound_held limit a b (inl h) k = omega arith
bound_held limit a b (inr h) k = h

count-others :
    (app : App) (user other : ℕ) (s s' : Site)
    → Own app user s s'
    → user ≢ other
    → count_tasks other s' ≡ count_tasks other s
unfolding count_tasks
count-others app user other s s' h apart = ap length (h.others other apart)

Own-bound_held :
    (app : App) (user u : ℕ) (s s' : Site)
    → Own app user s s'
    → count_tasks u s ≤ max_tasks app.max_tasks_per_user
    → count_tasks u s' ≤ max_tasks app.max_tasks_per_user
Own-bound_held app user u s s' h few = elim (Bool-cases (user == u)) [
  | inl same ↦
      let here : user ≡ u = ground arith in
      subst (λ k. count_tasks k s' ≤ max_tasks app.max_tasks_per_user) here
        (bound_held (max_tasks app.max_tasks_per_user) (count_tasks user s') (count_tasks user s)
          h.bounded
          (subst (λ k. count_tasks k s ≤ max_tasks app.max_tasks_per_user) (sym here) few))
  | inr other ↦
      let e = count-others app user u s s' h (λ p.
        let no_ : (user == u) ≡ true = ground arith in absurd (true≢false (sym no_ ∙ other))) in
      omega arith
]

-- Requests that come one after the other never bring a user over the limit of tasks, when every user
-- starts within it: the limit is the one configured, or 3 when that is not positive.
pub serve_tasks_limit :
    (app : App) (asked : List Asked) (s : Site)
    → ((u : ℕ) → count_tasks u s ≤ max_tasks app.max_tasks_per_user)
    → (u : ℕ) → count_tasks u (serve_tasks app asked s) ≤ max_tasks app.max_tasks_per_user
unfolding serve_tasks
serve_tasks_limit app [] s few u = few u
serve_tasks_limit app ((q, user, role, c) ∷ rest) s few u =
    serve_tasks_limit app rest (serve_task app q user role c s).1
      (λ k.
        Own-bound_held app user k s (serve_task app q user role c s).1
          (serve_task-Own app q user role c s) (few k))
      u

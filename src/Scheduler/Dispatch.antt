-- ===== src/Scheduler/Dispatch.antt =====
-- enqueueRunningTasks: the running tasks page by page, in the order of their ids.
use goods_hunter.Base.{
  ℕ, zero, suc, ◌/◌, ◌≤◌, ◌<◌, ltb, leb, ◌≡◌, refl, ap, ◌∙◌, sym, ◌&&◌, List, [], ◌∷◌, ◌++◌, Option,
  none, some, if◌then◌else◌, length, take, drop, keep, arith,
}

-- A batch size below 0 counts as 0.
unfoldable pub effective_batch : ℕ → ℕ → ℕ
effective_batch batch_size queue_cap =
    let batch = if leb batch_size 0 then 100 else batch_size in
    let limit = queue_cap / 5 in if ltb 0 limit && ltb limit batch then limit else batch

-- The last id of a page, or the id before it.
unfoldable pub last_of : ℕ → List ℕ → ℕ
last_of last [] = last
last_of last (id ∷ ids) = last_of id ids

-- One turn of the loop: it ends on an empty page.
hand_over : List ℕ → Option (List ℕ) → Option (List ℕ)
hand_over [] rest = some []
hand_over (id ∷ ids) none = none
hand_over (id ∷ ids) (some rest) = some ((id ∷ ids) ++ rest)

-- `page last limit` is the query for the running tasks with an id above `last`, in the order of
-- their ids. The ids that are handed over, in turn, while the context lasts and no
-- query fails; none when the fuel runs out first.
unfoldable pub enqueue_pages : (ℕ → ℕ → List ℕ) → ℕ → ℕ → ℕ → Option (List ℕ)
unfolding last_of hand_over
enqueue_pages page limit zero last = none
enqueue_pages page limit (suc fuel) last =
    hand_over (page last limit) (enqueue_pages page limit fuel (last_of last (page last limit)))

unfoldable pub enqueue_running_tasks : (ℕ → ℕ → List ℕ) → ℕ → ℕ → ℕ → Option (List ℕ)
unfolding enqueue_pages
enqueue_running_tasks page batch_size queue_cap fuel =
    enqueue_pages page (effective_batch batch_size queue_cap) fuel 0

-- The ids rise strictly from above `last`.
abbrev pub Rises : ℕ → List ℕ → Type 0
Rises last [] = Unit {0}
Rises last (id ∷ ids) = (last < id) × Rises id ids

-- What the data base answers when the running tasks are `ids` and stay so: a page of those above
-- `last`.
abbrev pub Pages : (ℕ → ℕ → List ℕ) → List ℕ → Type 0
Pages page ids = (last limit : ℕ) → page last limit ≡ take limit (keep (ltb last) ids)

Rises-weaken : (a b : ℕ) (ids : List ℕ) → a ≤ b → Rises b ids → Rises a ids
Rises-weaken a b [] h rises = tt
Rises-weaken a b (id ∷ ids) h rises = (omega arith, rises.1)

keep-above : (last : ℕ) (ids : List ℕ) → Rises last ids → keep (ltb last) ids ≡ ids
keep-above last [] h = refl
keep-above last (id ∷ ids) h =
    ground (arith, keep-above last ids (Rises-weaken last id ids (omega arith) h.1))

keep-keep : (a b : ℕ) (ids : List ℕ) → a ≤ b → keep (ltb b) (keep (ltb a) ids) ≡ keep (ltb b) ids
keep-keep a b [] h = refl
keep-keep a b (id ∷ ids) h = ground (arith, keep-keep a b ids h)

last_of-Rises : (last n : ℕ) (ids : List ℕ) → Rises last ids → last ≤ last_of last (take n ids)
unfolding last_of
last_of-Rises last zero ids h = omega arith
last_of-Rises last (suc n) [] h = omega arith
last_of-Rises last (suc n) (id ∷ ids) h = let step = last_of-Rises id n ids h.1 in omega arith

keep-drop :
    (last n : ℕ) (ids : List ℕ)
    → Rises last ids
    → keep (ltb (last_of last (take n ids))) ids ≡ drop n ids
unfolding last_of
keep-drop last zero ids h = keep-above last ids h
keep-drop last (suc n) [] h = refl
keep-drop last (suc n) (id ∷ ids) h =
    let far = last_of-Rises id n ids h.1 in ground (arith, keep-drop id n ids h.1)

Rises-drop :
    (last n : ℕ) (ids : List ℕ) → Rises last ids → Rises (last_of last (take n ids)) (drop n ids)
unfolding last_of
Rises-drop last zero ids h = h
Rises-drop last (suc n) [] h = tt
Rises-drop last (suc n) (id ∷ ids) h = Rises-drop id n ids h.1

take-drop : (n : ℕ) (ids : List ℕ) → take n ids ++ drop n ids ≡ ids
take-drop zero ids = refl
take-drop (suc n) [] = refl
take-drop (suc n) (id ∷ ids) = ap (λ xs. id ∷ xs) (take-drop n ids)

length-drop : (n : ℕ) (ids : List ℕ) → length (drop n ids) ≤ length ids
length-drop zero ids = omega arith
length-drop (suc n) [] = omega arith
length-drop (suc n) (id ∷ ids) = let step = length-drop n ids in omega arith

enqueue_pages_lem :
    (page : ℕ → ℕ → List ℕ) (all : List ℕ) (m fuel last : ℕ) (ids : List ℕ)
    → Pages page all
    → Rises last ids
    → keep (ltb last) all ≡ ids
    → length ids < fuel
    → enqueue_pages page (suc m) fuel last ≡ some ids
unfolding enqueue_pages hand_over
enqueue_pages_lem page all m zero last ids pages rises here enough = absurd (omega arith)
enqueue_pages_lem page all m (suc fuel) last [] pages rises here enough =
    let reply : page last (suc m) ≡ [] = pages last (suc m) ∙ ap (take (suc m)) here in rw reply
enqueue_pages_lem page all m (suc fuel) last (id ∷ ids) pages rises here enough =
    let reply : page last (suc m) ≡ id ∷ take m ids = pages last (suc m) ∙ ap (take (suc m)) here in
    let next = last_of id (take m ids) in
    let short = length-drop m ids in
    let far : last ≤ next = last_of-Rises last (suc m) (id ∷ ids) rises in
    let there : keep (ltb next) all ≡ drop m ids =
      sym (keep-keep last next all far)
      ∙ ap (keep (ltb next)) here
      ∙ keep-drop last (suc m) (id ∷ ids) rises in
    let rest : enqueue_pages page (suc m) fuel next ≡ some (drop m ids) =
      enqueue_pages_lem page all m fuel next (drop m ids) pages (Rises-drop id m ids rises.1) there
        (omega arith) in
    rw (reply, rest) (ap (λ xs. some (id ∷ xs)) (take-drop m ids))

effective_batch_pos : (batch_size queue_cap : ℕ) → 0 < effective_batch batch_size queue_cap
unfolding effective_batch
effective_batch_pos batch_size queue_cap = ground arith

-- If the running tasks are `ids`, in the order of their ids and all above 0, every page is a
-- correct answer and the fuel is above their number, the loop ends and has handed over each of
-- them once, in that order, whatever the batch size and the capacity of the queue.
pub enqueue_running_tasks_all :
    (page : ℕ → ℕ → List ℕ) (ids : List ℕ) (batch_size queue_cap fuel : ℕ)
    → Pages page ids
    → Rises 0 ids
    → length ids < fuel
    → enqueue_running_tasks page batch_size queue_cap fuel ≡ some ids
unfolding enqueue_running_tasks
enqueue_running_tasks_all page ids batch_size queue_cap fuel pages rises enough =
    let size = effective_batch_pos batch_size queue_cap in
    elim (effective_batch batch_size queue_cap)
        as (λ n. 0 < n → enqueue_pages page n fuel 0 ≡ some ids) [
          | zero ↦ λ pos. absurd (omega arith)
          | suc m ↦ λ pos.
              enqueue_pages_lem page ids m fuel 0 ids pages rises (keep-above 0 ids rises) enough
        ]
      size

-- ===== src/Scheduler/Outcomes.antt =====
-- What handleResult leaves alone.
use goods_hunter.Base.{
  ℕ, ◌≡◌, refl, ◌∙◌, Bool, true, false, not, ◌&&◌, List, [], ◌++◌, Option, none, some, inl, inr,
  Bool-cases,
}
use goods_hunter.Base.Text.{Text, str, is_empty, text_eq, trim_space, to_lower}
use goods_hunter.Redis.{mark}
use goods_hunter.RedisQueue.Types.{FetchResponse}
use goods_hunter.Scheduler.Tasks.{
  Task, CrawlStatus, failed, int_to_string, parse_task_id, classify_result, Status,
}
use goods_hunter.Scheduler.Services.{Services, Site, Mail, Reply, answered, refused}
use goods_hunter.Scheduler.Items.{may_send}
use goods_hunter.Scheduler.Notices.{process_items_quiet}
use goods_hunter.Scheduler.Results.{
  Setting, is_first_run, is_failed, batch_of, take_items, take_in, guest_checked, user_loaded,
  task_loaded, id_parsed, handle_result, set_task_crawl_status,
}

-- Mails about the task are off: it has no finished run yet, or its user turned them off.
abbrev pub IsSilent : Task → Type 0
IsSilent task = (not (is_first_run task) && task.notify_enabled) ≡ false

take_in-silent :
    {W : Type 0} (v : Services W) (c : Setting) (task : Task) (resp : FetchResponse) (email : Text)
    (s : Site W)
    → IsSilent task
    → (take_in v c task resp email s).sent ≡ s.sent
unfolding take_in take_items may_send
take_in-silent v c task resp email s h =
    elim (Bool-cases (is_failed (classify_result (some resp)).0)) [
      | inl bad ↦ rw bad
      | inr good ↦ rw good (process_items_quiet v (batch_of c task email) resp.items s (rw h))
    ]

guest_checked-silent :
    {W : Type 0} (v : Services W) (c : Setting) (task : Task) (resp : FetchResponse) (email : Text)
    (reply : Reply (Option Text) × W) (s : Site W)
    → IsSilent task
    → (guest_checked v c task resp email reply s).sent ≡ s.sent
unfolding guest_checked
guest_checked-silent v c task resp email (answered none, w) s h = refl
guest_checked-silent v c task resp email (answered (some mark), w) s h =
    take_in-silent v c task resp email (record s { world = w }) h
guest_checked-silent v c task resp email (refused, w) s h =
    take_in-silent v c task resp email (record s { world = w }) h

user_loaded-silent :
    {W : Type 0} (v : Services W) (c : Setting) (task : Task) (resp : FetchResponse)
    (user : Option (Text × Text) × W) (s : Site W)
    → IsSilent task
    → (user_loaded v c task resp user s).sent ≡ s.sent
unfolding user_loaded
user_loaded-silent v c task resp (none, w) s h =
    take_in-silent v c task resp [] (record s { world = w }) h
user_loaded-silent v c task resp (some (email, role), w) s h =
    elim (Bool-cases (text_eq (to_lower (trim_space role)) (str "guest"))) [
      | inl guest ↦ rw guest (guest_checked-silent v c task resp email _ s h)
      | inr other ↦ rw other (take_in-silent v c task resp email (record s { world = w }) h)
    ]

task_loaded-silent :
    {W : Type 0} (v : Services W) (c : Setting) (resp : FetchResponse) (found : Option Task × W)
    (s : Site W)
    → ((task : Task) → found.0 ≡ some task → IsSilent task)
    → (task_loaded v c resp found s).1.sent ≡ s.sent
unfolding task_loaded
task_loaded-silent v c resp (none, w) s h = refl
task_loaded-silent v c resp (some task, w) s h = user_loaded-silent v c task resp _ s (h task refl)

id_parsed-silent :
    {W : Type 0} (v : Services W) (c : Setting) (resp : FetchResponse) (id : Option ℕ) (s : Site W)
    → ((n : ℕ) (task : Task) → (v.task n s.world).0 ≡ some task → IsSilent task)
    → (id_parsed v c resp id s).1.sent ≡ s.sent
unfolding id_parsed
id_parsed-silent v c resp none s h = refl
id_parsed-silent v c resp (some id) s h = task_loaded-silent v c resp (v.task id s.world) s (h id)

-- Whatever the result holds, no mail is sent while the tasks that are stored have no finished run
-- yet or have their mails turned off.
pub handle_result_silent :
    {W : Type 0} (v : Services W) (c : Setting) (resp : FetchResponse) (s : Site W)
    → ((n : ℕ) (task : Task) → (v.task n s.world).0 ≡ some task → IsSilent task)
    → (handle_result v c resp s).1.sent ≡ s.sent
unfolding handle_result
handle_result_silent v c resp s h = id_parsed-silent v c resp (parse_task_id resp.task_id) s h

-- `f` is a part of the world, the stored items for one, that only the calls about items change.
pub record KeepsItems {W X : Type 0} (v : Services W) (f : W → X) : Type 0 where
  pub set_law : (key value : Text) (w : W) → f (v.set key value w).1 ≡ f w
  pub del_law : (key : Text) (w : W) → f (v.del key w).1 ≡ f w
  pub get_law : (key : Text) (w : W) → f (v.get key w).1 ≡ f w
  pub task_law : (id : ℕ) (w : W) → f (v.task id w).1 ≡ f w
  pub user_law : (id : ℕ) (w : W) → f (v.user id w).1 ≡ f w
  pub stamp_law :
      (id : ℕ) (baseline : Bool) (now : ℕ) (w : W) → f (v.stamp id baseline now w).1 ≡ f w
  pub status_law : (id : ℕ) (status : Status) (w : W) → f (v.set_status id status w).1 ≡ f w

module _ {W X : Type 0} (v : Services W) (f : W → X) (keeps : KeepsItems v f) where
  set_task_crawl_status-keeps :
      (id : ℕ) (status : CrawlStatus) (message : Text) (w : W)
      → f (set_task_crawl_status v id status message w) ≡ f w
  unfolding set_task_crawl_status
  set_task_crawl_status-keeps id status message w = elim (Bool-cases (is_empty message)) [
    | inl empty ↦ rw empty (keeps.del_law _ _ ∙ keeps.set_law _ _ w)
    | inr full ↦ rw full (keeps.set_law _ _ _ ∙ keeps.set_law _ _ w)
  ]

  abbrev Same : W → List Mail → Site W → Type 0
  Same w sent s = (f s.world ≡ f w) × (s.sent ≡ sent)

  take_in-failed :
      (c : Setting) (task : Task) (resp : FetchResponse) (email : Text) (s : Site W)
      → (classify_result (some resp)).0 ≡ failed
      → Same s.world s.sent (take_in v c task resp email s)
  unfolding take_in take_items
  take_in-failed c task resp email s bad =
      rw bad ((keeps.status_law _ _ _ ∙ keeps.stamp_law _ _ _ s.world, refl))

  guest_checked-failed :
      (c : Setting) (task : Task) (resp : FetchResponse) (email : Text)
      (reply : Reply (Option Text) × W) (s : Site W)
      → (classify_result (some resp)).0 ≡ failed
      → Same reply.1 s.sent (guest_checked v c task resp email reply s)
  unfolding guest_checked
  guest_checked-failed c task resp email (answered none, w) s bad = (keeps.status_law _ _ w, refl)
  guest_checked-failed c task resp email (answered (some mark), w) s bad =
      take_in-failed c task resp email (record s { world = w }) bad
  guest_checked-failed c task resp email (refused, w) s bad =
      take_in-failed c task resp email (record s { world = w }) bad

  user_loaded-failed :
      (c : Setting) (task : Task) (resp : FetchResponse) (user : Option (Text × Text) × W)
      (s : Site W)
      → (classify_result (some resp)).0 ≡ failed
      → Same user.1 s.sent (user_loaded v c task resp user s)
  unfolding user_loaded
  user_loaded-failed c task resp (none, w) s bad =
      take_in-failed c task resp [] (record s { world = w }) bad
  user_loaded-failed c task resp (some (email, role), w) s bad =
      elim (Bool-cases (text_eq (to_lower (trim_space role)) (str "guest"))) [
        | inl guest ↦ rw guest (
            let (same, sent) = guest_checked-failed c task resp email _ s bad in
            (same ∙ keeps.get_law _ w, sent))
        | inr other ↦ rw other (take_in-failed c task resp email (record s { world = w }) bad)
      ]

  task_loaded-failed :
      (c : Setting) (resp : FetchResponse) (found : Option Task × W) (s : Site W)
      → (classify_result (some resp)).0 ≡ failed
      → Same found.1 s.sent (task_loaded v c resp found s).1
  unfolding task_loaded
  task_loaded-failed c resp (none, w) s bad = (refl, refl)
  task_loaded-failed c resp (some task, w) s bad =
      let (same, sent) = user_loaded-failed c task resp _ s bad in
      (same ∙ keeps.user_law _ _ ∙ set_task_crawl_status-keeps task.id _ _ w, sent)

  id_parsed-failed :
      (c : Setting) (resp : FetchResponse) (id : Option ℕ) (s : Site W)
      → (classify_result (some resp)).0 ≡ failed
      → Same s.world s.sent (id_parsed v c resp id s).1
  unfolding id_parsed
  id_parsed-failed c resp none s bad = (refl, refl)
  id_parsed-failed c resp (some id) s bad =
      let (same, sent) = task_loaded-failed c resp (v.task id s.world) s bad in
      (same ∙ keeps.task_law id s.world, sent)

  -- A failed result sends no mail, and leaves every part of the world as it was that no call changes
  -- but those about items.
  pub handle_result_failed :
      (c : Setting) (resp : FetchResponse) (s : Site W)
      → (classify_result (some resp)).0 ≡ failed
      → (f (handle_result v c resp s).1.world ≡ f s.world)
        × ((handle_result v c resp s).1.sent ≡ s.sent)
  unfolding handle_result
  handle_result_failed c resp s bad = id_parsed-failed c resp (parse_task_id resp.task_id) s bad

  -- Any result for a loaded task of a guest whose activity mark has run out sends no mail, and leaves
  -- every part of the world as it was that no call changes but those about items.
  handle_result_guest :
      (c : Setting) (resp : FetchResponse) (s : Site W) (id : ℕ) (task : Task) (email role : Text)
      → parse_task_id resp.task_id ≡ some id
      → (v.task id s.world).0 ≡ some task
      → ((w : W) → (v.user task.user_id w).0 ≡ some (email, role))
      → text_eq (to_lower (trim_space role)) (str "guest") ≡ true
      → ((w : W) → (v.get (str "guest:active:" ++ int_to_string task.user_id) w).0 ≡ answered none)
      → (f (handle_result v c resp s).1.world ≡ f s.world)
        × ((handle_result v c resp s).1.sent ≡ s.sent)
  unfolding handle_result id_parsed task_loaded user_loaded guest_checked
  handle_result_guest c resp s id task email role parsed loaded user guest gone =
      let result = classify_result (some resp) in
      let w1 = set_task_crawl_status v task.id result.0 result.1 (v.task id s.world).1 in
      rw (parsed, loaded, user w1, guest, gone (v.user task.user_id w1).1)
        ((
          keeps.status_law _ _ _
              ∙ keeps.get_law _ _
              ∙ keeps.user_law _ _
              ∙ set_task_crawl_status-keeps task.id _ _ _
              ∙ keeps.task_law id s.world,
          refl,
        ))

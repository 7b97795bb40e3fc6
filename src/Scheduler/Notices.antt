-- ===== src/Scheduler/Notices.antt =====
-- Which mails processItems sends.
use mathlib.Core.List.{append-nil, append_assoc}
use goods_hunter.Base.{
  ℕ, suc, ◌==◌, ◌≡◌, refl, ap, sym, ◌∙◌, Bool, true, false, ◌&&◌, List, [], ◌∷◌, ◌++◌, Option, none,
  some, if◌then◌else◌, arith, inl, inr, ◌⊎◌, Bool-cases,
}
use goods_hunter.Base.Int.{ltb_ℤ, eqb_ℤ}
use goods_hunter.Base.Text.{Text, is_empty, trim_space}
use goods_hunter.RedisQueue.Types.{Item}
use goods_hunter.Scheduler.Tasks.{atoi32}
use goods_hunter.Scheduler.Services.{
  Services, Site, Mail, found_new_item, price_drop_detected, Reply, answered, refused,
}
use goods_hunter.Scheduler.Items.{
  Batch, dedup_key, mail_item, may_send, send, upsert_item, process_new, process_old, known_time,
  process_item, process_loop, process_items, stored_new, stored_old, looked_up, old_found,
}

-- A mail about `it`, when `last` was the time of the last known item before it, and `reply` is what
-- Redis answers for the item's cached price: no price, or an old one that the mail names.
abbrev pub Notice : Batch → ℕ → Reply (Option Text) → Item → Mail → Type 0
Notice b last reply it m =
    (m.item ≡ mail_item it)
    × (m.keyword ≡ b.keyword)
    × (m.address ≡ b.user_email)
    × (((m.reason ≡ found_new_item)
          × (reply ≡ answered none)
          × ((last ≡ 0) ⊎ (last ≡ b.batch_time)))
        ⊎ ((m.reason ≡ price_drop_detected)
            × ((old : Text) × (reply ≡ answered (some old))
                × (m.old_price ≡ atoi32 old)
                × (ltb_ℤ it.price (atoi32 old) ≡ true))))

-- Nothing is sent, or one mail about the item, which is allowed.
abbrev pub Sends : Batch → ℕ → Reply (Option Text) → Item → List Mail → List Mail → Type 0
Sends b last reply it before after =
    (after ≡ before)
    ⊎ ((may_send b ≡ true) × ((m : Mail) × (after ≡ before ++ (m ∷ [])) × Notice b last reply it m))

&&-left : (a b : Bool) → (a && b) ≡ true → a ≡ true
&&-left true b h = refl
&&-left false b h = h

&&-right : (a b : Bool) → (a && b) ≡ true → b ≡ true
&&-right true b h = h
&&-right false b h = absurd (ground arith)

same_time : (m n : ℕ) → (m == n) ≡ true → m ≡ n
same_time m n h = ground arith

stored_new-Sends :
    {W : Type 0} (v : Services W) (b : Batch) (rank : ℕ) (it : Item) (last link_time : ℕ)
    (sent : List Mail) (found : Option ℕ × W)
    → (link_time ≡ b.batch_time → (last ≡ 0) ⊎ (last ≡ b.batch_time))
    → Sends b last (answered none) it sent (stored_new v b rank it link_time sent found).sent
unfolding stored_new send
stored_new-Sends v b rank it last link_time sent (none, w) h = inl refl
stored_new-Sends v b rank it last link_time sent (some id, w) h =
    elim (Bool-cases (link_time == b.batch_time && may_send b)) [
      | inl go ↦ rw go (
          inr (
            &&-right (link_time == b.batch_time) (may_send b) go,
            (
              _,
              refl,
              (
                refl,
                refl,
                refl,
                inl (
                  refl,
                  refl,
                  h (
                      same_time link_time b.batch_time
                        (&&-left (link_time == b.batch_time) (may_send b) go)),
                ),
              ),
            ),
          ))
      | inr off ↦ rw off (inl refl)
    ]

stored_old-Sends :
    {W : Type 0} (v : Services W) (b : Batch) (rank : ℕ) (it : Item) (last : ℕ) (old : Text)
    (sent : List Mail) (found : Option ℕ × W)
    → Sends b last
        (answered (some old))
        it
        sent
        (stored_old v b rank it (atoi32 old) sent found).sent
unfolding stored_old send
stored_old-Sends v b rank it last old sent (none, w) = inl refl
stored_old-Sends v b rank it last old sent (some id, w) =
    elim (Bool-cases (ltb_ℤ it.price (atoi32 old) && may_send b)) [
      | inl go ↦ rw go (
          inr (
            &&-right (ltb_ℤ it.price (atoi32 old)) (may_send b) go,
            (
              _,
              refl,
              (
                refl,
                refl,
                refl,
                inr (
                  refl,
                  (old, refl, refl, &&-left (ltb_ℤ it.price (atoi32 old)) (may_send b) go),
                ),
              ),
            ),
          ))
      | inr off ↦ rw off (inl refl)
    ]

process_old-Sends :
    {W : Type 0} (v : Services W) (b : Batch) (rank : ℕ) (it : Item) (last : ℕ) (old : Text)
    (s : Site W)
    → Sends b last (answered (some old)) it s.sent (process_old v b rank it (atoi32 old) s).sent
unfolding process_old stored_old
process_old-Sends v b rank it last old s = elim (Bool-cases (eqb_ℤ it.price (atoi32 old))) [
  | inl same ↦ rw same (inl refl)
  | inr other ↦ rw other (stored_old-Sends v b rank it last old s.sent (upsert_item v it s.world))
]

last_seen : (last time : ℕ) → (if last == 0 then time else last) ≡ time → (last ≡ 0) ⊎ (last ≡ time)
last_seen last time h = elim (Bool-cases (last == 0)) [
  | inl zero_time ↦ inl (same_time last 0 zero_time)
  | inr set ↦ inr (ground arith)
]

looked_up-Sends :
    {W : Type 0} (v : Services W) (b : Batch) (rank : ℕ) (it : Item) (last : ℕ) (sent : List Mail)
    (reply : Reply (Option Text) × W)
    → Sends b last reply.0 it sent (looked_up v b rank it last sent reply).1.sent
unfolding looked_up process_new old_found
looked_up-Sends v b rank it last sent (refused, w) = inl refl
looked_up-Sends v b rank it last sent (answered none, w) =
    stored_new-Sends v b rank it last (if last == 0 then b.batch_time else last) sent
      (upsert_item v it w) (last_seen last b.batch_time)
looked_up-Sends v b rank it last sent (answered (some old), w) =
    let at = known_time v b it last w in
    process_old-Sends v b rank it last old (record { world = at.1; sent = sent })

-- What Redis answers for the item's cached price.
abbrev pub cached : {W : Type 0} → Services W → Batch → Item → Site W → Reply (Option Text) × W
cached v b it s = v.hget (dedup_key b.task_id) it.source_id s.world

pub process_item-Sends :
    {W : Type 0} (v : Services W) (b : Batch) (rank : ℕ) (it : Item) (last : ℕ) (s : Site W)
    → Sends b last (cached v b it s).0 it s.sent (process_item v b rank it (last, s)).1.sent
unfolding process_item
process_item-Sends v b rank it last s = elim (Bool-cases (is_empty (trim_space it.source_id))) [
  | inl blank ↦ rw blank (inl refl)
  | inr named ↦
      rw named (
        looked_up-Sends v b rank it last s.sent (v.hget (dedup_key b.task_id) it.source_id s.world))
]

-- Mails about some of the items, in their order, at most one for each, each for a reason that holds
-- when the run of processItems comes to its item.
pub data Announces {W : Type 0} (v : Services W) (b : Batch)
    : ℕ → List Item → ℕ × Site W → List Mail → Type 0 where
  nothing : {rank : ℕ} {at : ℕ × Site W} → Announces v b rank [] at []
  skip :
      {rank : ℕ} {it : Item} {items : List Item} {at : ℕ × Site W} {mails : List Mail}
      → Announces v b (suc rank) items (process_item v b rank it at) mails
      → Announces v b rank (it ∷ items) at mails
  announce :
      {rank : ℕ} {it : Item} {items : List Item} {at : ℕ × Site W} {m : Mail} {mails : List Mail}
      → Notice b at.0 (cached v b it at.1).0 it m
      → Announces v b (suc rank) items (process_item v b rank it at) mails
      → Announces v b rank (it ∷ items) at (m ∷ mails)

abbrev pub SendsAll :
    {W : Type 0} → Services W → Batch → ℕ → List Item → ℕ × Site W → List Mail → Type 0
SendsAll v b rank items at after =
    (mails : List Mail) × (after ≡ at.1.sent ++ mails) × Announces v b rank items at mails

SendsAll-cons :
    {W : Type 0} (v : Services W) (b : Batch) (rank : ℕ) (it : Item) (items : List Item)
    (at : ℕ × Site W) (after : List Mail)
    → Sends b at.0 (cached v b it at.1).0 it at.1.sent (process_item v b rank it at).1.sent
    → SendsAll v b (suc rank) items (process_item v b rank it at) after
    → SendsAll v b rank (it ∷ items) at after
SendsAll-cons v b rank it items at after (inl same) (mails, e, a) =
    (mails, e ∙ ap (λ l. l ++ mails) same, skip a)
SendsAll-cons v b rank it items at after (inr (go, (m, e, notice))) (mails, e', a) = (
  m ∷ mails,
  e' ∙ ap (λ l. l ++ mails) e ∙ append_assoc at.1.sent (m ∷ []) mails,
  announce notice a,
)

process_loop-SendsAll :
    {W : Type 0} (v : Services W) (b : Batch) (rank : ℕ) (items : List Item) (last : ℕ) (s : Site W)
    → SendsAll v b rank items (last, s) (process_loop v b rank items (last, s)).1.sent
unfolding process_loop
process_loop-SendsAll v b rank [] last s = ([], sym (append-nil s.sent), nothing)
process_loop-SendsAll v b rank (it ∷ items) last s =
    let next = process_item v b rank it (last, s) in
    SendsAll-cons v b rank it items (last, s) _ (process_item-Sends v b rank it last s)
      (process_loop-SendsAll v b (suc rank) items next.0 next.1)

-- The mails that processItems sends are about items of the result, in their order, at most one for
-- each; each goes to the user with the task's keyword. One that announces a new item is about an item
-- of which Redis, when the run comes to it, keeps no price, and then the last known time is zero or
-- the batch's; one that reports a price drop names the price that Redis then keeps, and the item's is
-- below it.
pub process_items_mails :
    {W : Type 0} (v : Services W) (b : Batch) (items : List Item) (s : Site W)
    → SendsAll v b 1 items (0, s) (process_items v b items s).sent
unfolding process_items
process_items_mails v b items s = process_loop-SendsAll v b 1 items 0 s

Sends-quiet :
    (b : Batch) (last : ℕ) (reply : Reply (Option Text)) (it : Item) (before after : List Mail)
    → may_send b ≡ false
    → Sends b last reply it before after
    → after ≡ before
Sends-quiet b last reply it before after h (inl same) = same
Sends-quiet b last reply it before after h (inr (go, rest)) = absurd (grind (arith, sym go ∙ h))

process_loop_quiet :
    {W : Type 0} (v : Services W) (b : Batch) (rank : ℕ) (items : List Item) (last : ℕ) (s : Site W)
    → may_send b ≡ false
    → (process_loop v b rank items (last, s)).1.sent ≡ s.sent
unfolding process_loop
process_loop_quiet v b rank [] last s h = refl
process_loop_quiet v b rank (it ∷ items) last s h =
    let next = process_item v b rank it (last, s) in
    process_loop_quiet v b (suc rank) items next.0 next.1 h
    ∙ Sends-quiet b last _ it s.sent next.1.sent h (process_item-Sends v b rank it last s)

-- It sends nothing when mails are not allowed, there is no notifier, or the address is empty.
pub process_items_quiet :
    {W : Type 0} (v : Services W) (b : Batch) (items : List Item) (s : Site W)
    → may_send b ≡ false
    → (process_items v b items s).sent ≡ s.sent
unfolding process_items
process_items_quiet v b items s h = process_loop_quiet v b 1 items 0 s h

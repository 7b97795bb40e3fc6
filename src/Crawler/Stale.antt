-- ===== src/Crawler/Stale.antt =====
-- A page that has ended, and closes the channel of a draining that began after its decrement.
use goods_hunter.Base.{
  ℕ, suc, ◌-◌, ◌==◌, ◌≡◌, refl, ap, true, false, [], ◌∷◌, some, if◌then◌else◌, arith,
}
use goods_hunter.Crawler.Drain.{
  Drain, unlocked, locked, waiting, starting, swapped, drain_seen, read_browser, retire,
  see_draining, close_drain, swap_browser, Steps, done, more, checks, reads, counts, ends,
  sees_draining, closes_drain, locks, drains, sees, swaps,
}
use goods_hunter.Crawler.Emptied.{or_true}
use goods_hunter.Crawler.Exchange.{start_draining-off}

drain_seen-closed : (s : Drain) → s.signal ≡ some true → s.draining ≡ true → drain_seen s ≡ true
unfolding drain_seen
drain_seen-closed s closed_ on = rw closed_ (rw on (or_true (s.active_pages == 0)))

-- A page goes through its check, its read and its count, while nothing else happens.
page_starts :
    (s : Drain) (b : ℕ)
    → s.browser ≡ some b
    → s.rotation ≡ unlocked
    → s.draining ≡ false
    → Steps s (record s { active_pages = suc s.active_pages; pages = b ∷ s.pages })
page_starts s b there free off =
    more (more (more done (checks off refl)) (reads s.checked refl free refl))
      (counts [] b s.holding (ap (λ o. read_browser o s.holding) there) refl)

Steps-trans : {s t u : Drain} → Steps s t → Steps t u → Steps s u
Steps-trans first done = first
Steps-trans first (more rest step) = more (Steps-trans first rest) step

none_left : (n : ℕ) → n ≡ 0 → ((suc n - 1) == 0) ≡ true
none_left n e = ground arith

-- From every state with a browser that runs, no rotation and no page in use: a page that has ended
-- before a rotation starts to drain can close the channel of that rotation, when the next page is in
-- use, so that the browser is exchanged, without a timeout, under a page that no one has counted out.
pub track_page_end-early :
    (s : Drain) (b : ℕ)
    → s.browser ≡ some b
    → s.rotation ≡ unlocked
    → s.draining ≡ false
    → s.active_pages ≡ 0
    → (u : Drain) × Steps s u
      × (u.rotation ≡ swapped false)
      × (u.pages ≡ b ∷ s.pages)
      × (u.retired ≡ b ∷ s.retired)
      × (u.checked ≡ s.checked)
      × (u.holding ≡ s.holding)
track_page_end-early s b there free off idle =
    let left = suc s.active_pages - 1 in
    let s1 = record s { active_pages = suc s.active_pages; pages = b ∷ s.pages } in
    let s2 = record s { active_pages = left; ending = left ∷ s.ending } in
    let s3 = record s2 { active_pages = suc left; pages = b ∷ s.pages } in
    let s4 = record s3 { rotation = locked } in
    let s5 = record s4 { draining = true; signal = some false; rotation = waiting } in
    let s6 = record (see_draining left s5) { ending = s.ending } in
    let s7 = record (close_drain s6) { closing = s.closing } in
    let s8 = record s7 { rotation = starting false } in
    let u = record (swap_browser s8) { rotation = swapped false } in
    let first_page : Steps s s2 =
      more (page_starts s b there free off) (ends [] b s.pages refl refl) in
    let both : Steps s s3 = Steps-trans first_page (page_starts s2 b there free off) in
    let drained : Steps s s5 =
      more (more both (locks free refl)) (drains refl (start_draining-off s4 off)) in
    let seen : Steps s s6 = more drained (sees_draining [] left s.ending refl refl) in
    let signalled : Steps s s7 = more seen (
      closes_drain s.closing
        (ap (λ x. if x then suc s.closing else s.closing) (none_left s.active_pages idle)) refl) in
    let exchanging : Steps s s8 =
      more signalled (sees refl (drain_seen-closed s7 refl refl) refl) in
    (
      u,
      more exchanging (swaps false refl refl),
      refl,
      refl,
      ap (λ o. retire o s.retired) there,
      refl,
      refl,
    )

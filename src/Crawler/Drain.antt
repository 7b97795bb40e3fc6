-- ===== src/Crawler/Drain.antt =====
-- internal/crawler/browser.go: the pages that use a browser, and its exchange, as steps of the
-- goroutines that crawl and of the one that holds the write lock.
use goods_hunter.Base.{
  ℕ, suc, ◌-◌, ◌==◌, ◌≡◌, Bool, true, false, not, ◌&&◌, ◌||◌, List, [], ◌∷◌, ◌++◌, Option, none,
  some, if◌then◌else◌,
}

-- Where the holder of the write lock is: before startDraining, in waitForDrain, after it, and after
-- the exchange, with whether the wait timed out.
pub data Rotation : Type 0 where
  unlocked locked waiting : Rotation
  starting swapped : Bool → Rotation

-- Browsers are numbered. `checked` goroutines have seen no draining, `holding` have then read the
-- browser, `pages` are counted. A page that ends keeps the count that it left in `ending` until it
-- loads the flag, and is among the `closing` when it goes on to close the channel. `signal` is the channel drainComplete, if there is one, and whether
-- it is closed; `retired` wait for their end, `closed` have met it.
pub record Drain : Type 0 where
  pub browser : Option ℕ
  pub next_browser : ℕ
  pub draining : Bool
  pub signal : Option Bool
  pub active_pages : ℕ
  pub checked : ℕ
  pub holding : List ℕ
  pub pages : List ℕ
  pub ending : List ℕ
  pub closing : ℕ
  pub rotation : Rotation
  pub retired : List ℕ
  pub closed : List ℕ

unfoldable pub start_draining : Drain → Drain
start_draining s = if s.draining then s else record s { draining = true; signal = some false }

-- A channel that is gone or closed.
abbrev pub is_over : Option Bool → Bool
is_over none = true
is_over (some is_closed) = is_closed

-- waitForDrain returns without a timeout.
unfoldable pub drain_seen : Drain → Bool
drain_seen s = not s.draining || s.active_pages == 0 || is_over s.signal

unfoldable pub complete_draining : Drain → Drain
complete_draining s = record s { draining = false; signal = none }

abbrev pub close_signal : Option Bool → Option Bool
close_signal none = none
close_signal (some _) = some true

-- trackPageEnd, in its three steps: the decrement, which yields the count that is left;
abbrev pub count_page_end : Drain → Drain
count_page_end s =
    let left = s.active_pages - 1 in record s { active_pages = left; ending = left ∷ s.ending }

-- the load of the flag, when the count that it has kept is `left`;
abbrev pub see_draining : ℕ → Drain → Drain
see_draining left s = record s {
  closing = if s.draining && left == 0 then suc s.closing else s.closing;
}

-- and the close of the channel, under drainMu.
abbrev pub close_drain : Drain → Drain
close_drain s = record s { signal = close_signal s.signal }

-- trackPageStart reads the browser, and gives up when there is none.
abbrev pub read_browser : Option ℕ → List ℕ → List ℕ
read_browser none holding = holding
read_browser (some b) holding = b ∷ holding

abbrev pub retire : Option ℕ → List ℕ → List ℕ
retire none retired = retired
retire (some b) retired = b ∷ retired

abbrev pub swap_browser : Drain → Drain
swap_browser s = record s {
  browser = some s.next_browser;
  next_browser = suc s.next_browser;
  retired = retire s.browser s.retired;
}

-- restartBrowserInstance, with a start that succeeds, or not.
abbrev pub restart_browser : Bool → Drain → Drain
restart_browser starts s = record s {
  browser = if starts then some s.next_browser else none;
  next_browser = suc s.next_browser;
  closed = retire s.browser s.closed;
}

pub data Step (s u : Drain) : Type 0 where
  checks : s.draining ≡ false → u ≡ record s { checked = suc s.checked } → Step s u
  reads :
      (n : ℕ)
      → s.checked ≡ suc n
      → s.rotation ≡ unlocked
      → u ≡ record s { checked = n; holding = read_browser s.browser s.holding }
      → Step s u
  counts :
      (before : List ℕ) (b : ℕ) (after : List ℕ)
      → s.holding ≡ before ++ b ∷ after
      → u ≡ record s {
        holding = before ++ after;
        active_pages = suc s.active_pages;
        pages = b ∷ s.pages;
      }
      → Step s u
  ends :
      (before : List ℕ) (b : ℕ) (after : List ℕ)
      → s.pages ≡ before ++ b ∷ after
      → u ≡ record (count_page_end s) { pages = before ++ after }
      → Step s u
  sees_draining :
      (before : List ℕ) (left : ℕ) (after : List ℕ)
      → s.ending ≡ before ++ left ∷ after
      → u ≡ record (see_draining left s) { ending = before ++ after }
      → Step s u
  closes_drain : (n : ℕ) → s.closing ≡ suc n → u ≡ record (close_drain s) { closing = n } → Step s u
  locks : s.rotation ≡ unlocked → u ≡ record s { rotation = locked } → Step s u
  drains : s.rotation ≡ locked → u ≡ record (start_draining s) { rotation = waiting } → Step s u
  sees :
      s.rotation ≡ waiting
      → drain_seen s ≡ true
      → u ≡ record s { rotation = starting false }
      → Step s u
  times_out : s.rotation ≡ waiting → u ≡ record s { rotation = starting true } → Step s u
  swaps :
      (late : Bool)
      → s.rotation ≡ starting late
      → u ≡ record (swap_browser s) { rotation = swapped late }
      → Step s u
  fails :
      (late : Bool)
      → s.rotation ≡ starting late
      → u ≡ record (complete_draining s) { rotation = unlocked }
      → Step s u
  unlocks :
      (late : Bool)
      → s.rotation ≡ swapped late
      → u ≡ record (complete_draining s) { rotation = unlocked }
      → Step s u
  closes :
      (before : List ℕ) (b : ℕ) (after : List ℕ)
      → s.retired ≡ before ++ b ∷ after
      → u ≡ record s { retired = before ++ after; closed = b ∷ s.closed }
      → Step s u
  restarts : (starts : Bool) → s.rotation ≡ unlocked → u ≡ restart_browser starts s → Step s u

pub data Steps (s : Drain) : Drain → Type 0 where
  done : Steps s s
  more : {t u : Drain} → Steps s t → Step t u → Steps s u

-- NewService, once the first browser runs.
abbrev pub browser_started : Drain
browser_started = record {
  browser = some 0;
  next_browser = 1;
  draining = false;
  signal = none;
  active_pages = 0;
  checked = 0;
  holding = [];
  pages = [];
  ending = [];
  closing = 0;
  rotation = unlocked;
  retired = [];
  closed = [];
}

-- ===== src/Scheduler/Services.antt =====
-- What the scheduler reaches outside: the data base through gorm, Redis, and the mails it sends.
use goods_hunter.Base.{ℕ, Bool, List, Option}
use goods_hunter.Base.Int.{ℤ}
use goods_hunter.Base.Text.{Text}
use goods_hunter.RedisQueue.Types.{Item}
use goods_hunter.Scheduler.Tasks.{Task, Status}

-- A call that came back with an error is `refused`.
pub data Reply {ℓ} (A : Type ℓ) : Type ℓ where
  answered : A → Reply A
  refused : Reply A

-- The queries and commands of scheduler.go on a world `W`. A `Bool` is whether there was no error.
-- Where the source treats "not found" and an error alike, both are `none`.
pub record Services (W : Type 0) : Type 0 where
  -- HGET key field: none when there is no such field.
  pub hget : Text → Text → W → Reply (Option Text) × W
  pub hset : Text → Text → ℤ → W → Bool × W
  pub set : Text → Text → W → Bool × W
  pub del : Text → W → Bool × W
  -- GET key: none when there is no such key.
  pub get : Text → W → Reply (Option Text) × W
  -- SELECT id FROM items WHERE source_id.
  pub item_id : Text → W → Option ℕ × W
  -- created_at of the link of a task to an item.
  pub linked_at : ℕ → ℕ → W → Option ℕ × W
  -- INSERT ... ON DUPLICATE KEY UPDATE of an item: the id that the driver fills in, 0 when it does
  -- not.
  pub create_item : Item → W → Option ℕ × W
  -- The same for a link: task, item, rank, time.
  pub create_link : ℕ → ℕ → ℕ → ℕ → W → Bool × W
  pub touch_link : ℕ → ℕ → W → Bool × W
  -- COUNT of a task's links; created_at of the link at an offset, newest first, 0 when there is
  -- none; DELETE of the links up to a time.
  pub count_links : ℕ → W → Option ℕ × W
  pub cutoff_time : ℕ → ℕ → W → Option ℕ × W
  pub delete_links : ℕ → ℕ → W → Bool × W
  pub task : ℕ → W → Option Task × W
  -- email and role of a user.
  pub user : ℕ → W → Option (Text × Text) × W
  -- SET last_run_at, and baseline_at as well if the flag says so.
  pub stamp : ℕ → Bool → ℕ → W → Bool × W
  pub set_status : ℕ → Status → W → Bool × W
  -- The mail server takes the mail or not.
  pub deliver : W → Bool × W

pub data Reason : Type 0 where
  found_new_item price_drop_detected : Reason

-- A call of notifier.Send.
pub record Mail : Type 0 where
  pub item : Item
  pub reason : Reason
  pub keyword : Text
  pub old_price : ℤ
  pub address : Text

-- The world, and the calls of notifier.Send so far.
pub record Site (W : Type 0) : Type 0 where
  pub world : W
  pub sent : List Mail

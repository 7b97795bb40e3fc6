-- ===== src/Scheduler/Tasks.antt =====
-- The task record, task ids as texts, and the status of a result.
use goods_hunter.Base.{
  ◌+◌, ◌*◌, ◌-◌, ◌^◌, ◌<◌, ◌==◌, leb, ℕ, ◌≤◌, ◌≡◌, refl, Bool, true, false, not, ◌&&◌, ◌||◌, [],
  ◌∷◌, Option, none, some, if◌then◌else◌, arith,
}
use goods_hunter.Base.Int.{ℤ, pos, negsuc, to_int32, low_bits}
use goods_hunter.Base.Text.{Text, str, text_eq, is_empty, trim_space}
use goods_hunter.Base.Decimal.{
  is_digit, format_uint, parse_uint, parse_int, max_uint64, parse_uint-format_uint,
  parse_int-format_uint, trim_space-format_uint,
}
use goods_hunter.RedisQueue.Types.{FetchRequest, FetchResponse}

pub data Status : Type 0 where
  running stopped completed queued other_status : Status

-- internal/model/models.go, the fields that the scheduler reads. `baseline_at` is none for nil and
-- for the zero time.
pub record Task : Type 0 where
  pub id : ℕ
  pub user_id : ℕ
  pub keyword : Text
  pub min_price : ℤ
  pub max_price : ℤ
  pub platform : ℤ
  pub sort_by : ℤ
  pub sort_order : ℤ
  pub one_shot : Bool
  pub status : Status
  pub notify_enabled : Bool
  pub baseline_at : Option ℕ

abbrev pub int_to_string : ℕ → Text
int_to_string = format_uint

unfoldable pub parse_task_id : Text → Option ℕ
parse_task_id v = if is_empty (trim_space v) then none else parse_uint v

-- What Atoi returns beside an error, as an int32: the largest int is -1 there, the least is 0, and
-- so is a text that is no number. A digit past 64 bits ends the scan.
error_digits : ℕ → Text → ℤ
error_digits acc [] = if leb (2 ^ 63) acc then negsuc 0 else pos 0
error_digits acc (c ∷ s) =
    if is_digit c
    then (let next = acc * 10 + (c - b'0') in
        if leb next max_uint64 then error_digits next s else negsuc 0)
    else pos 0

error_value : Text → ℤ
unfolding error_digits
error_value [] = pos 0
error_value (c ∷ s) =
    if c == b'-' then pos 0 else if c == b'+' then error_digits 0 s else error_digits 0 (c ∷ s)

narrowed : ℤ → Option ℤ → ℤ
narrowed z none = z
narrowed z (some n) = to_int32 n

-- The value that the callers use: they log an error, and go on.
unfoldable pub atoi32 : Text → ℤ
unfolding to_int32 error_value narrowed
atoi32 s = narrowed (error_value s) (parse_int s)

atoi32_runs :
    (atoi32 (str "1500") ≡ pos 1500)
    × (atoi32 (str "-7") ≡ negsuc 6)
    × (atoi32 (str "4294967297") ≡ pos 1)
    × (atoi32 (str "99999999999999999999") ≡ negsuc 0)
    × (atoi32 (str "x1") ≡ pos 0)
unfolding atoi32 parse_int
atoi32_runs = (refl, refl, refl, refl, refl)

-- A price from 0 to the largest int32, as Redis keeps it, is read back.
atoi32-format_uint : (n : ℕ) → n < 2 ^ 31 → atoi32 (format_uint n) ≡ pos n
unfolding atoi32 to_int32 low_bits narrowed
atoi32-format_uint n h = rw (parse_int-format_uint n (omega arith)) (ground arith)

-- An id of 64 bits is read back from the text of it.
parse_task_id-int_to_string : (n : ℕ) → n ≤ max_uint64 → parse_task_id (int_to_string n) ≡ some n
unfolding parse_task_id
parse_task_id-int_to_string n h = rw (trim_space-format_uint n) (parse_uint-format_uint n h)

-- handleTask's request for a task, made at `now`.
unfoldable pub request_of : Task → ℕ → FetchRequest
request_of task now = record {
  task_id = int_to_string task.id;
  platform = to_int32 task.platform;
  keyword = task.keyword;
  min_price = task.min_price;
  max_price = task.max_price;
  exclude_keywords = [];
  only_on_sale = true;
  sort = to_int32 task.sort_by;
  order = to_int32 task.sort_order;
  created_at = pos now;
}

pub data CrawlStatus : Type 0 where
  failed no_items success : CrawlStatus

-- classifyResult, with its message.
unfoldable pub classify_result : Option FetchResponse → CrawlStatus × Text
classify_result none = (failed, str "empty response")
classify_result (some resp) =
    if not (is_empty resp.error_message) && not (text_eq resp.error_message (str "no_items"))
    then (failed, resp.error_message)
    else if text_eq resp.error_message (str "no_items")
        || elim resp.items as (λ _. Bool) [ [] ↦ true | _ ∷ _ ↦ false ]
    then (no_items, str "no items found")
    else (success, [])

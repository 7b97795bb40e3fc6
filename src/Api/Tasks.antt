-- ===== src/Api/Tasks.antt =====
-- internal/api/server.go: the handlers that create and change tasks, with internal/pkg/dedup/dedup.go.
use goods_hunter.Base.{
  ℕ, zero, suc, ◌+◌, ◌*◌, ◌==◌, ltb, Bool, true, false, not, ◌||◌, List, [], ◌∷◌, ◌++◌, Option,
  none, some, if◌then◌else◌,
}
use goods_hunter.Base.Int.{ℤ, pos, negsuc}
use goods_hunter.Base.Text.{Text, str, text_eq, is_empty, to_lower, trim_space}
use goods_hunter.Base.Decimal.{format_uint}
use goods_hunter.Base.Int.{to_int32}
use goods_hunter.Crawler.Address.{Values, build_mercari_url}

-- internal/model/models.go.
pub record TaskRow : Type 0 where
  pub id : ℕ
  pub user_id : ℕ
  pub keyword : Text
  pub min_price : ℤ
  pub max_price : ℤ
  pub platform : ℤ
  pub sort_by : ℤ
  pub sort_order : ℤ
  pub status : Text
  pub task_type : Text
  pub notify_enabled : Bool

-- Calls of the scheduler, and of RemoveFromPendingSet.
pub data Call : Type 0 where
  started : TaskRow → Call
  stopped : ℕ → Call
  unpended : Text → Call

-- The tables tasks, task_items and items, the keys of the deduplicator with the time that they
-- last until, and the calls so far, the last first.
pub record Site : Type 0 where
  pub rows : List TaskRow
  pub next_id : ℕ
  pub links : List (ℕ × ℕ)
  pub items : List ℕ
  pub marks : Text → ℕ
  pub calls : List Call

-- What the server holds: sha256 in hexadecimal, url.Values.Encode, and the database's comparison of
-- an id with a text.
pub record App : Type 0 where
  pub max_tasks_per_user : ℤ
  pub dedup_ttl : ℕ
  pub has_deduper : Bool
  pub has_queue : Bool
  pub sum : Text → Text
  pub encode : Values → Text
  pub matches_id : Text → ℕ → Bool

-- Whether each statement and command of one request succeeds; one that fails changes nothing.
pub record Query : Type 0 where
  pub now : ℕ
  pub count_ok : Bool
  pub create_ok : Bool
  pub update_ok : Bool
  pub select_ok : Bool
  pub mark_ok : Bool
  pub unmark_ok : Bool
  pub links_read : Bool
  pub links_deleted : Bool
  pub items_read : Bool
  pub items_deleted : Bool
  pub delete_ok : Bool

pub data TaskAnswer : Type 0 where
  error : ℕ → Text → TaskAnswer
  created : ℕ → TaskAnswer
  skipped_duplicate updated : TaskAnswer
  enabled : Bool → TaskAnswer
  status_set deleted : Text → TaskAnswer

-- NewDeduplicator's time to live, in nanoseconds.
abbrev pub new_deduplicator : ℤ → ℕ
new_deduplicator (pos zero) = 3600 * 1_000_000_000
new_deduplicator (pos (suc n)) = suc n
new_deduplicator (negsuc n) = 3600 * 1_000_000_000

unfoldable pub mark_key : App → Text → Text
mark_key app url = str "goodshunter:dedup:url:" ++ app.sum url

-- IsDuplicate, SETNX: none for an error.
unfoldable pub is_duplicate : App → Query → Text → Site → Option Bool × Site
unfolding mark_key
is_duplicate app q url s =
    let key = mark_key app url in
    if not app.has_deduper || is_empty url
    then (some false, s)
    else if not q.mark_ok
    then (none, s)
    else if ltb q.now (s.marks key)
    then (some true, s)
    else (
      some false,
      record s { marks = λ k. if text_eq k key then q.now + app.dedup_ttl else s.marks k },
    )

-- Delete.
unfoldable pub unmark : App → Query → Text → Site → Site
unfolding mark_key
unmark app q url s =
    let key = mark_key app url in
    if not app.has_deduper || is_empty url || not q.unmark_ok
    then s
    else record s { marks = λ k. if text_eq k key then 0 else s.marks k }

-- The text before the first bar, and after it.
unfoldable pub cut_bar : Text → Text × Text
cut_bar [] = ([], [])
cut_bar (c ∷ s) = let rest = cut_bar s in if c == b'|' then ([], s) else (c ∷ rest.0, rest.1)

abbrev pub sort_number : Text → ℤ
sort_number s =
    if is_empty s
      || text_eq s (str "created_time")
      || text_eq s (str "created")
      || text_eq s (str "time")
    then pos 0
    else if text_eq s (str "price")
    then pos 1
    else if text_eq s (str "score")
    then pos 2
    else if text_eq s (str "likes") || text_eq s (str "num_likes")
    then pos 3
    else negsuc 0

abbrev pub is_invalid : ℤ → Bool
is_invalid (pos n) = false
is_invalid (negsuc n) = n == 0

unfoldable pub map_sort_and_order : Text → ℤ × ℤ
unfolding cut_bar
map_sort_and_order s =
    let parts = cut_bar s in
    let order = (cut_bar parts.1).0 in
    let sort_by = sort_number (to_lower (trim_space parts.0)) in
    if is_invalid sort_by
    then (negsuc 0, pos 0)
    else (sort_by, if text_eq (to_lower (trim_space order)) (str "asc") then pos 1 else pos 0)

abbrev pub format_int : ℤ → Text
format_int (pos n) = format_uint n
format_int (negsuc n) = b'-' ∷ format_uint (suc n)

abbrev pub is_mercari : ℤ → Bool
is_mercari (pos n) = n == 1
is_mercari (negsuc n) = false

abbrev pub positive_value : Text → ℤ → Values
positive_value key (pos zero) = []
positive_value key (pos (suc n)) = (key, format_uint (suc n)) ∷ []
positive_value key (negsuc n) = []

pub record CreateRequest : Type 0 where
  pub keyword : Text
  pub min_price : ℤ
  pub max_price : ℤ
  pub platform : ℤ
  pub sort : Text
  pub status : Text
  pub task_type : Text

-- From the keyword, the prices, the platform and the sort.
unfoldable pub build_dedup_url : App → Text → ℤ → ℤ → ℤ → ℤ × ℤ → Text
build_dedup_url app keyword min_price max_price platform sort =
    if is_empty keyword
    then []
    else if is_mercari platform
    then build_mercari_url app.encode (record {
      task_id = [];
      platform = to_int32 platform;
      keyword = keyword;
      min_price = min_price;
      max_price = max_price;
      exclude_keywords = [];
      only_on_sale = true;
      sort = to_int32 sort.0;
      order = to_int32 sort.1;
      created_at = pos 0;
    })
    else (str "goodshunter://platform-"
        ++ format_int platform
        ++ str "/search?"
        ++ app.encode (
            ((str "keyword", keyword) ∷ positive_value (str "min_price") min_price)
            ++ positive_value (str "max_price") max_price
            ++ ((str "sort_by", format_int sort.0) ∷ (str "sort_order", format_int sort.1) ∷ [])))

-- ===== src/RedisQueue/Types.antt =====
-- The messages of proto/crawler.proto, the errors of client.go, and the JSON codec that it calls.
use goods_hunter.Base.{◌≡◌, Bool, true, false, List, [], ◌∷◌, Option, some, ◌&&◌}
use goods_hunter.Base.Int.{ℤ}
use goods_hunter.Base.Text.{Text, is_empty, text_eq}
use goods_hunter.Base.Decimal.{is_digit}

pub record FetchRequest : Type 0 where
  pub task_id : Text
  pub platform : ℤ
  pub keyword : Text
  pub min_price : ℤ
  pub max_price : ℤ
  pub exclude_keywords : List Text
  pub only_on_sale : Bool
  pub sort : ℤ
  pub order : ℤ
  pub created_at : ℤ

pub record Item : Type 0 where
  pub source_id : Text
  pub title : Text
  pub price : ℤ
  pub image_url : Text
  pub item_url : Text
  pub status : Text

pub record FetchResponse : Type 0 where
  pub items : List Item
  pub error_message : Text
  pub task_id : Text

pub data Error : Type 0 where
  not_initialized nil_task nil_result empty_task_id : Error
  marshal_failed unmarshal_failed network : Error
  no_task no_result task_exists : Error

abbrev pub all_digits : Text → Bool
all_digits [] = true
all_digits (c ∷ s) = is_digit c && all_digits s

-- protojson, and Lua's `string.find` for `"taskId":"<id>"`, which takes the id for a pattern: for
-- an id of one digit or more it finds the id of a marshalled request, and no other.
pub record Codec : Type 0 where
  pub marshal_task : FetchRequest → Option Text
  pub unmarshal_task : Text → Option FetchRequest
  pub marshal_result : FetchResponse → Option Text
  pub unmarshal_result : Text → Option FetchResponse
  pub mentions : Text → Text → Bool
  pub task_law :
      (t : FetchRequest) (raw : Text) → marshal_task t ≡ some raw → unmarshal_task raw ≡ some t
  pub result_law :
      (t : FetchResponse) (raw : Text) → marshal_result t ≡ some raw → unmarshal_result raw ≡ some t
  pub mentions_law :
      (t : FetchRequest) (raw id : Text)
      → marshal_task t ≡ some raw
      → is_empty id ≡ false
      → all_digits id ≡ true
      → mentions raw id ≡ text_eq t.task_id id

-- ===== src/Crawler/Tests.antt =====
-- The throttler, the classification of errors, prices and pages at concrete inputs.
use goods_hunter.Base.{◌≡◌, ◌≤◌, ◌<◌, ◌*◌, ◌⊎◌, refl, true, false, [], ◌∷◌, ◌++◌, none, arith}
use goods_hunter.Base.Int.{pos}
use goods_hunter.Base.Text.{
  Text, str, contains, contains_any, to_lower, byte_len, is_empty, text_eq, remove_char,
}
use goods_hunter.Base.Decimal.{is_digit, format_uint}
use goods_hunter.Crawler.Price
use goods_hunter.Crawler.Throttler.{Throttler, second, record_block, record_block_outcome}
use goods_hunter.Crawler.Failure.{Failure}
use goods_hunter.Crawler.Price.{yen, parse_price, ok, parse_price-amount}
use goods_hunter.RedisQueue.Types.{FetchRequest}
use goods_hunter.Crawler.Unknown.{detect_block_type_unknown}
use goods_hunter.Crawler.BlockType.{
  detect_block_type, has_no_title, in_either, is_minimal, cloudflare_indicators, captcha_indicators,
  forbidden403_indicators, rate_limit_indicators, mercari_error_indicators,
  connection_error_indicators,
}
use goods_hunter.Base.{ℕ, some}

-- Two blocks here, and Redis says that the cluster has met five.
abbrev twice_blocked : Throttler
twice_blocked = record { consecutive_blocks = pos 2; in_cooldown = false }

record_block_outcome_example :
    let t' = (record_block (some (pos 5)) 7 twice_blocked).0 in
    let sleep = (record_block (some (pos 5)) 7 twice_blocked).1 in
    (t'.consecutive_blocks ≡ pos 3)
    × ((sleep ≡ none) × (t'.in_cooldown ≡ false) × ((false ≡ true) ⊎ ((3 < 3) × (5 < 3)))
        ⊎ ((d : ℕ) × (sleep ≡ some d)
            × (30 * second ≤ d)
            × (d < 60 * second)
            × (t'.in_cooldown ≡ true)
            × (false ≡ false)
            × ((3 ≤ 3) ⊎ (3 ≤ 5))))
record_block_outcome_example =
    record_block_outcome 2 false (some 5) 7 (omega arith) (omega arith) (omega arith)

abbrev refused_connection : Failure
refused_connection = record { context_done = false; message = str "dial tcp: Connection Refused" }

parse_price-amount_example : parse_price (yen ∷ str " " ++ str "12,300") ≡ ok (pos 12300)
unfolding goods_hunter.Crawler.Price.is_blank is_digit format_uint remove_char
parse_price-amount_example =
    parse_price-amount 12300 (str " ") b'1' (str "2,300") (omega arith) refl refl refl refl

abbrev cheap : FetchRequest
cheap = record {
  task_id = str "7";
  platform = pos 1;
  keyword = str "figure";
  min_price = pos 120;
  max_price = pos 5000;
  exclude_keywords = str "box" ∷ [];
  only_on_sale = true;
  sort = pos 1;
  order = pos 1;
  created_at = pos 0;
}

abbrev results_page : Text
results_page = str "<html><body><div id=search>300 items</div></body></html>"

detect_block_type_unknown_example :
    (has_no_title (str "Mercari") ≡ false)
    × (contains_any (to_lower results_page) (
          cloudflare_indicators
          ++ (captcha_indicators
              ++ (forbidden403_indicators
                  ++ (rate_limit_indicators
                      ++ (mercari_error_indicators ++ connection_error_indicators)))))
        ≡ false)
    × (contains_any (to_lower (str "Mercari")) (
          cloudflare_indicators
          ++ (forbidden403_indicators ++ (rate_limit_indicators ++ mercari_error_indicators)))
        ≡ false)
unfolding detect_block_type contains_any contains to_lower has_no_title in_either is_minimal
    is_empty text_eq byte_len
detect_block_type_unknown_example = detect_block_type_unknown (str "Mercari") results_page refl

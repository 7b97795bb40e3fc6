-- ===== src/Crawler/Failure.antt =====
-- internal/crawler/detect.go: containsAny, and the classes of errors by their messages.
use goods_hunter.Base.{
  ◌≡◌, Bool, true, false, ◌||◌, List, [], ◌∷◌, ◌++◌, Option, none, some, if◌then◌else◌, arith,
}
use goods_hunter.Base.Text.{Text, str, to_lower, contains_any, contains_any-append}

-- A Go error: whether errors.Is finds DeadlineExceeded or Canceled in it, and its text.
pub record Failure : Type 0 where
  pub context_done : Bool
  pub message : Text

pub data CrawlErrorType : Type 0 where
  unknown timeout blocked network parse_error : CrawlErrorType

abbrev pub blocked_keywords : List Text
blocked_keywords =
    str "blocked_page"
    ∷ str "cloudflare"
    ∷ str "attention required"
    ∷ str "access denied"
    ∷ str "403"
    ∷ str "429"
    ∷ str "forbidden"
    ∷ str "too many requests"
    ∷ []

abbrev pub timeout_keywords : List Text
timeout_keywords = str "timeout" ∷ str "deadline exceeded" ∷ []

abbrev pub network_keywords : List Text
network_keywords = str "net::" ∷ str "connection" ∷ str "navigate" ∷ []

abbrev pub parse_keywords : List Text
parse_keywords = str "parse" ∷ str "extract" ∷ []

unfoldable pub classify_message : Text → CrawlErrorType
classify_message msg =
    if contains_any msg blocked_keywords
    then blocked
    else if contains_any msg timeout_keywords
    then timeout
    else if contains_any msg network_keywords
    then network
    else if contains_any msg parse_keywords
    then parse_error
    else unknown

unfoldable pub classify_error : Option Failure → CrawlErrorType
unfolding classify_message
classify_error none = unknown
classify_error (some err) =
    if err.context_done then timeout else classify_message (to_lower err.message)

proxy_type : CrawlErrorType → Bool
proxy_type blocked = true
proxy_type timeout = true
proxy_type network = true
proxy_type _ = false

unfoldable pub should_activate_proxy : Option Failure → Bool
unfolding proxy_type classify_error
should_activate_proxy none = false
should_activate_proxy (some err) = proxy_type (classify_error (some err))

error_label : CrawlErrorType → Text
error_label timeout = str "timeout"
error_label network = str "network_error"
error_label parse_error = str "parse_error"
error_label blocked = str "blocked"
error_label unknown = str "unknown"

unfoldable pub classify_crawler_error : Option Failure → Text
unfolding error_label classify_error
classify_crawler_error err = error_label (classify_error err)

status_label : CrawlErrorType → Text
status_label blocked = str "403_forbidden"
status_label _ = str "error"

unfoldable pub classify_crawl_status : Option Failure → Text
unfolding status_label classify_error
classify_crawl_status none = str "success"
classify_crawl_status (some err) = status_label (classify_error (some err))

-- A proxy is tried for just those errors that end the context or whose message, in lower case,
-- holds a keyword of a block, of a timeout or of the network, in whatever order they stand.
should_activate_proxy_lem :
    (err : Failure)
    → should_activate_proxy (some err) ≡ (
        err.context_done
        || contains_any
            (to_lower err.message)
            (blocked_keywords ++ timeout_keywords ++ network_keywords))
unfolding should_activate_proxy
should_activate_proxy_lem err = ground (
  arith,
  contains_any-append (to_lower err.message) (blocked_keywords ++ timeout_keywords)
      network_keywords,
  contains_any-append (to_lower err.message) blocked_keywords timeout_keywords,
)

-- ===== src/Crawler/BlockType.antt =====
-- internal/crawler/detect.go: is the page a block, and of which kind.
use goods_hunter.Base.{
  ltb, Bool, false, not, ◌&&◌, ◌||◌, List, [], ◌∷◌, Option, none, some, if◌then◌else◌,
}
use goods_hunter.Base.Text.{
  Text, str, is_empty, text_eq, contains, contains_any, to_lower, byte_len,
}

abbrev pub blocked_hints : List Text
blocked_hints =
    str "cloudflare"
    ∷ str "attention required"
    ∷ str "verify you are human"
    ∷ str "access denied"
    ∷ str "temporarily unavailable"
    ∷ str "just a moment"
    ∷ str "checking your browser"
    ∷ str "challenge-platform"
    ∷ str "cf-browser-verification"
    ∷ str "recaptcha"
    ∷ str "hcaptcha"
    ∷ str "captcha"
    ∷ str "403 forbidden"
    ∷ str "429 too many requests"
    ∷ str "blocked"
    ∷ str "rate limited"
    ∷ str "too many requests"
    ∷ str "err_connection"
    ∷ str "err_proxy"
    ∷ str "proxy error"
    ∷ []

abbrev pub blocked_titles : List Text
blocked_titles =
    str "just a moment"
    ∷ str "attention required"
    ∷ str "access denied"
    ∷ str "403 forbidden"
    ∷ str "429 too many"
    ∷ str "blocked"
    ∷ str "cloudflare"
    ∷ []

abbrev pub cloudflare_indicators : List Text
cloudflare_indicators =
    str "just a moment"
    ∷ str "cloudflare"
    ∷ str "cf-browser-verification"
    ∷ str "challenge-platform"
    ∷ str "challenges.cloudflare.com"
    ∷ str "id=\"challenge-form\""
    ∷ str "id=\"challenge-running\""
    ∷ str "id=\"challenge-stage\""
    ∷ str "turnstile"
    ∷ str "cf-turnstile"
    ∷ str "ray id:"
    ∷ str "please wait"
    ∷ str "しばらくお待ちください"
    ∷ str "ブラウザを確認しています"
    ∷ []

abbrev pub captcha_indicators : List Text
captcha_indicators =
    str "captcha"
    ∷ str "recaptcha"
    ∷ str "hcaptcha"
    ∷ str "verify you are human"
    ∷ str "私はロボットではありません"
    ∷ str "認証が必要です"
    ∷ str "ロボット"
    ∷ []

abbrev pub forbidden403_indicators : List Text
forbidden403_indicators =
    str "403"
    ∷ str "forbidden"
    ∷ str "access denied"
    ∷ str "アクセスが拒否されました"
    ∷ str "アクセスできません"
    ∷ str "このページにアクセスする権限"
    ∷ str "お探しのページは"
    ∷ str "エラーが発生しました"
    ∷ str "サーバーエラー"
    ∷ str "リクエストを処理できません"
    ∷ str "不正なアクセス"
    ∷ str "blocked"
    ∷ str "denied"
    ∷ []

abbrev pub rate_limit_indicators : List Text
rate_limit_indicators =
    str "429"
    ∷ str "too many requests"
    ∷ str "rate limit"
    ∷ str "リクエストが多すぎます"
    ∷ str "しばらく時間をおいてから"
    ∷ str "アクセスが集中しています"
    ∷ str "混み合っています"
    ∷ str "時間をおいて再度アクセス"
    ∷ str "temporarily unavailable"
    ∷ str "service unavailable"
    ∷ []

abbrev pub mercari_error_indicators : List Text
mercari_error_indicators =
    str "mererrorpage"
    ∷ str "error-page"
    ∷ str "page-not-found"
    ∷ str "something went wrong"
    ∷ str "問題が発生しました"
    ∷ str "ページが見つかりません"
    ∷ str "メンテナンス中"
    ∷ str "サービスを一時停止"
    ∷ []

abbrev pub connection_error_indicators : List Text
connection_error_indicators =
    str "err_connection"
    ∷ str "err_proxy"
    ∷ str "err_tunnel"
    ∷ str "err_name_not_resolved"
    ∷ str "err_internet_disconnected"
    ∷ str "err_ssl"
    ∷ str "err_cert"
    ∷ str "proxy error"
    ∷ str "connection refused"
    ∷ str "connection reset"
    ∷ str "connection timed out"
    ∷ str "ネットワークエラー"
    ∷ str "接続できません"
    ∷ []

pub data BlockType : Type 0 where
  cloudflare_challenge captcha forbidden_403 rate_limited_429 mercari_error_page : BlockType
  blank_page empty_title connection_error suspicious_minimal_page unknown : BlockType

-- One of the words is in the first text or in the second.
unfoldable pub in_either : Text → Text → List Text → Bool
in_either html title [] = false
in_either html title (w ∷ ws) = (contains html w || contains title w) || in_either html title ws

unfoldable pub has_no_title : Text → Bool
has_no_title title = is_empty title || text_eq title (str "about:blank")

unfoldable pub is_blank : Text → Bool
is_blank html =
    ltb (byte_len html) 100 || contains html (str "<html><head></head><body></body></html>")

unfoldable pub is_minimal : Text → Text → Bool
is_minimal html lower_html =
    ltb 0 (byte_len html)
    && ltb (byte_len html) 200
    && not (
        contains_any lower_html
          (str "<body" ∷ str "meremptystate" ∷ str "item-cell" ∷ str "search" ∷ []))

unfoldable pub detect_block_type : Text → Text → BlockType
unfolding has_no_title is_blank is_minimal in_either
detect_block_type title html =
    let lower_title = to_lower title in
    let lower_html = to_lower html in
    if in_either lower_html lower_title cloudflare_indicators
    then cloudflare_challenge
    else if contains lower_html (str "iframe") && contains lower_html (str "cloudflare")
    then cloudflare_challenge
    else if contains_any lower_html captcha_indicators
    then captcha
    else if in_either lower_html lower_title forbidden403_indicators
    then forbidden_403
    else if in_either lower_html lower_title rate_limit_indicators
    then rate_limited_429
    else if in_either lower_html lower_title mercari_error_indicators
    then mercari_error_page
    else if has_no_title title
    then (if is_blank html then blank_page else empty_title)
    else if contains_any lower_html connection_error_indicators
    then connection_error
    else if is_minimal html lower_html
    then suspicious_minimal_page
    else unknown

-- isBlockedPage: title and address of the page, if they can be read, and the text of its body.
blocked_info : Option (Text × Text) → Bool
blocked_info none = false
blocked_info (some (title, url)) =
    let t = to_lower title in
    let u = to_lower url in
    ((text_eq t (str "about:blank") || is_empty t) && (text_eq u (str "about:blank") || is_empty u))
    || contains_any t blocked_titles

unfoldable pub is_blocked_page : Option (Text × Text) → Text → Bool
unfolding blocked_info
is_blocked_page info text =
    blocked_info info || ltb (byte_len text) 50 || contains_any (to_lower text) blocked_hints

-- ===== src/Crawler/Unknown.antt =====
-- What detectBlockType has found when it answers "unknown".
use mathlib.Core.Bool.{true≢false}
use goods_hunter.Base.{
  ◌≡◌, refl, ap, sym, ◌∙◌, Bool, true, false, ◌&&◌, ◌||◌, List, [], ◌∷◌, ◌++◌, if◌then◌else◌, arith,
}
use goods_hunter.Base.Text.{Text, str, contains, contains_any, contains_any-append, to_lower}
use goods_hunter.Crawler.BlockType.{
  BlockType, captcha_indicators, cloudflare_indicators, connection_error_indicators,
  detect_block_type, forbidden403_indicators, has_no_title, in_either, is_blank, is_minimal,
  mercari_error_indicators, rate_limit_indicators, cloudflare_challenge, captcha, forbidden_403,
  rate_limited_429, mercari_error_page, blank_page, empty_title, connection_error,
  suspicious_minimal_page, unknown,
}

in_either-split :
    (html title : Text) (ws : List Text)
    → in_either html title ws ≡ (contains_any html ws || contains_any title ws)
unfolding in_either contains_any
in_either-split html title [] = refl
in_either-split html title (w ∷ ws) = ground (arith, in_either-split html title ws)

abbrev is_unknown : BlockType → Bool
is_unknown cloudflare_challenge = false
is_unknown captcha = false
is_unknown forbidden_403 = false
is_unknown rate_limited_429 = false
is_unknown mercari_error_page = false
is_unknown blank_page = false
is_unknown empty_title = false
is_unknown connection_error = false
is_unknown suspicious_minimal_page = false
is_unknown unknown = true

if-unknown :
    (b : Bool) (t e : BlockType)
    → is_unknown t ≡ false
    → (if b then t else e) ≡ unknown
    → (b ≡ false) × (e ≡ unknown)
if-unknown true t e h k = absurd (true≢false (sym (ap is_unknown k) ∙ h))
if-unknown false t e h k = (refl, k)

no_title-known : (b : Bool) → is_unknown (if b then blank_page else empty_title) ≡ false
no_title-known true = refl
no_title-known false = refl

||-false : (a b : Bool) → (a || b) ≡ false → (a ≡ false) × (b ≡ false)
||-false true b h = absurd (true≢false h)
||-false false b h = (refl, h)

contains_any-none :
    (t : Text) (xs ys : List Text)
    → contains_any t xs ≡ false
    → contains_any t ys ≡ false
    → contains_any t (xs ++ ys) ≡ false
contains_any-none t xs ys h k = contains_any-append t xs ys ∙ rw (h, k)

in_either-none :
    (html title : Text) (ws : List Text)
    → in_either html title ws ≡ false
    → (contains_any html ws ≡ false) × (contains_any title ws ≡ false)
in_either-none html title ws h =
    ||-false (contains_any html ws) (contains_any title ws)
      (sym (in_either-split html title ws) ∙ h)

-- A page of unknown type has a title, which is not "about:blank", and none of the words of the tables for its kind of text: all
-- six tables for the page, four of them for the title, in lower case.
pub detect_block_type_unknown :
    (title html : Text)
    → detect_block_type title html ≡ unknown
    → (has_no_title title ≡ false)
      × (contains_any (to_lower html) (
            cloudflare_indicators
            ++ (captcha_indicators
                ++ (forbidden403_indicators
                    ++ (rate_limit_indicators
                        ++ (mercari_error_indicators ++ connection_error_indicators)))))
          ≡ false)
      × (contains_any (to_lower title) (
            cloudflare_indicators
            ++ (forbidden403_indicators ++ (rate_limit_indicators ++ mercari_error_indicators)))
          ≡ false)
unfolding detect_block_type
detect_block_type_unknown title html h =
    let lh = to_lower html in
    let lt = to_lower title in
    let b1 = in_either lh lt cloudflare_indicators in
    let b2 = contains lh (str "iframe") && contains lh (str "cloudflare") in
    let b3 = contains_any lh captcha_indicators in
    let b4 = in_either lh lt forbidden403_indicators in
    let b5 = in_either lh lt rate_limit_indicators in
    let b6 = in_either lh lt mercari_error_indicators in
    let b8 = contains_any lh connection_error_indicators in
    let blank : BlockType = if is_blank html then blank_page else empty_title in
    let r8 : BlockType = if is_minimal html lh then suspicious_minimal_page else unknown in
    let r7 : BlockType = if b8 then connection_error else r8 in
    let r6 : BlockType = if has_no_title title then blank else r7 in
    let r5 : BlockType = if b6 then mercari_error_page else r6 in
    let r4 : BlockType = if b5 then rate_limited_429 else r5 in
    let r3 : BlockType = if b4 then forbidden_403 else r4 in
    let r2 : BlockType = if b3 then captcha else r3 in
    let r1 : BlockType = if b2 then cloudflare_challenge else r2 in
    let (e1, k1) = if-unknown b1 cloudflare_challenge r1 refl h in
    let (e2, k2) = if-unknown b2 cloudflare_challenge r2 refl k1 in
    let (e3, k3) = if-unknown b3 captcha r3 refl k2 in
    let (e4, k4) = if-unknown b4 forbidden_403 r4 refl k3 in
    let (e5, k5) = if-unknown b5 rate_limited_429 r5 refl k4 in
    let (e6, k6) = if-unknown b6 mercari_error_page r6 refl k5 in
    let (e7, k7) = if-unknown (has_no_title title) blank r7 (no_title-known (is_blank html)) k6 in
    let (e8, k8) = if-unknown b8 connection_error r8 refl k7 in
    let (h1, t1) = in_either-none lh lt cloudflare_indicators e1 in
    let (h4, t4) = in_either-none lh lt forbidden403_indicators e4 in
    let (h5, t5) = in_either-none lh lt rate_limit_indicators e5 in
    let (h6, t6) = in_either-none lh lt mercari_error_indicators e6 in
    (
      e7,
      contains_any-none lh cloudflare_indicators _ h1 (
          contains_any-none lh captcha_indicators _ e3 (
            contains_any-none lh forbidden403_indicators _ h4 (
              contains_any-none lh rate_limit_indicators _ h5 (
                contains_any-none lh mercari_error_indicators connection_error_indicators h6 e8)))),
      contains_any-none lt cloudflare_indicators _ t1 (
          contains_any-none lt forbidden403_indicators _ t4
            (contains_any-none lt rate_limit_indicators mercari_error_indicators t5 t6)),
    )

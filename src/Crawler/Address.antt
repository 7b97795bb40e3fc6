-- ===== src/Crawler/Address.antt =====
-- internal/crawler/url_builder.go and parse.go: the address of the search page for a request, and
-- the addresses that the page names. `encode` is url.Values.Encode on the values in the order in
-- which they are set; no key but exclude_keyword is set twice.
use goods_hunter.Base.{
  All, sym, ◌∙◌, false, ℕ, ◌≡◌, refl, ◌≤◌, ltb, ◌==◌, true, ◌||◌, Option, none, some, List, [], ◌∷◌,
  ◌++◌, if◌then◌else◌, arith, inl, inr, Bool-cases,
}
use mathlib.Core.Bool.{true≢false}
use mathlib.Core.Option.{none-ne-some}
use goods_hunter.Base.Int.{ℤ, pos, negsuc}
use goods_hunter.Base.Text.{text_eq, Text, str, is_empty, trim_space, has_prefix}
use goods_hunter.Base.Decimal.{format_uint}
use goods_hunter.RedisQueue.Types.{FetchRequest}

-- The numbers of SortBy and SortOrder in crawler.proto.
unfoldable pub map_sort_by : ℤ → Text
map_sort_by (pos n) =
    if n == 1
    then str "price"
    else if n == 2
    then str "score"
    else if n == 3
    then str "num_likes"
    else str "created_time"
map_sort_by (negsuc n) = str "created_time"

unfoldable pub map_sort_order : ℤ → Text
map_sort_order (pos n) = if n == 1 then str "asc" else str "desc"
map_sort_order (negsuc n) = str "desc"

abbrev pub Values : Type 0
Values = List (Text × Text)

-- A minimum below 300 yen is raised to it; none for 0 and below.
unfoldable pub lower_price : ℤ → Option ℕ
lower_price (pos n) = if n == 0 then none else if ltb n 300 then some 300 else some n
lower_price (negsuc n) = none

unfoldable pub upper_price : ℤ → Option ℕ
upper_price (pos n) = if n == 0 then none else some n
upper_price (negsuc n) = none

price_value : Text → Option ℕ → Values
price_value key none = []
price_value key (some n) = (key, format_uint n) ∷ []

excluded : List Text → Values
excluded [] = []
excluded (ex ∷ exs) =
    let rest = excluded exs in
    if is_empty (trim_space ex) then rest else (str "exclude_keyword", ex) ∷ rest

set_if : Text → Text → Values
set_if key value = if is_empty value then [] else (key, value) ∷ []

unfoldable pub query_values : FetchRequest → Values
unfolding price_value excluded set_if map_sort_by map_sort_order lower_price upper_price
query_values req =
    set_if (str "keyword") req.keyword
    ++ ((str "status", str "on_sale")
        ∷ (price_value (str "price_min") (lower_price req.min_price)
            ++ (price_value (str "price_max") (upper_price req.max_price)
                ++ (excluded req.exclude_keywords
                    ++ (set_if (str "sort") (map_sort_by req.sort)
                        ++ set_if (str "order") (map_sort_order req.order))))))

spaces_out : Text → Text
spaces_out [] = []
spaces_out (c ∷ s) = if c == b'+' then str "%20" ++ spaces_out s else c ∷ spaces_out s

unfoldable pub build_mercari_url : (Values → Text) → FetchRequest → Text
unfolding query_values spaces_out
build_mercari_url encode req =
    str "https://jp.mercari.com/search" ++ (str "?" ++ spaces_out (encode (query_values req)))

unfoldable pub normalize_mercari_url : Text → Text
normalize_mercari_url u =
    if is_empty u
    then u
    else if has_prefix u (str "http://") || has_prefix u (str "https://")
    then u
    else if has_prefix u (str "//")
    then str "https:" ++ u
    else str "https://jp.mercari.com" ++ u

prefixed-slashes :
    (u : Text)
    → has_prefix u (str "//") ≡ true
    → has_prefix (str "https:" ++ u) (str "https://") ≡ true
unfolding has_prefix
prefixed-slashes u h = h

prefixed-path : (u : Text) → has_prefix (str "https://jp.mercari.com" ++ u) (str "https://") ≡ true
unfolding has_prefix
prefixed-path u = refl

settled : (t : Text) → has_prefix t (str "https://") ≡ true → normalize_mercari_url t ≡ t
unfolding normalize_mercari_url
settled t h = ground arith

-- An address that was completed is left as it is.
normalize_mercari_url_twice :
    (u : Text) → normalize_mercari_url (normalize_mercari_url u) ≡ normalize_mercari_url u
unfolding normalize_mercari_url
normalize_mercari_url_twice u = elim (Bool-cases (is_empty u)) [
  | inl empty ↦ rw (empty, empty)
  | inr full ↦ elim (Bool-cases (has_prefix u (str "http://") || has_prefix u (str "https://"))) [
    | inl whole ↦ rw (full, whole) (rw (full, whole))
    | inr part ↦ elim (Bool-cases (has_prefix u (str "//"))) [
      | inl host ↦ rw (full, part, host) (settled (str "https:" ++ u) (prefixed-slashes u host))
      | inr path ↦
          rw (full, part, path) (settled (str "https://jp.mercari.com" ++ u) (prefixed-path u))
    ]
  ]
]

-- A value of the query that is a minimum price.
abbrev pub MinPrice : Text × Text → Type 0
MinPrice kv = text_eq kv.0 (str "price_min") ≡ true → (n : ℕ) × (kv.1 ≡ format_uint n) × (300 ≤ n)

All-append : (P : Text × Text → Type 0) (xs ys : Values) → All P xs → All P ys → All P (xs ++ ys)
All-append P [] ys h k = k
All-append P (x ∷ xs) ys h k = (h.0, All-append P xs ys h.1 k)

other_key : (key value : Text) → text_eq key (str "price_min") ≡ false → MinPrice (key, value)
other_key key value h e = absurd (true≢false (sym e ∙ h))

set_if-MinPrice :
    (key value : Text) → text_eq key (str "price_min") ≡ false → All MinPrice (set_if key value)
unfolding set_if
set_if-MinPrice key value h = elim (Bool-cases (is_empty value)) [
  | inl empty ↦ rw empty tt
  | inr full ↦ rw full ((other_key key value h, tt))
]

excluded-MinPrice : (exs : List Text) → All MinPrice (excluded exs)
unfolding excluded text_eq
excluded-MinPrice [] = tt
excluded-MinPrice (ex ∷ exs) = elim (Bool-cases (is_empty (trim_space ex))) [
  | inl blank ↦ rw blank (excluded-MinPrice exs)
  | inr word ↦ rw word ((other_key (str "exclude_keyword") ex refl, excluded-MinPrice exs))
]

price_value-other : (o : Option ℕ) → All MinPrice (price_value (str "price_max") o)
unfolding price_value text_eq
price_value-other none = tt
price_value-other (some n) = (other_key (str "price_max") (format_uint n) refl, tt)

price_value-MinPrice :
    (o : Option ℕ)
    → ((n : ℕ) → o ≡ some n → 300 ≤ n)
    → All MinPrice (price_value (str "price_min") o)
unfolding price_value
price_value-MinPrice none h = tt
price_value-MinPrice (some n) h = (λ e. (n, refl, h n refl), tt)

lower_price-least : (min_price : ℤ) (n : ℕ) → lower_price min_price ≡ some n → 300 ≤ n
unfolding lower_price
lower_price-least (pos m) n e = grind arith
lower_price-least (negsuc m) n e = absurd (none-ne-some n e)

-- Every value that the query of a request has under "price_min" is a number of at least 300.
query_values-MinPrice : (req : FetchRequest) → All MinPrice (query_values req)
unfolding query_values map_sort_by map_sort_order text_eq
query_values-MinPrice req =
    All-append MinPrice (set_if (str "keyword") req.keyword) _
      (set_if-MinPrice (str "keyword") req.keyword refl)
      (
        other_key (str "status") (str "on_sale") refl,
        All-append MinPrice (price_value (str "price_min") (lower_price req.min_price)) _
            (price_value-MinPrice (lower_price req.min_price) (lower_price-least req.min_price))
            (All-append MinPrice (price_value (str "price_max") (upper_price req.max_price)) _
              (price_value-other (upper_price req.max_price))
              (All-append MinPrice (excluded req.exclude_keywords) _
                (excluded-MinPrice req.exclude_keywords)
                (All-append MinPrice (set_if (str "sort") (map_sort_by req.sort)) _
                  (set_if-MinPrice (str "sort") (map_sort_by req.sort) refl)
                  (set_if-MinPrice (str "order") (map_sort_order req.order) refl)))),
      )

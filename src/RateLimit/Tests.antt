-- ===== src/RateLimit/Tests.antt =====
-- The bucket at a rate of 3 a second and a burst of 5.
use goods_hunter.Base.{ℕ, ◌≡◌, refl, false, List, [], ◌∷◌, some, arith}
use goods_hunter.Base.Int.{pos}
use goods_hunter.Base.Text.{str, is_empty}
use goods_hunter.RateLimit.Bucket.{token_bucket, spend, refilled, ttl, allow, refused, int_reply}
use goods_hunter.RateLimit.Bounds.{run, fresh, holding, token_bucket-expired}

-- The second client's clock is 40 ms behind.
abbrev times : List ℕ
times = 960 ∷ 1000 ∷ 1000 ∷ 1000 ∷ 1000 ∷ 1100 ∷ 1400 ∷ []

run_passes : (run 3 5 (1000 ∷ times) fresh).0 ≡ 6
unfolding run token_bucket spend refilled
run_passes = refl

token_bucket-expired_example :
    token_bucket 3 5 9000 1 fresh ≡ token_bucket 3 5 9000 1 (holding 0 1000)
unfolding ttl
token_bucket-expired_example =
    token_bucket-expired 3 5 9000 0 1000 (omega arith) (omega arith) (omega arith)

refused_when_empty :
    (allow false (str "rl") (pos 3) (pos 5) 1000 (λ n. some (int_reply (pos n))) (holding 0 1000)).0
    ≡ refused
unfolding allow token_bucket is_empty spend refilled
refused_when_empty = refl

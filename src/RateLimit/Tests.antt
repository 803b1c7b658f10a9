-- ===== src/RateLimit/Tests.antt =====
-- The theorems on the rate limit, on requests within two minutes.
use aegis_platform_server_te.Prelude.{ℕ, ◌≡◌, List, [], ◌∷◌, arith, ok, http_error, count_where}
use aegis_platform_server_te.RateLimit.{enforce_local, enforce_redis}
use aegis_platform_server_te.RateLimit.Window.{
  queue_after, set_after, enforce_local-within, enforce_redis-within,
}

abbrev earlier : List ℕ
earlier = 100 ∷ 70 ∷ 10 ∷ []

enforce_local-within_example :
    (enforce_local 2 60 110 (queue_after 2 60 earlier)).0 ≡ http_error 429
unfolding count_where
enforce_local-within_example = enforce_local-within 2 60 110 earlier (omega arith)

enforce_redis-within_example : (enforce_redis 2 60 131 (set_after 2 60 earlier)).0 ≡ ok tt
unfolding count_where
enforce_redis-within_example = enforce_redis-within 2 60 131 earlier (omega arith) (omega arith)

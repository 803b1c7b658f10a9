-- ===== src/TradeLimits/Tests.antt =====
-- The theorems on trade limits, on an account without a subscription row and on a limited one.
use aegis_platform_server_te.Prelude.{◌≤◌, ◌<◌, ◌≡◌, none, some, List, [], ◌∷◌, arith, find, str_eq}
use aegis_platform_server_te.Models.{Subscription, active}
use aegis_platform_server_te.TradeLimits.{limit_for, used_on, consume, status}
use aegis_platform_server_te.TradeLimits.Usage.{
  consume_all, consume_all-within, consume_lem, Request,
}

abbrev limited : List Subscription
limited =
    record {
      account_id = "A1";
      provider = none;
      provider_customer_id = none;
      provider_subscription_id = none;
      status = active;
      current_period_end = none;
      grace_period_ends_at = none;
      portal_token = none;
      plan = "pro";
      max_devices = 1;
      max_trades_per_day = 2;
      updated_at = 0;
    }
    ∷ []

has_limit : 0 < limit_for "A1" limited
unfolding limit_for find str_eq
has_limit = omega arith

none_used : used_on "A1" "d" [] ≤ limit_for "A1" limited
unfolding limit_for find str_eq
none_used = omega arith

abbrev three_requests : List Request
three_requests = ("A1", "d", 1) ∷ ("A1", "d", 1) ∷ ("A1", "d", 1) ∷ []

consume_all-within_example :
    used_on "A1" "d" (consume_all limited three_requests []) ≤ limit_for "A1" limited
consume_all-within_example =
    consume_all-within limited three_requests "A1" "d" [] has_limit none_used

consume_lem_test :
    ((consume limited "A1" "d" 1 []).0
      ≡ some (status limited "A1" "d" ((consume limited "A1" "d" 1 []).1)))
    × (used_on "A1" "d" ((consume limited "A1" "d" 1 []).1) ≡ 1)
unfolding limit_for find str_eq
consume_lem_test = consume_lem limited "A1" "d" "A1" "d" 1 []

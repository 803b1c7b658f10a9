-- ===== src/Storefront/Tests.antt =====
-- The theorems on the subscription endpoints, on one member.
use aegis_platform_server_te.Prelude.{
  ◌≡◌, refl, true, false, Bool, Option, none, some, [], ◌∷◌, String, ok, http_error, find, str_eq,
}
use aegis_platform_server_te.Models.{Subscription, active, default_settings}
use aegis_platform_server_te.Security.{AuthContext, require_admin}
use aegis_platform_server_te.Subscriptions.{Draws, get_row, is_active}
use aegis_platform_server_te.Devices.{has_token, consume_download_token}
use aegis_platform_server_te.Workers.{is_running}
use aegis_platform_server_te.Portal.{get_status}
use aegis_platform_server_te.Storefront.{State, Shop, cancel_subscription, demo_signup}
use aegis_platform_server_te.Storefront.Cancel.{ended, cancel_ends_access, cancel_error_keeps}
use aegis_platform_server_te.Storefront.Signup.{signup_grants}

abbrev row : Subscription
row = record {
  account_id = "A";
  provider = some "stripe";
  provider_customer_id = none;
  provider_subscription_id = some "sub_1";
  status = active;
  current_period_end = none;
  grace_period_ends_at = none;
  portal_token = some "t";
  plan = "pro";
  max_devices = 1;
  max_trades_per_day = 50;
  updated_at = 0;
}

abbrev st : State
st = record {
  subscriptions = row ∷ [];
  pool = record {
    workers = record { account_id = "A"; pid = 3; exited = false } ∷ [];
    registry = "A" ∷ [];
    sent = [];
  };
}

abbrev admin : AuthContext
admin = record {
  account_id = none;
  is_admin = true;
  label = none;
  key_id = some 1;
  force_rotate = false;
  expires_at = none;
  rotation_due_at = none;
}

abbrev confirms : Bool → String → Option String → Option String → Bool
confirms answer provider subscription customer = answer

cancels : cancel_subscription admin (confirms true) "A" 100 st ≡ (ok tt, ended "A" 100 st)
unfolding cancel_subscription require_admin get_status find str_eq
cancels = refl

apart : str_eq "B" "A" ≡ false
unfolding str_eq
apart = refl

cancel_ends_access_example :
    (is_active "A" 200 ((ended "A" 100 st).subscriptions) ≡ false)
    × (is_running "A" ((ended "A" 100 st).pool) ≡ false)
    × (get_row "B" ((ended "A" 100 st).subscriptions) ≡ get_row "B" st.subscriptions)
    × (is_running "B" ((ended "A" 100 st).pool) ≡ is_running "B" st.pool)
cancel_ends_access_example =
    cancel_ends_access admin (confirms true) "A" "B" 100 200 st (ended "A" 100 st) cancels apart

refused : cancel_subscription admin (confirms false) "A" 100 st ≡ (http_error 502, st)
unfolding cancel_subscription require_admin get_status find str_eq
refused = refl

cancel_error_keeps_test : st ≡ st
cancel_error_keeps_test = cancel_error_keeps admin (confirms false) "A" 100 502 st st refused

abbrev shop : Shop
shop = record {
  billing = record { subscriptions = []; processed = []; api_keys = [] };
  tokens = [];
  audit = [];
}

abbrev draws : Draws
draws = record { portal_token = "p"; raw_key = "k"; key_id = 1 }

unused : find (has_token "d") shop.tokens ≡ none
unfolding find
unused = refl

signup_grants_test :
    let (issued, after) = demo_signup (λ s. s) default_settings none "DEMO-1" draws "d" 100 shop in
    (is_active issued.account_id 9000000 after.billing.subscriptions ≡ true)
    × ((consume_download_token "d" 9000000 after.tokens).0 ≡ none)
signup_grants_test =
    signup_grants (λ s. s) default_settings none "DEMO-1" "d" draws 100 9000000 shop unused

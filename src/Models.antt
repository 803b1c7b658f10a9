-- ===== src/Models.antt =====
-- The rows of the database (backend/app/db/models.py) and the settings (backend/app/config.py).
-- A `datetime` is a number of seconds since the epoch; columns that nothing reads are left out.
use aegis_platform_server_te.Prelude.{ℕ, ◌*◌, Bool, Option, String}

-- `timedelta(days=n)`, `timedelta(hours=n)`, `timedelta(minutes=n)`.
abbrev pub days : ℕ → ℕ
days n = n * 86400

abbrev pub hours : ℕ → ℕ
hours n = n * 3600

abbrev pub minutes : ℕ → ℕ
minutes n = n * 60

-- The texts that the code writes to `Subscription.status`, `demo`, which it only reads, and any
-- other text that an operator may set.
pub data Status : Type 0 where
  active past_due suspended canceled demo : Status
  other : String → Status

pub record Subscription : Type 0 where
  pub account_id : String
  pub provider : Option String
  pub provider_customer_id : Option String
  pub provider_subscription_id : Option String
  pub status : Status
  pub current_period_end : Option ℕ
  pub grace_period_ends_at : Option ℕ
  pub portal_token : Option String
  pub plan : String
  pub max_devices : ℕ
  pub max_trades_per_day : ℕ
  pub updated_at : ℕ

pub record ProcessedPaymentEvent : Type 0 where
  pub provider : String
  pub provider_event_id : String
  pub processed_at : ℕ

pub record ApiKey : Type 0 where
  pub id : ℕ
  pub key_hash : String
  pub account_id : Option String
  pub is_admin : Bool
  pub label : Option String
  pub revoked : Bool
  pub created_at : ℕ
  pub last_used_at : Option ℕ
  pub expires_at : Option ℕ
  pub rotation_due_at : Option ℕ
  pub force_rotate : Bool
  pub issued_by : Option String
  pub revoked_by : Option String
  pub revoked_at : Option ℕ
  pub replaces_key_id : Option ℕ

pub record DeviceBinding : Type 0 where
  pub account_id : String
  pub device_id : String
  pub device_label : Option String
  pub bound_at : ℕ
  pub last_seen_at : Option ℕ

pub record TradeDailyCounter : Type 0 where
  pub account_id : String
  pub day : String
  pub trade_count : ℕ

pub record DownloadToken : Type 0 where
  pub token : String
  pub account_id : String
  pub plan : String
  pub max_uses : ℕ
  pub uses : ℕ
  pub expires_at : Option ℕ
  pub created_at : ℕ
  pub revoked : Bool

-- The settings that the modelled code reads.
pub record Settings : Type 0 where
  pub max_concurrent_workers : ℕ
  pub api_key_default_ttl_days : ℕ
  pub api_key_rotation_days : ℕ
  pub api_rate_limit_per_minute : ℕ
  pub subscription_grace_period_days : ℕ

-- The defaults of `Settings`.
abbrev pub default_settings : Settings
default_settings = record {
  max_concurrent_workers = 100;
  api_key_default_ttl_days = 365;
  api_key_rotation_days = 90;
  api_rate_limit_per_minute = 120;
  subscription_grace_period_days = 5;
}

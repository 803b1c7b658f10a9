-- ===== src/Devices.antt =====
-- The phones bound to an account and the download tokens
-- (backend/app/services/device_binding_service.py). The random token and the time are arguments.
pub mod Bindings
pub mod Downloads
mod Tests
use aegis_platform_server_te.Prelude.{
  ℕ, zero, suc, ◌+◌, Bool, true, false, ◌&&◌, Option, none, some, List, String, leb, str_eq, strip,
  is_empty, if◌then◌else◌, find, update, add_row, delete_where, count_where,
}
use aegis_platform_server_te.Models.{DeviceBinding, DownloadToken, Subscription, hours}
use aegis_platform_server_te.Plans.{resolve_plan}
use aegis_platform_server_te.Subscriptions.{get_row}

-- A limit that is set and not zero, else the plan's.
abbrev row_max_devices : ℕ → String → ℕ
row_max_devices zero plan = (resolve_plan plan).meta.max_devices
row_max_devices (suc n) plan = suc n

-- `_max_devices`.
unfoldable pub max_devices : String → List Subscription → ℕ
max_devices account_id subscriptions = elim (get_row account_id subscriptions) [
  | none ↦ 1
  | some row ↦ row_max_devices row.max_devices row.plan
]

abbrev pub of_account : String → DeviceBinding → Bool
of_account account_id row = str_eq row.account_id account_id

abbrev pub is_device : String → String → DeviceBinding → Bool
is_device account_id device_id row =
    str_eq row.account_id account_id && str_eq row.device_id device_id

-- The device count of an account, as the code selects it.
abbrev pub bound_count : String → List DeviceBinding → ℕ
bound_count account_id rows = count_where (of_account account_id) rows

-- `if device_label: existing.device_label = device_label`.
abbrev new_label : Option String → Option String → Option String
new_label none old = old
new_label (some s) old = if is_empty s then old else some s

abbrev pub seen : Option String → ℕ → DeviceBinding → DeviceBinding
seen label now row = record row {
  last_seen_at = some now;
  device_label = new_label label row.device_label;
}

abbrev pub binding : String → String → Option String → ℕ → DeviceBinding
binding account_id device_id label now = record {
  account_id = account_id;
  device_id = device_id;
  device_label = label;
  bound_at = now;
  last_seen_at = some now;
}

-- The `status` of the answer, with `max_devices` and `bound_count` where it has them.
pub data Registration : Type 0 where
  value_error : Registration
  known : ℕ → Registration
  rejected bound : ℕ → ℕ → Registration

-- The part of `register` after its device id is stripped, for a limit.
unfoldable pub register_at :
    ℕ → String → String → Option String → ℕ → List DeviceBinding → Registration × List DeviceBinding
register_at max_dev account_id device_id label now rows =
    elim (find (is_device account_id device_id) rows) [
      | some existing ↦
          (known max_dev, update (is_device account_id device_id) (seen label now) rows)
      | none ↦
          let count = bound_count account_id rows in
          if leb max_dev count
          then (rejected max_dev count, rows)
          else (bound max_dev (count + 1), add_row (binding account_id device_id label now) rows)
    ]

unfoldable pub register :
    List Subscription
    → String
    → String
    → Option String
    → ℕ
    → List DeviceBinding
    → Registration × List DeviceBinding
unfolding register_at
register subscriptions account_id device_id label now rows =
    if is_empty (strip device_id)
    then (value_error, rows)
    else register_at (max_devices account_id subscriptions) account_id (strip device_id) label now
        rows

-- The number of rows deleted, and the rows left.
unfoldable pub clear : String → List DeviceBinding → ℕ × List DeviceBinding
clear account_id rows = (bound_count account_id rows, delete_where (of_account account_id) rows)

unfoldable pub remove_device : String → String → List DeviceBinding → Bool × List DeviceBinding
remove_device account_id device_id rows = elim (find (is_device account_id device_id) rows) [
  | none ↦ (false, rows)
  | some row ↦ (true, delete_where (is_device account_id device_id) rows)
]

abbrev pub has_token : String → DownloadToken → Bool
has_token token row = str_eq row.token token

abbrev pub download_row : String → String → String → ℕ → ℕ → ℕ → DownloadToken
download_row token account_id plan max_uses ttl_hours now = record {
  token = token;
  account_id = account_id;
  plan = plan;
  max_uses = max_uses;
  uses = 0;
  expires_at = some (now + hours ttl_hours);
  created_at = now;
  revoked = false;
}

unfoldable pub issue_download_token :
    String → String → String → ℕ → ℕ → ℕ → List DownloadToken → List DownloadToken
issue_download_token token account_id plan max_uses ttl_hours now rows =
    add_row (download_row token account_id plan max_uses ttl_hours now) rows

abbrev pub token_expired : Option ℕ → ℕ → Bool
token_expired none now = false
token_expired (some t) now = leb t now

-- The three tests of `consume_download_token` on the row.
abbrev pub is_consumable : DownloadToken → ℕ → Bool
is_consumable row now =
    if row.revoked
    then false
    else if token_expired row.expires_at now
    then false
    else if leb row.max_uses row.uses
    then false
    else true

abbrev pub used_once : DownloadToken → DownloadToken
used_once row = record row { uses = row.uses + 1 }

pub record Consumed : Type 0 where
  pub account_id : String
  pub plan : String
  pub uses : ℕ
  pub max_uses : ℕ

abbrev pub consumed_of : DownloadToken → Consumed
consumed_of row = record {
  account_id = row.account_id;
  plan = row.plan;
  uses = row.uses + 1;
  max_uses = row.max_uses;
}

unfoldable pub consume_download_token :
    String → ℕ → List DownloadToken → Option Consumed × List DownloadToken
consume_download_token token now rows = elim (find (has_token token) rows) [
  | none ↦ (none, rows)
  | some row ↦
      if is_consumable row now
      then (some (consumed_of row), update (has_token token) used_once rows)
      else (none, rows)
]

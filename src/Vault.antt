-- ===== src/Vault.antt =====
-- The credential vault (backend/app/services/credential_vault_service.py and the table
-- `credentials` of backend/app/db/models.py). AES-GCM under the master key, with base64, is a pair
-- of parameters from a nonce and a text; the nonces are arguments.
pub mod RoundTrip
mod Tests
use aegis_platform_server_te.Prelude.{
  ℕ, ◌≡◌, Bool, true, false, not, ◌||◌, Option, none, some, List, String, is_empty, if◌then◌else◌,
  find, update, add_row, delete_where, has_key,
}

pub record Credential : Type 0 where
  pub credential_id : String
  pub broker_name : String
  pub server : String
  pub account_id : String
  pub trading_nonce : String
  pub trading_ciphertext : String
  pub investor_nonce : Option String
  pub investor_ciphertext : Option String
  pub execution_enabled : Bool
  pub created_at : ℕ
  pub updated_at : ℕ

-- The keyword arguments of `save_credentials`.
pub record SaveRequest : Type 0 where
  pub credential_id : String
  pub broker_name : String
  pub server : String
  pub account_id : String
  pub trading_password : String
  pub investor_password : Option String
  pub execution_enabled : Bool

-- The dictionary of `_row_to_dict`; a key that it lacks is none.
pub record Stored : Type 0 where
  pub broker_name : String
  pub server : String
  pub account_id : String
  pub execution_enabled : Bool
  pub trading_password : Option String
  pub investor_password : Option String

abbrev pub has_credential : String → Credential → Bool
has_credential = has_key (λ c. c.credential_id)

abbrev pub of_account : String → Credential → Bool
of_account = has_key (λ c. c.account_id)

-- The investor password, if it is there and not empty.
abbrev pub given : Option String → Option String
given none = none
given (some s) = if is_empty s then none else some s

-- `if row.investor_nonce:`
abbrev pub nonce_of : Option String → String → Option String
nonce_of none nonce = none
nonce_of (some _) nonce = some nonce

module _ (encrypt : String → String → String) (decrypt : String → String → String) where
  abbrev pub encrypt_given : Option String → String → Option String
  encrypt_given none nonce = none
  encrypt_given (some s) nonce = some (encrypt nonce s)

  abbrev pub new_row : SaveRequest → String → String → ℕ → Credential
  new_row req nonce investor_nonce now = record {
    credential_id = req.credential_id;
    broker_name = req.broker_name;
    server = req.server;
    account_id = req.account_id;
    trading_nonce = nonce;
    trading_ciphertext = encrypt nonce req.trading_password;
    investor_nonce = nonce_of (given req.investor_password) investor_nonce;
    investor_ciphertext = encrypt_given (given req.investor_password) investor_nonce;
    execution_enabled = req.execution_enabled;
    created_at = now;
    updated_at = now;
  }

  -- `on_conflict_do_update`, which keeps the id and `created_at`.
  abbrev pub overwritten : SaveRequest → String → String → ℕ → Credential → Credential
  overwritten req nonce investor_nonce now row =
      let fresh = new_row req nonce investor_nonce now in
      record {
        credential_id = row.credential_id;
        broker_name = fresh.broker_name;
        server = fresh.server;
        account_id = fresh.account_id;
        trading_nonce = fresh.trading_nonce;
        trading_ciphertext = fresh.trading_ciphertext;
        investor_nonce = fresh.investor_nonce;
        investor_ciphertext = fresh.investor_ciphertext;
        execution_enabled = fresh.execution_enabled;
        created_at = row.created_at;
        updated_at = fresh.updated_at;
      }

  unfoldable pub save_credentials :
      SaveRequest → String → String → ℕ → List Credential → List Credential
  save_credentials req nonce investor_nonce now rows =
      elim (find (has_credential req.credential_id) rows) [
        | none ↦ add_row (new_row req nonce investor_nonce now) rows
        | some _ ↦
            update (has_credential req.credential_id) (overwritten req nonce investor_nonce now)
              rows
      ]

  abbrev pub decrypt_given : Option String → Option String → Option String
  decrypt_given (some nonce) (some ciphertext) =
      if is_empty nonce then none else some (decrypt nonce ciphertext)
  decrypt_given _ _ = none

  -- `_row_to_dict(row, include_secrets=True)`
  abbrev pub row_to_dict : Credential → Stored
  row_to_dict row = record {
    broker_name = row.broker_name;
    server = row.server;
    account_id = row.account_id;
    execution_enabled = row.execution_enabled;
    trading_password =
        if row.execution_enabled
        then some (decrypt row.trading_nonce row.trading_ciphertext)
        else none;
    investor_password =
        if row.execution_enabled
        then decrypt_given row.investor_nonce row.investor_ciphertext
        else none;
  }

  abbrev pub dict_of : Option Credential → Option Stored
  dict_of none = none
  dict_of (some row) = some (row_to_dict row)

  -- `none` is the `KeyError` of a credential that is not there.
  unfoldable pub get_credentials : String → List Credential → Option Stored
  get_credentials credential_id rows = dict_of (find (has_credential credential_id) rows)

  unfoldable pub get_credentials_by_account : String → List Credential → Option Stored
  get_credentials_by_account account_id rows = dict_of (find (of_account account_id) rows)

  abbrev pub rotated : String → String → ℕ → Credential → Credential
  rotated password nonce now row = record row {
    trading_nonce = nonce;
    trading_ciphertext = encrypt nonce password;
    updated_at = now;
  }

  unfoldable pub rotate_credentials :
      String → String → String → ℕ → List Credential → Option (List Credential)
  rotate_credentials credential_id password nonce now rows =
      elim (find (has_credential credential_id) rows) [
        | none ↦ none
        | some _ ↦ some (update (has_credential credential_id) (rotated password nonce now) rows)
      ]

unfoldable pub delete_credentials : String → List Credential → List Credential
delete_credentials credential_id rows = delete_where (has_credential credential_id) rows

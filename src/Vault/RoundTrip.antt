-- ===== src/Vault/RoundTrip.antt =====
-- Reads of the vault (backend/app/services/credential_vault_service.py) after writes.
use aegis_platform_server_te.Prelude.{
  ℕ, ◌≡◌, refl, false, Option, none, some, List, String, is_empty, if◌then◌else◌, find, update,
  str_eq_refl, find-update, find-add_row, find-delete_self, Option-cases, inl, inr, find_holds,
}
use aegis_platform_server_te.Vault.{
  Credential, SaveRequest, Stored, has_credential, given, nonce_of, encrypt_given, decrypt_given,
  new_row, overwritten, save_credentials, row_to_dict, get_credentials, rotated, rotate_credentials,
  delete_credentials,
}

some_inj : {A : Type 0} (a b : A) → Path (Option A) (some a) (some b) → a ≡ b
some_inj a b e = cc

module _ (encrypt : String → String → String) (decrypt : String → String → String)
    (decrypt-encrypt : (nonce plaintext : String)
      → decrypt nonce (encrypt nonce plaintext) ≡ plaintext) where
  -- What `get_credentials` shows of what was saved: the secrets only while execution is enabled.
  abbrev pub shown : SaveRequest → Stored
  shown req = record {
    broker_name = req.broker_name;
    server = req.server;
    account_id = req.account_id;
    execution_enabled = req.execution_enabled;
    trading_password = if req.execution_enabled then some req.trading_password else none;
    investor_password = if req.execution_enabled then given req.investor_password else none;
  }

  investor :
      (password : Option String) (nonce : String)
      → is_empty nonce ≡ false
      → decrypt_given encrypt decrypt
          (nonce_of password nonce)
          (encrypt_given encrypt decrypt password nonce)
        ≡ password
  investor none nonce h = refl
  investor (some s) nonce h = rw (h, decrypt-encrypt nonce s) refl

  row-shown :
      (req : SaveRequest) (nonce investor_nonce : String) (now : ℕ)
      → is_empty investor_nonce ≡ false
      → row_to_dict encrypt decrypt (new_row encrypt decrypt req nonce investor_nonce now)
        ≡ shown req
  row-shown req nonce investor_nonce now h =
      rw
        (
          decrypt-encrypt nonce req.trading_password,
          investor (given req.investor_password) investor_nonce h,
        )
        refl

  -- Credentials that were saved, for the first time or over older ones, are read back as they were
  -- given, the passwords through encryption and only while execution is enabled.
  pub save-get :
      (req : SaveRequest) (nonce investor_nonce : String) (now : ℕ) (rows : List Credential)
      → is_empty investor_nonce ≡ false
      → get_credentials encrypt decrypt req.credential_id
          (save_credentials encrypt decrypt req nonce investor_nonce now rows)
        ≡ some (shown req)
  unfolding save_credentials get_credentials
  save-get req nonce investor_nonce now rows h =
      let key = has_credential req.credential_id in
      elim (Option-cases (find key rows)) [
        | inl n ↦
            let found =
              find-add_row key (new_row encrypt decrypt req nonce investor_nonce now) rows n in
            rw
              (
                n,
                save_credentials,
                found,
                get_credentials,
                str_eq_refl,
                row-shown req nonce investor_nonce now h,
              )
              refl
        | inr (row, p) ↦
            let found =
              find-update key key (overwritten encrypt decrypt req nonce investor_nonce now)
                (λ x. refl) rows in
            rw
              (
                p,
                save_credentials,
                found,
                p,
                get_credentials,
                find_holds key row rows p,
                row-shown req nonce investor_nonce now h,
              )
              refl
      ]

  -- After a rotation the password read is the new one, while execution is enabled, and everything
  -- else is as it was.
  pub rotate-get :
      (credential_id password nonce : String) (now : ℕ) (rows after : List Credential)
      (before : Stored)
      → rotate_credentials encrypt decrypt credential_id password nonce now rows ≡ some after
      → get_credentials encrypt decrypt credential_id rows ≡ some before
      → get_credentials encrypt decrypt credential_id after
        ≡ some (record before {
          trading_password = if before.execution_enabled then some password else none;
        })
  unfolding rotate_credentials get_credentials
  rotate-get credential_id password nonce now rows after before e g =
      let key = has_credential credential_id in
      elim (Option-cases (find key rows)) [
        | inl n ↦ cc (rw (n, rotate_credentials) at e)
        | inr (row, p) ↦
            let stored =
              some_inj (update key (rotated encrypt decrypt password nonce now) rows) after
                (rw (p, rotate_credentials) at e) in
            let same =
              some_inj (row_to_dict encrypt decrypt row) before (rw (p, get_credentials) at g) in
            let found =
              find-update key key (rotated encrypt decrypt password nonce now) (λ x. refl) rows in
            rw
              (
                ← stored,
                found,
                p,
                find_holds key row rows p,
                get_credentials,
                decrypt-encrypt nonce password,
                ← same,
              )
              refl
      ]

-- A credential that was deleted is not there.
pub delete-get :
    (encrypt decrypt : String → String → String) (credential_id : String) (rows : List Credential)
    → get_credentials encrypt decrypt credential_id (delete_credentials credential_id rows) ≡ none
unfolding get_credentials delete_credentials
delete-get encrypt decrypt credential_id rows =
    rw (find-delete_self (has_credential credential_id) rows) refl

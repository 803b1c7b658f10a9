-- ===== src/Startup/AdminKey.antt =====
-- `_bootstrap_admin_key` of backend/app/core/startup.py, against the keys of
-- backend/app/security.py.
use aegis_platform_server_te.Prelude.{
  ℕ, ◌≡◌, ◌&&◌, not, refl, inl, inr, Bool, true, false, none, some, Option, List, String, arith,
  str_eq_refl, ok, http_error, find, update, add_row, is_empty, strip, find-update, find-add_row,
  find-none_miss, sym, ◌∙◌, Option-cases, [], ◌∷◌, Response,
}
use aegis_platform_server_te.Models.{ApiKey, Settings}
use aegis_platform_server_te.Security.{
  AuthContext, auth_context, has_hash, verify_api_key, require_admin,
}
use aegis_platform_server_te.Security.Lifecycle.{verify-ok_iff}
use aegis_platform_server_te.Startup.{
  Boot, started, integrity_error, insert_key, revoke_admin, is_admin_key, admin_row, reset_label,
  bootstrap_admin_key,
}

-- A start that leaves the key `raw` good for an administrator.
abbrev pub GrantsAdmin : (String → String) → String → ℕ → Boot → Type 0
GrantsAdmin hash_key raw later integrity_error = ⊥
GrantsAdmin hash_key raw later (started keys shown) =
    (auth : AuthContext) × ((verify_api_key hash_key (some raw) later keys).0 ≡ ok auth)
    × (require_admin auth ≡ ok tt)

insert_fresh :
    (row : ApiKey) (keys : List ApiKey)
    → find (has_hash row.key_hash) keys ≡ none
    → insert_key row keys ≡ started (add_row row keys) none
unfolding insert_key
insert_fresh row keys fresh = rw (fresh, insert_key) refl

insert_again :
    (row old : ApiKey) (keys : List ApiKey)
    → find (has_hash row.key_hash) keys ≡ some old
    → insert_key row keys ≡ integrity_error
unfolding insert_key
insert_again row old keys e = rw (e, insert_key) refl

stored : (a b : List ApiKey) (s shown : Option String) → started a s ≡ started b shown → a ≡ b
stored a b s shown e = cc

never : (a : List ApiKey) (s : Option String) → integrity_error ≡ started a s → ⊥
never a s e = cc

refused :
    (row : ApiKey) (auth : AuthContext)
    → auth ≡ auth_context row
    → row.revoked ≡ false
    → (is_admin_key row && not row.revoked) ≡ false
    → require_admin auth ≡ http_error 403
unfolding require_admin
refused row auth a live miss = rw a (ground arith)

module _ (hash_key : String → String) where
  row_grants :
      (raw label : String) (key_id now later : ℕ) (keys : List ApiKey)
      → find (has_hash (hash_key raw)) keys ≡ none
      → GrantsAdmin hash_key raw later (insert_key (admin_row (hash_key raw) label key_id now) keys)
  unfolding require_admin
  row_grants raw label key_id now later keys fresh =
      let row = admin_row (hash_key raw) label key_id now in
      let found = find-add_row (has_hash (hash_key raw)) row keys fresh in
      let (there, back) = verify-ok_iff hash_key raw later (add_row row keys) (auth_context row) in
      rw (insert_fresh row keys fresh) (
        auth_context row,
        back (
          row,
          rw (found, str_eq_refl (hash_key raw)) refl,
          record { not_revoked = refl; in_time = refl; not_forced = refl },
          refl,
        ),
        refl,
      )

module _ (hash_key : String → String) (settings : Settings) where
  -- A start with a bootstrap key that is not blank and is no key yet makes it a key that opens the
  -- administrator's endpoints from then on, whether or not other administrator keys exist and
  -- whether or not a reset is forced.
  pub bootstrap_grants :
      (force : Bool) (setting drawn : String) (key_id now later : ℕ) (keys : List ApiKey)
      → is_empty (strip setting) ≡ false
      → find (has_hash (hash_key (strip setting))) keys ≡ none
      → GrantsAdmin hash_key
          (strip setting)
          later
          (bootstrap_admin_key hash_key settings force setting drawn key_id now keys)
  unfolding bootstrap_admin_key
  bootstrap_grants true setting drawn key_id now later keys given fresh =
      let revoked =
        find-update (has_hash (hash_key (strip setting))) is_admin_key revoke_admin (λ x. refl)
          keys in
      rw (given)
        (row_grants hash_key (strip setting) _ key_id now later _ (rw (revoked, fresh) refl))
  bootstrap_grants false setting drawn key_id now later keys given fresh =
      elim (Option-cases (find is_admin_key keys)) [
        | inl n ↦
            rw (n, given, bootstrap_admin_key)
              (row_grants hash_key (strip setting) _ key_id now later keys fresh)
        | inr (r, e) ↦
            rw (e, given, fresh, bootstrap_admin_key)
              (row_grants hash_key (strip setting) _ key_id now later keys fresh)
      ]

  -- With the reset forced, a start that succeeds is the last one: as long as the setting stays, the
  -- next start fails on the second row with the hash of the bootstrap key.
  pub forced_twice_fails :
      (setting drawn drawn' : String) (key_id key_id' now later : ℕ) (keys after : List ApiKey)
      (shown : Option String)
      → is_empty (strip setting) ≡ false
      → bootstrap_admin_key hash_key settings true setting drawn key_id now keys
        ≡ started after shown
      → bootstrap_admin_key hash_key settings true setting drawn' key_id' later after
        ≡ integrity_error
  unfolding bootstrap_admin_key
  forced_twice_fails setting drawn drawn' key_id key_id' now later keys after shown given e =
      let h = hash_key (strip setting) in
      elim (Option-cases (find (has_hash h) (update is_admin_key revoke_admin keys))) [
        | inl fresh ↦
            let table = stored _ _ _ shown (sym (insert_fresh _ _ fresh) ∙ rw given at e) in
            let row = admin_row h reset_label key_id now in
            let again : find (has_hash h) (update is_admin_key revoke_admin after)
                ≡ some (revoke_admin row) =
              rw
                (
                  ← table,
                  find-update (has_hash h) is_admin_key revoke_admin (λ x. refl)
                      (add_row row (update is_admin_key revoke_admin keys)),
                  find-add_row (has_hash h) row (update is_admin_key revoke_admin keys) fresh,
                  str_eq_refl h,
                )
                refl in
            rw (given) (
              insert_again (admin_row h reset_label key_id' later) (revoke_admin row)
                (update is_admin_key revoke_admin after) again)
        | inr (old, p) ↦ absurd (never _ _ (sym (insert_again _ old _ p) ∙ rw given at e))
      ]

  -- Starts with the same setting, one after another, each forced or not, with its draw, the id of a
  -- new row and its time.
  unfoldable pub restarts : String → List (Bool × String × ℕ × ℕ) → List ApiKey → Boot
  restarts setting [] keys = started keys none
  restarts setting ((force, drawn, key_id, now) ∷ rest) keys =
      elim (bootstrap_admin_key hash_key settings force setting drawn key_id now keys) [
        | started after shown ↦ restarts setting rest after
        | integrity_error ↦ integrity_error
      ]

  blank_start :
      (force : Bool) (setting drawn : String) (key_id now : ℕ) (keys : List ApiKey) (admin : ApiKey)
      → is_empty (strip setting) ≡ true
      → find is_admin_key keys ≡ some admin
      → bootstrap_admin_key hash_key settings force setting drawn key_id now keys
        ≡ started keys none
  unfolding bootstrap_admin_key
  blank_start true setting drawn key_id now keys admin blank e =
      rw (blank, bootstrap_admin_key) refl
  blank_start false setting drawn key_id now keys admin blank e =
      rw (e, blank, bootstrap_admin_key) refl

  blank_restarts :
      (setting : String) (starts : List (Bool × String × ℕ × ℕ)) (keys : List ApiKey)
      (admin : ApiKey)
      → is_empty (strip setting) ≡ true
      → find is_admin_key keys ≡ some admin
      → restarts setting starts keys ≡ started keys none
  unfolding restarts
  blank_restarts setting [] keys admin blank e = refl
  blank_restarts setting ((force, drawn, key_id, now) ∷ rest) keys admin blank e =
      rw (blank_start force setting drawn key_id now keys admin blank e, restarts)
        (blank_restarts setting rest keys admin blank e)

  all_revoked :
      (raw : String) (later : ℕ) (keys : List ApiKey) (shown : Option String)
      → find (λ row. is_admin_key row && not row.revoked) keys ≡ none
      → GrantsAdmin hash_key raw later (started keys shown)
      → ⊥
  all_revoked raw later keys shown revoked (auth, v, admits) =
      let (row, p, usable, a) = (verify-ok_iff hash_key raw later keys auth).0 v in
      let q : ApiKey → Bool = λ row. is_admin_key row && not row.revoked in
      let miss = find-none_miss q (has_hash (hash_key raw)) row keys revoked p in
      both_answers (sym admits ∙ refused row auth a usable.not_revoked miss)
    where
      both_answers : Path (Response (Unit {0})) (ok tt) (http_error 403) → ⊥
      both_answers e = cc

  -- When every row of an administrator key is revoked, and there is one, the application recovers by
  -- no number of starts with a blank bootstrap key: whether a reset is forced or not, after them no
  -- key whatsoever opens the administrator's endpoints, at any time.
  pub bootstrap_locked_out :
      (raw setting : String) (later : ℕ) (starts : List (Bool × String × ℕ × ℕ))
      (keys : List ApiKey) (admin : ApiKey)
      → is_empty (strip setting) ≡ true
      → find is_admin_key keys ≡ some admin
      → find (λ row. is_admin_key row && not row.revoked) keys ≡ none
      → ¬ GrantsAdmin hash_key raw later (restarts setting starts keys)
  bootstrap_locked_out raw setting later starts keys admin blank e revoked granted =
      all_revoked raw later keys none revoked
        (rw (blank_restarts setting starts keys admin blank e) at granted)

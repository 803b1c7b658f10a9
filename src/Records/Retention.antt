-- ===== src/Records/Retention.antt =====
-- `purge_old_records` of backend/app/services/retention_service.py.
use aegis_platform_server_te.Prelude.{
  ℕ, ◌+◌, ◌-◌, ◌≡◌, refl, Bool, ◌&&◌, not, List, [], ◌∷◌, ltb, arith, count_where, delete_where,
  length,
}
use aegis_platform_server_te.Models.{days}
use aegis_platform_server_te.Records.{
  AuditEvent, UploadDiagnostic, retention_days, purge_older_than, purge_old_records,
}

module _ {ℓ} {A : Type ℓ} (time : A → ℕ) where
  abbrev is_kept : ℕ → (A → Bool) → A → Bool
  is_kept cutoff q x = q x && not (ltb (time x) cutoff)

  count-purged :
      (cutoff : ℕ) (q : A → Bool) (rows : List A)
      → count_where q ((purge_older_than time cutoff rows).1) ≡ count_where (is_kept cutoff q) rows
  unfolding purge_older_than delete_where count_where
  count-purged cutoff q [] = refl
  count-purged cutoff q (x ∷ xs) = ground (arith, count-purged cutoff q xs)

  purged_sum :
      (cutoff : ℕ) (rows : List A)
      → let (n, left) = purge_older_than time cutoff rows in n + length left ≡ length rows
  unfolding purge_older_than delete_where count_where
  purged_sum cutoff [] = refl
  purged_sum cutoff (x ∷ xs) = ground (arith, purged_sum cutoff xs)

-- A purge deletes the audit events and the uploads that are older than the retention, 90 days if it
-- is set to 0, and no other: of the rows that satisfy any tests, exactly those in the window are
-- left. Its counts are those of the rows deleted.
pub purge_keeps_window :
    (setting now : ℕ) (audit : List AuditEvent) (uploads : List UploadDiagnostic)
    (p : AuditEvent → Bool) (q : UploadDiagnostic → Bool)
    → let purged = purge_old_records setting now audit uploads in
      let cutoff = now - days (retention_days setting) in
      (count_where p purged.audit_rows
        ≡ count_where (λ e. p e && not (ltb e.created_at cutoff)) audit)
      × (count_where q purged.upload_rows
          ≡ count_where (λ u. q u && not (ltb u.created_at cutoff)) uploads)
      × (purged.audit + length purged.audit_rows ≡ length audit)
      × (purged.uploads + length purged.upload_rows ≡ length uploads)
unfolding purge_old_records
purge_keeps_window setting now audit uploads p q =
    let cutoff = now - days (retention_days setting) in
    (
      count-purged (λ e. e.created_at) cutoff p audit,
      count-purged (λ u. u.created_at) cutoff q uploads,
      purged_sum (λ e. e.created_at) cutoff audit,
      purged_sum (λ u. u.created_at) cutoff uploads,
    )

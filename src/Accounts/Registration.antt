-- ===== src/Accounts/Registration.antt =====
-- `register` of backend/app/services/auth_service.py, against logins and the confirmation of emails.
use aegis_platform_server_te.Prelude.{
  ℕ, zero, suc, ◌+◌, ◌≤◌, ◌<◌, ◌≡◌, ◌⊎◌, refl, sym, ap, inl, inr, true, false, ◌||◌, Option, none,
  some, List, String, ltb, str_eq, str_eq_refl, str_eq_eq, arith, find, update, add_row,
  count_where, has_key, is_empty, Bool-cases, Option-cases, find-update, find-add_row,
  count-add_row, find-count_none,
}
use aegis_platform_server_te.Models.{hours}
use aegis_platform_server_te.Accounts.{
  UserAccount, AccountStore, Result, ok, raised, Error, normal, has_email, has_account, has_user_id,
  live_token, email_verify, text_length, Drawn, LoginReply, new_token, phone_taken, phone_used,
}
use aegis_platform_server_te.Accounts.Register.{
  new_user, registered, register, verified_email, mark_email, verify_email,
}
use aegis_platform_server_te.Accounts.Login.{login}
use aegis_platform_server_te.Accounts.Sessions.{login-ok_iff}

Result-cases : {A : Type 0} (r : Result A) → ((a : A) × (r ≡ ok a)) ⊎ ((e : Error) × (r ≡ raised e))
Result-cases (ok a) = inl (a, refl)
Result-cases (raised e) = inr (e, refl)

mark_email_lem :
    (n now : ℕ) (users : List UserAccount)
    → 0 < n
    → mark_email (some n) now users ≡ update (has_user_id n) (verified_email now) users
mark_email_lem zero now users h = absurd (omega (arith, h))
mark_email_lem (suc n) now users h = refl

ok_inj : (a b : UserAccount) → Path (Result UserAccount) (ok a) (ok b) → a ≡ b
ok_inj a b e = cc

module _ (hash_password : String → String → String) (hash_token : String → String) where
  -- What a successful registration has found, and what it leaves.
  pub register_leaves :
      (email password : String) (phone account_id : Option String) (drawn : Drawn)
      (user : UserAccount) (store after : AccountStore)
      → register hash_password hash_token email password phone account_id drawn store
        ≡ (ok user, after)
      → (user ≡ new_user hash_password email password phone account_id drawn)
        × (find (has_email user.email) store.users ≡ none)
        × (find (has_account user.account_id) store.users ≡ none)
        × (8 ≤ text_length password)
        × (after ≡ registered hash_token user drawn.token drawn.now store)
  unfolding register
  register_leaves email password phone account_id drawn user store after e =
      let fresh = new_user hash_password email password phone account_id drawn in
      elim (Bool-cases (is_empty fresh.email || ltb (text_length password) 8)) [
        | inl bad ↦ cc (rw (bad, register) at e)
        | inr good ↦ elim (Option-cases (find (has_email fresh.email) store.users)) [
          | inr (u, p) ↦ cc (rw (good, p, register) at e)
          | inl new_email ↦ elim (Bool-cases (phone_taken phone store.users)) [
            | inl taken ↦ cc (rw (good, new_email, taken, register) at e)
            | inr free ↦ elim (Option-cases (find (has_account fresh.account_id) store.users)) [
              | inr (u, p) ↦ cc (rw (good, new_email, free, p, register) at e)
              | inl new_account ↦ elim (Bool-cases (phone_used fresh.phone store.users)) [
                | inl clash ↦ cc (rw (good, new_email, free, new_account, clash, register) at e)
                | inr clear ↦
                    found (new_user hash_password email password phone account_id drawn) user store
                      after good new_email new_account
                      (rw (good, new_email, free, new_account, clear, register) at e)
              ]
            ]
          ]
        ]
      ]
    where
      found :
          (fresh u : UserAccount) (store after : AccountStore)
          → (is_empty fresh.email || ltb (text_length password) 8) ≡ false
          → find (has_email fresh.email) store.users ≡ none
          → find (has_account fresh.account_id) store.users ≡ none
          → Path
              (Result UserAccount × AccountStore)
              (ok fresh, registered hash_token fresh drawn.token drawn.now store)
              (ok u, after)
          → (u ≡ fresh)
            × (find (has_email u.email) store.users ≡ none)
            × (find (has_account u.account_id) store.users ≡ none)
            × (8 ≤ text_length password)
            × (after ≡ registered hash_token u drawn.token drawn.now store)
      found fresh u store after good p q e =
          let same = sym (ok_inj fresh u (ap (λ r. r.0) e)) in
          (same, rw same p, rw same q, ground arith, rw same (sym (ap (λ r. r.1) e)))

  -- A refused registration changes nothing.
  pub register_refused :
      (email password : String) (phone account_id : Option String) (drawn : Drawn)
      (store : AccountStore) (error : Error)
      → (register hash_password hash_token email password phone account_id drawn store).0
        ≡ raised error
      → (register hash_password hash_token email password phone account_id drawn store).1 ≡ store
  unfolding register
  register_refused email password phone account_id drawn store error e = ground arith

  -- Two accounts have neither the same email nor the same account id.
  abbrev pub IsUnique : AccountStore → Type 0
  IsUnique store =
      ((email : String) → count_where (has_email email) store.users ≤ 1)
      × ((account_id : String) → count_where (has_account account_id) store.users ≤ 1)

  unique_row :
      (key : UserAccount → String) (user : UserAccount) (users : List UserAccount)
      → find (has_key key (key user)) users ≡ none
      → ((k : String) → count_where (has_key key k) users ≤ 1)
      → (k : String) → count_where (has_key key k) (add_row user users) ≤ 1
  unique_row key user users fresh unique k = elim (Bool-cases (str_eq (key user) k)) [
    | inl same ↦
        let none_yet = find-count_none (has_key key (key user)) users fresh in
        rw (count-add_row (has_key key k) user users, same, ← str_eq_eq (key user) k same, none_yet)
          (omega arith)
    | inr other ↦ rw (count-add_row (has_key key k) user users, other) (omega (arith, unique k))
  ]

  -- A registration, whatever its outcome, keeps emails and account ids unique, by the checks of the
  -- code and of the database together.
  pub register-IsUnique :
      (email password : String) (phone account_id : Option String) (drawn : Drawn)
      (store : AccountStore)
      → IsUnique store
      → IsUnique ((register hash_password hash_token email password phone account_id drawn store).1)
  register-IsUnique email password phone account_id drawn store unique =
      let r = register hash_password hash_token email password phone account_id drawn store in
      elim (Result-cases r.0) [
        | inr (error, refused) ↦
            rw (register_refused email password phone account_id drawn store error refused) unique
        | inl (user, done) ↦
            let (same, new_email, new_account, long, leaves) =
              register_leaves email password phone account_id drawn user store (r.1)
                (ap (λ x. (x, r.1)) done) in
            rw leaves (
              unique_row (λ u. u.email) user store.users new_email (unique.0),
              unique_row (λ u. u.account_id) user store.users new_account (unique.1),
            )
      ]

  -- A registered user's email, in lower case and without spaces, confirmed by the token of the
  -- registration within a day. The token's hash must be new in the table and the id not zero.
  pub register-verify :
      (email password : String) (phone account_id : Option String) (drawn : Drawn)
      (user : UserAccount) (store after : AccountStore) (later : ℕ)
      → register hash_password hash_token email password phone account_id drawn store
        ≡ (ok user, after)
      → find (live_token (hash_token drawn.token) email_verify) store.tokens ≡ none
      → 0 < drawn.user_id
      → later ≤ drawn.now + hours 24
      → ((verify_email hash_token drawn.token later after).0 ≡ ok true)
        × (find
              (has_email (normal email))
              ((verify_email hash_token drawn.token later after).1.users)
            ≡ some (verified_email later user))
  unfolding verify_email
  register-verify email password phone account_id drawn user store after later e fresh positive
        in_time =
      let (same, new_email, new_account, long, leaves) =
        register_leaves email password phone account_id drawn user store after e in
      let p = live_token (hash_token drawn.token) email_verify in
      let token =
        new_token hash_token (some user.id) (some user.email) none email_verify drawn.token
          (drawn.now + hours 24) drawn.now in
      let found = find-add_row p token store.tokens fresh in
      let counted = count-add_row p token store.tokens in
      let in_table = find-add_row (has_email user.email) user store.users new_email in
      let marked =
        find-update (has_email user.email) (has_user_id user.id) (verified_email later) (λ x. refl)
          (add_row user store.users) in
      let still_valid : ltb (drawn.now + hours 24) later ≡ false = ground arith in
      let has_id : 0 < user.id = rw same positive in
      rw
        (
          leaves,
          counted,
          find-count_none p store.tokens fresh,
          found,
          str_eq_refl,
          ← ap (λ u. u.email) same,
        )
        (rw
          (
            still_valid,
            mark_email_lem user.id later (add_row user store.users) has_id,
            marked,
            in_table,
            str_eq_refl,
          )
          (refl, ground arith))

module _ (hash_password : String → String → String) (hash_token : String → String)
    (digest : String → ℕ → List ℕ) where
  -- A user who registered can log in with the email, written in any case and with any spaces around
  -- it, and the password.
  pub register-login :
      (email password as_typed raw : String) (phone account_id : Option String) (drawn : Drawn)
      (user : UserAccount) (store after : AccountStore) (later : ℕ)
      → register hash_password hash_token email password phone account_id drawn store
        ≡ (ok user, after)
      → normal as_typed ≡ normal email
      → (reply : LoginReply) × ((login hash_password hash_token digest as_typed password none raw
            later after).0
          ≡ ok reply)
  register-login email password as_typed raw phone account_id drawn user store after later e typed =
      let (same, new_email, new_account, long, leaves) =
        register_leaves hash_password hash_token email password phone account_id drawn user store
          after e in
      let (there, back) =
        login-ok_iff hash_password hash_token digest as_typed password raw none later after in
      back (
        user,
        rw
            (
              leaves,
              typed,
              ← ap (λ u. u.email) same,
              find-add_row (has_email user.email) user store.users new_email,
              str_eq_refl,
            )
            refl,
        rw same (str_eq_refl (hash_password password drawn.salt), inl refl),
      )

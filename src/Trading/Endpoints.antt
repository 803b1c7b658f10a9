-- ===== src/Trading/Endpoints.antt =====
-- The handlers of backend/app/api/trading_router.py, and what they let through.
use aegis_platform_server_te.Prelude.{
  ℕ, ◌≡◌, ◌≢◌, ◌↔◌, ◌⊎◌, refl, inl, inr, Bool, true, false, Option, some, List, String, str_eq,
  arith, Response, ok, http_error, raise_if, ◌>>◌, Bool-cases, Option-cases,
}
use aegis_platform_server_te.Models.{Subscription}
use aegis_platform_server_te.Security.{AuthContext, require_account_match}
use aegis_platform_server_te.Subscriptions.{get_plan, allows_live_trading}
use aegis_platform_server_te.Vault.{Stored, get_credentials_by_account}
use aegis_platform_server_te.Workers.{Pool, ensure_worker, is_running, Reachable}
use aegis_platform_server_te.Workers.Running.{ensure-is_running}
use aegis_platform_server_te.Trading.{
  Platform, Answer, ConnectRequest, Drawn, connect_allowed, saved, started, connect_saved, connect,
  submit_order, place_market_order,
}

Response-cases : (r : Response (Unit {0})) → (r ≡ ok tt) ⊎ ((code : ℕ) × (r ≡ http_error code))
Response-cases (ok u) = inl refl
Response-cases (http_error code) = inr (code, refl)

allowed-plan :
    (auth : AuthContext) (account_id : String) (subscriptions : List Subscription)
    → connect_allowed auth account_id subscriptions ≡ ok tt
    → (require_account_match auth account_id ≡ ok tt)
      × ((str_eq (get_plan account_id subscriptions) "live" ≡ true)
          ⊎ (str_eq (get_plan account_id subscriptions) "demo" ≡ true))
unfolding connect_allowed
allowed-plan auth account_id subscriptions e =
    elim (Response-cases (require_account_match auth account_id)) [
      | inr (code, bad) ↦ cc (rw (bad, connect_allowed) at e)
      | inl good ↦ elim (Bool-cases (str_eq (get_plan account_id subscriptions) "live")) [
        | inl live ↦ (good, inl live)
        | inr not_live ↦ elim (Bool-cases (str_eq (get_plan account_id subscriptions) "demo")) [
          | inl demo ↦ (good, inr demo)
          | inr not_demo ↦
              refused (str_eq (get_plan account_id subscriptions) "none")
                (rw (good, connect_allowed, not_live, not_demo) at e)
        ]
      ]
    ]
  where
    refused :
        (b : Bool)
        → Path (Response (Unit {0})) (raise_if b 402 >> (raise_if true 402 >> ok tt)) (ok tt)
        → (require_account_match auth account_id ≡ ok tt)
          × ((str_eq (get_plan account_id subscriptions) "live" ≡ true)
              ⊎ (str_eq (get_plan account_id subscriptions) "demo" ≡ true))
    refused b e = ground arith

module _ (encrypt : String → String → String) (decrypt : String → String → String)
    (max_workers : ℕ) where
  started-ok :
      (account_id password : String) (pid : ℕ) (platform after : Platform)
      → Reachable max_workers platform.pool
      → started encrypt decrypt max_workers
          (ensure_worker max_workers account_id password pid platform.pool)
          platform
        ≡ (ok tt, after)
      → (after.credentials ≡ platform.credentials) × (is_running account_id after.pool ≡ true)
  started-ok account_id password pid platform after r e =
      let s = ensure_worker max_workers account_id password pid platform.pool in
      elim (Bool-cases s.0) [
        | inl yes_it_did ↦
            let running =
              ensure-is_running max_workers account_id password pid platform.pool r yes_it_did in
            let shape = started_true s platform after yes_it_did e in rw shape (refl, running)
        | inr no_room ↦ absurd (started_false s platform after no_room e)
      ]
    where
      started_true :
          (s : Bool × Pool) (platform after : Platform)
          → s.0 ≡ true
          → started encrypt decrypt max_workers s platform ≡ (ok tt, after)
          → after ≡ record platform { pool = s.1 }
      started_true (true, pool) platform after h e = cc
      started_true (false, pool) platform after h e = cc

      started_false :
          (s : Bool × Pool) (platform after : Platform)
          → s.0 ≡ false
          → started encrypt decrypt max_workers s platform ≡ (ok tt, after)
          → ⊥
      started_false (true, pool) platform after h e = cc
      started_false (false, pool) platform after h e = cc

  saved-ok :
      (req : ConnectRequest) (drawn : Drawn) (platform after : Platform)
      → Reachable max_workers platform.pool
      → connect_saved encrypt decrypt max_workers req drawn platform ≡ (ok tt, after)
      → ((stored : Stored) × (get_credentials_by_account encrypt decrypt req.account_id
              after.credentials
            ≡ some stored)
          × (stored.execution_enabled ≡ true))
        × (is_running req.account_id after.pool ≡ true)
  saved-ok req drawn platform after r e =
      elim (Option-cases
        (get_credentials_by_account encrypt decrypt req.account_id platform.credentials)) [
          | inl n ↦ cc (rw (connect_saved, n) at e)
          | inr (stored, p) ↦ elim (Bool-cases stored.execution_enabled) [
            | inr off ↦ cc (rw (connect_saved, p, off) at e)
            | inl on ↦ elim (Option-cases stored.trading_password) [
              | inl n ↦ cc (rw (connect_saved, p, on, n) at e)
              | inr (password, q) ↦
                  let (same, running) =
                    started-ok req.account_id password drawn.pid platform after r
                      (rw (connect_saved, p, on, q) at e) in
                  ((stored, rw same p, on), running)
            ]
          ]
        ]

  -- A broker connection that is accepted is one of the key's own account, or an administrator's; the
  -- account's plan reads `live` or `demo`; the stored credentials have execution enabled; and from
  -- then on the account is running.
  pub connect-ok :
      (auth : AuthContext) (req : ConnectRequest) (drawn : Drawn) (platform after : Platform)
      → Reachable max_workers platform.pool
      → connect encrypt decrypt max_workers auth req drawn platform ≡ (ok tt, after)
      → (require_account_match auth req.account_id ≡ ok tt)
        × ((str_eq (get_plan req.account_id platform.subscriptions) "live" ≡ true)
            ⊎ (str_eq (get_plan req.account_id platform.subscriptions) "demo" ≡ true))
        × ((stored : Stored) × (get_credentials_by_account encrypt decrypt req.account_id
                after.credentials
              ≡ some stored)
            × (stored.execution_enabled ≡ true))
        × (is_running req.account_id after.pool ≡ true)
  unfolding connect
  connect-ok auth req drawn platform after r e =
      elim (Response-cases (connect_allowed auth req.account_id platform.subscriptions)) [
        | inr (code, bad) ↦ cc (rw (bad, connect) at e)
        | inl good ↦
            let (own, plan) = allowed-plan auth req.account_id platform.subscriptions good in
            let (stored, running) =
              saved-ok req drawn (saved encrypt decrypt max_workers req drawn platform) after r
                (rw (good, connect) at e) in
            (own, plan, stored, running)
      ]

module _ {V : Type 0} (ask : String → String → Option (Answer V)) where
  -- An order other than a market order succeeds exactly when the key may act for the account, the
  -- account is running, and its worker answers in time with a success, whose result is the reply.
  pub submit_order-ok_iff :
      (job_type : String) (auth : AuthContext) (account_id : String) (pool : Pool) (v : V)
      → (submit_order ask job_type auth account_id pool ≡ ok v) ↔ (
          (require_account_match auth account_id ≡ ok tt)
          × (is_running account_id pool ≡ true)
          × (ask account_id job_type ≡ some (record { success = true; result = v })))
  unfolding submit_order
  submit_order-ok_iff job_type auth account_id pool v =
      elim (Response-cases (require_account_match auth account_id)) [
        | inr (code, bad) ↦ rw (bad, submit_order) (λ h. ground arith, λ h. ground arith)
        | inl good ↦ elim (Bool-cases (is_running account_id pool)) [
          | inr idle ↦ rw (good, idle, submit_order) (λ h. ground arith, λ h. ground arith)
          | inl runs ↦ elim (Option-cases (ask account_id job_type)) [
            | inl n ↦ rw (good, runs, n, submit_order) (λ h. ground arith, λ h. ground arith)
            | inr (answer, p) ↦
                rw (good, runs, p, submit_order)
                  (λ h. (refl, refl, ground arith), λ h. ground arith)
          ]
        ]
      ]

  -- No market order succeeds, whatever the key, the account and its subscription: an order that
  -- passes the checks ends in a server error before it is counted or submitted.
  pub market_order-never_ok :
      (auth : AuthContext) (account_id : String) (now : ℕ) (subscriptions : List Subscription)
      (v : V)
      → place_market_order ask auth account_id now subscriptions ≢ ok v
  unfolding place_market_order
  market_order-never_ok auth account_id now subscriptions v e =
      elim (Response-cases (require_account_match auth account_id)) [
        | inr (code, bad) ↦ cc (rw (bad, place_market_order) at e)
        | inl good ↦ elim (Bool-cases (allows_live_trading account_id now subscriptions)) [
          | inl live ↦ cc (rw (good, live, place_market_order) at e)
          | inr other ↦ cc (rw (good, other, place_market_order) at e)
        ]
      ]

-- A broker connection is answered with 402, and nothing is stored or started, for every plan that is
-- neither `live` nor `demo`.
pub connect_refused :
    (encrypt decrypt : String → String → String) (max_workers : ℕ) (auth : AuthContext)
    (req : ConnectRequest) (drawn : Drawn) (platform : Platform)
    → require_account_match auth req.account_id ≡ ok tt
    → str_eq (get_plan req.account_id platform.subscriptions) "live" ≡ false
    → str_eq (get_plan req.account_id platform.subscriptions) "demo" ≡ false
    → connect encrypt decrypt max_workers auth req drawn platform ≡ (http_error 402, platform)
unfolding connect connect_allowed
connect_refused encrypt decrypt max_workers auth req drawn platform m not_live not_demo =
    elim (Bool-cases (str_eq (get_plan req.account_id platform.subscriptions) "none")) [
      | inl e ↦ rw (m, connect, connect_allowed, e) refl
      | inr e ↦ rw (m, connect, connect_allowed, e, not_live, not_demo) refl
    ]

-- ===== src/Trading.antt =====
-- The trading endpoints (backend/app/api/trading_router.py) over the subscriptions, the vault and
-- the worker pool. What the account's worker answers to a job through the queue, or none when it
-- does not answer in time, is a parameter `ask`. FastAPI answers an exception that a handler does not
-- catch with status 500.
pub mod Endpoints
pub mod Paid
mod Tests
use aegis_platform_server_te.Prelude.{
  ℕ, ◌≡◌, Bool, true, false, not, ◌&&◌, ◌||◌, Option, none, some, List, String, str_eq,
  if◌then◌else◌, Response, ok, http_error, ◌>>=◌, ◌>>◌, raise_if,
}
use aegis_platform_server_te.Models.{Subscription}
use aegis_platform_server_te.Security.{AuthContext, require_account_match}
use aegis_platform_server_te.Subscriptions.{get_plan, allows_live_trading}
use aegis_platform_server_te.Vault.{
  Credential, Stored, SaveRequest, save_credentials, get_credentials_by_account,
}
use aegis_platform_server_te.Workers.{Pool, ensure_worker, stop_worker, is_running}

pub record Platform : Type 0 where
  pub subscriptions : List Subscription
  pub credentials : List Credential
  pub pool : Pool

-- The result that a worker pushes for a job: `{"success": …, "result": …}`.
pub record Answer {ℓ} (V : Type ℓ) : Type ℓ where
  pub success : Bool
  pub result : V

-- The body of `/connect`, less the login and the metadata.
pub record ConnectRequest : Type 0 where
  pub account_id : String
  pub broker_name : String
  pub server : String
  pub trading_password : String
  pub investor_password : Option String
  pub execution_enabled : Bool

abbrev pub save_request : ConnectRequest → SaveRequest
save_request req = record {
  credential_id = req.account_id;
  broker_name = req.broker_name;
  server = req.server;
  account_id = req.account_id;
  trading_password = req.trading_password;
  investor_password = req.investor_password;
  execution_enabled = req.execution_enabled;
}

-- What the platform draws for `/connect`: two nonces, the pid of a process that may start, the time.
pub record Drawn : Type 0 where
  pub nonce : String
  pub investor_nonce : String
  pub pid : ℕ
  pub now : ℕ

-- The checks before anything is written.
unfoldable pub connect_allowed : AuthContext → String → List Subscription → Response (Unit {0})
connect_allowed auth account_id subscriptions = do
  require_account_match auth account_id
  raise_if (str_eq (get_plan account_id subscriptions) "none") 402
  raise_if
      (not (str_eq (get_plan account_id subscriptions) "live")
        && not (str_eq (get_plan account_id subscriptions) "demo"))
      402
  ok tt

-- `stored is None or not stored.get("execution_enabled")`, or else the password handed over.
abbrev pub usable_password : Option Stored → Option String
usable_password none = none
usable_password (some stored) = if stored.execution_enabled then stored.trading_password else none

module _ (encrypt : String → String → String) (decrypt : String → String → String)
    (max_workers : ℕ) where
  abbrev pub saved : ConnectRequest → Drawn → Platform → Platform
  saved req drawn platform = record platform {
    credentials =
        save_credentials encrypt decrypt (save_request req) drawn.nonce drawn.investor_nonce
          drawn.now platform.credentials;
  }

  abbrev pub started : Bool × Pool → Platform → Response (Unit {0}) × Platform
  started (true, pool) platform = (ok tt, record platform { pool = pool })
  started (false, pool) platform = (http_error 503, record platform { pool = pool })

  abbrev pub connect_saved : ConnectRequest → Drawn → Platform → Response (Unit {0}) × Platform
  connect_saved req drawn platform =
      elim (usable_password
        (get_credentials_by_account encrypt decrypt req.account_id platform.credentials)) [
          | none ↦ (http_error 400, platform)
          | some password ↦
              started (ensure_worker max_workers req.account_id password drawn.pid platform.pool)
                platform
        ]

  abbrev pub connect_checked :
      Response (Unit {0}) → ConnectRequest → Drawn → Platform → Response (Unit {0}) × Platform
  connect_checked (http_error e) req drawn platform = (http_error e, platform)
  connect_checked (ok _) req drawn platform = connect_saved req drawn (saved req drawn platform)

  unfoldable pub connect :
      AuthContext → ConnectRequest → Drawn → Platform → Response (Unit {0}) × Platform
  connect auth req drawn platform =
      connect_checked (connect_allowed auth req.account_id platform.subscriptions) req drawn
        platform

-- `stop_worker` always answers `True`, so the code's 404 is never sent.
abbrev pub disconnected : Response (Unit {0}) → Bool × Pool → Pool → Response (Unit {0}) × Pool
disconnected (http_error e) stopped pool = (http_error e, pool)
disconnected (ok _) (true, after) pool = (ok tt, after)
disconnected (ok _) (false, after) pool = (http_error 404, after)

unfoldable pub disconnect : AuthContext → String → Pool → Response (Unit {0}) × Pool
disconnect auth account_id pool =
    disconnected (require_account_match auth account_id) (stop_worker account_id pool) pool

module _ {V : Type 0} (ask : String → String → Option (Answer V)) where
  abbrev pub answered : Option (Answer V) → Response (Answer V)
  answered none = http_error 504
  answered (some answer) = ok answer

  abbrev pub succeeded : Answer V → Response V
  succeeded answer = if answer.success then ok answer.result else http_error 400

  -- The handlers of pending orders, of changes and closings of positions, of cancellations and of
  -- symbols, which differ in the job that they submit.
  unfoldable pub submit_order : String → AuthContext → String → Pool → Response V
  submit_order job_type auth account_id pool = do
    require_account_match auth account_id
    raise_if (not (is_running account_id pool)) 409
    answer ← answered (ask account_id job_type)
    succeeded answer

  -- The handlers that read the account, the positions and the orders pass on the result without a
  -- look at the worker's success.
  unfoldable pub read_job : String → AuthContext → String → Pool → Response V
  read_job job_type auth account_id pool = do
    require_account_match auth account_id
    raise_if (not (is_running account_id pool)) 409
    answer ← answered (ask account_id job_type)
    ok answer.result

  -- `place_market_order` evaluates `request.app.state` on the order, a Pydantic model without such a
  -- field, which raises `AttributeError`. The code after it is never reached.
  unfoldable pub place_market_order : AuthContext → String → ℕ → List Subscription → Response V
  place_market_order auth account_id now subscriptions = do
    require_account_match auth account_id
    raise_if (not (allows_live_trading account_id now subscriptions)) 402
    http_error 500

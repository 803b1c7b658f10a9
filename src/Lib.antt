-- ===== src/Lib.antt =====
-- AEGIS platform server: the core of the backend under backend/app, which sells access to a trading
-- platform. An account pays through a provider, whose webhook events keep its subscription
-- (services/subscription_service.py); the plan (services/plan_catalog.py) decides what it may do.
-- API keys (security.py) let its devices in, whose number and daily trades are limited
-- (services/device_binding_service.py, services/trade_limit_service.py). Frames read from charts are
-- turned into signals (services/signal_rule_engine.py) by the analysis endpoint
-- (api/brain_router.py), which keeps a history of them (services/indicator_history_service.py) and a
-- limit on requests (core/account_rate_limit.py), and orders go through the trading endpoints
-- (api/trading_router.py), the credential vault (services/credential_vault_service.py) and the pool of
-- worker processes (services/worker_pool_manager.py) to a worker, by the job queue
-- (services/job_queue_service.py, worker/mt5_worker.py). Users have accounts and sessions of their own
-- (services/auth_service.py) and claim credentials after a payment
-- (services/credential_reveal_service.py).
--
-- Files and code:
--   Prelude        shared names, tables as lists of rows, texts, responses
--   Models, Plans  db/models.py, config.py, services/plan_catalog.py
--   Security       security.py
--   Subscriptions  services/subscription_service.py
--   Devices        services/device_binding_service.py
--   TradeLimits    services/trade_limit_service.py
--   Signals        services/signal_rule_engine.py
--   Accounts       services/auth_service.py: Totp, Register, Login, Recovery and SecondFactor hold the
--                  operations, the other children their theorems
--   Workers        services/worker_pool_manager.py
--   Jobs           services/job_queue_service.py and worker/mt5_worker.py
--   Reveal         services/credential_reveal_service.py
--   Vault          services/credential_vault_service.py
--   Trading        api/trading_router.py
--   Webhooks       api/subscription_router.py, its webhook; Storefront, its other endpoints
--   PaymentProviders  services/payment_providers: the adapters of Paystack, Flutterwave and Stripe
--   Startup        core/startup.py: the sweep of lapsed accounts and the first admin key
--   Records        services/audit_service.py, signal_history_service.py,
--                  upload_diagnostic_service.py and retention_service.py
--   Admin          api/admin_router.py; Admin/Tenants holds the plan of a tenant with its theorem
--   AuthRouter     api/auth_router.py
--   Portal         api/portal_router.py
--   Delivery       api/device_router.py and api/download_router.py
--   IndicatorHistory  services/indicator_history_service.py
--   Heartbeats     services/device_health_service.py and its endpoints of api/device_router.py
--   Support        api/support_router.py
--   RateLimit      core/account_rate_limit.py
--   Analysis       api/brain_router.py
--   Broker         services/broker_connection_service.py
--   Preprocessing  services/preprocessing_service.py and preprocessing_executor.py
--   Templates      services/template_profile_service.py
-- Each child module is named for what it proves, and Tests apply the theorems to small inputs.
--
-- State and operations: a table is the list of its rows, a select on a unique column its first match,
-- a service method a function from the tables to its answer and the tables after its commit. Python
-- names are kept. Times are seconds since the epoch; random texts, ids that the database assigns and
-- process ids are arguments. SHA-256, PBKDF2, HMAC and AES-GCM are parameters, and Redis is an interface
-- of operations with laws, which the Tests fill with a store that is a function of its keys. Calls of
-- one service are taken one after another.
--
-- Fuel: only the worker's loop (Jobs.run_worker) has fuel, the number of its turns; one more than the
-- jobs in the queue is enough, since each turn takes a job.
--
-- Not modelled: image processing and chart vision, the MetaTrader client, payment providers' HTTP,
-- alerts, logging and metrics, which are input and output or floating point; listings and reports of
-- the admin endpoints; times to live of Redis keys but those of heartbeats and of
-- job results; the hand-over of credentials to a worker; the choice between the two
-- windows of the rate limit when Redis fails.
pub mod Accounts
pub mod Admin
pub mod Analysis
pub mod AuthRouter
pub mod Broker
pub mod Delivery
pub mod Devices
pub mod Heartbeats
pub mod IndicatorHistory
pub mod Jobs
pub mod Models
pub mod PaymentProviders
pub mod Plans
pub mod Portal
pub mod Prelude
pub mod Preprocessing
pub mod RateLimit
pub mod Records
pub mod Reveal
pub mod Security
pub mod Signals
pub mod Startup
pub mod Storefront
pub mod Subscriptions
pub mod Support
pub mod Templates
pub mod TradeLimits
pub mod Trading
pub mod Vault
pub mod Webhooks
pub mod Workers

-- ===== src/Broker/Sessions.antt =====
-- The sessions of backend/app/services/broker_connection_service.py.
use aegis_platform_server_te.Prelude.{
  ◌≡◌, refl, inl, inr, Bool, true, false, Option, none, some, List, [], ◌∷◌, String, All,
  Bool-cases, Option-cases, delete_where, str_eq_refl, find-add_row, find-delete_self, All-add_row,
  All-delete,
}
use aegis_platform_server_te.Broker.{
  Credentials, Error, Result, ok, raised, Sessions, of_account, get_session, cached, is_mt5,
  create_adapter, connected, connect_account, disconnect_account, reconnect_account,
}

-- What an account needs to be connected.
abbrev pub IsConnectable :
    {Adapter : Type 0}
    → Option Adapter
    → (String → Option Credentials)
    → (Adapter → Bool)
    → String
    → Adapter
    → Type 0
IsConnectable mt5_adapter vault connects account_id adapter =
    (c : Credentials) × (vault account_id ≡ some c)
    × (c.execution_enabled ≡ true)
    × (is_mt5 c.broker_name ≡ true)
    × (mt5_adapter ≡ some adapter)
    × (connects adapter ≡ true)

abbrev pub execution_allowed : (String → Option Credentials) → String → Bool
execution_allowed vault account_id = elim (vault account_id) [
  | none ↦ false
  | some c ↦ c.execution_enabled
]

module _ {Adapter : Type 0} (mt5_adapter : Option Adapter)
    (vault : String → Option Credentials) where
  connect_caches :
      (connects : Adapter → Bool) (account_id : String) (adapter : Adapter)
      (sessions : Sessions Adapter)
      → IsConnectable mt5_adapter vault connects account_id adapter
      → connect_account mt5_adapter vault connects account_id sessions
        ≡ (ok true, cached account_id adapter sessions)
  unfolding connect_account create_adapter
  connect_caches connects account_id adapter sessions (c, v, allowed, mt5, there, answers) =
      rw (v, connect_account, allowed, mt5, there, answers) refl

  cached_session :
      (account_id : String) (adapter : Adapter) (sessions : Sessions Adapter)
      → get_session account_id (cached account_id adapter sessions) ≡ some adapter
  unfolding get_session
  cached_session account_id adapter sessions =
      rw
        (
          find-add_row (of_account account_id) (account_id, adapter)
              (delete_where (of_account account_id) sessions)
              (find-delete_self (of_account account_id) sessions),
          str_eq_refl account_id,
        )
        refl

  -- An account that can be connected is, and its adapter is the session that is cached.
  pub connect-get_session :
      (connects : Adapter → Bool) (account_id : String) (adapter : Adapter)
      (sessions : Sessions Adapter)
      → IsConnectable mt5_adapter vault connects account_id adapter
      → let (answer, after) = connect_account mt5_adapter vault connects account_id sessions in
        (answer ≡ ok true) × (get_session account_id after ≡ some adapter)
  connect-get_session connects account_id adapter sessions h =
      rw (connect_caches connects account_id adapter sessions h)
        (refl, cached_session account_id adapter sessions)

-- Without the module of the adapter no call opens a session, whatever the vault holds.
pub connect_without_module :
    {Adapter : Type 0} (vault : String → Option Credentials) (connects : Adapter → Bool)
    (account_id : String) (sessions : Sessions Adapter)
    → (e : Error) × (connect_account none vault connects account_id sessions ≡ (raised e, sessions))
unfolding connect_account create_adapter
connect_without_module vault connects account_id sessions = elim (Option-cases (vault account_id)) [
  | inl n ↦ rw (n, connect_account) (_, refl)
  | inr (c, v) ↦ elim (Bool-cases c.execution_enabled) [
    | inr off ↦ rw (v, connect_account, off) (_, refl)
    | inl on ↦ elim (Bool-cases (is_mt5 c.broker_name)) [
      | inl mt5 ↦ rw (v, connect_account, on, mt5) (_, refl)
      | inr other ↦ rw (v, connect_account, on, other) (_, refl)
    ]
  ]
]

abbrev pub IsAllowed :
    {Adapter : Type 0} → (String → Option Credentials) → String × Adapter → Type 0
IsAllowed vault session = execution_allowed vault session.0 ≡ true

-- A call of the service, with what the adapter answers.
pub data Call (Adapter : Type 0) : Type 0 where
  connects disconnects : (Adapter → Bool) → String → Call Adapter
  reconnects : (Adapter → Bool) → (Adapter → Bool) → String → Call Adapter

module _ {Adapter : Type 0} where
  disconnect-All :
      (P : String × Adapter → Type 0) (answers : Adapter → Bool) (account_id : String)
      (sessions : Sessions Adapter)
      → All P sessions
      → All P ((disconnect_account answers account_id sessions).1)
  unfolding disconnect_account
  disconnect-All P answers account_id sessions all =
      elim (Option-cases (get_session account_id sessions)) [
        | inl n ↦ rw (n, disconnect_account) all
        | inr (adapter, s) ↦ elim (Bool-cases (answers adapter)) [
          | inl e ↦
              rw (s, disconnect_account, e) (All-delete P (of_account account_id) sessions all)
          | inr e ↦ rw (s, disconnect_account, e) all
        ]
      ]

module _ {Adapter : Type 0} (mt5_adapter : Option Adapter)
    (vault : String → Option Credentials) where
  unfoldable pub run_call : Call Adapter → Sessions Adapter → Sessions Adapter
  run_call (connects answers account_id) sessions =
      (connect_account mt5_adapter vault answers account_id sessions).1
  run_call (disconnects answers account_id) sessions =
      (disconnect_account answers account_id sessions).1
  run_call (reconnects before answers account_id) sessions =
      (reconnect_account mt5_adapter vault before answers account_id sessions).1

  unfoldable pub run_calls : List (Call Adapter) → Sessions Adapter → Sessions Adapter
  run_calls [] sessions = sessions
  run_calls (call ∷ calls) sessions = run_calls calls (run_call call sessions)

  connected-All :
      (r : Result Adapter) (answers : Adapter → Bool) (account_id : String)
      (sessions : Sessions Adapter)
      → execution_allowed vault account_id ≡ true
      → All (IsAllowed vault) sessions
      → All (IsAllowed vault) ((connected r answers account_id sessions).1)
  connected-All (raised e) answers account_id sessions allowed all = all
  connected-All (ok adapter) answers account_id sessions allowed all =
      elim (Bool-cases (answers adapter)) [
        | inl e ↦ rw e (
            All-add_row (IsAllowed vault) (account_id, adapter)
              (delete_where (of_account account_id) sessions) allowed
              (All-delete (IsAllowed vault) (of_account account_id) sessions all))
        | inr e ↦ rw e all
      ]

  connect-All :
      (answers : Adapter → Bool) (account_id : String) (sessions : Sessions Adapter)
      → All (IsAllowed vault) sessions
      → All (IsAllowed vault) ((connect_account mt5_adapter vault answers account_id sessions).1)
  unfolding connect_account
  connect-All answers account_id sessions all = elim (Option-cases (vault account_id)) [
    | inl n ↦ rw (n, connect_account) all
    | inr (c, v) ↦ elim (Bool-cases c.execution_enabled) [
      | inr off ↦ rw (v, connect_account, off) all
      | inl on ↦
          rw (v, connect_account, on)
            (connected-All (create_adapter mt5_adapter c.broker_name) answers account_id sessions
              (rw (v, execution_allowed) on) all)
    ]
  ]

  run_call-All :
      (call : Call Adapter) (sessions : Sessions Adapter)
      → All (IsAllowed vault) sessions
      → All (IsAllowed vault) (run_call call sessions)
  unfolding run_call reconnect_account
  run_call-All (connects answers account_id) sessions all =
      connect-All answers account_id sessions all
  run_call-All (disconnects answers account_id) sessions all =
      disconnect-All (IsAllowed vault) answers account_id sessions all
  run_call-All (reconnects before answers account_id) sessions all =
      connect-All answers account_id ((disconnect_account before account_id sessions).1)
        (disconnect-All (IsAllowed vault) before account_id sessions all)

  -- After any connections, disconnections and reconnections, whatever the broker answers, each
  -- session in the cache is that of an account whose execution is enabled in the vault. The vault
  -- stays as it is meanwhile.
  pub run_calls-All :
      (calls : List (Call Adapter)) (sessions : Sessions Adapter)
      → All (IsAllowed vault) sessions
      → All (IsAllowed vault) (run_calls calls sessions)
  unfolding run_calls
  run_calls-All [] sessions all = all
  run_calls-All (call ∷ calls) sessions all =
      run_calls-All calls (run_call call sessions) (run_call-All call sessions all)

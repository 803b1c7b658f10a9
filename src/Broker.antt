-- ===== src/Broker.antt =====
-- The cache of broker sessions (backend/app/services/broker_connection_service.py). The vault and the
-- adapter are parameters: what the vault holds for an account, whether the module of the MT5 adapter
-- can be imported, and what a connection or a disconnection answers.
pub mod Sessions
mod Tests
use aegis_platform_server_te.Prelude.{
  ℕ, Bool, true, false, not, ◌||◌, Option, none, some, List, [], ◌∷◌, String, str_eq, if◌then◌else◌,
  find, strip, upper, delete_where, add_row,
}
use mathlib.Core.Option

pub record Credentials : Type 0 where
  pub broker_name : String
  pub execution_enabled : Bool

-- What `connect_account` raises.
pub data Error : Type 0 where
  key_error permission_error value_error module_not_found : Error

pub data Result (A : Type 0) : Type 0 where
  ok : A → Result A
  raised : Error → Result A

-- `self._sessions`: an adapter for an account.
abbrev pub Sessions : Type 0 → Type 0
Sessions Adapter = List (String × Adapter)

module _ {Adapter : Type 0} where
  abbrev pub of_account : String → String × Adapter → Bool
  of_account account_id session = str_eq session.0 account_id

  unfoldable pub get_session : String → Sessions Adapter → Option Adapter
  get_session account_id sessions =
      Option.map (λ (s : String × Adapter). s.1) (find (of_account account_id) sessions)

  abbrev pub cached : String → Adapter → Sessions Adapter → Sessions Adapter
  cached account_id adapter sessions =
      add_row (account_id, adapter) (delete_where (of_account account_id) sessions)

abbrev pub is_mt5 : String → Bool
is_mt5 broker_name =
    let broker = upper (strip broker_name) in
    str_eq broker "MT5" || (str_eq broker "METATRADER5" || str_eq broker "METATRADER 5")

-- The adapter of the import, if the module is there.
module _ {Adapter : Type 0} (mt5_adapter : Option Adapter) where
  unfoldable pub create_adapter : String → Result Adapter
  create_adapter broker_name =
      if not (is_mt5 broker_name)
      then raised value_error
      else elim mt5_adapter [ none ↦ raised module_not_found | some adapter ↦ ok adapter ]

module _ {Adapter : Type 0} where
  -- The answer of `adapter.connect(credentials)`.
  abbrev pub connected :
      Result Adapter → (Adapter → Bool) → String → Sessions Adapter → Result Bool × Sessions Adapter
  connected (raised e) connects account_id sessions = (raised e, sessions)
  connected (ok adapter) connects account_id sessions =
      if connects adapter
      then (ok true, cached account_id adapter sessions)
      else (ok false, sessions)

  -- The answer of `adapter.disconnect()` on the session that is cached.
  unfoldable pub disconnect_account :
      (Adapter → Bool) → String → Sessions Adapter → Bool × Sessions Adapter
  disconnect_account disconnects account_id sessions = elim (get_session account_id sessions) [
    | none ↦ (false, sessions)
    | some adapter ↦
        if disconnects adapter
        then (true, delete_where (of_account account_id) sessions)
        else (false, sessions)
  ]

  unfoldable pub is_connected : (Adapter → Bool) → String → Sessions Adapter → Bool
  is_connected alive account_id sessions = elim (get_session account_id sessions) [
    | none ↦ false
    | some adapter ↦ alive adapter
  ]

module _ {Adapter : Type 0} (mt5_adapter : Option Adapter)
    (vault : String → Option Credentials) where
  unfoldable pub connect_account :
      (Adapter → Bool) → String → Sessions Adapter → Result Bool × Sessions Adapter
  connect_account connects account_id sessions = elim (vault account_id) [
    | none ↦ (raised key_error, sessions)
    | some credentials ↦
        if not credentials.execution_enabled
        then (raised permission_error, sessions)
        else connected (create_adapter mt5_adapter credentials.broker_name) connects account_id
            sessions
  ]

  unfoldable pub reconnect_account :
      (Adapter → Bool)
      → (Adapter → Bool)
      → String
      → Sessions Adapter
      → Result Bool × Sessions Adapter
  reconnect_account disconnects connects account_id sessions =
      connect_account connects account_id ((disconnect_account disconnects account_id sessions).1)

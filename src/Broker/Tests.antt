-- ===== src/Broker/Tests.antt =====
-- The theorems on the sessions, on two accounts.
use aegis_platform_server_te.Prelude.{
  ℕ, ◌≡◌, refl, true, Bool, Option, none, some, List, [], ◌∷◌, String, str_eq, if◌then◌else◌, strip,
  upper, All,
}
use aegis_platform_server_te.Broker.{
  Credentials, Error, ok, raised, is_mt5, get_session, connect_account,
}
use aegis_platform_server_te.Broker.Sessions.{
  Call, connects, disconnects, reconnects, connect-get_session, connect_without_module, IsAllowed,
  run_calls, run_calls-All,
}

abbrev vault : String → Option Credentials
vault account_id =
    if str_eq account_id "A"
    then some (record { broker_name = " mt5 "; execution_enabled = true })
    else none

abbrev answers : ℕ → Bool
answers adapter = true

abbrev adapter : Option ℕ
adapter = some 7

enabled :
    (c : Credentials) × (vault "A" ≡ some c)
    × (c.execution_enabled ≡ true)
    × (is_mt5 c.broker_name ≡ true)
    × (adapter ≡ some 7)
    × (answers 7 ≡ true)
unfolding str_eq strip upper
enabled = (record { broker_name = " mt5 "; execution_enabled = true }, refl, refl, refl, refl, refl)

connect-get_session_test :
    let (answer, after) = connect_account (some 7) vault answers "A" [] in
    (answer ≡ ok true) × (get_session "A" after ≡ some 7)
connect-get_session_test = connect-get_session (some 7) vault answers "A" 7 [] enabled

connect_without_module_test :
    (e : Error) × (connect_account {Adapter = ℕ} none vault answers "A" [] ≡ (raised e, []))
connect_without_module_test = connect_without_module vault answers "A" []

abbrev calls : List (Call ℕ)
calls = connects answers "A" ∷ reconnects answers answers "A" ∷ disconnects answers "B" ∷ []

run_calls-All_example : All (IsAllowed vault) (run_calls (some 7) vault calls [])
run_calls-All_example = run_calls-All (some 7) vault calls [] tt

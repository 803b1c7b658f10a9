-- ===== src/Vault/Tests.antt =====
-- The round trip of the vault, with a cipher that changes nothing.
use aegis_platform_server_te.Prelude.{◌≡◌, refl, true, some, [], String}
use aegis_platform_server_te.Vault.{SaveRequest, save_credentials, get_credentials}
use aegis_platform_server_te.Vault.RoundTrip.{save-get}

abbrev plain : String → String → String
plain nonce s = s

abbrev request : SaveRequest
request = record {
  credential_id = "A1";
  broker_name = "B";
  server = "S";
  account_id = "A1";
  trading_password = "pw";
  investor_password = some "view";
  execution_enabled = true;
}

save-get_example :
    get_credentials plain plain "A1" (save_credentials plain plain request "n1" "n2" 5 [])
    ≡ some (record {
      broker_name = "B";
      server = "S";
      account_id = "A1";
      execution_enabled = true;
      trading_password = some "pw";
      investor_password = some "view";
    })
save-get_example = save-get plain plain (λ nonce s. refl) request "n1" "n2" 5 [] refl

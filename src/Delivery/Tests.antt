-- ===== src/Delivery/Tests.antt =====
-- The theorem on downloads, on one link.
use aegis_platform_server_te.Prelude.{
  ◌≡◌, refl, true, false, none, some, [], ◌∷◌, http_error, find, str_eq, arith,
}
use aegis_platform_server_te.Models.{DownloadToken}
use aegis_platform_server_te.Devices.{has_token}
use aegis_platform_server_te.Delivery.{State, download_apk}
use aegis_platform_server_te.Delivery.Burned.{missing_file_burns}

abbrev link : DownloadToken
link = record {
  token = "d";
  account_id = "A";
  plan = "pro";
  max_uses = 1;
  uses = 0;
  expires_at = none;
  created_at = 0;
  revoked = false;
}

abbrev st : State
st = record { bindings = []; tokens = link ∷ []; audit = [] }

link_found : find (has_token "d") st.tokens ≡ some link
unfolding find str_eq
link_found = refl

missing_file_burns_test :
    let (first, after) = download_apk false "d…" "d" 10 st in
    (first ≡ http_error 500) × ((download_apk true "d…" "d" 20 after).0 ≡ http_error 403)
missing_file_burns_test = missing_file_burns "d" "d…" 10 20 st link link_found refl (omega arith)

-- ===== src/Devices/Tests.antt =====
-- The theorems on device bindings and downloads, on small tables.
use aegis_platform_server_te.Prelude.{
  ◌≤◌, ◌≡◌, refl, none, some, List, [], ◌∷◌, find, count_where, str_eq, arith,
}
use aegis_platform_server_te.Models.{DownloadToken}
use aegis_platform_server_te.Devices.{bound_count, max_devices, download_row, has_token}
use aegis_platform_server_te.Devices.Bindings.{register_all, register_all-within, Request}
use aegis_platform_server_te.Devices.Downloads.{downloads, downloads_bounded}

abbrev two_requests : List Request
two_requests = ("A1", "d1", none, 10) ∷ ("A1", "d2", none, 20) ∷ []

none_bound : bound_count "A1" [] ≤ max_devices "A1" []
unfolding count_where max_devices find
none_bound = omega arith

abbrev one_token : List DownloadToken
one_token = download_row "t" "A1" "pro" 2 1 0 ∷ []

token_found : find (has_token "t") one_token ≡ some (download_row "t" "A1" "pro" 2 1 0)
unfolding find str_eq
token_found = refl

register_all-within_example :
    bound_count "A1" (register_all [] two_requests []) ≤ max_devices "A1" []
register_all-within_example = register_all-within [] two_requests "A1" [] none_bound

downloads_bounded_example : downloads "t" (1 ∷ 2 ∷ 3 ∷ []) one_token ≤ 2
downloads_bounded_example =
    downloads_bounded "t" (1 ∷ 2 ∷ 3 ∷ []) one_token (download_row "t" "A1" "pro" 2 1 0) token_found

-- ===== src/IndicatorHistory/Tests.antt =====
-- The theorem on the history, on a store that is a function of its keys and frames that are named by
-- a text.
use aegis_platform_server_te.Prelude.{ℕ, ◌≡◌, refl, some, List, [], ◌∷◌, String, take}
use mathlib.Core.List.{map, reverse}
use aegis_platform_server_te.IndicatorHistory.{Arrival, get_history}
use aegis_platform_server_te.IndicatorHistory.Store.{Store, sets}
use aegis_platform_server_te.IndicatorHistory.Reorder.{
  swapped, ranked, entries, append_all, history_of_arrivals,
}

abbrev dumped : String → ℕ → String → ℕ
dumped frame t nonce = t

abbrev loaded : ℕ → String × ℕ
loaded t = ("frame", t)

abbrev sent : String → ℕ → Arrival String
sent frame t = record { frame = frame; captured_at_ms = some t; now_ms = 99; nonce = "n" }

abbrev live : List (Arrival String)
live = sent "b" 20 ∷ sent "c" 30 ∷ sent "a" 10 ∷ []

abbrev late : List (Arrival String)
late = sent "c" 30 ∷ sent "b" 20 ∷ sent "a" 10 ∷ []

abbrev empty : Store
empty k = []

history_of_arrivals_example :
    let history = get_history sets loaded "A" (append_all sets dumped 2 600 "A" live empty) in
    (history ≡ map loaded (reverse (take 2 (ranked sets (entries dumped live)))))
    × (history ≡ get_history sets loaded "A" (append_all sets dumped 2 600 "A" late empty))
history_of_arrivals_example =
    history_of_arrivals sets dumped loaded 2 600 "A" live late empty refl
      (swapped (sent "b" 20) (sent "c" 30))

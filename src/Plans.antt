-- ===== src/Plans.antt =====
-- The commercial tiers (backend/app/services/plan_catalog.py). Labels and price hints are left out.
use aegis_platform_server_te.Prelude.{
  ℕ, ◌≤◌, ◌≡◌, arith, refl, Bool, true, false, Option, none, some, List, [], ◌∷◌, String, str_eq,
  strip, lower, or_text, if◌then◌else◌,
}

pub record PlanMeta : Type 0 where
  pub max_devices : ℕ
  pub max_trades_per_day : ℕ
  pub live_trading : Bool

abbrev meta : ℕ → ℕ → Bool → PlanMeta
meta devices trades live = record {
  max_devices = devices;
  max_trades_per_day = trades;
  live_trading = live;
}

abbrev starter_meta : PlanMeta
starter_meta = meta 1 15 true

-- `PLAN_CATALOG`.
abbrev pub plan_catalog : List (String × PlanMeta)
plan_catalog =
    ("demo", meta 1 5 false)
    ∷ ("starter", starter_meta)
    ∷ ("pro", meta 1 50 true)
    ∷ ("business", meta 3 200 true)
    ∷ ("enterprise", meta 10 0 true)
    ∷ []

unfoldable pub catalog_get : String → List (String × PlanMeta) → Option PlanMeta
catalog_get code [] = none
catalog_get code ((k, m) ∷ rest) = if str_eq k code then some m else catalog_get code rest

-- A plan as `resolve_plan` returns it: the catalog's entry with its code.
pub record Plan : Type 0 where
  pub code : String
  pub meta : PlanMeta

abbrev plan_or_starter : String → Option PlanMeta → Plan
plan_or_starter code (some m) = record { code = code; meta = m }
plan_or_starter code none = record { code = "starter"; meta = starter_meta }

-- `live` is an older name of `starter`.
abbrev unalias : String → String
unalias code = if str_eq code "live" then "starter" else code

unfoldable pub resolve_plan : String → Plan
unfolding strip lower str_eq catalog_get
resolve_plan plan_code =
    let code = unalias (strip (lower (or_text plan_code "starter"))) in
    plan_or_starter code (catalog_get code plan_catalog)

entry_devices_pos :
    (code : String) → 1 ≤ (plan_or_starter code (catalog_get code plan_catalog)).meta.max_devices
unfolding catalog_get
entry_devices_pos code = ground arith

-- Every text that names a plan, and every other text, gives a plan with at least one device.
pub resolve_plan_devices_pos : (plan_code : String) → 1 ≤ (resolve_plan plan_code).meta.max_devices
unfolding resolve_plan
resolve_plan_devices_pos plan_code =
    entry_devices_pos (unalias (strip (lower (or_text plan_code "starter"))))

resolve-pro : (resolve_plan " Pro ").code ≡ "pro"
unfolding resolve_plan
resolve-pro = refl

-- ===== src/TradeLimits.antt =====
-- The daily trade quota of an account (backend/app/services/trade_limit_service.py). The day is an
-- argument, the text that `_today` formats. The column `max_trades_per_day` is never null, so the
-- plan's own number, which `_limit_for` takes instead of a null, is not reached.
pub mod Usage
mod Tests
use aegis_platform_server_te.Prelude.{
  ℕ, ◌+◌, ◌-◌, Bool, true, false, ◌&&◌, Option, none, some, List, String, ltb, ◌==◌, str_eq,
  if◌then◌else◌, find, update, add_row,
}
use aegis_platform_server_te.Models.{TradeDailyCounter, Subscription}
use aegis_platform_server_te.Subscriptions.{get_row}

-- 0 stands for no limit.
unfoldable pub limit_for : String → List Subscription → ℕ
limit_for account_id subscriptions = elim (get_row account_id subscriptions) [
  | none ↦ 0
  | some row ↦ row.max_trades_per_day
]

abbrev pub is_day : String → String → TradeDailyCounter → Bool
is_day account_id day row = str_eq row.account_id account_id && str_eq row.day day

abbrev pub count_of : Option TradeDailyCounter → ℕ
count_of none = 0
count_of (some row) = row.trade_count

-- The trades that an account has used on a day.
abbrev pub used_on : String → String → List TradeDailyCounter → ℕ
used_on account_id day rows = count_of (find (is_day account_id day) rows)

pub record Quota : Type 0 where
  pub used : ℕ
  pub limit : ℕ
  pub remaining : Option ℕ
  pub unlimited : Bool

-- `max(0, limit - used)` is the difference of natural numbers.
abbrev pub quota : ℕ → ℕ → Quota
quota used limit = record {
  used = used;
  limit = limit;
  remaining = if limit == 0 then none else some (limit - used);
  unlimited = limit == 0;
}

unfoldable pub status : List Subscription → String → String → List TradeDailyCounter → Quota
status subscriptions account_id day rows =
    quota (used_on account_id day rows) (limit_for account_id subscriptions)

abbrev pub counter : String → String → ℕ → TradeDailyCounter
counter account_id day n = record { account_id = account_id; day = day; trade_count = n }

abbrev pub counted : ℕ → TradeDailyCounter → TradeDailyCounter
counted n row = record row { trade_count = row.trade_count + n }

-- The row of the day is made if it is not there.
abbrev pub write_count :
    Option TradeDailyCounter → String → String → ℕ → List TradeDailyCounter → List TradeDailyCounter
write_count none account_id day n rows = add_row (counter account_id day n) rows
write_count (some row) account_id day n rows = update (is_day account_id day) (counted n) rows

-- `none` is the `ValueError` of a quota that is used up; nothing is written then.
unfoldable pub consume_at :
    ℕ → String → String → ℕ → List TradeDailyCounter → Option Quota × List TradeDailyCounter
consume_at limit account_id day n rows =
    let row = find (is_day account_id day) rows in
    if ltb 0 limit && ltb limit (count_of row + n)
    then (none, rows)
    else (some (quota (count_of row + n) limit), write_count row account_id day n rows)

unfoldable pub consume :
    List Subscription
    → String
    → String
    → ℕ
    → List TradeDailyCounter
    → Option Quota × List TradeDailyCounter
unfolding consume_at
consume subscriptions account_id day n rows =
    consume_at (limit_for account_id subscriptions) account_id day n rows

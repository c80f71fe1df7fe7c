-- ===== src/Settlement/Rows.antt =====
-- settlement_backfill.py: what a row of the broker's profit table says of a contract.
use Prim.Native.Char.{Char, code}
use aether_quantum_engine.Common.{
  ℕ, String, Bool, not, ◌||◌, Option, none, some, if◌then◌else◌, ◌==◌, string_eq, nat_eq,
}
use aether_quantum_engine.Common.Int.{pos}
use aether_quantum_engine.Common.Text.{strip}
use aether_quantum_engine.Common.Float.{Float, nought, or_nought, feq}
use aether_quantum_engine.Settlement.{Payload}
use aether_quantum_engine.Settlement.Detect.{or_empty}
use aether_quantum_engine.Settlement.Outcome.{truthy, or_else}

-- A row of `profit_table`, `none` for a missing key.
pub record ProfitRow (F : Type 0) : Type 0 where
  pub contract_id : Option ℕ
  pub profit : Option F
  pub sell_price : Option F
  pub buy_price : Option F
  pub balance_after : Option F
  pub contract_status : Option String
  pub status : Option String
  pub symbol : Option String
  pub underlying : Option String
  pub shortcode : Option String

abbrev pub is_underscore : Char → Bool
is_underscore c = code c == 95

-- What stands before the first underscore.
unfoldable pub up_to_underscore : String → String
up_to_underscore String.[] = String.[]
up_to_underscore (String.◌∷◌ c s) =
    let rest = up_to_underscore s in if is_underscore c then String.[] else String.◌∷◌ c rest

-- `text.split("_")[1]`, or `none` where there is no underscore.
unfoldable pub second_part : String → Option String
second_part String.[] = none
second_part (String.◌∷◌ c s) =
    let later = second_part s in if is_underscore c then some (up_to_underscore s) else later

-- The second part of a short code such as `CALL_R_100_…`, or the whole code where it has none.
abbrev pub symbol_of_shortcode : Option String → Option String
symbol_of_shortcode none = none
symbol_of_shortcode (some code) = elim (truthy (second_part code)) [
  | none ↦ some code
  | some part ↦ some part
]

module _ {F : Type 0} ⦃f : Float F⦄ where
  open f use {lit, sub, lt}

  -- `_profit_from_row`
  abbrev pub profit_of_prices : F → F → F
  profit_of_prices sell_p buy_p =
      if not (feq sell_p nought) || not (feq buy_p nought) then sub sell_p buy_p else nought

  abbrev pub profit_from_row : ProfitRow F → F
  profit_from_row row = elim row.profit [
    | none ↦ profit_of_prices (or_nought row.sell_price) (or_nought row.buy_price)
    | some profit ↦ or_nought (some profit)
  ]

  -- `_extract_underlying_from_row`
  abbrev pub extract_underlying_from_row : ProfitRow F → Option String
  extract_underlying_from_row row =
      or_else row.symbol (or_else row.underlying (symbol_of_shortcode row.shortcode))

  abbrev pub status_of_row : F → String → String
  status_of_row profit status =
      if status == ""
      then (if lt nought profit then "won" else if lt profit nought then "lost" else "expired")
      else status

  -- The payload of a row that names no symbol holds an explicit None, which the program takes for the symbol of a
  -- contract that it does not track; here it is a missing key, so that the symbol is "UNK".
  unfoldable pub settlement_payload_from_profit_row : ℕ → ProfitRow F → Payload F
  settlement_payload_from_profit_row cid row =
      let profit = profit_from_row row in
      record {
        contract_id = some cid;
        status =
            some (status_of_row profit (strip (or_empty (or_else row.contract_status row.status))));
        is_settled = some (pos 1);
        is_expired = none;
        profit = some profit;
        balance_after = row.balance_after;
        underlying = extract_underlying_from_row row;
        buy_price = none;
        purchase_price = none;
        amount = none;
      }

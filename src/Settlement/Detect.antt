-- ===== src/Settlement/Detect.antt =====
-- settlement_detect.py and result_utils.py: what a message of the broker says of its contract.
use aether_quantum_engine.Common.{
  String, Bool, true, false, Option, none, some, [], ◌∷◌, if◌then◌else◌, ◌==◌, string_eq, contains,
  nat_eq,
}
use aether_quantum_engine.Common.Int.{ℤ, pos, negsuc}
use aether_quantum_engine.Common.Text.{upper}
use aether_quantum_engine.Common.Float.{Float, nought}
use aether_quantum_engine.Settlement.{Payload}

-- `(value or "")` of an optional text
abbrev pub or_empty : Option String → String
or_empty none = ""
or_empty (some s) = s

-- `int(value or 0) == 1`
abbrev pub is_one : Option ℤ → Bool
is_one none = false
is_one (some (pos n)) = n == 1
is_one (some (negsuc n)) = false

module _ {F : Type 0} where
  unfoldable pub contract_payload_is_settled : Payload F → Bool
  contract_payload_is_settled c =
      let status = upper (or_empty c.status) in
      if contains status ("OPEN" ∷ "ACTIVE" ∷ [])
      then false
      else if is_one c.is_settled
      then true
      else if is_one c.is_expired
      then true
      else contains status ("WON" ∷ "LOST" ∷ "EXPIRED" ∷ "SOLD" ∷ "CLOSED" ∷ [])

module _ {F : Type 0} ⦃f : Float F⦄ where
  open f use {lt}

  -- `"WIN" if profit > 0 else ("LOSS" if profit < 0 else "FLAT")`
  abbrev pub label_of_profit : F → String
  label_of_profit profit =
      if lt nought profit then "WIN" else if lt profit nought then "LOSS" else "FLAT"

  pub api_settlement_label : String → F → String
  api_settlement_label status_str profit =
      let s = upper status_str in
      if s == "WON" then "WIN" else if s == "LOST" then "LOSS" else label_of_profit profit

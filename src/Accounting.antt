-- ===== src/Accounting.antt =====
-- scripts/forensic/pro29_token_accounting.py: `_validate_transaction_deltas`, the check that the
-- balances and the supply around one transaction differ by exactly its Transfer events.
pub mod Events
pub mod Sums
pub mod Conservation
mod Examples
use text.Mathlib.Text.{◌==◌ as str_eq}
use protocol_robustness_fram.Prelude.{
  Bool, true, false, not, ◌&&◌, ◌||◌, String, List, [], ◌∷◌, map, Option, none, some, all, any,
  is_some, if◌then◌else◌,
}
use protocol_robustness_fram.Prelude.Int.{ℤ, pos, ◌+ℤ◌, ◌-ℤ◌, ltb_ℤ, eqb_ℤ}
use protocol_robustness_fram.Prelude.Result.{Result, ok, err, ◌>>=◌, ◌>>◌, raise_if}

pub data EvidenceError : Type 0 where
  different_accounts negative_amount unknown_source unknown_recipient negative_balance :
      EvidenceError
  unreconciled_balances unreconciled_supply : EvidenceError

-- `ZERO`, the address of mints and burns.
abbrev pub zero_address : String
zero_address = "0x0000000000000000000000000000000000000000"

-- One Transfer event.
pub record Event : Type 0 where
  pub source : String
  pub target : String
  pub amount : ℤ

-- A snapshot of balances: a dict from accounts to integers.
abbrev pub Balances : Type 0
Balances = List (String × ℤ)

abbrev pub lookup : String → Balances → Option ℤ
lookup k [] = none
lookup k ((j, v) ∷ b) = if str_eq j k then some v else lookup k b

abbrev pub accounts_of : Balances → List String
accounts_of [] = []
accounts_of ((k, v) ∷ b) = k ∷ accounts_of b

abbrev pub elem : String → List String → Bool
elem k ks = any (λ j. str_eq j k) ks

abbrev pub same_accounts : List String → List String → Bool
same_accounts xs ys = all (λ k. elem k ys) xs && all (λ k. elem k xs) ys

-- The dict `expected` on the accounts, and `supply_delta`.
pub record Expected : Type 0 where
  pub delta : String → ℤ
  pub supply : ℤ

-- `expected[account] += amount`
unfoldable pub add_delta : String → ℤ → (String → ℤ) → String → ℤ
add_delta account amount delta k = if str_eq account k then delta k +ℤ amount else delta k

unfoldable pub debit : List String → Event → Expected → Result EvidenceError Expected
unfolding add_delta
debit accounts event e =
    if str_eq event.source zero_address
    then ok (record e { supply = e.supply +ℤ event.amount })
    else if elem event.source accounts
    then ok (record e { delta = add_delta event.source (pos 0 -ℤ event.amount) e.delta })
    else err unknown_source

unfoldable pub credit : List String → Event → Expected → Result EvidenceError Expected
unfolding add_delta
credit accounts event e =
    if str_eq event.target zero_address
    then ok (record e { supply = e.supply -ℤ event.amount })
    else if elem event.target accounts
    then ok (record e { delta = add_delta event.target event.amount e.delta })
    else err unknown_recipient

-- The loop over the events.
unfoldable pub apply_events : List String → List Event → Expected → Result EvidenceError Expected
apply_events accounts [] e = ok e
apply_events accounts (event ∷ events) e = do
  raise_if (ltb_ℤ event.amount (pos 0)) negative_amount
  debited ← debit accounts event e
  credited ← credit accounts event debited
  apply_events accounts events credited

-- `actual[account] = after - before` for every account, with the checks on the snapshots.
unfoldable pub actual_deltas : Balances → Balances → Result EvidenceError Balances
actual_deltas [] after = ok []
actual_deltas ((account, before) ∷ rest) after = elim (lookup account after) [
  | none ↦ err different_accounts
  | some now ↦ do
    raise_if (ltb_ℤ before (pos 0) || ltb_ℤ now (pos 0)) negative_balance
    deltas ← actual_deltas rest after
    ok ((account, now -ℤ before) ∷ deltas)
]

-- `actual == expected`, both dicts on the same accounts.
unfoldable pub deltas_agree : Balances → (String → ℤ) → Bool
deltas_agree [] delta = true
deltas_agree ((account, v) ∷ rest) delta = eqb_ℤ v (delta account) && deltas_agree rest delta

unfoldable pub validate_transaction_deltas :
    List Event → Balances → Balances → ℤ → ℤ → Result EvidenceError Balances
validate_transaction_deltas events before after supply_before supply_after = do
  raise_if (not (same_accounts (accounts_of after) (accounts_of before))) different_accounts
  expected ←
      apply_events (accounts_of before) events (record { delta = λ account. pos 0; supply = pos 0 })
  actual ← actual_deltas before after
  raise_if (not (deltas_agree actual expected.delta)) unreconciled_balances
  raise_if (not (eqb_ℤ (supply_after -ℤ supply_before) expected.supply)) unreconciled_supply
  ok actual

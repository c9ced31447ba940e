-- ===== src/Accounting/Examples.antt =====
-- A transaction with a mint and a transfer between two accounts.
use protocol_robustness_fram.Prelude.{◌≡◌, refl, List, [], ◌∷◌}
use protocol_robustness_fram.Prelude.Int.{pos, ◌+ℤ◌, ◌-ℤ◌}
use protocol_robustness_fram.Prelude.Result.{ok, err}
use protocol_robustness_fram.Accounting.{
  Event, Balances, zero_address, add_delta, debit, credit, apply_events, actual_deltas,
  deltas_agree, validate_transaction_deltas, unreconciled_balances,
}
use protocol_robustness_fram.Accounting.Events.{received, sent}
use protocol_robustness_fram.Accounting.Sums.{sum_over}
use protocol_robustness_fram.Accounting.Conservation.{balance_of, balance-received, total-supply}

abbrev events : List Event
events =
    record { source = zero_address; target = "a"; amount = pos 7 }
    ∷ record { source = "a"; target = "b"; amount = pos 3 }
    ∷ []

abbrev before : Balances
before = ("a", pos 10) ∷ ("b", pos 1) ∷ []

abbrev after : Balances
after = ("a", pos 14) ∷ ("b", pos 4) ∷ []

abbrev deltas : Balances
deltas = ("a", pos 4) ∷ ("b", pos 3) ∷ []

accepted : validate_transaction_deltas events before after (pos 11) (pos 18) ≡ ok deltas
unfolding validate_transaction_deltas apply_events debit credit add_delta actual_deltas deltas_agree
    ◌+ℤ◌ ◌-ℤ◌
accepted = refl

wrong_balance :
    validate_transaction_deltas events before (("a", pos 14) ∷ ("b", pos 5) ∷ []) (pos 11) (pos 18)
    ≡ err unreconciled_balances
unfolding validate_transaction_deltas apply_events debit credit add_delta actual_deltas deltas_agree
    ◌+ℤ◌ ◌-ℤ◌
wrong_balance = refl

balance-received_example :
    balance_of after "a" -ℤ balance_of before "a" ≡ received "a" events -ℤ sent "a" events
balance-received_example =
    balance-received events before after (pos 11) (pos 18) {deltas = deltas} accepted "a" refl refl

total-supply_example :
    sum_over ("a" ∷ "b" ∷ []) (balance_of after) -ℤ sum_over ("a" ∷ "b" ∷ []) (balance_of before)
    ≡ pos 18 -ℤ pos 11
total-supply_example =
    total-supply events before after (pos 11) (pos 18) {deltas = deltas} accepted refl

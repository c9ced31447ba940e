-- ===== src/Accounting/Conservation.antt =====
-- What an accepted transaction shows about its balances and its supply.
use text.Mathlib.Text.{◌==◌ as str_eq}
use text.Mathlib.TextEquality.{eq_iff}
use protocol_robustness_fram.Prelude.{
  ◌≡◌, refl, sym, ap, ◌∙◌, subst, String, true, false, not, ◌&&◌, ◌||◌, List, [], ◌∷◌, Option, none,
  some, arith, inl, inr, Bool-cases, Option-cases,
}
use protocol_robustness_fram.Prelude.Int.{ℤ, pos, ◌+ℤ◌, ◌-ℤ◌, ltb_ℤ, eqb_ℤ, eqb_ℤ→eq, int_laws}
use protocol_robustness_fram.Prelude.Result.{
  ok, ◌>>=◌, ◌>>◌, raise_if, >>=-eq-ok, raise_if-eq-ok, ok_inj,
}
use protocol_robustness_fram.Accounting.{
  Event, Expected, Balances, zero_address, elem, lookup, accounts_of, same_accounts, apply_events,
  actual_deltas, deltas_agree, validate_transaction_deltas, negative_balance, different_accounts,
  unreconciled_balances, unreconciled_supply,
}
use protocol_robustness_fram.Accounting.Events.{
  received, sent, minted, burned, apply_events-delta, apply_events-supply,
}
use protocol_robustness_fram.Accounting.Sums.{sum_over, distinct, apply_events-sum}

-- The balance of an account in a snapshot.
abbrev or_zero : Option ℤ → ℤ
or_zero none = pos 0
or_zero (some v) = v

abbrev pub balance_of : Balances → String → ℤ
balance_of b k = or_zero (lookup k b)

-- An inversion of one step of `actual_deltas`.
actual_deltas-step :
    (j : String) (v : ℤ) (before after : Balances) {ds : Balances}
    → actual_deltas ((j, v) ∷ before) after ≡ ok ds
    → (now : ℤ) × (rest : Balances) × (lookup j after ≡ some now)
      × (actual_deltas before after ≡ ok rest)
      × ((j, now -ℤ v) ∷ rest ≡ ds)
unfolding actual_deltas
actual_deltas-step j v before after {ds} h = elim (Option-cases (lookup j after)) [
  | inl missing ↦ ground (arith, missing, h)
  | inr (now, found) ↦
      let h₀ : (raise_if (ltb_ℤ v (pos 0) || ltb_ℤ now (pos 0)) negative_balance
            >> (do rest ← actual_deltas before after; ok ((j, now -ℤ v) ∷ rest)))
          ≡ ok ds =
        cc (h, found) in
      let (_, _, h₁) =
        >>=-eq-ok (raise_if (ltb_ℤ v (pos 0) || ltb_ℤ now (pos 0)) negative_balance) _ h₀ in
      let (rest, rest_ok, h₂) = >>=-eq-ok (actual_deltas before after) _ h₁ in
      (now, rest, found, rest_ok, ok_inj h₂)
]

-- The deltas that the checks compare are those of the balances.
agreed_delta :
    (k : String) (before after : Balances) (delta : String → ℤ) {ds : Balances}
    → elem k (accounts_of before) ≡ true
    → actual_deltas before after ≡ ok ds
    → deltas_agree ds delta ≡ true
    → balance_of after k -ℤ balance_of before k ≡ delta k
unfolding deltas_agree
agreed_delta k [] after delta listed h agree = cc
agreed_delta k ((j, v) ∷ before) after delta listed h agree =
    let (now, rest, found, rest_ok, e) = actual_deltas-step j v before after h in
    let both : eqb_ℤ (now -ℤ v) (delta j) && deltas_agree rest delta ≡ true =
      subst (λ ds. deltas_agree ds delta ≡ true) (sym e) agree in
    elim (Bool-cases (str_eq j k)) [
      | inl same ↦
          let here : j ≡ k = (eq_iff j k).0 same in
          let first : lookup k ((j, v) ∷ before) ≡ some v = ground (arith, same) in
          let last : lookup k after ≡ some now =
            subst (λ x. lookup x after ≡ some now) here found in
          let value : now -ℤ v ≡ delta j = eqb_ℤ→eq (now -ℤ v) (delta j) (ground (arith, both)) in
          cc (ap or_zero first, ap or_zero last, value, here)
      | inr other ↦
          let skipped : lookup k ((j, v) ∷ before) ≡ lookup k before = ground (arith, other) in
          let rest_agrees =
            agreed_delta k before after delta (ground (arith, other, listed)) rest_ok
              (ground (arith, both)) in
          cc (ap or_zero skipped, rest_agrees)
    ]

split_difference : (a b c d : ℤ) → a +ℤ b -ℤ (c +ℤ d) ≡ a -ℤ c +ℤ (b -ℤ d)
split_difference a b c d = omega int_laws

-- Sums of two functions differ by the sum of their differences on the list.
sum_over-difference :
    (ks : List String) (f g delta : String → ℤ)
    → ((k : String) → elem k ks ≡ true → f k -ℤ g k ≡ delta k)
    → sum_over ks f -ℤ sum_over ks g ≡ sum_over ks delta
sum_over-difference [] f g delta h = omega int_laws
sum_over-difference (k ∷ ks) f g delta h =
    let later = sum_over-difference ks f g delta (λ j listed. h j (ground (arith, listed))) in
    let here = h k (ground (arith, eq_iff k k)) in
    split_difference (f k) (sum_over ks f) (g k) (sum_over ks g) ∙ cc (here, later)

sum_over-zero : (ks : List String) → sum_over ks (λ k. pos 0) ≡ pos 0
sum_over-zero [] = refl
sum_over-zero (k ∷ ks) = rw (sum_over-zero ks) (omega int_laws)

regroup : (n s : ℤ) → pos 0 +ℤ n -ℤ s ≡ n -ℤ s
regroup n s = omega int_laws

module _ (events : List Event) (before after : Balances) (supply_before supply_after : ℤ)
    {deltas : Balances}
    (accepted : validate_transaction_deltas events before after supply_before supply_after
      ≡ ok deltas) where
  -- What the checks of an accepted transaction established.
  checked :
      (e : Expected) × (apply_events
          (accounts_of before)
          events
          (record { delta = λ account. pos 0; supply = pos 0 })
        ≡ ok e)
      × (actual_deltas before after ≡ ok deltas)
      × (deltas_agree deltas e.delta ≡ true)
      × (supply_after -ℤ supply_before ≡ e.supply)
  unfolding validate_transaction_deltas
  checked =
      let (_, _, h₁) =
        >>=-eq-ok
          (raise_if (not (same_accounts (accounts_of after) (accounts_of before)))
            different_accounts)
          _ accepted in
      let (e, e_ok, h₂) = >>=-eq-ok (apply_events (accounts_of before) events _) _ h₁ in
      let (ds, ds_ok, h₃) = >>=-eq-ok (actual_deltas before after) _ h₂ in
      let (_, agree, h₄) =
        >>=-eq-ok (raise_if (not (deltas_agree ds e.delta)) unreconciled_balances) _ h₃ in
      let (_, supply, h₅) =
        >>=-eq-ok
          (raise_if (not (eqb_ℤ (supply_after -ℤ supply_before) e.supply)) unreconciled_supply) _
          h₄ in
      let is = ok_inj h₅ in
      let b = raise_if-eq-ok _ unreconciled_balances agree in
      let c = raise_if-eq-ok _ unreconciled_supply supply in
      (
        e,
        e_ok,
        ds_ok ∙ ap ok is,
        subst (λ ds. deltas_agree ds e.delta ≡ true) is (ground (arith, b)),
        eqb_ℤ→eq _ _ (ground (arith, c)),
      )

  -- When a transaction is accepted, the balance of every listed account other than the zero
  -- address changed by what the events moved to it less what they moved from it.
  pub balance-received :
      (k : String)
      → str_eq k zero_address ≡ false
      → elem k (accounts_of before) ≡ true
      → balance_of after k -ℤ balance_of before k ≡ received k events -ℤ sent k events
  balance-received k other listed =
      let (e, e_ok, ds_ok, agree, _) = checked in
      agreed_delta k before after e.delta listed ds_ok agree
      ∙ apply_events-delta (accounts_of before) k other events _ e_ok
      ∙ regroup (received k events) (sent k events)

  -- When a transaction is accepted, the total supply changed by what the events minted less what
  -- they burned.
  supply-minted : supply_after -ℤ supply_before ≡ minted events -ℤ burned events
  supply-minted =
      let (e, e_ok, _, _, supply) = checked in
      supply
      ∙ apply_events-supply (accounts_of before) events _ e_ok
      ∙ regroup (minted events) (burned events)

  -- When a transaction is accepted and no account is listed twice, the sum of all observed
  -- balances changed by exactly the change of the total supply.
  pub total-supply :
      distinct (accounts_of before) ≡ true
      → sum_over (accounts_of before) (balance_of after)
          -ℤ sum_over (accounts_of before) (balance_of before)
        ≡ supply_after -ℤ supply_before
  total-supply once =
      let (e, e_ok, ds_ok, agree, supply) = checked in
      sum_over-difference (accounts_of before) (balance_of after) (balance_of before) e.delta
        (λ k listed. agreed_delta k before after e.delta listed ds_ok agree)
      ∙ apply_events-sum (accounts_of before) once events _ (sum_over-zero (accounts_of before))
          e_ok
      ∙ sym supply

-- ===== src/Accounting/Events.antt =====
-- What the loop over the Transfer events computes, account by account.
use text.Mathlib.Text.{◌==◌ as str_eq}
use text.Mathlib.TextEquality.{eq_iff}
use protocol_robustness_fram.Prelude.{
  ◌≡◌, sym, ap, ◌∙◌, String, false, List, [], ◌∷◌, arith, if◌then◌else◌,
}
use protocol_robustness_fram.Prelude.Int.{ℤ, pos, ◌+ℤ◌, ◌-ℤ◌, ltb_ℤ, int_laws}
use protocol_robustness_fram.Prelude.Result.{ok, raise_if, >>=-eq-ok, ok_inj}
use protocol_robustness_fram.Accounting.{
  Event, Expected, zero_address, debit, credit, apply_events, negative_amount,
}

-- The amounts that the events move to and from one address.
abbrev pub received : String → List Event → ℤ
received k [] = pos 0
received k (e ∷ es) = (if str_eq e.target k then e.amount else pos 0) +ℤ received k es

abbrev pub sent : String → List Event → ℤ
sent k [] = pos 0
sent k (e ∷ es) = (if str_eq e.source k then e.amount else pos 0) +ℤ sent k es

sub_zero : (a : ℤ) → a -ℤ pos 0 ≡ a
sub_zero a = omega int_laws

add_negated : (a b : ℤ) → a +ℤ (pos 0 -ℤ b) ≡ a -ℤ b
add_negated a b = omega int_laws

add_zero : (a : ℤ) → a +ℤ pos 0 ≡ a
add_zero a = omega int_laws

regroup : (a x y r s : ℤ) → a -ℤ x +ℤ y +ℤ r -ℤ s ≡ a +ℤ (y +ℤ r) -ℤ (x +ℤ s)
regroup a x y r s = omega int_laws

regroup' : (a x y r s : ℤ) → a +ℤ x -ℤ y +ℤ r -ℤ s ≡ a +ℤ (x +ℤ r) -ℤ (y +ℤ s)
regroup' a x y r s = omega int_laws

module _ (accounts : List String) (k : String) (other : str_eq k zero_address ≡ false) where
  debit-delta :
      (event : Event) (e : Expected) {e' : Expected}
      → debit accounts event e ≡ ok e'
      → e'.delta k ≡ e.delta k -ℤ (if str_eq event.source k then event.amount else pos 0)
  unfolding debit
  debit-delta event e h = ground (
    arith,
    eq_iff event.source zero_address,
    eq_iff event.source k,
    eq_iff k zero_address,
    sub_zero (e.delta k),
    add_negated (e.delta k) event.amount,
  )

  credit-delta :
      (event : Event) (e : Expected) {e' : Expected}
      → credit accounts event e ≡ ok e'
      → e'.delta k ≡ e.delta k +ℤ (if str_eq event.target k then event.amount else pos 0)
  unfolding credit
  credit-delta event e h = ground (
    arith,
    eq_iff event.target zero_address,
    eq_iff event.target k,
    eq_iff k zero_address,
    add_zero (e.delta k),
  )

  -- The loop adds what the events move to an account and takes what they move from it.
  pub apply_events-delta :
      (events : List Event) (e : Expected) {e' : Expected}
      → apply_events accounts events e ≡ ok e'
      → e'.delta k ≡ e.delta k +ℤ received k events -ℤ sent k events
  unfolding apply_events
  apply_events-delta [] e h = ap (λ (x : Expected). x.delta k) (sym (ok_inj h)) ∙ omega (int_laws)
  apply_events-delta (event ∷ events) e {e'} h =
      let (_, _, h₁) = >>=-eq-ok (raise_if (ltb_ℤ event.amount (pos 0)) negative_amount) _ h in
      let (a, a_ok, h₂) = >>=-eq-ok (debit accounts event e) _ h₁ in
      let (b, b_ok, h₃) = >>=-eq-ok (credit accounts event a) _ h₂ in
      let outgoing = debit-delta event e a_ok in
      let incoming = credit-delta event a b_ok in
      let later = apply_events-delta events b h₃ in
      let x = (if str_eq event.source k then event.amount else pos 0) in
      let y = (if str_eq event.target k then event.amount else pos 0) in
      later
      ∙ ap (λ d. d +ℤ received k events -ℤ sent k events) (incoming ∙ ap (λ d. d +ℤ y) outgoing)
      ∙ regroup (e.delta k) x y (received k events) (sent k events)

-- The amounts that the events create and destroy.
abbrev pub minted : List Event → ℤ
minted [] = pos 0
minted (e ∷ es) = (if str_eq e.source zero_address then e.amount else pos 0) +ℤ minted es

abbrev pub burned : List Event → ℤ
burned [] = pos 0
burned (e ∷ es) = (if str_eq e.target zero_address then e.amount else pos 0) +ℤ burned es

module _ (accounts : List String) where
  debit-supply :
      (event : Event) (e : Expected) {e' : Expected}
      → debit accounts event e ≡ ok e'
      → e'.supply ≡ e.supply +ℤ (if str_eq event.source zero_address then event.amount else pos 0)
  unfolding debit
  debit-supply event e h = ground (arith, add_zero e.supply)

  credit-supply :
      (event : Event) (e : Expected) {e' : Expected}
      → credit accounts event e ≡ ok e'
      → e'.supply ≡ e.supply -ℤ (if str_eq event.target zero_address then event.amount else pos 0)
  unfolding credit
  credit-supply event e h = ground (arith, sub_zero e.supply)

  -- The loop adds what the events mint to the supply and takes what they burn.
  pub apply_events-supply :
      (events : List Event) (e : Expected) {e' : Expected}
      → apply_events accounts events e ≡ ok e'
      → e'.supply ≡ e.supply +ℤ minted events -ℤ burned events
  unfolding apply_events
  apply_events-supply [] e h = ap (λ (x : Expected). x.supply) (sym (ok_inj h)) ∙ omega (int_laws)
  apply_events-supply (event ∷ events) e h =
      let (_, _, h₁) = >>=-eq-ok (raise_if (ltb_ℤ event.amount (pos 0)) negative_amount) _ h in
      let (a, a_ok, h₂) = >>=-eq-ok (debit accounts event e) _ h₁ in
      let (b, b_ok, h₃) = >>=-eq-ok (credit accounts event a) _ h₂ in
      let later = apply_events-supply events b h₃ in
      let x = (if str_eq event.source zero_address then event.amount else pos 0) in
      let y = (if str_eq event.target zero_address then event.amount else pos 0) in
      later
      ∙ ap (λ d. d +ℤ minted events -ℤ burned events)
          (credit-supply event a b_ok ∙ ap (λ d. d -ℤ y) (debit-supply event e a_ok))
      ∙ regroup' e.supply x y (minted events) (burned events)

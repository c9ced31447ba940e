-- ===== src/Accounting/Sums.antt =====
-- Sums over the accounts, and what the loop over the events does to them.
use text.Mathlib.Text.{◌==◌ as str_eq}
use text.Mathlib.TextEquality.{eq_iff}
use protocol_robustness_fram.Prelude.{
  ◌≡◌, refl, ap, ◌∙◌, String, Bool, true, false, not, ◌&&◌, List, [], ◌∷◌, arith, inl, inr,
  Bool-cases,
}
use protocol_robustness_fram.Prelude.Int.{ℤ, pos, ◌+ℤ◌, ◌-ℤ◌, ltb_ℤ, int_laws}
use protocol_robustness_fram.Prelude.Result.{ok, raise_if, >>=-eq-ok}
use protocol_robustness_fram.Accounting.{
  Event, Expected, zero_address, elem, add_delta, debit, credit, apply_events, negative_amount,
}

abbrev pub sum_over : List String → (String → ℤ) → ℤ
sum_over [] f = pos 0
sum_over (k ∷ ks) f = f k +ℤ sum_over ks f

-- No account is listed twice.
abbrev pub distinct : List String → Bool
distinct [] = true
distinct (k ∷ ks) = not (elem k ks) && distinct ks

sum_over-absent :
    (ks : List String) (k : String) (x : ℤ) (f : String → ℤ)
    → elem k ks ≡ false
    → sum_over ks (add_delta k x f) ≡ sum_over ks f
sum_over-absent [] k x f h = refl
sum_over-absent (j ∷ ks) k x f h =
    let here : add_delta k x f j ≡ f j =
      unfold add_delta in ground (arith, eq_iff j k, eq_iff k j) in
    rw (here, sum_over-absent ks k x f (ground (arith, h)))

head_shift : (a x s : ℤ) → a +ℤ x +ℤ s ≡ a +ℤ s +ℤ x
head_shift a x s = omega int_laws

tail_shift : (a s x : ℤ) → a +ℤ (s +ℤ x) ≡ a +ℤ s +ℤ x
tail_shift a s x = omega int_laws

-- Adding to one of distinct accounts adds to the sum.
pub sum_over-add_delta :
    (ks : List String) (k : String) (x : ℤ) (f : String → ℤ)
    → distinct ks ≡ true
    → elem k ks ≡ true
    → sum_over ks (add_delta k x f) ≡ sum_over ks f +ℤ x
sum_over-add_delta [] k x f d h = cc
sum_over-add_delta (j ∷ ks) k x f d h = elim (Bool-cases (str_eq j k)) [
  | inl same ↦
      let e : j ≡ k = (eq_iff j k).0 same in
      let here : add_delta k x f j ≡ f j +ℤ x =
        unfold add_delta in ground (arith, eq_iff j k, eq_iff k j) in
      let gone : elem k ks ≡ false = rw (← e) (ground (arith, d)) in
      rw (here, sum_over-absent ks k x f gone) (head_shift (f j) x (sum_over ks f))
  | inr other ↦
      let here : add_delta k x f j ≡ f j =
        unfold add_delta in ground (arith, eq_iff j k, eq_iff k j) in
      rw (here, sum_over-add_delta ks k x f (ground (arith, d)) (ground (arith, h, other)))
        (tail_shift (f j) (sum_over ks f) x)
]

take_back : (a b : ℤ) → a ≡ a +ℤ b -ℤ b
take_back a b = omega int_laws

give_back : (a b : ℤ) → a -ℤ b +ℤ b ≡ a
give_back a b = omega int_laws

add_negated : (a b : ℤ) → a +ℤ (pos 0 -ℤ b) ≡ a -ℤ b
add_negated a b = omega int_laws

module _ (accounts : List String) (d : distinct accounts ≡ true) where
  -- Between the debit and the credit of an event its amount is missing from the accounts.
  debit-sum :
      (event : Event) (e : Expected) {e' : Expected}
      → sum_over accounts e.delta ≡ e.supply
      → debit accounts event e ≡ ok e'
      → sum_over accounts e'.delta ≡ e'.supply -ℤ event.amount
  unfolding debit
  debit-sum event e {e'} h k = elim (Bool-cases (str_eq event.source zero_address)) [
    | inl minting ↦
        let kept : e'.delta ≡ e.delta = ground (arith, minting, k) in
        let raised : e'.supply ≡ e.supply +ℤ event.amount = ground (arith, minting, k) in
        rw (kept, raised) (h ∙ take_back e.supply event.amount)
    | inr moving ↦
        let listed : elem event.source accounts ≡ true = ground (arith, moving, k) in
        let less : e'.delta ≡ add_delta event.source (pos 0 -ℤ event.amount) e.delta =
          ground (arith, moving, k) in
        let kept : e'.supply ≡ e.supply = ground (arith, moving, k) in
        rw (less, kept)
          (sum_over-add_delta accounts event.source (pos 0 -ℤ event.amount) e.delta d listed
            ∙ ap (λ x. x +ℤ (pos 0 -ℤ event.amount)) h
            ∙ add_negated e.supply event.amount)
  ]

  credit-sum :
      (event : Event) (e : Expected) {e' : Expected}
      → sum_over accounts e.delta ≡ e.supply -ℤ event.amount
      → credit accounts event e ≡ ok e'
      → sum_over accounts e'.delta ≡ e'.supply
  unfolding credit
  credit-sum event e {e'} h k = elim (Bool-cases (str_eq event.target zero_address)) [
    | inl burning ↦
        let kept : e'.delta ≡ e.delta = ground (arith, burning, k) in
        let lowered : e'.supply ≡ e.supply -ℤ event.amount = ground (arith, burning, k) in
        rw (kept, lowered) h
    | inr moving ↦
        let listed : elem event.target accounts ≡ true = ground (arith, moving, k) in
        let more : e'.delta ≡ add_delta event.target event.amount e.delta =
          ground (arith, moving, k) in
        let kept : e'.supply ≡ e.supply = ground (arith, moving, k) in
        rw (more, kept)
          (sum_over-add_delta accounts event.target event.amount e.delta d listed
            ∙ ap (λ x. x +ℤ event.amount) h
            ∙ give_back e.supply event.amount)
  ]

  pub apply_events-sum :
      (events : List Event) (e : Expected) {e' : Expected}
      → sum_over accounts e.delta ≡ e.supply
      → apply_events accounts events e ≡ ok e'
      → sum_over accounts e'.delta ≡ e'.supply
  unfolding apply_events
  apply_events-sum [] e h k = cc
  apply_events-sum (event ∷ events) e h k =
      let (_, _, k₁) = >>=-eq-ok (raise_if (ltb_ℤ event.amount (pos 0)) negative_amount) _ k in
      let (a, a_ok, k₂) = >>=-eq-ok (debit accounts event e) _ k₁ in
      let (b, b_ok, k₃) = >>=-eq-ok (credit accounts event a) _ k₂ in
      apply_events-sum events b (credit-sum event a (debit-sum event e h a_ok) b_ok) k₃

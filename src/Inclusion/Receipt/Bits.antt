-- ===== src/Inclusion/Receipt/Bits.antt =====
-- `bloom[255 - bit // 8] |= 1 << (bit % 8)`: it sets its bit and clears none.
use Prim.Native.Nat.{bit_or}
use protocol_robustness_fram.Prelude.{
  ℕ, zero, suc, ◌-◌, ◌/◌, ◌%◌, ◌^◌, ◌<◌, ◌≡◌, ◌≢◌, refl, sym, ap, subst, ◌∙◌, Bool, true, ◌&&◌, [],
  ◌∷◌, arith, ltb, ◌==◌, ==_iff, length, get_or, set, All, inl, inr, Bool-cases, if◌then◌else◌,
}
use protocol_robustness_fram.Inclusion.Bytes.{Bytes}
use protocol_robustness_fram.Inclusion.Receipt.{set_bit}

-- Bit `k` of a byte.
abbrev pub digit : ℕ → ℕ → ℕ
digit x k = x / 2 ^ k % 2

-- A test passed by every number below a bound.
holds_until : (test : ℕ → Bool) → ℕ → Bool
holds_until test zero = true
holds_until test (suc bound) = holds_until test bound && test bound

holds_until-at :
    (test : ℕ → Bool) (bound i : ℕ) → i < bound → holds_until test bound ≡ true → test i ≡ true
unfolding holds_until
holds_until-at test zero i below passed = absurd (omega arith)
holds_until-at test (suc bound) i below passed = ground (arith, passed, holds_until-at test bound i)

-- What `byte | 1 << k` does to bit `j`, and that it stays a byte.
or_row : ℕ → ℕ → ℕ → Bool
or_row x k j =
    ltb (bit_or x (2 ^ k)) 256
    && (if j == k then digit (bit_or x (2 ^ k)) j == 1 else digit (bit_or x (2 ^ k)) j == digit x j)

or_table : holds_until (λ x. holds_until (λ k. holds_until (or_row x k) 8) 8) 256 ≡ true
unfolding holds_until or_row
or_table = refl

or_lem : (x k j : ℕ) → x < 256 → k < 8 → j < 8 → or_row x k j ≡ true
or_lem x k j hx hk hj =
    let row =
      holds_until-at (λ x. holds_until (λ k. holds_until (or_row x k) 8) 8) 256 x hx or_table in
    let cell = holds_until-at (λ k. holds_until (or_row x k) 8) 8 k hk row in
    holds_until-at (or_row x k) 8 j hj cell

get_or-set_self : (xs : Bytes) (i v : ℕ) → i < length xs → get_or (set xs i v) i 0 ≡ v
get_or-set_self [] i v h = absurd (omega arith)
get_or-set_self (x ∷ xs) zero v h = refl
get_or-set_self (x ∷ xs) (suc i) v h = get_or-set_self xs i v (omega arith)

get_or-set_ne : (xs : Bytes) (i j v : ℕ) → i ≢ j → get_or (set xs i v) j 0 ≡ get_or xs j 0
get_or-set_ne [] i j v h = refl
get_or-set_ne (x ∷ xs) zero zero v h = absurd (h refl)
get_or-set_ne (x ∷ xs) zero (suc j) v h = refl
get_or-set_ne (x ∷ xs) (suc i) zero v h = refl
get_or-set_ne (x ∷ xs) (suc i) (suc j) v h = get_or-set_ne xs i j v (λ e. h (ap suc e))

length-set : (xs : Bytes) (i v : ℕ) → length (set xs i v) ≡ length xs
length-set [] i v = refl
length-set (x ∷ xs) zero v = refl
length-set (x ∷ xs) (suc i) v = ap suc (length-set xs i v)

All-set : (xs : Bytes) (i v : ℕ) → v < 256 → All (λ b. b < 256) xs → All (λ b. b < 256) (set xs i v)
All-set [] i v h a = a
All-set (x ∷ xs) zero v h a = (h, a.1)
All-set (x ∷ xs) (suc i) v h a = (a.0, All-set xs i v h a.1)

get_or-byte : (xs : Bytes) (i : ℕ) → All (λ b. b < 256) xs → get_or xs i 0 < 256
get_or-byte [] i a = omega arith
get_or-byte (x ∷ xs) zero a = a.0
get_or-byte (x ∷ xs) (suc i) a = get_or-byte xs i a.1

-- A bloom filter of 256 bytes.
pub record IsBloom (bloom : Bytes) : Type 0 where
  pub width : length bloom ≡ 256
  pub are_bytes : All (λ b. b < 256) bloom

abbrev pub has_bit : ℕ → Bytes → Bool
has_bit bit bloom = digit (get_or bloom (255 - bit / 8) 0) (bit % 8) == 1

module _ (bit : ℕ) (bloom : Bytes) (w : IsBloom bloom) where
  pub set_bit-IsBloom : IsBloom (set_bit bit bloom)
  unfolding set_bit or_row
  set_bit-IsBloom =
      let old = get_or bloom (255 - bit / 8) 0 in
      let row =
        or_lem old (bit % 8) 0 (get_or-byte bloom (255 - bit / 8) w.are_bytes) (omega arith)
          (omega arith) in
      record {
        width = length-set bloom (255 - bit / 8) (bit_or old (2 ^ (bit % 8))) ∙ w.width;
        are_bytes =
            All-set bloom (255 - bit / 8) (bit_or old (2 ^ (bit % 8))) (ground (arith, row))
              w.are_bytes;
      }

  pub has_bit-set_bit_self : has_bit bit (set_bit bit bloom) ≡ true
  unfolding set_bit or_row
  has_bit-set_bit_self =
      let place = 255 - bit / 8 in
      let old = get_or bloom place 0 in
      let row =
        or_lem old (bit % 8) (bit % 8) (get_or-byte bloom place w.are_bytes) (omega arith)
          (omega arith) in
      rw (get_or-set_self bloom place (bit_or old (2 ^ (bit % 8))) (omega arith))
        (ground (arith, row))

  pub has_bit-set_bit : (c : ℕ) → has_bit c bloom ≡ true → has_bit c (set_bit bit bloom) ≡ true
  unfolding set_bit or_row
  has_bit-set_bit c h =
      let place = 255 - bit / 8 in
      let old = get_or bloom place 0 in
      let new = bit_or old (2 ^ (bit % 8)) in
      let row =
        or_lem old (bit % 8) (c % 8) (get_or-byte bloom place w.are_bytes) (omega arith)
          (omega arith) in
      elim (Bool-cases (place == 255 - c / 8)) [
        | inl same ↦
            let e : place ≡ 255 - c / 8 = (==_iff place (255 - c / 8)).0 same in
            let found : get_or (set bloom place new) (255 - c / 8) 0 ≡ new =
              subst (λ p. get_or (set bloom place new) p 0 ≡ new) e
                (get_or-set_self bloom place new (omega arith)) in
            let h' : (digit old (c % 8) == 1) ≡ true =
              subst (λ p. (digit (get_or bloom p 0) (c % 8) == 1) ≡ true) (sym e) h in
            rw found (ground (arith, row, h'))
        | inr other ↦ rw (get_or-set_ne bloom place (255 - c / 8) new (ground (arith, other))) h
      ]

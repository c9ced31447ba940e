-- ===== src/Inclusion/Bytes/Integers.antt =====
-- The canonical big-endian integers that `_rlp_int` reads and `int.to_bytes` writes.
use mathlib.Core.Path.{ap₂}
use mathlib.Core.List.{append-nil}
use protocol_robustness_fram.Prelude.{
  ℕ, zero, suc, ◌+◌, ◌*◌, ◌/◌, ◌%◌, ◌≤◌, ◌<◌, ◌≡◌, refl, sym, ap, ◌∙◌, inl, inr, false, String, [],
  ◌∷◌, ◌++◌, arith, ◌==◌, All, Bool-cases,
}
use protocol_robustness_fram.Prelude.Result.{ok}
use protocol_robustness_fram.Inclusion.Bytes.{
  Bytes, from_big_endian, big_endian, to_big_endian, leading_zero, rlp_int,
}

-- Any fuel of at least `n` gives the same digits.
big_endian_fuel :
    (f g n : ℕ) (acc : Bytes) → n ≤ f → n ≤ g → big_endian f n acc ≡ big_endian g n acc
unfolding big_endian
big_endian_fuel zero zero n acc h k = refl
big_endian_fuel zero (suc g) n acc h k = ground arith
big_endian_fuel (suc f) zero n acc h k = ground arith
big_endian_fuel (suc f) (suc g) n acc h k =
    ground (arith, big_endian_fuel f g (n / 256) ((n % 256) ∷ acc))

abbrev digits_before : ℕ → Bytes → Bytes
digits_before n acc = big_endian n n acc

-- One digit is the remainder, and the others are those of the quotient.
digits_before-step :
    (n : ℕ) (acc : Bytes) → 0 < n → digits_before n acc ≡ digits_before (n / 256) ((n % 256) ∷ acc)
unfolding big_endian
digits_before-step zero acc h = absurd (omega arith)
digits_before-step (suc n) acc h =
    ground (arith, big_endian_fuel n (suc n / 256) (suc n / 256) ((suc n % 256) ∷ acc))

digits_before-push :
    (m b : ℕ) (acc : Bytes)
    → 0 < m
    → b < 256
    → digits_before (m * 256 + b) acc ≡ digits_before m (b ∷ acc)
digits_before-push m b acc h k =
    let q : (m * 256 + b) / 256 ≡ m = omega arith in
    let r : (m * 256 + b) % 256 ≡ b = omega arith in
    digits_before-step (m * 256 + b) acc (omega arith) ∙ ap₂ (λ x y. digits_before x (y ∷ acc)) q r

abbrev AreBytes : Bytes → Type 0
AreBytes = All (λ b. b < 256)

from_big_endian_pos : (m : ℕ) (bs : Bytes) → 0 < m → 0 < from_big_endian m bs
unfolding from_big_endian
from_big_endian_pos m [] h = h
from_big_endian_pos m (b ∷ bs) h = from_big_endian_pos (m * 256 + b) bs (omega arith)

digits_before-from_big_endian :
    (m : ℕ) (bs acc : Bytes)
    → 0 < m
    → AreBytes bs
    → digits_before (from_big_endian m bs) acc ≡ digits_before m (bs ++ acc)
unfolding from_big_endian
digits_before-from_big_endian m [] acc h k = refl
digits_before-from_big_endian m (b ∷ bs) acc h k =
    digits_before-from_big_endian (m * 256 + b) bs acc (omega arith) k.1
    ∙ digits_before-push m b (bs ++ acc) h k.0

digits_before-byte : (b : ℕ) (acc : Bytes) → 0 < b → b < 256 → digits_before b acc ≡ b ∷ acc
unfolding big_endian
digits_before-byte b acc h k =
    let q : b / 256 ≡ 0 = omega arith in
    let r : b % 256 ≡ b = omega arith in
    digits_before-step b acc h ∙ ap₂ (λ x y. digits_before x (y ∷ acc)) q r

-- Every byte string that `_rlp_int` accepts is the minimal big-endian form of the number that it
-- returns.
pub to_big_endian-rlp_int :
    (bs : Bytes) (label : String) {n : ℕ}
    → AreBytes bs
    → rlp_int bs label ≡ ok n
    → to_big_endian n ≡ bs
unfolding rlp_int to_big_endian
to_big_endian-rlp_int [] label k h = ground arith
to_big_endian-rlp_int (b ∷ bs) label {n} k h =
    let first : 0 < b = ground arith in
    let e : from_big_endian b bs ≡ n = ground arith in
    ap (λ v. digits_before v []) (sym e)
    ∙ digits_before-from_big_endian b bs [] first k.1
    ∙ digits_before-byte b (bs ++ []) first k.0
    ∙ ap (λ r. b ∷ r) (append-nil bs)

from_big_endian-digits :
    (fuel n : ℕ) (acc : Bytes)
    → n ≤ fuel
    → from_big_endian 0 (big_endian fuel n acc) ≡ from_big_endian n acc
unfolding big_endian from_big_endian
from_big_endian-digits zero n acc h = let e : n ≡ 0 = omega arith in rw e
from_big_endian-digits (suc fuel) n acc h = elim (Bool-cases (n == 0)) [
  | inl done ↦ let e : n ≡ 0 = ground (arith, done) in rw (done, e)
  | inr more ↦
      let whole : n / 256 * 256 + n % 256 ≡ n = omega arith in
      rw more (
        from_big_endian-digits fuel (n / 256) ((n % 256) ∷ acc) (ground (arith, more))
        ∙ ap (λ v. from_big_endian v acc) whole)
]

leading_zero-digits :
    (fuel n : ℕ) (acc : Bytes) → 0 < n → n ≤ fuel → leading_zero (big_endian fuel n acc) ≡ false
unfolding big_endian leading_zero
leading_zero-digits zero n acc p h = absurd (omega arith)
leading_zero-digits (suc fuel) n acc p h = elim (Bool-cases (n / 256 == 0)) [
  | inl last ↦ ground (arith, last, big_endian_fuel fuel 0 (n / 256) ((n % 256) ∷ acc))
  | inr more ↦ ground (arith, more, leading_zero-digits fuel (n / 256) ((n % 256) ∷ acc))
]

-- `_rlp_int` reads back every number from the bytes that `int.to_bytes` writes for it.
rlp_int-to_big_endian : (n : ℕ) (label : String) → rlp_int (to_big_endian n) label ≡ ok n
unfolding rlp_int to_big_endian
rlp_int-to_big_endian zero label = ground arith
rlp_int-to_big_endian (suc n) label =
    rw (leading_zero-digits (suc n) (suc n) [] (omega arith) (omega arith))
      (ap ok (from_big_endian-digits (suc n) (suc n) [] (omega arith)))

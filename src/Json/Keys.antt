-- ===== src/Json/Keys.antt =====
-- The hashable values as keys of a dict or a Counter: `True` and `1` are one key.
use text.Mathlib.Text.{◌==◌ as str_eq}
use text.Mathlib.TextEquality.{eq_iff}
use protocol_robustness_fram.Prelude.{◌≡◌, refl, ap, ◌↔◌, String, Bool, true, false}
use protocol_robustness_fram.Prelude.Int.{ℤ, eqb_ℤ, eqb_ℤ→eq, eqb_ℤ_refl}

pub data Key : Type 0 where
  nothing : Key
  number : ℤ → Key
  word : String → Key

abbrev pub same_key : Key → Key → Bool
same_key nothing nothing = true
same_key (number m) (number n) = eqb_ℤ m n
same_key (word s) (word t) = str_eq s t
same_key _ _ = false

number_same : (m n : ℤ) → m ≡ n → eqb_ℤ m n ≡ true
number_same m n e = rw e (eqb_ℤ_refl n)

pub same_key_iff : (a b : Key) → (same_key a b ≡ true) ↔ (a ≡ b)
same_key_iff nothing nothing = (λ h. refl, λ e. refl)
same_key_iff nothing (number n) = (λ h. cc, λ e. cc)
same_key_iff nothing (word t) = (λ h. cc, λ e. cc)
same_key_iff (number m) nothing = (λ h. cc, λ e. cc)
same_key_iff (number m) (number n) = (λ h. ap number (eqb_ℤ→eq m n h), λ e. number_same m n (cc e))
same_key_iff (number m) (word t) = (λ h. cc, λ e. cc)
same_key_iff (word s) nothing = (λ h. cc, λ e. cc)
same_key_iff (word s) (number n) = (λ h. cc, λ e. cc)
same_key_iff (word s) (word t) = (λ h. ap word ((eq_iff s t).0 h), λ e. (eq_iff s t).1 (cc e))

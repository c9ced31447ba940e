-- ===== src/Prelude/Filter.antt =====
-- Membership in lists and in filtered lists.
use mathlib.Core.List.{Memᴰ}
use mathlib.Core.List.Memᴰ
use protocol_robustness_fram.Prelude.{
  ◌≤◌, ◌<◌, ◌≡◌, refl, ap, subst, sym, ◌∙◌, Bool, true, false, inl, inr, Bool-cases, List, [], ◌∷◌,
  arith, length, All, filter, is_empty, if◌then◌else◌,
}

module _ {A : Type 0} (p : A → Bool) where
  pub filter-accept : (x : A) (xs : List A) → p x ≡ true → filter p (x ∷ xs) ≡ x ∷ filter p xs
  filter-accept x xs h = ap (λ b. if b then x ∷ filter p xs else filter p xs) h

  pub filter-reject : (x : A) (xs : List A) → p x ≡ false → filter p (x ∷ xs) ≡ filter p xs
  filter-reject x xs h = ap (λ b. if b then x ∷ filter p xs else filter p xs) h

  pub Mem-filter : (xs : List A) {x : A} → Memᴰ x xs → p x ≡ true → Memᴰ x (filter p xs)
  Mem-filter [] m h = elim m [ ]
  Mem-filter (y ∷ xs) {x} m h = elim (Memᴰ.cases_cons m) [
    | inl first ↦ subst (Memᴰ x) (sym (filter-accept y xs (ap p (sym first) ∙ h))) (Memᴰ.head first)
    | inr later ↦ elim (Bool-cases (p y)) [
      | inl kept ↦
          subst (Memᴰ x) (sym (filter-accept y xs kept)) (Memᴰ.tail (Mem-filter xs later h))
      | inr dropped ↦ subst (Memᴰ x) (sym (filter-reject y xs dropped)) (Mem-filter xs later h)
    ]
  ]

  pub Mem-of-filter : (xs : List A) {x : A} → Memᴰ x (filter p xs) → Memᴰ x xs × (p x ≡ true)
  Mem-of-filter [] m = elim m [ ]
  Mem-of-filter (y ∷ xs) {x} m = elim (Bool-cases (p y)) [
    | inl kept ↦ elim (Memᴰ.cases_cons (subst (Memᴰ x) (filter-accept y xs kept) m)) [
      | inl first ↦ (Memᴰ.head first, ap p first ∙ kept)
      | inr later ↦ let (found, holds) = Mem-of-filter xs later in (Memᴰ.tail found, holds)
    ]
    | inr dropped ↦
        let (found, holds) = Mem-of-filter xs (subst (Memᴰ x) (filter-reject y xs dropped) m) in
        (Memᴰ.tail found, holds)
  ]

  pub length-filter : (xs : List A) → length (filter p xs) ≤ length xs
  length-filter [] = omega arith
  length-filter (x ∷ xs) = ground (arith, length-filter xs)

  -- A list with a rejected element gets shorter.
  pub length-filter-reject :
      (xs : List A) {x : A} → Memᴰ x xs → p x ≡ false → length (filter p xs) < length xs
  length-filter-reject [] m h = elim m [ ]
  length-filter-reject (y ∷ xs) m h = elim (Memᴰ.cases_cons m) [
    | inl first ↦ ground (arith, length-filter xs, ap p (sym first) ∙ h)
    | inr later ↦ ground (arith, length-filter-reject xs later h)
  ]

pub is_empty-Mem : {A : Type 0} (xs : List A) {x : A} → Memᴰ x xs → is_empty xs ≡ false
is_empty-Mem [] m = elim m [ ]
is_empty-Mem (x ∷ xs) m = refl

pub is_empty-none : {A : Type 0} (xs : List A) → ((x : A) → Memᴰ x xs → ⊥) → is_empty xs ≡ true
is_empty-none [] h = refl
is_empty-none (x ∷ xs) h = absurd (h x (Memᴰ.head refl))

pub filter-is_empty :
    {A : Type 0} (p : A → Bool) (xs : List A) → is_empty xs ≡ true → is_empty (filter p xs) ≡ true
filter-is_empty p [] h = refl
filter-is_empty p (x ∷ xs) h = cc

pub All-Mem : {A : Type 0} (P : A → Type 0) (xs : List A) {x : A} → All P xs → Memᴰ x xs → P x
All-Mem P [] a m = elim m [ ]
All-Mem P (x ∷ xs) (p, a) m = elim (Memᴰ.cases_cons m) [
  | inl first ↦ subst P (sym first) p
  | inr later ↦ All-Mem P xs a later
]

module _ {A : Type 0} (p q : A → Bool) (weaker : (x : A) → p x ≡ true → q x ≡ true) where
  pub length-filter_le : (xs : List A) → length (filter p xs) ≤ length (filter q xs)
  length-filter_le [] = omega arith
  length-filter_le (x ∷ xs) = elim (Bool-cases (p x)) [
    | inl kept ↦ ground (arith, kept, weaker x kept, length-filter_le xs)
    | inr dropped ↦ ground (arith, dropped, length-filter_le xs)
  ]

  pub length-filter_lt :
      (xs : List A) {x : A}
      → Memᴰ x xs
      → p x ≡ false
      → q x ≡ true
      → length (filter p xs) < length (filter q xs)
  length-filter_lt [] m out kept = elim m [ ]
  length-filter_lt (y ∷ xs) {x} m out kept = elim (Memᴰ.cases_cons m) [
    | inl first ↦
        ground (arith, ap p (sym first) ∙ out, ap q (sym first) ∙ kept, length-filter_le xs)
    | inr later ↦ elim (Bool-cases (p y)) [
      | inl in_both ↦ ground (arith, in_both, weaker y in_both, length-filter_lt xs later out kept)
      | inr dropped ↦ ground (arith, dropped, length-filter_lt xs later out kept)
    ]
  ]

-- ===== src/Json/Dict.antt =====
-- A Python dict that is built and changed: the functions behind `d[k] = v`, `setdefault`, `update`
-- and the comprehension that leaves out keys. A dict keeps the place of a key that is overwritten.
use text.Mathlib.Text.{◌==◌ as str_eq}
use text.Mathlib.TextEquality.{eq_iff}
use protocol_robustness_fram.Prelude.{
  ◌≡◌, refl, ap, String, true, false, List, [], ◌∷◌, none, some, is_some, inl, inr, Bool-cases,
  arith, if◌then◌else◌,
}
use protocol_robustness_fram.Json.{Json, Fields, end, field, lookup, get, elem}

-- `{k: v for k, v in data.items() if k not in exclude}`
unfoldable pub without : List String → Fields → Fields
without ks end = end
without ks (field k v fs) = let rest = without ks fs in if elem k ks then rest else field k v rest

-- `d[k] = v`
unfoldable pub put : String → Json → Fields → Fields
put k v end = field k v end
put k v (field j w fs) =
    let rest = put k v fs in if str_eq j k then field k v (without (k ∷ []) fs) else field j w rest

-- `d.setdefault(k, v)`
unfoldable pub set_default : String → Json → Fields → Fields
set_default k v fs = if is_some (lookup k fs) then fs else put k v fs

-- `d.update(new)`
unfoldable pub update : Fields → Fields → Fields
update fs end = fs
update fs (field k v new) = update (put k v fs) new

pub lookup-without :
    (j : String) (ks : List String) (fs : Fields)
    → elem j ks ≡ false
    → lookup j (without ks fs) ≡ lookup j fs
unfolding without
lookup-without j ks end h = refl
lookup-without j ks (field k v fs) h = elim (Bool-cases (str_eq k j)) [
  | inl same ↦
      ground
        (arith, h, lookup-without j ks fs h, ap (λ (s : String). elem s ks) ((eq_iff k j).0 same))
  | inr other ↦ elim (Bool-cases (elem k ks)) [
    | inl out ↦ ground (arith, lookup-without j ks fs h, other, out)
    | inr kept ↦ ground (arith, lookup-without j ks fs h, other, kept)
  ]
]

pub lookup-without_self :
    (j : String) (ks : List String) (fs : Fields)
    → elem j ks ≡ true
    → lookup j (without ks fs) ≡ none
unfolding without
lookup-without_self j ks end h = refl
lookup-without_self j ks (field k v fs) h = elim (Bool-cases (elem k ks)) [
  | inl out ↦ ground (arith, lookup-without_self j ks fs h, out)
  | inr kept ↦ elim (Bool-cases (str_eq k j)) [
    | inl same ↦ ground (arith, h, kept, ap (λ (s : String). elem s ks) ((eq_iff k j).0 same))
    | inr other ↦ ground (arith, lookup-without_self j ks fs h, other, kept)
  ]
]

pub lookup-put_self : (k : String) (v : Json) (fs : Fields) → lookup k (put k v fs) ≡ some v
unfolding put
lookup-put_self k v end = ground (arith, eq_iff k k)
lookup-put_self k v (field j w fs) = elim (Bool-cases (str_eq j k)) [
  | inl same ↦
      ground
        (arith, same, eq_iff k k, lookup-without_self k (k ∷ []) fs (ground (arith, eq_iff k k)))
  | inr other ↦ ground (arith, other, lookup-put_self k v fs)
]

pub lookup-put_other :
    (j k : String) (v : Json) (fs : Fields)
    → str_eq k j ≡ false
    → lookup j (put k v fs) ≡ lookup j fs
unfolding put
lookup-put_other j k v end h = ground (arith, h)
lookup-put_other j k v (field i w fs) h = elim (Bool-cases (str_eq i k)) [
  | inl same ↦ ground (
    arith,
    same,
    h,
    eq_iff i k,
    eq_iff k i,
    eq_iff i j,
    eq_iff k j,
    lookup-without j (k ∷ []) fs (ground (arith, h)),
  )
  | inr other ↦ ground (arith, other, lookup-put_other j k v fs h)
]

without-without :
    (k : String) (ks : List String) (fs : Fields)
    → elem k ks ≡ true
    → without ks (without (k ∷ []) fs) ≡ without ks fs
unfolding without
without-without k ks end h = refl
without-without k ks (field j v fs) h = elim (Bool-cases (str_eq k j)) [
  | inl same ↦ ground (
    arith,
    same,
    h,
    without-without k ks fs h,
    ap (λ (s : String). elem s ks) ((eq_iff k j).0 same),
  )
  | inr other ↦ elim (Bool-cases (elem j ks)) [
    | inl out ↦ ground (arith, other, out, without-without k ks fs h)
    | inr kept ↦ ground (arith, other, kept, without-without k ks fs h)
  ]
]

-- What is left out of a dict may be set to anything before.
pub without-put :
    (k : String) (v : Json) (ks : List String) (fs : Fields)
    → elem k ks ≡ true
    → without ks (put k v fs) ≡ without ks fs
unfolding put without
without-put k v ks end h = ground (arith, h)
without-put k v ks (field j w fs) h = elim (Bool-cases (str_eq j k)) [
  | inl same ↦ ground (
    arith,
    same,
    h,
    without-without k ks fs h,
    ap (λ (s : String). elem s ks) ((eq_iff j k).0 same),
  )
  | inr other ↦ elim (Bool-cases (elem j ks)) [
    | inl out ↦ ground (arith, other, out, without-put k v ks fs h)
    | inr kept ↦ ground (arith, other, kept, without-put k v ks fs h)
  ]
]

pub without-set_default :
    (k : String) (v : Json) (ks : List String) (fs : Fields)
    → elem k ks ≡ true
    → without ks (set_default k v fs) ≡ without ks fs
unfolding set_default
without-set_default k v ks fs h = ground (arith, without-put k v ks fs h)

pub get-put_self : (k : String) (v : Json) (fs : Fields) → get k (put k v fs) ≡ v
get-put_self k v fs = ground (arith, lookup-put_self k v fs)

pub get-put_other :
    (j k : String) (v : Json) (fs : Fields) → str_eq k j ≡ false → get j (put k v fs) ≡ get j fs
get-put_other j k v fs h = ground (arith, lookup-put_other j k v fs h)

pub set_default-present :
    (k : String) (v : Json) (fs : Fields) {w : Json}
    → lookup k fs ≡ some w
    → set_default k v fs ≡ fs
unfolding set_default
set_default-present k v fs h = ground (arith, h)

pub get-set_default_missing :
    (k : String) (v : Json) (fs : Fields) → lookup k fs ≡ none → get k (set_default k v fs) ≡ v
unfolding set_default
get-set_default_missing k v fs h = ground (arith, h, get-put_self k v fs)

pub lookup-set_default_other :
    (j k : String) (v : Json) (fs : Fields)
    → str_eq k j ≡ false
    → lookup j (set_default k v fs) ≡ lookup j fs
unfolding set_default
lookup-set_default_other j k v fs h = elim (Bool-cases (is_some (lookup k fs))) [
  | inl present ↦ ground (arith, present)
  | inr missing ↦ ground (arith, missing, lookup-put_other j k v fs h)
]

pub get-set_default_other :
    (j k : String) (v : Json) (fs : Fields)
    → str_eq k j ≡ false
    → get j (set_default k v fs) ≡ get j fs
get-set_default_other j k v fs h = ground (arith, lookup-set_default_other j k v fs h)

-- ===== src/Json/Equality.antt =====
-- Python's `==` and truth value on the dynamic values, for dicts without repeated keys.
use text.Mathlib.Text.{◌==◌ as str_eq}
use protocol_robustness_fram.Prelude.{Bool, true, false, ◌&&◌, not, none, some, length, ◌==◌}
use protocol_robustness_fram.Prelude.Int.{ℤ, pos, eqb_ℤ}
use protocol_robustness_fram.Json.{
  Json, null, bool, int, str, arr, obj, Items, nil, cons, Fields, end, field, lookup, keys,
}

-- `True == 1` and `False == 0`
abbrev pub bool_value : Bool → ℤ
bool_value true = pos 1
bool_value false = pos 0

abbrev pub same_scalar : Json → Json → Bool
same_scalar null null = true
same_scalar (bool a) (bool b) = eqb_ℤ (bool_value a) (bool_value b)
same_scalar (bool a) (int n) = eqb_ℤ (bool_value a) n
same_scalar (int n) (bool a) = eqb_ℤ n (bool_value a)
same_scalar (int n) (int k) = eqb_ℤ n k
same_scalar (str s) (str t) = str_eq s t
same_scalar _ _ = false

unfoldable mutual
  pub same_value : Json → Json → Bool
  same_value (arr xs) v = elim v [ arr ys ↦ same_items xs ys | _ ↦ false ]
  same_value (obj fs) v = elim v [
    | obj gs ↦ length (keys fs) == length (keys gs) && same_fields fs gs
    | _ ↦ false
  ]
  same_value null v = same_scalar null v
  same_value (bool b) v = same_scalar (bool b) v
  same_value (int n) v = same_scalar (int n) v
  same_value (str s) v = same_scalar (str s) v

  pub same_items : Items → Items → Bool
  same_items nil ys = elim ys [ nil ↦ true | cons y ys ↦ false ]
  same_items (cons x xs) ys = elim ys [
    | nil ↦ false
    | cons y ys ↦ same_value x y && same_items xs ys
  ]

  pub same_fields : Fields → Fields → Bool
  same_fields end gs = true
  same_fields (field k v fs) gs =
      elim (lookup k gs) [ none ↦ false | some w ↦ same_value v w ] && same_fields fs gs

-- `bool(value)`
abbrev pub is_truthy : Json → Bool
is_truthy null = false
is_truthy (bool b) = b
is_truthy (int n) = not (eqb_ℤ n (pos 0))
is_truthy (str s) = not (str_eq s "")
is_truthy (arr nil) = false
is_truthy (arr (cons x xs)) = true
is_truthy (obj end) = false
is_truthy (obj (field k v fs)) = true

-- `value is None`
abbrev pub is_null : Json → Bool
is_null null = true
is_null _ = false

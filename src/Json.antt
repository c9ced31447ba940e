-- ===== src/Json.antt =====
-- The values that `json.loads` returns to the Python scripts: one data type for the dynamic
-- values, with the accessors of `dict` and the `isinstance` tests as functions. JSON numbers with a
-- fraction do not occur in the modelled documents and have no constructor.
pub mod Equality
pub mod Dict
pub mod Keys
use text.Mathlib.Text.{◌==◌ as str_eq}
use protocol_robustness_fram.Prelude.{
  String, Bool, true, ◌&&◌, not, List, [], ◌∷◌, Option, none, some, all, any, if◌then◌else◌,
}
use protocol_robustness_fram.Prelude.Int.{ℤ}

mutual
  pub data Json : Type 0 where
    null : Json
    bool : Bool → Json
    int : ℤ → Json
    str : String → Json
    arr : Items → Json
    obj : Fields → Json

  pub data Items : Type 0 where
    nil : Items
    cons : Json → Items → Items

  -- The pairs of an object in the order of the document.
  pub data Fields : Type 0 where
    end : Fields
    field : String → Json → Fields → Fields

-- `d.get(k)` on a dict, with `none` where the key is missing. Of two equal keys the later counts, as
-- when `json.loads` builds the dict.
abbrev pub lookup : String → Fields → Option Json
lookup k end = none
lookup k (field j v fs) =
    let later = lookup k fs in
    elim later [ some w ↦ some w | none ↦ (if str_eq j k then some v else none) ]

-- `d.get(k)` where a missing key and `null` read alike.
abbrev pub get : String → Fields → Json
get k fs = elim (lookup k fs) [ some v ↦ v | none ↦ null ]

abbrev pub items : Items → List Json
items nil = []
items (cons x xs) = x ∷ items xs

abbrev pub keys : Fields → List String
keys end = []
keys (field k v fs) = k ∷ keys fs

abbrev pub elem : String → List String → Bool
elem k ks = any (λ j. str_eq j k) ks

-- `set(d) == required`
abbrev pub has_exactly : Fields → List String → Bool
has_exactly fs required =
    all (λ k. elem k required) (keys fs) && all (λ k. elem k (keys fs)) required

-- No object of the document, at any depth, repeats a key.
unfoldable mutual
  pub unique_keys : Json → Bool
  unique_keys (arr xs) = unique_items xs
  unique_keys (obj fs) = unique_fields fs
  unique_keys null = true
  unique_keys (bool b) = true
  unique_keys (int n) = true
  unique_keys (str s) = true

  pub unique_items : Items → Bool
  unique_items nil = true
  unique_items (cons x xs) = unique_keys x && unique_items xs

  pub unique_fields : Fields → Bool
  unique_fields end = true
  unique_fields (field k v fs) = not (elem k (keys fs)) && unique_keys v && unique_fields fs

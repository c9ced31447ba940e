-- ===== src/Prelude/Sorted.antt =====
-- Sets of texts in the order that `sorted` gives them.
use Prim.Native.Nat.{Ordering}
use Prim.Native.String.{compare}
use protocol_robustness_fram.Prelude.{String, List, [], ◌∷◌}

-- `sorted(set(ks))`
abbrev pub insert_sorted : String → List String → List String
insert_sorted k [] = k ∷ []
insert_sorted k (j ∷ js) =
    let rest = insert_sorted k js in
    elim (compare k j) [ Ordering.lt ↦ k ∷ j ∷ js | Ordering.eq ↦ j ∷ js | Ordering.gt ↦ j ∷ rest ]

abbrev pub sorted_set : List String → List String
sorted_set [] = []
sorted_set (k ∷ ks) = insert_sorted k (sorted_set ks)

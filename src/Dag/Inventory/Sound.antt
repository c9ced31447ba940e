-- ===== src/Dag/Inventory/Sound.antt =====
-- What a valid inventory of the evidence says.
use protocol_robustness_fram.Prelude.{
  ℕ, ◌≡◌, refl, ap, subst, String, Bool, true, false, not, List, [], ◌∷◌, ◌++◌, Option, none, some,
  arith, inl, inr, Bool-cases, All, length, map, filter, is_empty, ◌==◌, ==_iff,
}
use protocol_robustness_fram.Json.{Fields, elem}
use protocol_robustness_fram.Dag.{adjacency, detect_dag_cycles}
use protocol_robustness_fram.Dag.Paths.{Reaches, detect_dag_cycles-acyclic}
use protocol_robustness_fram.Dag.Inventory.{
  Inventory, InventoryError, contains_cycles, parseable_nodes, node_hash, node_hashes, parents_of,
  has_edge, edge_pairs, distinct_texts, error_if, missing_edge, missing_edges, node_errors,
  all_parents, reported, cycle_errors, listing_errors, edge_errors, verdict, root_errors,
  index_errors, bundle_root_reference, present, unresolved_parents, edge_count_mismatch,
  validate_evidence_dag_inventory,
}

is_empty-eq : {A : Type 0} (xs : List A) → is_empty xs ≡ true → xs ≡ []
is_empty-eq [] e = refl
is_empty-eq (x ∷ xs) e = cc

append-empty : {A : Type 0} (xs ys : List A) → xs ++ ys ≡ [] → (xs ≡ []) × (ys ≡ [])
append-empty [] ys e = (refl, e)
append-empty (x ∷ xs) ys e = cc

no_error : (b : Bool) (e : InventoryError) → error_if b e ≡ [] → b ≡ false
no_error false e h = refl
no_error true e h = cc

not-false : (b : Bool) → not b ≡ false → b ≡ true
not-false true e = refl
not-false false e = cc

distinct_texts-empty : (hs : List String) → distinct_texts hs ≡ [] → hs ≡ []
distinct_texts-empty [] e = refl
distinct_texts-empty (h ∷ hs) e = elim (Bool-cases (elem h (distinct_texts hs))) [
  | inl again ↦ absurd (
      let rest : distinct_texts hs ≡ [] = ground (arith, e, again) in
      let none_in : elem h [] ≡ true = subst (λ r. elem h r ≡ true) rest again in cc (none_in))
  | inr first ↦ absurd (let bad : h ∷ distinct_texts hs ≡ [] = ground (arith, e, first) in cc (bad))
]

filter-empty :
    {A : Type 0} (p : A → Bool) (xs : List A) → filter p xs ≡ [] → All (λ x. p x ≡ false) xs
filter-empty p [] e = tt
filter-empty p (x ∷ xs) e = elim (Bool-cases (p x)) [
  | inl kept ↦ absurd (let bad : x ∷ filter p xs ≡ [] = ground (arith, e, kept) in cc (bad))
  | inr dropped ↦ (dropped, filter-empty p xs (ground (arith, e, dropped)))
]

All-append : {A : Type 0} (P : A → Type 0) (xs ys : List A) → All P (xs ++ ys) → All P xs × All P ys
All-append P [] ys a = (tt, a)
All-append P (x ∷ xs) ys (p, a) = let (l, r) = All-append P xs ys a in ((p, l), r)

module _ (hashes : List String) (pairs : List (String × String)) where
  -- The parent is a node, and its edge to the child is listed.
  abbrev pub Linked : Option String → String → Type 0
  Linked child p = (elem p hashes ≡ true) × (has_edge pairs p child ≡ true)

  missing_edges-Linked :
      (child : Option String) (ps : List String)
      → missing_edges pairs child ps ≡ []
      → All (λ p. not (elem p hashes) ≡ false) ps
      → All (Linked child) ps
  unfolding missing_edges
  missing_edges-Linked child [] e a = tt
  missing_edges-Linked child (p ∷ ps) e (known, a) =
      let (first, rest) = append-empty _ (missing_edges pairs child ps) e in
      (
        (
          not-false (elem p hashes) known,
          not-false (has_edge pairs p child) (no_error _ (missing_edge p child) first),
        ),
        missing_edges-Linked child ps rest a,
      )

  node_errors-Linked :
      (ns : List Fields)
      → node_errors pairs ns ≡ []
      → All (λ p. not (elem p hashes) ≡ false) (all_parents ns)
      → All (λ n. All (Linked (node_hash n)) (parents_of n)) ns
  unfolding node_errors all_parents
  node_errors-Linked [] e a = tt
  node_errors-Linked (n ∷ ns) e a =
      let (own, rest) = append-empty _ (node_errors pairs ns) e in
      let (known, others) = All-append _ (parents_of n) (all_parents ns) a in
      (
        missing_edges-Linked (node_hash n) (parents_of n) own known,
        node_errors-Linked ns rest others,
      )

module _ (inv : Inventory) where
  abbrev pub LinkedNodes : Type 0
  LinkedNodes =
      All
        (λ n.
          All (Linked (node_hashes inv.nodes) (edge_pairs inv.edges) (node_hash n)) (parents_of n))
        (parseable_nodes inv.nodes)

  abbrev pub AcyclicNodes : Type 0
  AcyclicNodes = (h : String) → ¬ Reaches (adjacency inv.edges (node_hashes inv.nodes)) h h

  edge_errors-LinkedNodes :
      (roots : List Fields)
      → edge_errors inv roots ≡ []
      → LinkedNodes
        × (length (edge_pairs inv.edges) ≡ length (all_parents (parseable_nodes inv.nodes)))
  unfolding edge_errors
  edge_errors-LinkedNodes roots e =
      let parsed = parseable_nodes inv.nodes in
      let hashes = node_hashes inv.nodes in
      let pairs = edge_pairs inv.edges in
      let stray = filter (λ p. not (elem p hashes)) (all_parents parsed) in
      let of_roots =
        root_errors hashes (present (map bundle_root_reference roots)) (not (is_empty parsed)) in
      let wrong_count = not (length pairs == length (all_parents parsed)) in
      let of_count =
        error_if wrong_count (edge_count_mismatch (length pairs) (length (all_parents parsed))) in
      let of_parents =
        error_if (not (is_empty (distinct_texts stray)))
          (unresolved_parents (distinct_texts stray)) in
      let of_nodes = node_errors pairs parsed in
      let (e1, indexed) =
        append-empty (of_nodes ++ of_parents ++ of_count ++ of_roots)
          (index_errors inv.index parsed) e in
      let (e2, rooted) = append-empty (of_nodes ++ of_parents ++ of_count) of_roots e1 in
      let (e3, counted) = append-empty (of_nodes ++ of_parents) of_count e2 in
      let (linked, known) = append-empty of_nodes of_parents e3 in
      (
        node_errors-Linked hashes pairs parsed linked (
            filter-empty (λ p. not (elem p hashes)) (all_parents parsed)
              (distinct_texts-empty stray
                (is_empty-eq (distinct_texts stray) (not-false _ (no_error _ _ known))))),
        (==_iff _ _).0 (not-false _ (no_error wrong_count _ counted)),
      )

  cycle_errors-acyclic :
      (hashes : List String)
      → cycle_errors inv.edges hashes ≡ some []
      → {h : String} → ¬ Reaches (adjacency inv.edges hashes) h h
  unfolding cycle_errors detect_dag_cycles
  cycle_errors-acyclic [] e = detect_dag_cycles-acyclic [] inv.edges refl
  cycle_errors-acyclic (k ∷ hashes) e =
      detect_dag_cycles-acyclic (k ∷ hashes) inv.edges
        (nothing_reported (detect_dag_cycles inv.edges (k ∷ hashes)) e)
    where
      nothing_reported :
          (found : Option (List (List String))) → reported found ≡ some [] → found ≡ some []
      nothing_reported none h = cc
      nothing_reported (some cycles) h =
          let clean : error_if (not (is_empty cycles)) (contains_cycles cycles) ≡ [] = cc (h) in
          ap some (is_empty-eq cycles (not-false _ (no_error _ _ clean)))

  -- A verdict without errors had none in any part.
  verdict-clean :
      (before : List InventoryError) (cycles : Option (List InventoryError))
      (after errors : List InventoryError)
      → verdict before cycles after ≡ some (true, errors)
      → (before ≡ []) × (cycles ≡ some []) × (after ≡ [])
  verdict-clean before none after errors e = cc
  verdict-clean before (some cycles) after errors e =
      let none_left : is_empty (before ++ cycles ++ after) ≡ true = cc (e) in
      let (rest, a) =
        append-empty (before ++ cycles) after (is_empty-eq (before ++ cycles ++ after) none_left) in
      let (b, c) = append-empty before cycles rest in (b, ap some c, a)

  -- If the inventory is valid, every parent of a parseable node is itself a node and its edge is
  -- listed, there are as many different edges as parents, and no path in the graph of the edges
  -- returns.
  pub validate_evidence_dag_inventory-LinkedNodes :
      (roots : List Fields) (count : ℕ) {errors : List InventoryError}
      → validate_evidence_dag_inventory inv roots count ≡ some (true, errors)
      → LinkedNodes
        × (length (edge_pairs inv.edges) ≡ length (all_parents (parseable_nodes inv.nodes)))
        × AcyclicNodes
  unfolding validate_evidence_dag_inventory
  validate_evidence_dag_inventory-LinkedNodes roots count {errors} e =
      let (b, c, a) =
        verdict-clean (listing_errors inv count) (cycle_errors inv.edges (node_hashes inv.nodes))
          (edge_errors inv roots) errors e in
      let (linked, counted) = edge_errors-LinkedNodes roots a in
      (linked, counted, λ h. cycle_errors-acyclic (node_hashes inv.nodes) c {h = h})

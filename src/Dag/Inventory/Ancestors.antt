-- ===== src/Dag/Inventory/Ancestors.antt =====
-- The parents that the nodes of a valid inventory name: following them never returns.
use text.Mathlib.TextEquality.{eq_iff}
use mathlib.Core.List.{Memᴰ}
use mathlib.Core.List.Memᴰ
use protocol_robustness_fram.Prelude.{
  ℕ, ◌≡◌, refl, sym, ap, subst, ◌∙◌, String, true, List, [], ◌∷◌, Option, none, some, arith, inl,
  inr, Bool-cases, map, if_eq_true, if_eq_false,
}
use protocol_robustness_fram.Prelude.Filter.{All-Mem}
use protocol_robustness_fram.Json.{Fields, elem}
use protocol_robustness_fram.Dag.{adjacency, children_of}
use protocol_robustness_fram.Dag.Paths.{Reaches, child, further}
use protocol_robustness_fram.Dag.Inventory.{
  Inventory, InventoryError, parseable_nodes, node_hash, node_hashes, parents_of, has_edge,
  edge_pairs, texts_at, present, distinct_texts, validate_evidence_dag_inventory,
}
use protocol_robustness_fram.Dag.Inventory.Edges.{adjacency-Mem}
use protocol_robustness_fram.Dag.Inventory.Sound.{
  LinkedNodes, validate_evidence_dag_inventory-LinkedNodes,
}

distinct_texts-elem :
    (h : String) (hs : List String) → Memᴰ h hs → elem h (distinct_texts hs) ≡ true
distinct_texts-elem h [] m = elim m [ ]
distinct_texts-elem h (x ∷ hs) m = elim (Memᴰ.cases_cons m) [
  | inl here ↦ elim (Bool-cases (elem x (distinct_texts hs))) [
    | inl again ↦
        subst (λ k. elem k (distinct_texts (x ∷ hs)) ≡ true) (sym here)
          (subst (λ ks. elem x ks ≡ true) (sym (if_eq_true (elem x (distinct_texts hs)) _ _ again))
            again)
    | inr first ↦
        subst (λ ks. elem h ks ≡ true) (sym (if_eq_false (elem x (distinct_texts hs)) _ _ first))
          (let same = (eq_iff x h).1 (sym here) in ground (arith, same))
  ]
  | inr later ↦
      let rest = distinct_texts-elem h hs later in
      elim (Bool-cases (elem x (distinct_texts hs))) [
        | inl again ↦
            subst (λ ks. elem h ks ≡ true) (sym (if_eq_true (elem x (distinct_texts hs)) _ _ again))
              rest
        | inr first ↦
            subst (λ ks. elem h ks ≡ true)
              (sym (if_eq_false (elem x (distinct_texts hs)) _ _ first)) (ground (arith, rest))
      ]
]

texts_at-Mem :
    (read : Fields → Option String) (ns : List Fields) {n : Fields} (c : String)
    → Memᴰ n ns
    → read n ≡ some c
    → Memᴰ c (texts_at ns read)
texts_at-Mem read [] c m e = elim m [ ]
texts_at-Mem read (x ∷ ns) {n} c m e = elim (Memᴰ.cases_cons m) [
  | inl here ↦
      subst (λ o. Memᴰ c (present (o ∷ map read ns))) (sym e ∙ ap read here) (Memᴰ.head refl)
  | inr later ↦ further_on (read x) (texts_at-Mem read ns c later e)
]
  where
    further_on :
        (o : Option String) → Memᴰ c (present (map read ns)) → Memᴰ c (present (o ∷ map read ns))
    further_on none k = k
    further_on (some t) k = Memᴰ.tail k

module _ (inv : Inventory) where
  -- The first hash is named as a parent by a node with the second, or by an ancestor of it.
  pub data Ancestor : String → String → Type 0 where
    direct :
        {n : Fields} {p c : String}
        → Memᴰ n (parseable_nodes inv.nodes)
        → Memᴰ p (parents_of n)
        → node_hash n ≡ some c
        → Ancestor p c
    above :
        {n : Fields} {p c h : String}
        → Memᴰ n (parseable_nodes inv.nodes)
        → Memᴰ p (parents_of n)
        → node_hash n ≡ some c
        → Ancestor c h
        → Ancestor p h

  parent-edge :
      {n : Fields} (p c : String)
      → LinkedNodes inv
      → Memᴰ n (parseable_nodes inv.nodes)
      → Memᴰ p (parents_of n)
      → node_hash n ≡ some c
      → Memᴰ c (children_of (adjacency inv.edges (node_hashes inv.nodes)) p)
  unfolding node_hashes
  parent-edge {n} p c linked at_n at_p e =
      let (known, edge) =
        All-Mem _ (parents_of n) (All-Mem _ (parseable_nodes inv.nodes) linked at_n) at_p in
      adjacency-Mem (node_hashes inv.nodes) inv.edges p c known
        (distinct_texts-elem c _ (texts_at-Mem node_hash (parseable_nodes inv.nodes) c at_n e))
        (subst (λ o. has_edge (edge_pairs inv.edges) p o ≡ true) e edge)

  Ancestor-Reaches :
      {p h : String}
      → LinkedNodes inv
      → Ancestor p h
      → Reaches (adjacency inv.edges (node_hashes inv.nodes)) p h
  Ancestor-Reaches linked (direct m at e) = child (parent-edge _ _ linked m at e)
  Ancestor-Reaches linked (above m at e a) =
      further (parent-edge _ _ linked m at e) (Ancestor-Reaches linked a)

  -- If the inventory is valid, no hash is its own ancestor along the parents that the parseable
  -- nodes name.
  pub validate_evidence_dag_inventory-grounded :
      (roots : List Fields) (count : ℕ) {errors : List InventoryError}
      → validate_evidence_dag_inventory inv roots count ≡ some (true, errors)
      → (h : String) → ¬ Ancestor h h
  validate_evidence_dag_inventory-grounded roots count valid h a =
      let (linked, counted, acyclic) =
        validate_evidence_dag_inventory-LinkedNodes inv roots count valid in
      acyclic h (Ancestor-Reaches linked a)

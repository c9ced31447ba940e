-- ===== src/Dag/Paths.antt =====
-- Paths along the edges of an evidence graph, and none that returns when no cycle is reported.
use text.Mathlib.Text.{◌==◌ as str_eq}
use text.Mathlib.TextEquality.{eq_iff}
use mathlib.Core.List.{Memᴰ}
use protocol_robustness_fram.Prelude.{
  ◌≡◌, subst, String, true, List, [], ◌∷◌, some, arith, inl, inr, Bool-cases, All,
}
use protocol_robustness_fram.Prelude.Filter.{All-Mem}
use protocol_robustness_fram.Json.{elem, Fields}
use protocol_robustness_fram.Dag.{Adjacency, adjacency, children_of, detect_dag_cycles}
use protocol_robustness_fram.Dag.Acyclic.{Ordered}
use protocol_robustness_fram.Dag.Detected.{adjacency-within, detect_dag_cycles-Ordered}

module _ (adj : Adjacency) where
  -- A path of one edge or more.
  pub data Reaches : String → String → Type 0 where
    child : {h k : String} → Memᴰ k (children_of adj h) → Reaches h k
    further : {h c k : String} → Memᴰ c (children_of adj h) → Reaches c k → Reaches h k

  Ordered-children :
      (order : List String) (h c : String)
      → Ordered adj order
      → elem h order ≡ true
      → Memᴰ c (children_of adj h)
      → elem c order ≡ true
  Ordered-children [] h c o e m = cc
  Ordered-children (x ∷ order) h c (own, o) e m = elim (Bool-cases (str_eq x h)) [
    | inl same ↦
        let later =
          All-Mem (λ d. elem d order ≡ true) (children_of adj h)
            (subst (λ g. All (λ d. elem d order ≡ true) (children_of adj g)) ((eq_iff x h).0 same)
              own)
            m in
        ground (arith, later)
    | inr apart ↦
        let later = Ordered-children order h c o (ground (arith, e, apart)) m in
        ground (arith, later)
  ]

  Ordered-Reaches :
      (order : List String) {h k : String}
      → Ordered adj order
      → elem h order ≡ true
      → Reaches h k
      → elem k order ≡ true
  Ordered-Reaches order o e (child m) = Ordered-children order _ _ o e m
  Ordered-Reaches order o e (further m r) =
      Ordered-Reaches order o (Ordered-children order _ _ o e m) r

  Ordered-first :
      (order : List String) {h k : String}
      → Ordered adj (h ∷ order)
      → Reaches h k
      → elem k order ≡ true
  Ordered-first order (own, o) (child m) = All-Mem (λ d. elem d order ≡ true) _ own m
  Ordered-first order (own, o) (further m r) =
      Ordered-Reaches order o (All-Mem (λ d. elem d order ≡ true) _ own m) r

  Ordered-acyclic :
      (order : List String) (h : String) → Ordered adj order → elem h order ≡ true → ¬ Reaches h h
  Ordered-acyclic [] h o e r = cc
  Ordered-acyclic (x ∷ order) h (own, o) e r = elim (Bool-cases (str_eq x h)) [
    | inl same ↦
        let here = subst (λ g. Ordered adj (g ∷ order)) ((eq_iff x h).0 same) (own, o) in
        Ordered-acyclic order h o (Ordered-first order here r) r
    | inr apart ↦ Ordered-acyclic order h o (ground (arith, e, apart)) r
  ]

module _ (nodes : List String) (edges : List Fields) where
  Reaches-node : {h k : String} → Reaches (adjacency edges nodes) h k → Memᴰ k nodes
  Reaches-node (child m) = adjacency-within nodes edges _ _ m
  Reaches-node (further m r) = Reaches-node r

  -- If no cycle is reported, no path returns.
  pub detect_dag_cycles-acyclic :
      detect_dag_cycles edges nodes ≡ some [] → {h : String} → ¬ Reaches (adjacency edges nodes) h h
  detect_dag_cycles-acyclic none_found r =
      let (order, ordered, listed) = detect_dag_cycles-Ordered nodes edges none_found in
      Ordered-acyclic (adjacency edges nodes) order _ ordered
        (All-Mem (λ g. elem g order ≡ true) nodes listed (Reaches-node r)) r

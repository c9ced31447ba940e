-- ===== src/Dag/Examples.antt =====
-- Runs of the search for cycles on small evidence graphs.
use protocol_robustness_fram.Prelude.{◌≡◌, ◌↔◌, refl, String, List, [], ◌∷◌, some}
use protocol_robustness_fram.Json.{str, Fields, field, end}
use protocol_robustness_fram.Dag.{adjacency, detect_dag_cycles}
use protocol_robustness_fram.Dag.Detected.{detect_dag_cycles-total}
use protocol_robustness_fram.Dag.Paths.{Reaches}
use protocol_robustness_fram.Dag.Exact.{detect_dag_cycles-exact}

abbrev edge : String → String → Fields
edge p c = field "parent" (str p) (field "child" (str c) end)

abbrev nodes : List String
nodes = "a" ∷ "b" ∷ "c" ∷ []

-- Without a cycle: `a` before `b` and `c`, `b` before `c`; the last edge leaves the graph.
abbrev acyclic : List Fields
acyclic = edge "a" "b" ∷ edge "a" "c" ∷ edge "b" "c" ∷ edge "c" "elsewhere" ∷ []

abbrev cyclic : List Fields
cyclic = edge "a" "b" ∷ edge "b" "c" ∷ edge "c" "a" ∷ []

acyclic_found : detect_dag_cycles acyclic nodes ≡ some []
unfolding detect_dag_cycles
acyclic_found = refl

cyclic_found : detect_dag_cycles cyclic nodes ≡ some (("b" ∷ "c" ∷ "a" ∷ []) ∷ [])
unfolding detect_dag_cycles
cyclic_found = refl

itself_found : detect_dag_cycles (edge "b" "b" ∷ []) nodes ≡ some (("b" ∷ []) ∷ [])
unfolding detect_dag_cycles
itself_found = refl

detect_dag_cycles-total_example :
    (cycles : List (List String)) × (detect_dag_cycles cyclic nodes ≡ some cycles)
detect_dag_cycles-total_example = detect_dag_cycles-total nodes cyclic

detect_dag_cycles-exact_example :
    (detect_dag_cycles acyclic nodes ≡ some [])
    ↔ ((h : String) → ¬ Reaches (adjacency acyclic nodes) h h)
detect_dag_cycles-exact_example = detect_dag_cycles-exact nodes acyclic

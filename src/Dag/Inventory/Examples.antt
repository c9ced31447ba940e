-- ===== src/Dag/Inventory/Examples.antt =====
-- Runs of the validation of an evidence inventory.
use protocol_robustness_fram.Prelude.{◌≡◌, refl, String, true, false, List, [], ◌∷◌, some, length}
use protocol_robustness_fram.Json.{str, arr, nil, cons, Fields, field, end}
use protocol_robustness_fram.Dag.Inventory.{
  Inventory, missing_edge, edge_count_mismatch, parseable_nodes, edge_pairs, all_parents,
  validate_evidence_dag_inventory,
}
use protocol_robustness_fram.Dag.Inventory.Sound.{
  LinkedNodes, AcyclicNodes, validate_evidence_dag_inventory-LinkedNodes,
}
use protocol_robustness_fram.Dag.Inventory.Ancestors.{
  Ancestor, validate_evidence_dag_inventory-grounded,
}

abbrev edge : String → String → Fields
edge p c = field "parent" (str p) (field "child" (str c) end)

abbrev first : Fields
first =
    field "node-hash" (str "a") (field "file" (str "a.edn") (field "parent-hashes" (arr nil) end))

abbrev second : Fields
second =
    field "node-hash" (str "b")
      (field "file" (str "b.edn") (field "parent-hashes" (arr (cons (str "a") nil)) end))

abbrev inventory : List Fields → Inventory
inventory edges = record {
  nodes = first ∷ second ∷ [];
  edges = edges;
  file_hashes = str "1" ∷ str "2" ∷ [];
  semantic_status = some "parsed";
  index = some (record { node_count = 2; orphan_count = 0; roots = str "a" ∷ [] });
}

abbrev root : Fields
root = field "dag/root-node-hash" (str "b") end

valid :
    validate_evidence_dag_inventory (inventory (edge "a" "b" ∷ [])) (root ∷ []) 2 ≡ some (true, [])
unfolding validate_evidence_dag_inventory
valid = refl

without_edge :
    validate_evidence_dag_inventory (inventory []) (root ∷ []) 2
    ≡ some (false, missing_edge "a" (some "b") ∷ edge_count_mismatch 0 1 ∷ [])
unfolding validate_evidence_dag_inventory
without_edge = refl

validate_evidence_dag_inventory-LinkedNodes_example :
    LinkedNodes (inventory (edge "a" "b" ∷ []))
    × (length (edge_pairs (edge "a" "b" ∷ []))
        ≡ length (all_parents (parseable_nodes (first ∷ second ∷ []))))
    × AcyclicNodes (inventory (edge "a" "b" ∷ []))
validate_evidence_dag_inventory-LinkedNodes_example =
    validate_evidence_dag_inventory-LinkedNodes (inventory (edge "a" "b" ∷ [])) (root ∷ []) 2 valid

validate_evidence_dag_inventory-grounded_example :
    ¬ Ancestor (inventory (edge "a" "b" ∷ [])) "a" "a"
validate_evidence_dag_inventory-grounded_example =
    validate_evidence_dag_inventory-grounded (inventory (edge "a" "b" ∷ [])) (root ∷ []) 2 valid "a"

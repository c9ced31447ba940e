-- ===== src/Dag/Inventory.antt =====
-- scripts/forensic/verify.py: `_validate_evidence_dag_inventory`, on the inventory as it is read from
-- JSON: an absent list is empty and an absent count is 0. Hashes and file names are texts, a value of
-- another kind counts as missing. A set is a list without repetitions, and an error carries what its
-- text reports, for a set in the order of the list, which the source sorts.
pub mod Sound
pub mod Edges
pub mod Ancestors
pub mod Examples
use text.Mathlib.Text.{◌==◌ as str_eq}
use protocol_robustness_fram.Prelude.{
  ℕ, zero, suc, ◌+◌, String, Bool, true, false, ◌&&◌, not, List, [], ◌∷◌, ◌++◌, Option, none, some,
  length, map, any, filter, is_empty, is_some, ltb, ◌==◌, if◌then◌else◌,
}
use protocol_robustness_fram.Json.{Json, str, arr, Items, Fields, get, elem, items}
use protocol_robustness_fram.Json.Equality.{is_truthy}
use protocol_robustness_fram.Dag.{detect_dag_cycles}

pub record DagIndex : Type 0 where
  pub node_count : ℕ
  pub orphan_count : ℕ
  pub roots : List Json

pub record Inventory : Type 0 where
  pub nodes : List Fields
  pub edges : List Fields
  pub file_hashes : List Json
  pub semantic_status : Option String
  pub index : Option DagIndex

pub data InventoryError : Type 0 where
  inventory_only : InventoryError
  file_count_mismatch : ℕ → ℕ → InventoryError
  duplicate_hashes : List String → InventoryError
  missing_file_names : InventoryError
  parse_failures : ℕ → InventoryError
  contains_cycles : List (List String) → InventoryError
  missing_edge : String → Option String → InventoryError
  unresolved_parents : List String → InventoryError
  edge_count_mismatch : ℕ → ℕ → InventoryError
  unresolved_roots : List String → InventoryError
  no_root_reference : InventoryError
  index_count_mismatch : ℕ → ℕ → InventoryError
  index_without_roots : InventoryError
  index_orphans : ℕ → InventoryError

-- A text that is not empty.
abbrev pub truthy_text : Json → Option String
truthy_text (str s) = if str_eq s "" then none else some s
truthy_text _ = none

abbrev pub present : List (Option String) → List String
present [] = []
present (none ∷ xs) = present xs
present (some s ∷ xs) = s ∷ present xs

abbrev pub distinct_texts : List String → List String
distinct_texts [] = []
distinct_texts (h ∷ hs) = let rest = distinct_texts hs in if elem h rest then rest else h ∷ rest

abbrev pub occurrences : String → List String → ℕ
occurrences h hs = length (filter (λ k. str_eq k h) hs)

abbrev pub has_parse_error : Fields → Bool
has_parse_error n = is_truthy (get "parse-error" n)

unfoldable pub parseable_nodes : List Fields → List Fields
parseable_nodes nodes = filter (λ n. not (has_parse_error n)) nodes

abbrev pub node_hash : Fields → Option String
node_hash n = truthy_text (get "node-hash" n)

abbrev pub texts_at : List Fields → (Fields → Option String) → List String
texts_at nodes read = present (map read nodes)

unfoldable pub node_hashes : List Fields → List String
unfolding parseable_nodes
node_hashes nodes = distinct_texts (texts_at (parseable_nodes nodes) node_hash)

abbrev pub list_of : Json → List Json
list_of (arr xs) = items xs
list_of _ = []

-- `[p for p in node.get("parent-hashes", []) if p]`
unfoldable pub parents_of : Fields → List String
parents_of n = present (map truthy_text (list_of (get "parent-hashes" n)))

abbrev pub same_pair : String → String → String × String → Bool
same_pair p c (q, d) = str_eq q p && str_eq d c

abbrev pub has_pair : String → String → List (String × String) → Bool
has_pair p c pairs = any (same_pair p c) pairs

abbrev pub add_pair :
    Option String → Option String → List (String × String) → List (String × String)
add_pair none c pairs = pairs
add_pair (some p) none pairs = pairs
add_pair (some p) (some c) pairs = if has_pair p c pairs then pairs else (p, c) ∷ pairs

unfoldable pub edge_pairs : List Fields → List (String × String)
edge_pairs [] = []
edge_pairs (e ∷ edges) =
    add_pair (truthy_text (get "parent" e)) (truthy_text (get "child" e)) (edge_pairs edges)

abbrev pub has_edge : List (String × String) → String → Option String → Bool
has_edge pairs p none = false
has_edge pairs p (some c) = has_pair p c pairs

abbrev pub error_if : Bool → InventoryError → List InventoryError
error_if false e = []
error_if true e = e ∷ []

-- The errors of a node whose edges are missing.
unfoldable pub missing_edges :
    List (String × String) → Option String → List String → List InventoryError
missing_edges pairs child [] = []
missing_edges pairs child (p ∷ ps) =
    error_if (not (has_edge pairs p child)) (missing_edge p child) ++ missing_edges pairs child ps

unfoldable pub node_errors : List (String × String) → List Fields → List InventoryError
unfolding missing_edges parents_of
node_errors pairs [] = []
node_errors pairs (n ∷ ns) =
    missing_edges pairs (node_hash n) (parents_of n) ++ node_errors pairs ns

-- The parents of all nodes, one after another.
unfoldable pub all_parents : List Fields → List String
unfolding parents_of
all_parents [] = []
all_parents (n ∷ ns) = parents_of n ++ all_parents ns

-- `a or b`
abbrev pub or_text : Option String → Option String → Option String
or_text none b = b
or_text (some a) b = some a

unfoldable pub bundle_root_reference : Fields → Option String
bundle_root_reference root = or_text (truthy_text (get "dag/root-node-hash" root)) (
    or_text (truthy_text (get "execution/node-hash" root))
      (truthy_text (get "execution/content-hash" root)))

unfoldable pub root_errors : List String → List String → Bool → List InventoryError
root_errors hashes [] has_nodes = error_if has_nodes no_root_reference
root_errors hashes (r ∷ rs) has_nodes =
    error_if (not (any (λ ref. elem ref hashes) (r ∷ rs))) (unresolved_roots (r ∷ rs))

unfoldable pub index_errors : Option DagIndex → List Fields → List InventoryError
index_errors none parsed = []
index_errors (some i) parsed =
    error_if (not (i.node_count == length parsed))
      (index_count_mismatch i.node_count (length parsed))
    ++ error_if (not (is_empty parsed) && is_empty i.roots) index_without_roots
    ++ error_if (ltb 0 i.orphan_count) (index_orphans i.orphan_count)

abbrev pub reported : Option (List (List String)) → Option (List InventoryError)
reported none = none
reported (some cycles) = some (error_if (not (is_empty cycles)) (contains_cycles cycles))

unfoldable pub cycle_errors : List Fields → List String → Option (List InventoryError)
unfolding detect_dag_cycles
cycle_errors edges [] = some []
cycle_errors edges (h ∷ hs) = reported (detect_dag_cycles edges (h ∷ hs))

abbrev pub is_inventory_only : Option String → Bool
is_inventory_only none = false
is_inventory_only (some status) = str_eq status "inventory-only"

-- The checks before the search for cycles.
unfoldable pub listing_errors : Inventory → ℕ → List InventoryError
unfolding parseable_nodes node_hashes
listing_errors inv count =
    let parsed = parseable_nodes inv.nodes in
    let failed = filter has_parse_error inv.nodes in
    let named = distinct_texts (texts_at inv.nodes (λ n. truthy_text (get "file" n))) in
    let repeated =
      filter (λ h. ltb 1 (occurrences h (texts_at parsed node_hash))) (node_hashes inv.nodes) in
    error_if (is_inventory_only inv.semantic_status && ltb 0 count) inventory_only
    ++ error_if (not (length inv.file_hashes == count))
        (file_count_mismatch (length inv.file_hashes) count)
    ++ error_if (not (is_empty repeated)) (duplicate_hashes repeated)
    ++ error_if (not (length named == length inv.nodes)) missing_file_names
    ++ error_if (not (is_empty failed)) (parse_failures (length failed))

-- The checks after it.
unfoldable pub edge_errors : Inventory → List Fields → List InventoryError
unfolding parseable_nodes node_hashes edge_pairs node_errors all_parents bundle_root_reference
    root_errors index_errors
edge_errors inv roots =
    let parsed = parseable_nodes inv.nodes in
    let hashes = node_hashes inv.nodes in
    let pairs = edge_pairs inv.edges in
    let unresolved = distinct_texts (filter (λ p. not (elem p hashes)) (all_parents parsed)) in
    node_errors pairs parsed
    ++ error_if (not (is_empty unresolved)) (unresolved_parents unresolved)
    ++ error_if (not (length pairs == length (all_parents parsed)))
        (edge_count_mismatch (length pairs) (length (all_parents parsed)))
    ++ root_errors hashes (present (map bundle_root_reference roots)) (not (is_empty parsed))
    ++ index_errors inv.index parsed

abbrev pub verdict :
    List InventoryError
    → Option (List InventoryError)
    → List InventoryError
    → Option (Bool × List InventoryError)
verdict before none after = none
verdict before (some cycles) after =
    some (is_empty (before ++ cycles ++ after), before ++ cycles ++ after)

unfoldable pub validate_evidence_dag_inventory :
    Inventory → List Fields → ℕ → Option (Bool × List InventoryError)
unfolding listing_errors cycle_errors edge_errors node_hashes
validate_evidence_dag_inventory inv roots count =
    verdict (listing_errors inv count) (cycle_errors inv.edges (node_hashes inv.nodes))
      (edge_errors inv roots)

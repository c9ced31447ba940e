-- ===== src/Inclusion/Trie.antt =====
-- scripts/forensic/ethereum_receipt_inclusion.py: `verify_indexed_trie_proof`. The loop variable
-- `cursor` is represented by the proof nodes from the cursor on.
pub mod Binding
pub mod Held
use protocol_robustness_fram.Prelude.{
  ℕ, zero, suc, Bool, true, false, not, ◌||◌, List, [], ◌∷◌, Option, none, some, ltb, ◌==◌, length,
  get_elem?, is_empty, if◌then◌else◌,
}
use protocol_robustness_fram.Prelude.Result.{ok, err, ◌>>=◌}
use protocol_robustness_fram.Inclusion.Bytes.{
  Bytes, Checked, InclusionError, message, bytes_eq, nibbles, compact_path,
}
use protocol_robustness_fram.Inclusion.Libraries.{Item, bytes, list, elements, Libraries}

-- What a node says of the remaining path: the value, with the error that unused proof nodes raise
-- there, or the path that remains and the reference of the child.
pub data Visit : Type 0 where
  found : Bytes → InclusionError → Visit
  descend : List ℕ → Bytes → Visit

-- `remaining[:len(segment)] != segment`, and the rest of the path behind the segment.
unfoldable pub strip_segment : List ℕ → List ℕ → Option (List ℕ)
strip_segment [] remaining = some remaining
strip_segment (n ∷ segment) [] = none
strip_segment (n ∷ segment) (m ∷ remaining) =
    let rest = strip_segment segment remaining in if n == m then rest else none

unfoldable pub branch_failure : InclusionError
branch_failure = message "invalid branch value or unused proof nodes"

unfoldable pub leaf_failure : InclusionError
leaf_failure = message "invalid leaf value, path remainder, or unused proof nodes"

module _ (lib : Libraries) where
  -- The node that a reference of 32 bytes names, and the nodes after the cursor.
  unfoldable pub from_proof : Bytes → List Bytes → Checked (Bytes × List Bytes)
  from_proof ref [] = err (message "proof ended before reaching a referenced node")
  from_proof ref (node_raw ∷ rest) =
      if bytes_eq (lib.keccak node_raw) ref
      then ok (node_raw, rest)
      else err (message "trie node hash does not match its parent reference")

  -- An inline node may be repeated in the proof, and is skipped there.
  unfoldable pub skip_inline : Bytes → List Bytes → List Bytes
  skip_inline node_raw [] = []
  skip_inline node_raw (next ∷ rest) = if bytes_eq next node_raw then rest else next ∷ rest

  unfoldable pub fetch : Bytes → List Bytes → Checked (Bytes × List Bytes)
  unfolding from_proof skip_inline
  fetch ref rest =
      if length ref == 32
      then from_proof ref rest
      else if ltb (length ref) 32
      then ok (ref, skip_inline ref rest)
      else err (message "invalid trie child reference width")

  unfoldable pub parse_node : Bytes → Checked (List Item)
  parse_node node_raw = elim (lib.decode node_raw) [
    | none ↦ err (message "malformed RLP trie node")
    | some node ↦
        if not (bytes_eq (lib.encode node) node_raw)
        then err (message "non-canonical RLP trie node")
        else elim node [
          | list xs ↦ ok (elements xs)
          | bytes b ↦ err (message "trie node must be an RLP list")
        ]
  ]

  -- `rlp.encode(child) if isinstance(child, list) else child`
  unfoldable pub child_reference : Item → Bytes
  child_reference (list xs) = lib.encode (list xs)
  child_reference (bytes b) = b

  -- `len(node) == 17`
  unfoldable pub visit_branch : List Item → List ℕ → Checked Visit
  unfolding branch_failure child_reference
  visit_branch node [] = elim (get_elem? node 16) [
    | some (bytes value) ↦ ok (found value branch_failure)
    | _ ↦ err branch_failure
  ]
  visit_branch node (nibble ∷ remaining) = elim (get_elem? node nibble) [
    | none ↦ err (message "list index out of range")
    | some child ↦
        if is_empty (child_reference child)
        then err (message "receipt path terminates at an empty trie branch")
        else ok (descend remaining (child_reference child))
  ]

  unfoldable pub visit_leaf : Item → List ℕ → Checked Visit
  unfolding leaf_failure
  visit_leaf (bytes value) [] = ok (found value leaf_failure)
  visit_leaf (bytes value) (n ∷ ns) = err leaf_failure
  visit_leaf (list xs) remaining = err leaf_failure

  unfoldable pub visit_extension : Item → List ℕ → Checked Visit
  unfolding child_reference
  visit_extension child remaining =
      if is_empty (child_reference child)
      then err (message "extension node has an empty child reference")
      else ok (descend remaining (child_reference child))

  -- A node of two items: the compact path, then the value or the child.
  unfoldable pub visit_pair : Bytes → Item → List ℕ → Checked Visit
  unfolding visit_leaf visit_extension strip_segment compact_path
  visit_pair path content remaining = do
    (segment, is_leaf) ← compact_path path
    elim (strip_segment segment remaining) [
      | none ↦ err (message "trie node path does not match transaction index")
      | some rest ↦ if is_leaf then visit_leaf content rest else visit_extension content rest
    ]

  unfoldable pub visit : List Item → List ℕ → Checked Visit
  unfolding visit_branch visit_pair
  visit node remaining = if length node == 17 then visit_branch node remaining else elim node [
    | bytes path ∷ content ∷ [] ↦ visit_pair path content remaining
    | _ ↦ err (message "trie node must be a branch or compact-path pair")
  ]

  -- The `while` loop, on the rounds left of its 128.
  unfoldable pub walk : ℕ → List ℕ → Bytes → List Bytes → Checked Bytes
  unfolding fetch parse_node visit
  walk zero remaining expected_ref proof_nodes =
      err (message "trie proof exceeded maximum node depth")
  walk (suc steps) remaining expected_ref proof_nodes = do
    (node_raw, unread) ← fetch expected_ref proof_nodes
    node ← parse_node node_raw
    next ← visit node remaining
    elim next [
      | found value failure ↦ if is_empty unread then ok value else err failure
      | descend rest child ↦ walk steps rest child unread
    ]

  -- A transaction index is a natural number, so `transaction_index < 0` has no case.
  unfoldable pub verify_indexed_trie_proof : Bytes → ℕ → List Bytes → Checked Bytes
  unfolding walk
  verify_indexed_trie_proof trie_root transaction_index proof_nodes =
      if not (length trie_root == 32) || is_empty proof_nodes
      then err (message "invalid trie root, index, or empty proof")
      else walk 128 (nibbles (lib.encode_int transaction_index)) trie_root proof_nodes

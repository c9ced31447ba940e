-- ===== src/Inclusion/Trie/Held.antt =====
-- The Merkle Patricia trie that a proof of `verify_indexed_trie_proof` shows a part of, described by
-- its nodes, its hex-prefix paths and the nibbles of a key.
use protocol_robustness_fram.Prelude.{
  ℕ, ◌≡◌, refl, sym, ap, subst, ◌∙◌, inl, inr, Bool, true, false, not, List, [], ◌∷◌, ◌++◌, Option,
  none, some, arith, length, get_elem?, is_empty, ◌==◌, ==_iff, Bool-cases, Option-cases,
  if◌then◌else◌,
}
use protocol_robustness_fram.Prelude.Result.{ok, err, >>=-eq-ok, ok_inj}
use protocol_robustness_fram.Inclusion.Bytes.{
  Bytes, message, bytes_eq, bytes_eq→eq, nibbles, compact_path,
}
use protocol_robustness_fram.Inclusion.Bytes.HexPrefix.{hex_prefix, hex_prefix-compact_path}
use protocol_robustness_fram.Inclusion.Libraries.{Item, bytes, list, Items, elements, Libraries}
use protocol_robustness_fram.Inclusion.Trie.{
  Visit, found, descend, branch_failure, leaf_failure, strip_segment, parse_node, child_reference,
  visit_branch, visit_leaf, visit_extension, visit_pair, visit, verify_indexed_trie_proof,
}
use protocol_robustness_fram.Inclusion.Trie.Binding.{
  Resolves, Walked, here, below, verify_indexed_trie_proof-Walked,
}

append_nil : (ns : List ℕ) → ns ++ [] ≡ ns
append_nil [] = refl
append_nil (n ∷ ns) = ap (λ ms. n ∷ ms) (append_nil ns)

strip_segment-eq :
    (segment path rest : List ℕ) → strip_segment segment path ≡ some rest → path ≡ segment ++ rest
unfolding strip_segment
strip_segment-eq [] path rest e = cc
strip_segment-eq (n ∷ segment) [] rest e = cc
strip_segment-eq (n ∷ segment) (m ∷ path) rest e = elim (Bool-cases (n == m)) [
  | inl same ↦
      let tails = strip_segment-eq segment path rest (ground (arith, e, same)) in
      let heads : n ≡ m = (==_iff n m).0 same in cc (tails, heads)
  | inr other ↦
      absurd (
        let bad : ◌≡◌ {A = Option (List ℕ)} none (some rest) = ground (arith, e, other) in cc (bad))
]

module _ (lib : Libraries) (store : List Bytes) where
  -- The bytes are the encoding of a list of these items.
  abbrev pub Node : Bytes → List Item → Type 0
  Node raw items =
      (xs : Items) × (lib.decode raw ≡ some (list xs))
      × (lib.encode (list xs) ≡ raw)
      × (elements xs ≡ items)

  -- How a node names its child: by the bytes given, or by the encoding of the node within it.
  pub data Names : Item → Bytes → Type 0 where
    by_bytes : {ref : Bytes} → Names (bytes ref) ref
    embedded : {xs : Items} {ref : Bytes} → lib.encode (list xs) ≡ ref → Names (list xs) ref

  -- The trie under the reference holds the value at the path.
  pub data Holds : List ℕ → Bytes → Bytes → Type 0 where
    branch_value :
        {ref raw value : Bytes} {items : List Item}
        → Resolves lib store ref raw
        → Node raw items
        → length items ≡ 17
        → get_elem? items 16 ≡ some (bytes value)
        → Holds [] ref value
    branch_child :
        {ref raw child_ref value : Bytes} {items : List Item} {child : Item} {nibble : ℕ}
        {path : List ℕ}
        → Resolves lib store ref raw
        → Node raw items
        → length items ≡ 17
        → get_elem? items nibble ≡ some child
        → Names child child_ref
        → Holds path child_ref value
        → Holds (nibble ∷ path) ref value
    leaf :
        {ref raw value : Bytes} {path : List ℕ}
        → Resolves lib store ref raw
        → Node raw (bytes (hex_prefix path true) ∷ bytes value ∷ [])
        → Holds path ref value
    extension :
        {ref raw child_ref value : Bytes} {child : Item} (segment : List ℕ) {path : List ℕ}
        → Resolves lib store ref raw
        → Node raw (bytes (hex_prefix segment false) ∷ child ∷ [])
        → Names child child_ref
        → Holds path child_ref value
        → Holds (segment ++ path) ref value

  Node-decoded :
      (raw : Bytes) (xs : Items) {items : List Item}
      → lib.decode raw ≡ some (list xs)
      → (if not (bytes_eq (lib.encode (list xs)) raw)
          then err (message "non-canonical RLP trie node")
          else ok (elements xs))
        ≡ ok items
      → Node raw items
  Node-decoded raw xs d e = elim (Bool-cases (bytes_eq (lib.encode (list xs)) raw)) [
    | inl same ↦ (xs, d, bytes_eq→eq (lib.encode (list xs)) raw same, ground (arith, e, same))
    | inr other ↦ absurd (ground (arith, e, other))
  ]

  Node-parse_node :
      (raw : Bytes) {items : List Item} → parse_node lib raw ≡ ok items → Node raw items
  unfolding parse_node
  Node-parse_node raw {items} e = elim (Option-cases (lib.decode raw)) [
    | inl failed ↦ absurd (ground (arith, e, failed))
    | inr (node, d) ↦ of_node node d
  ]
    where
      of_node : (node : Item) → lib.decode raw ≡ some node → Node raw items
      of_node (list xs) d = Node-decoded raw xs d (ground (arith, e, d))
      of_node (bytes b) d =
          absurd (ground (arith, e, d, Bool-cases (bytes_eq (lib.encode (bytes b)) raw)))

  Names-child_reference : (child : Item) → Names child (child_reference lib child)
  unfolding child_reference
  Names-child_reference (bytes b) = by_bytes
  Names-child_reference (list xs) = embedded refl

  -- What a visit leaves to be held.
  abbrev Continues : Visit → Bytes → Type 0
  Continues (found v failure) value = v ≡ value
  Continues (descend rest child) value = Holds rest child value

  module _ {ref raw value : Bytes} (resolved : Resolves lib store ref raw) where
    visit_branch-Holds :
        (node : List Item) (path : List ℕ) (next : Visit)
        → Node raw node
        → length node ≡ 17
        → visit_branch lib node path ≡ ok next
        → Continues next value
        → Holds path ref value
    unfolding visit_branch
    visit_branch-Holds node [] next at wide e c = elim (Option-cases (get_elem? node 16)) [
      | inl missing ↦ absurd (ground (arith, e, missing))
      | inr (last, listed) ↦ of_last last listed
    ]
      where
        of_last : (last : Item) → get_elem? node 16 ≡ some last → Holds [] ref value
        of_last (list xs) listed = absurd (ground (arith, e, listed))
        of_last (bytes v) listed =
            let to : found v branch_failure ≡ next = ground (arith, e, listed) in
            let same : v ≡ value = subst (λ n. Continues n value) (sym to) c in
            branch_value resolved at wide (listed ∙ ap (λ w. some (bytes w)) same)
    visit_branch-Holds node (n ∷ path) next at wide e c = elim (Option-cases (get_elem? node n)) [
      | inl missing ↦ absurd (ground (arith, e, missing))
      | inr (child, listed) ↦
          let to : descend path (child_reference lib child) ≡ next =
            ground (arith, e, listed, Bool-cases (is_empty (child_reference lib child))) in
          branch_child resolved at wide listed (Names-child_reference child)
            (subst (λ m. Continues m value) (sym to) c)
    ]

    visit_leaf-Holds :
        (content : Item) (segment rest : List ℕ) (next : Visit)
        → Node raw (bytes (hex_prefix segment true) ∷ content ∷ [])
        → visit_leaf lib content rest ≡ ok next
        → Continues next value
        → Holds (segment ++ rest) ref value
    unfolding visit_leaf
    visit_leaf-Holds (bytes v) segment [] next at e c =
        let to : found v leaf_failure ≡ next = ok_inj e in
        let same : v ≡ value = subst (λ n. Continues n value) (sym to) c in
        subst (λ p. Holds p ref value) (sym (append_nil segment))
          (leaf resolved
            (subst (λ w. Node raw (bytes (hex_prefix segment true) ∷ bytes w ∷ [])) same at))
    visit_leaf-Holds (bytes v) segment (n ∷ rest) next at e c = cc
    visit_leaf-Holds (list xs) segment rest next at e c = cc

    visit_extension-Holds :
        (content : Item) (segment rest : List ℕ) (next : Visit)
        → Node raw (bytes (hex_prefix segment false) ∷ content ∷ [])
        → visit_extension lib content rest ≡ ok next
        → Continues next value
        → Holds (segment ++ rest) ref value
    unfolding visit_extension
    visit_extension-Holds content segment rest next at e c =
        let to : descend rest (child_reference lib content) ≡ next =
          ground (arith, e, Bool-cases (is_empty (child_reference lib content))) in
        extension segment resolved at (Names-child_reference content)
          (subst (λ n. Continues n value) (sym to) c)

    visit_pair-Holds :
        (compact : Bytes) (content : Item) (path : List ℕ) (next : Visit)
        → Node raw (bytes compact ∷ content ∷ [])
        → visit_pair lib compact content path ≡ ok next
        → Continues next value
        → Holds path ref value
    unfolding visit_pair
    visit_pair-Holds compact content path next at e c =
        let ((segment, is_leaf), read, e1) = >>=-eq-ok (compact_path compact) _ e in
        let spelled : compact ≡ hex_prefix segment is_leaf = hex_prefix-compact_path compact read in
        elim (Option-cases (strip_segment segment path)) [
          | inl apart ↦ absurd (ground (arith, e1, apart))
          | inr (rest, split) ↦
              subst (λ p. Holds p ref value) (sym (strip_segment-eq segment path rest split))
                (of_kind segment rest is_leaf
                  (subst (λ b. Node raw (bytes b ∷ content ∷ [])) spelled at)
                  (ground (arith, e1, split)))
        ]
      where
        of_kind :
            (segment rest : List ℕ) (is_leaf : Bool)
            → Node raw (bytes (hex_prefix segment is_leaf) ∷ content ∷ [])
            → (if is_leaf then visit_leaf lib content rest else visit_extension lib content rest)
              ≡ ok next
            → Holds (segment ++ rest) ref value
        of_kind segment rest true at h = visit_leaf-Holds content segment rest next at h c
        of_kind segment rest false at h = visit_extension-Holds content segment rest next at h c

    visit_short-Holds :
        (node : List Item) (path : List ℕ) (next : Visit)
        → Node raw node
        → visit lib node path ≡ ok next
        → (length node == 17) ≡ false
        → Continues next value
        → Holds path ref value
    unfolding visit
    visit_short-Holds (bytes compact ∷ content ∷ []) path next at e short c =
        visit_pair-Holds compact content path next at e c
    visit_short-Holds [] path next at e short c = cc
    visit_short-Holds (list xs ∷ rest) path next at e short c = absurd (ground (arith, e, short))
    visit_short-Holds (bytes b ∷ []) path next at e short c = cc
    visit_short-Holds (bytes b ∷ x ∷ y ∷ rest) path next at e short c =
        absurd (ground (arith, e, short))

    visit-Holds :
        (node : List Item) (path : List ℕ) (next : Visit)
        → Node raw node
        → visit lib node path ≡ ok next
        → Continues next value
        → Holds path ref value
    unfolding visit
    visit-Holds node path next at e c = elim (Bool-cases (length node == 17)) [
      | inl wide ↦
          visit_branch-Holds node path next at ((==_iff (length node) 17).0 wide)
            (ground (arith, e, wide)) c
      | inr short ↦ visit_short-Holds node path next at e short c
    ]

  Holds-Walked :
      {path : List ℕ} {ref value : Bytes} → Walked lib store path ref value → Holds path ref value
  Holds-Walked {path} (here node failure resolved parsed e) =
      visit-Holds resolved node path (found _ failure) (Node-parse_node _ parsed) e refl
  Holds-Walked {path} (below node rest child resolved parsed e w) =
      visit-Holds resolved node path (descend rest child) (Node-parse_node _ parsed) e
        (Holds-Walked w)

-- For an accepted proof the trie of its nodes holds the returned value.
pub verify_indexed_trie_proof-Holds :
    (lib : Libraries) (root : Bytes) (index : ℕ) (nodes : List Bytes) {value : Bytes}
    → verify_indexed_trie_proof lib root index nodes ≡ ok value
    → Holds lib nodes (nibbles (lib.encode_int index)) root value
verify_indexed_trie_proof-Holds lib root index nodes h =
    Holds-Walked lib nodes (verify_indexed_trie_proof-Walked lib root index nodes h)

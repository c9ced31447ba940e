-- ===== src/Inclusion/Trie/Binding.antt =====
-- An accepted proof of `verify_indexed_trie_proof` as the visits of its loop, which fix the value.
use mathlib.Core.List.{Memᴰ}
use protocol_robustness_fram.Prelude.{
  ℕ, zero, suc, ◌<◌, ◌≡◌, sym, ◌∙◌, ap, subst, subst₂, inl, inr, not, ◌||◌, List, [], ◌∷◌, arith,
  ltb, ◌==◌, ==_iff, length, is_empty, Bool-cases, if◌then◌else◌,
}
use protocol_robustness_fram.Prelude.Result.{ok, err, >>=-eq-ok}
use protocol_robustness_fram.Inclusion.Bytes.{Bytes, InclusionError, bytes_eq, bytes_eq→eq, nibbles}
use protocol_robustness_fram.Inclusion.Libraries.{Item, Libraries}
use protocol_robustness_fram.Inclusion.Trie.{
  Visit, found, descend, from_proof, skip_inline, fetch, parse_node, visit, walk,
  verify_indexed_trie_proof,
}

module _ (lib : Libraries) (store : List Bytes) where
  -- A reference of 32 bytes names a node of the store by its hash; a shorter one is the node.
  pub data Resolves : Bytes → Bytes → Type 0 where
    hashed :
        {ref raw : Bytes}
        → length ref ≡ 32
        → Memᴰ raw store
        → lib.keccak raw ≡ ref
        → Resolves ref raw
    inline : {ref raw : Bytes} → length ref < 32 → raw ≡ ref → Resolves ref raw

  -- The nodes that the loop visits along the path, up to the value.
  pub data Walked : List ℕ → Bytes → Bytes → Type 0 where
    here :
        {path : List ℕ} {ref value raw : Bytes} (node : List Item) (failure : InclusionError)
        → Resolves ref raw
        → parse_node lib raw ≡ ok node
        → visit lib node path ≡ ok (found value failure)
        → Walked path ref value
    below :
        {path : List ℕ} {ref value raw : Bytes} (node : List Item) (rest : List ℕ) (child : Bytes)
        → Resolves ref raw
        → parse_node lib raw ≡ ok node
        → visit lib node path ≡ ok (descend rest child)
        → Walked rest child value
        → Walked path ref value

  -- Every node of the list is a node of the store.
  abbrev Within : List Bytes → Type 0
  Within nodes = (node : Bytes) → Memᴰ node nodes → Memᴰ node store

  Within-tail : (node : Bytes) (rest : List Bytes) → Within (node ∷ rest) → Within rest
  Within-tail node rest w x m = w x (Memᴰ.tail m)

  from_proof-Resolves :
      (ref : Bytes) (nodes : List Bytes) {raw : Bytes} {unread : List Bytes}
      → length ref ≡ 32
      → Within nodes
      → from_proof lib ref nodes ≡ ok (raw, unread)
      → Resolves ref raw × Within unread
  unfolding from_proof
  from_proof-Resolves ref [] width w h = cc
  from_proof-Resolves ref (node ∷ rest) {raw} {unread} width w h =
      elim (Bool-cases (bytes_eq (lib.keccak node) ref)) [
        | inl same ↦
            let split : (node ≡ raw) × (rest ≡ unread) = ground (arith, same) in
            (
              hashed width (w raw (Memᴰ.head (sym split.0)))
                  (ap lib.keccak (sym split.0) ∙ bytes_eq→eq (lib.keccak node) ref same),
              subst Within split.1 (Within-tail node rest w),
            )
        | inr other ↦ absurd (ground (arith, other))
      ]

  skip_inline-Within :
      (raw : Bytes) (nodes : List Bytes) → Within nodes → Within (skip_inline lib raw nodes)
  unfolding skip_inline
  skip_inline-Within raw [] w = w
  skip_inline-Within raw (next ∷ rest) w = elim (Bool-cases (bytes_eq next raw)) [
    | inl same ↦ rw same (Within-tail next rest w)
    | inr other ↦ rw other w
  ]

  fetch-Resolves :
      (ref : Bytes) (nodes : List Bytes) {raw : Bytes} {unread : List Bytes}
      → Within nodes
      → fetch lib ref nodes ≡ ok (raw, unread)
      → Resolves ref raw × Within unread
  unfolding fetch
  fetch-Resolves ref nodes {raw} {unread} w h = elim (Bool-cases (length ref == 32)) [
    | inl full ↦
        from_proof-Resolves ref nodes ((==_iff (length ref) 32).0 full) w (ground (arith, full))
    | inr other ↦ elim (Bool-cases (ltb (length ref) 32)) [
      | inl short ↦
          let split : (ref ≡ raw) × (skip_inline lib ref nodes ≡ unread) =
            ground (arith, other, short) in
          (
            inline (ground (arith, short)) (sym split.0),
            subst Within split.1 (skip_inline-Within ref nodes w),
          )
      | inr long ↦ absurd (ground (arith, other, long))
    ]
  ]

  -- What the loop returns is reached by its visits.
  walk-Walked :
      (steps : ℕ) (path : List ℕ) (ref : Bytes) (nodes : List Bytes) {value : Bytes}
      → Within nodes
      → walk lib steps path ref nodes ≡ ok value
      → Walked path ref value
  unfolding walk
  walk-Walked zero path ref nodes w h = cc
  walk-Walked (suc steps) path ref nodes {value} w h =
      let (fetched, fetch_ok, h') = >>=-eq-ok (fetch lib ref nodes) _ h in
      let (raw, unread) = fetched in
      let (node, node_ok, h'') = >>=-eq-ok (parse_node lib raw) _ h' in
      let (next, visit_ok, h''') = >>=-eq-ok (visit lib node path) _ h'' in
      let (resolved, w') = fetch-Resolves ref nodes w fetch_ok in
      finish (λ p r ns v. walk-Walked steps p r ns {value = v}) node node_ok unread resolved next
        visit_ok w' h'''
    where
      finish :
          ((p : List ℕ) (r : Bytes) (ns : List Bytes) (v : Bytes)
            → Within ns
            → walk lib steps p r ns ≡ ok v
            → Walked p r v)
          → {raw : Bytes} (node : List Item) → parse_node lib raw ≡ ok node
          → (unread : List Bytes) → Resolves ref raw
          → (next : Visit) → visit lib node path ≡ ok next
          → Within unread
          → elim next [
            | found value failure ↦ if is_empty unread then ok value else err failure
            | descend rest child ↦ walk lib steps rest child unread
          ]
            ≡ ok value
          → Walked path ref value
      finish again node node_ok unread resolved (found v failure) visit_ok w' h =
          let e : v ≡ value = ground (arith, Bool-cases (is_empty unread)) in
          subst (Walked path ref) e (here node failure resolved node_ok visit_ok)
      finish again node node_ok unread resolved (descend rest child) visit_ok w' h =
          below node rest child resolved node_ok visit_ok (again rest child unread value w' h)

-- No two different nodes of the two stores have the same hash.
abbrev pub NoCollision : Libraries → List Bytes → List Bytes → Type 0
NoCollision lib p q = (a b : Bytes) → Memᴰ a p → Memᴰ b q → lib.keccak a ≡ lib.keccak b → a ≡ b

module _ (lib : Libraries) {p q : List Bytes} (clear : NoCollision lib p q) where
  Resolves-unique : {ref a b : Bytes} → Resolves lib p ref a → Resolves lib q ref b → a ≡ b
  Resolves-unique (hashed _ m e) (hashed _ m' e') = clear _ _ m m' (e ∙ sym e')
  Resolves-unique (hashed w m e) (inline s e') = absurd (omega arith)
  Resolves-unique (inline s e) (hashed w m e') = absurd (omega arith)
  Resolves-unique (inline s e) (inline s' e') = e ∙ sym e'

  same_visit :
      (path : List ℕ) {a b : Bytes} {m n : List Item} {u v : Visit}
      → a ≡ b
      → parse_node lib a ≡ ok m
      → visit lib m path ≡ ok u
      → parse_node lib b ≡ ok n
      → visit lib n path ≡ ok v
      → u ≡ v
  same_visit path e pa va pb vb = cc

  -- One reference and one path have one value.
  pub Walked-unique :
      {path : List ℕ} {ref v w : Bytes} → Walked lib p path ref v → Walked lib q path ref w → v ≡ w
  Walked-unique {path} (here n f r pn vn) (here n' f' r' pn' vn') =
      cc (same_visit path (Resolves-unique r r') pn vn pn' vn')
  Walked-unique {path} (here n f r pn vn) (below n' rest child r' pn' vn' h') =
      cc (same_visit path (Resolves-unique r r') pn vn pn' vn')
  Walked-unique {path} (below n rest child r pn vn h) (here n' f' r' pn' vn') =
      cc (same_visit path (Resolves-unique r r') pn vn pn' vn')
  Walked-unique {path} {w = w} (below n rest child r pn vn h)
        (below n' rest' child' r' pn' vn' h') =
      let same = same_visit path (Resolves-unique r r') pn vn pn' vn' in
      let rests : rest' ≡ rest = cc same in
      let children : child' ≡ child = cc same in
      Walked-unique h (subst₂ (λ a b. Walked lib q a b w) rests children h')

module _ (lib : Libraries) (root : Bytes) (index : ℕ) where
  pub verify_indexed_trie_proof-Walked :
      (nodes : List Bytes) {value : Bytes}
      → verify_indexed_trie_proof lib root index nodes ≡ ok value
      → Walked lib nodes (nibbles (lib.encode_int index)) root value
  unfolding verify_indexed_trie_proof
  verify_indexed_trie_proof-Walked nodes h =
      elim (Bool-cases (not (length root == 32) || is_empty nodes)) [
        | inl bad ↦ absurd (ground (arith, bad))
        | inr fine ↦
            walk-Walked lib nodes 128 (nibbles (lib.encode_int index)) root nodes (λ x m. m)
              (rw fine at h)
      ]

  -- Two proofs that `verify_indexed_trie_proof` accepts under one root and one index return the
  -- same bytes, if no node of the one and a different node of the other have the same hash.
  pub verify_indexed_trie_proof_unique :
      (p q : List Bytes) {v w : Bytes}
      → NoCollision lib p q
      → verify_indexed_trie_proof lib root index p ≡ ok v
      → verify_indexed_trie_proof lib root index q ≡ ok w
      → v ≡ w
  verify_indexed_trie_proof_unique p q clear h k =
      Walked-unique lib clear (verify_indexed_trie_proof-Walked p h)
        (verify_indexed_trie_proof-Walked q k)

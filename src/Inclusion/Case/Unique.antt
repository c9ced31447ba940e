-- ===== src/Inclusion/Case/Unique.antt =====
-- Two cases that `verify_case` accepts under one trusted context agree on the block of a height and
-- on the transaction and the receipt at an index of it.
use protocol_robustness_fram.Prelude.{ℕ, ◌≡◌, sym, ◌∙◌, ap, subst, subst₂, not, String, List, arith}
use protocol_robustness_fram.Prelude.Int.{ℤ}
use protocol_robustness_fram.Prelude.Result.{ok, raise_if, >>=-eq-ok, raise_if-eq-ok, ok_inj}
use protocol_robustness_fram.Json.{Json, Fields, get}
use protocol_robustness_fram.Inclusion.Bytes.{Bytes, bytes_eq, bytes_eq→eq}
use protocol_robustness_fram.Inclusion.Libraries.{Libraries}
use protocol_robustness_fram.Inclusion.Trie.{verify_indexed_trie_proof}
use protocol_robustness_fram.Inclusion.Trie.Binding.{NoCollision, verify_indexed_trie_proof_unique}
use protocol_robustness_fram.Inclusion.Header.{Header}
use protocol_robustness_fram.Inclusion.Header.Chain.{decoded}
use protocol_robustness_fram.Inclusion.Context.{trusted_context}
use protocol_robustness_fram.Inclusion.Context.Anchoring.{trusted_context_anchor}
use protocol_robustness_fram.Inclusion.Case.{
  Verified, linked_header, read_proofs, check_inclusion, case_fields, transaction_index,
  signed_transaction, claimed_receipt, verify_case,
}
use protocol_robustness_fram.Inclusion.Case.Preimages.{
  hashed_values, preimages, NoCollision-mono, read_proofs-decoded,
}
use protocol_robustness_fram.Inclusion.Case.Anchor.{
  Anchored, linked_header-Anchored, Anchored-unique,
}

module _ (lib : Libraries) where
  -- The two trie proofs behind an accepted case.
  record Proved (fs : Fields) (header : Header) (index : ℕ) (raw receipt : Bytes) : Type 0 where
    transaction_nodes : List Bytes
    receipt_nodes : List Bytes
    nodes_ok : read_proofs fs ≡ ok (transaction_nodes, receipt_nodes)
    transaction_ok :
        verify_indexed_trie_proof lib header.transactions_root index transaction_nodes ≡ ok raw
    receipt_ok : verify_indexed_trie_proof lib header.receipts_root index receipt_nodes ≡ ok receipt

  check_inclusion-Proved :
      (fs : Fields) (header : Header) (index : ℕ) (raw receipt : Bytes) {u : Unit {0}}
      → check_inclusion lib fs header index raw receipt ≡ ok u
      → Proved fs header index raw receipt
  unfolding check_inclusion
  check_inclusion-Proved fs header index raw receipt h =
      let (nodes, nodes_ok, h₁) = >>=-eq-ok (read_proofs fs) _ h in
      let (v, v_ok, h₂) =
        >>=-eq-ok (verify_indexed_trie_proof lib header.transactions_root index nodes.0) _ h₁ in
      let (_, v_same, h₃) = >>=-eq-ok (raise_if (not (bytes_eq v raw)) _) _ h₂ in
      let (w, w_ok, w_same) =
        >>=-eq-ok (verify_indexed_trie_proof lib header.receipts_root index nodes.1) _ h₃ in
      let e : v ≡ raw =
        bytes_eq→eq v raw (ground (arith, raise_if-eq-ok (not (bytes_eq v raw)) _ v_same)) in
      let e' : w ≡ receipt =
        bytes_eq→eq w receipt
          (ground (arith, raise_if-eq-ok (not (bytes_eq w receipt)) _ w_same)) in
      record {
        transaction_nodes = nodes.0;
        receipt_nodes = nodes.1;
        nodes_ok = nodes_ok;
        transaction_ok = v_ok ∙ ap ok e;
        receipt_ok = w_ok ∙ ap ok e';
      }

  -- One header and one index have one transaction and one receipt.
  Proved-unique :
      (fs gs : Fields) {header : Header} {index : ℕ} {raw raw' receipt receipt' : Bytes}
      → NoCollision lib (decoded (hashed_values fs)) (decoded (hashed_values gs))
      → Proved fs header index raw receipt
      → Proved gs header index raw' receipt'
      → (raw ≡ raw') × (receipt ≡ receipt')
  Proved-unique fs gs {header} {index} clear a b =
      let i = read_proofs-decoded fs a.nodes_ok in
      let j = read_proofs-decoded gs b.nodes_ok in
      (
        verify_indexed_trie_proof_unique lib header.transactions_root index a.transaction_nodes
            b.transaction_nodes (NoCollision-mono lib clear i.0 j.0) a.transaction_ok
            b.transaction_ok,
        verify_indexed_trie_proof_unique lib header.receipts_root index a.receipt_nodes
            b.receipt_nodes (NoCollision-mono lib clear i.1 j.1) a.receipt_ok b.receipt_ok,
      )

  -- The stages of an accepted case that fix the block, the transaction and the receipt.
  record Established (input : Json) (context : Bytes) (expected : String) (now : ℤ) (v : Verified)
      : Type 0 where
    fs : Fields
    envelope : case_fields input ≡ ok fs
    context_ok : trusted_context lib context expected now ≡ ok v.trust
    anchored : Anchored lib fs v.trust v.header
    proved : Proved fs v.header v.index v.transaction_raw v.receipt_raw

  verify_case-Established :
      (input : Json) (context : Bytes) (expected : String) (now : ℤ) {v : Verified}
      → verify_case lib input context expected now ≡ ok v
      → Established input context expected now v
  unfolding verify_case
  verify_case-Established input context expected now h =
      let (fs, fs_ok, h₁) = >>=-eq-ok (case_fields input) _ h in
      let (trust, trust_ok, h₂) = >>=-eq-ok (trusted_context lib context expected now) _ h₁ in
      let (linked, linked_ok, h₃) = >>=-eq-ok (linked_header lib fs trust) _ h₂ in
      let (index, index_ok, h₄) = >>=-eq-ok (transaction_index (get "transactionIndex" fs)) _ h₃ in
      let (tx, tx_ok, h₅) = >>=-eq-ok (signed_transaction lib fs trust.chain_id) _ h₄ in
      let (receipt, receipt_ok, h₆) =
        >>=-eq-ok (claimed_receipt lib fs (lib.keccak tx.0) tx.2 index linked.header) _ h₅ in
      let (_, proved, h₇) =
        >>=-eq-ok (check_inclusion lib fs linked.header index tx.0 receipt) _ h₆ in
      subst (Established input context expected now) (ok_inj h₇) (record {
        fs = fs;
        envelope = fs_ok;
        context_ok = trust_ok;
        anchored = linked_header-Anchored lib fs trust linked_ok;
        proved = check_inclusion-Proved fs linked.header index tx.0 receipt proved;
      })

  case_fields-preimages :
      (input : Json) {fs : Fields}
      → case_fields input ≡ ok fs
      → preimages input ≡ decoded (hashed_values fs)
  unfolding case_fields
  case_fields-preimages (Json.obj gs) {fs} h =
      let e : gs ≡ fs = ground arith in ap (λ x. decoded (hashed_values x)) e
  case_fields-preimages _ {fs} h = cc

  -- Two cases that are accepted under one trusted context file, at whatever times and digests, and
  -- that speak of one block height, have one block header. If they also speak of one transaction
  -- index, they have the same signed transaction and the same receipt. The hypothesis is that no
  -- header or proof node of one case has the hash of a different one of the other.
  pub verify_case_unique :
      (input input' : Json) (context : Bytes) (expected expected' : String) (now now' : ℤ)
      {v w : Verified}
      → NoCollision lib (preimages input) (preimages input')
      → verify_case lib input context expected now ≡ ok v
      → verify_case lib input' context expected' now' ≡ ok w
      → v.header.number ≡ w.header.number
      → (v.header ≡ w.header)
        × (v.index ≡ w.index
            → (v.transaction_raw ≡ w.transaction_raw) × (v.receipt_raw ≡ w.receipt_raw))
  verify_case_unique input input' context expected expected' now now' {v} {w} clear h k heights =
      let a = verify_case-Established input context expected now h in
      let b = verify_case-Established input' context expected' now' k in
      let apart : NoCollision lib (decoded (hashed_values a.fs)) (decoded (hashed_values b.fs)) =
        subst₂ (NoCollision lib) (case_fields-preimages input a.envelope)
          (case_fields-preimages input' b.envelope) clear in
      let (hashes, numbers) =
        trusted_context_anchor lib context expected expected' now now' a.context_ok b.context_ok in
      let headers =
        Anchored-unique lib a.fs b.fs apart hashes numbers heights a.anchored b.anchored in
      (
        headers,
        λ indices. Proved-unique a.fs b.fs apart a.proved (
            subst₂ (λ g i. Proved b.fs g i w.transaction_raw w.receipt_raw) (sym headers)
              (sym indices) b.proved),
      )

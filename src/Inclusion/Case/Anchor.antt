-- ===== src/Inclusion/Case/Anchor.antt =====
-- The header that `verify_case` accepts is fixed by its height and the anchor.
use protocol_robustness_fram.Prelude.{
  ℕ, ◌*◌, ◌≡◌, sym, ◌∙◌, subst, true, not, ◌&&◌, none, some, arith, ltb, ==_iff, length,
}
use protocol_robustness_fram.Prelude.Int.{ℤ, pos}
use protocol_robustness_fram.Prelude.Result.{ok, raise_if, >>=-eq-ok, raise_if-eq-ok}
use protocol_robustness_fram.Json.{Fields, get}
use protocol_robustness_fram.Inclusion.Bytes.{Bytes, decode_hex, hex_bytes, bytes_eq, bytes_eq→eq}
use protocol_robustness_fram.Inclusion.Libraries.{Libraries}
use protocol_robustness_fram.Inclusion.Trie.Binding.{NoCollision}
use protocol_robustness_fram.Inclusion.Header.{Header, header_identity, follow}
use protocol_robustness_fram.Inclusion.Header.Chain.{
  decoded, head-decoded, tail-decoded, decode_hex-hex_bytes, hash-header_identity, follow_unique,
}
use protocol_robustness_fram.Inclusion.Receipt.{as_array}
use protocol_robustness_fram.Inclusion.Context.{Trust}
use protocol_robustness_fram.Inclusion.Case.{Linked, linked_header, same_number}
use protocol_robustness_fram.Inclusion.Case.Preimages.{
  array_items, hashed_values, NoCollision-mono, decoded-append_left, array_items-as_array,
}

module _ (lib : Libraries) where
  -- What an accepted header establishes of itself and of its ancestry.
  pub record Anchored (fs : Fields) (trust : Trust) (header : Header) : Type 0 where
    pub raw : Bytes
    pub top : Bytes
    pub height : ℕ
    pub raw_ok : decode_hex (get "blockHeaderRlp" fs) ≡ some raw
    pub header_ok : header_identity lib raw ≡ ok header
    pub chain :
        follow lib 0 header.hash header.number (array_items (get "headerAncestry" fs))
        ≡ ok (top, height)
    pub top_ok : top ≡ trust.anchor_hash
    pub height_ok : same_number height trust.anchor_number ≡ true

  pub linked_header-Anchored :
      (fs : Fields) (trust : Trust) {l : Linked}
      → linked_header lib fs trust ≡ ok l
      → Anchored fs trust l.header
  unfolding linked_header
  linked_header-Anchored fs trust {l} h =
      let (raw, raw_ok, h₁) =
        >>=-eq-ok (hex_bytes (get "blockHeaderRlp" fs) "block header RLP" none) _ h in
      let (_, _, h₂) = >>=-eq-ok (raise_if (ltb (64 * 1024) (length raw)) _) _ h₁ in
      let (header, header_ok, h₃) = >>=-eq-ok (header_identity lib raw) _ h₂ in
      let (xs, xs_ok, h₄) = >>=-eq-ok (as_array (get "headerAncestry" fs) _) _ h₃ in
      let (_, _, h₅) = >>=-eq-ok (raise_if (ltb 8192 (length xs)) _) _ h₄ in
      let (last, last_ok, h₆) = >>=-eq-ok (follow lib 0 header.hash header.number xs) _ h₅ in
      let (_, tied, h₇) =
        >>=-eq-ok
          (raise_if
            (not (bytes_eq last.0 trust.anchor_hash && same_number last.1 trust.anchor_number)) _)
          _ h₆ in
      let tie =
        raise_if-eq-ok
          (not (bytes_eq last.0 trust.anchor_hash && same_number last.1 trust.anchor_number)) _
          tied in
      let e : header ≡ l.header = cc h₇ in
      subst (Anchored fs trust) e (record {
        raw = raw;
        top = last.0;
        height = last.1;
        raw_ok = decode_hex-hex_bytes (get "blockHeaderRlp" fs) _ none raw_ok;
        header_ok = header_ok;
        chain = rw (array_items-as_array (get "headerAncestry" fs) _ xs_ok) last_ok;
        top_ok = bytes_eq→eq last.0 trust.anchor_hash (ground (arith, tie));
        height_ok = ground (arith, tie);
      })

  same_height : (m n : ℕ) (z : ℤ) → same_number m z ≡ true → same_number n z ≡ true → m ≡ n
  same_height m n (pos k) h h' = (==_iff m k).0 h ∙ sym ((==_iff n k).0 h')
  same_height m n _ h h' = cc

  -- One anchor, one height: one header.
  pub Anchored-unique :
      (fs gs : Fields) {trust trust' : Trust} {h k : Header}
      → NoCollision lib (decoded (hashed_values fs)) (decoded (hashed_values gs))
      → trust.anchor_hash ≡ trust'.anchor_hash
      → trust.anchor_number ≡ trust'.anchor_number
      → h.number ≡ k.number
      → Anchored fs trust h
      → Anchored gs trust' k
      → h ≡ k
  Anchored-unique fs gs {trust} {trust'} {h} {k} clear e₁ e₂ e₃ a b =
      let heights : b.height ≡ a.height =
        same_height b.height a.height trust.anchor_number (rw e₂ b.height_ok) a.height_ok in
      let tops : b.top ≡ a.top = b.top_ok ∙ sym e₁ ∙ sym a.top_ok in
      let ys = array_items (get "headerAncestry" gs) in
      let chain' : follow lib 0 k.hash h.number ys ≡ ok (a.top, a.height) =
        rw (e₃, ← tops, ← heights) b.chain in
      let above : NoCollision lib (decoded (array_items (get "headerAncestry" fs))) (decoded ys) =
        NoCollision-mono lib clear
          (λ x m.
            tail-decoded (get "blockHeaderRlp" fs) _
              (decoded-append_left (array_items (get "headerAncestry" fs)) _ x m))
          (λ x m. tail-decoded (get "blockHeaderRlp" gs) _ (decoded-append_left ys _ x m)) in
      let hashes =
        follow_unique lib 0 0 h.hash k.hash h.number (array_items (get "headerAncestry" fs)) ys
          above a.chain chain' in
      let raws : a.raw ≡ b.raw =
        clear a.raw b.raw (head-decoded _ _ a.raw_ok) (head-decoded _ _ b.raw_ok) (
          sym (hash-header_identity lib a.raw a.header_ok)
          ∙ hashes
          ∙ hash-header_identity lib b.raw b.header_ok) in
      cc (raws, a.header_ok, b.header_ok)

-- ===== src/Inclusion/Header/Chain.antt =====
-- The chain of headers that `verify_case` follows is fixed by its top: two accepted chains of one
-- height under one anchor start at the same header.
use mathlib.Core.List.{Memᴰ}
use protocol_robustness_fram.Prelude.{
  ℕ, suc, ◌+◌, ◌*◌, ◌≡◌, refl, sym, ◌∙◌, subst, inl, inr, not, String, ◌&&◌, List, [], ◌∷◌, Option,
  none, some, arith, ltb, ◌==◌, length, Option-cases,
}
use protocol_robustness_fram.Prelude.Result.{ok, raise_if, >>=-eq-ok, raise_if-eq-ok}
use protocol_robustness_fram.Json.{Json}
use protocol_robustness_fram.Inclusion.Bytes.{Bytes, decode_hex, hex_bytes, bytes_eq, bytes_eq→eq}
use protocol_robustness_fram.Inclusion.Libraries.{Libraries}
use protocol_robustness_fram.Inclusion.Trie.Binding.{NoCollision}
use protocol_robustness_fram.Inclusion.Header.{Header, header_identity, follow}

-- The byte strings of those values that are hexadecimal.
abbrev pub decoded : List Json → List Bytes
decoded [] = []
decoded (x ∷ xs) = elim (decode_hex x) [ none ↦ decoded xs | some b ↦ b ∷ decoded xs ]

pub decode_hex-hex_bytes :
    (x : Json) (label : String) (size : Option ℕ) {b : Bytes}
    → hex_bytes x label size ≡ ok b
    → decode_hex x ≡ some b
unfolding hex_bytes
decode_hex-hex_bytes x label size h = ground arith

pub head-decoded :
    (x : Json) (xs : List Json) {b : Bytes} → decode_hex x ≡ some b → Memᴰ b (decoded (x ∷ xs))
head-decoded x xs e = rw (decoded, e) (Memᴰ.head refl)

pub tail-decoded :
    (x : Json) (xs : List Json) {b : Bytes} → Memᴰ b (decoded xs) → Memᴰ b (decoded (x ∷ xs))
tail-decoded x xs m = elim (Option-cases (decode_hex x)) [
  | inl e ↦ rw (decoded, e) m
  | inr (c, e) ↦ rw (decoded, e) (Memᴰ.tail m)
]

module _ (lib : Libraries) where
  -- The identity of a header names the hash of its bytes.
  pub hash-header_identity :
      (raw : Bytes) {h : Header} → header_identity lib raw ≡ ok h → h.hash ≡ lib.keccak raw
  unfolding header_identity
  hash-header_identity raw h = ground arith

  -- One step of the loop, taken apart.
  pub follow-step :
      (count : ℕ) (hash : Bytes) (number : ℕ) (x : Json) (xs : List Json) {top : Bytes × ℕ}
      → follow lib count hash number (x ∷ xs) ≡ ok top
      → (raw : Bytes) × (h : Header) × (more : ℕ) × (decode_hex x ≡ some raw)
        × (header_identity lib raw ≡ ok h)
        × (h.parent ≡ hash)
        × (h.number ≡ suc number)
        × (follow lib more h.hash h.number xs ≡ ok top)
  unfolding follow
  follow-step count hash number x xs h =
      let (raw, raw_ok, h₁) = >>=-eq-ok (hex_bytes x "ancestry header" none) _ h in
      let (_, small, h₂) =
        >>=-eq-ok (raise_if (ltb (8 * 1024 * 1024) (count + length raw)) _) _ h₁ in
      let (header, header_ok, h₃) = >>=-eq-ok (header_identity lib raw) _ h₂ in
      let (_, linked, h₄) =
        >>=-eq-ok (raise_if (not (bytes_eq header.parent hash && header.number == number + 1)) _) _
          h₃ in
      let link =
        raise_if-eq-ok (not (bytes_eq header.parent hash && header.number == number + 1)) _
          linked in
      (
        raw,
        header,
        count + length raw,
        decode_hex-hex_bytes x "ancestry header" none raw_ok,
        header_ok,
        bytes_eq→eq header.parent hash (ground (arith, link)),
        ground (arith, link),
        h₄,
      )

  -- Every step raises the height by one.
  pub follow-height :
      (count : ℕ) (hash : Bytes) (number : ℕ) (xs : List Json) {top : Bytes} {height : ℕ}
      → follow lib count hash number xs ≡ ok (top, height)
      → height ≡ number + length xs
  unfolding follow
  follow-height count hash number [] h = ground arith
  follow-height count hash number (x ∷ xs) h =
      let (raw, header, more, _, _, _, next, rest) = follow-step count hash number x xs h in
      omega (arith, follow-height more header.hash header.number xs rest)

  follow-nil :
      (count : ℕ) (hash : Bytes) (number : ℕ) {top : Bytes} {height : ℕ}
      → follow lib count hash number [] ≡ ok (top, height)
      → hash ≡ top
  unfolding follow
  follow-nil count hash number h = cc

  -- Two loops that end at one hash and one height, and that start at one height, start at one hash,
  -- if no two different headers of them have the same hash.
  pub follow_unique :
      (c c' : ℕ) (hash hash' : Bytes) (number : ℕ) (xs ys : List Json) {top : Bytes} {height : ℕ}
      → NoCollision lib (decoded xs) (decoded ys)
      → follow lib c hash number xs ≡ ok (top, height)
      → follow lib c' hash' number ys ≡ ok (top, height)
      → hash ≡ hash'
  follow_unique c c' hash hash' number [] [] clear h k =
      follow-nil c hash number h ∙ sym (follow-nil c' hash' number k)
  follow_unique c c' hash hash' number [] (y ∷ ys) clear h k =
      absurd
        (omega (arith, follow-height c hash number [] h, follow-height c' hash' number (y ∷ ys) k))
  follow_unique c c' hash hash' number (x ∷ xs) [] clear h k =
      absurd
        (omega (arith, follow-height c hash number (x ∷ xs) h, follow-height c' hash' number [] k))
  follow_unique c c' hash hash' number (x ∷ xs) (y ∷ ys) {top} {height} clear h k =
      let (raw, header, more, raw_ok, header_ok, parent_ok, next, rest) =
        follow-step c hash number x xs h in
      let (raw', header', more', raw_ok', header_ok', parent_ok', next', rest') =
        follow-step c' hash' number y ys k in
      let above : NoCollision lib (decoded xs) (decoded ys) =
        λ a b m n. clear a b (tail-decoded x xs m) (tail-decoded y ys n) in
      let rest'' : follow lib more' header'.hash header.number ys ≡ ok (top, height) =
        subst (λ n. follow lib more' header'.hash n ys ≡ ok (top, height)) (next' ∙ sym next)
          rest' in
      let hashes : header.hash ≡ header'.hash =
        follow_unique more more' header.hash header'.hash header.number xs ys above rest rest'' in
      let bytes_agree : raw ≡ raw' =
        clear raw raw' (head-decoded x xs raw_ok) (head-decoded y ys raw_ok') (
          sym (hash-header_identity raw header_ok)
          ∙ hashes
          ∙ hash-header_identity raw' header_ok') in
      cc

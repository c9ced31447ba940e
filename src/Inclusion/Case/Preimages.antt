-- ===== src/Inclusion/Case/Preimages.antt =====
-- The byte strings that `verify_case` hashes, and where the checked proofs come from.
use mathlib.Core.List.{Memᴰ}
use mathlib.Core.List.Memᴰ
use protocol_robustness_fram.Prelude.{
  ℕ, ◌*◌, ◌≡◌, sym, ◌∙◌, ap, subst, inl, inr, String, List, [], ◌∷◌, ◌++◌, Option, none, some,
  arith, ltb, length, Option-cases,
}
use protocol_robustness_fram.Prelude.Result.{ok, raise_if, >>=-eq-ok}
use protocol_robustness_fram.Json.{Json, Fields, get, items}
use protocol_robustness_fram.Inclusion.Bytes.{Bytes, decode_hex, hex_bytes}
use protocol_robustness_fram.Inclusion.Libraries.{Libraries}
use protocol_robustness_fram.Inclusion.Trie.Binding.{NoCollision}
use protocol_robustness_fram.Inclusion.Header.Chain.{
  decoded, head-decoded, tail-decoded, decode_hex-hex_bytes,
}
use protocol_robustness_fram.Inclusion.Receipt.{as_array, hex_list}
use protocol_robustness_fram.Inclusion.Case.{read_proofs, total_length}

abbrev pub array_items : Json → List Json
array_items (Json.arr xs) = items xs
array_items _ = []

-- The values of a case whose bytes are hashed: its headers and its proof nodes.
abbrev pub hashed_values : Fields → List Json
hashed_values fs =
    get "blockHeaderRlp" fs
    ∷ (array_items (get "headerAncestry" fs)
        ++ (array_items (get "transactionProof" fs) ++ array_items (get "receiptProof" fs)))

abbrev pub preimages : Json → List Bytes
preimages (Json.obj fs) = decoded (hashed_values fs)
preimages _ = []

abbrev pub Included : List Bytes → List Bytes → Type 0
Included p q = (b : Bytes) → Memᴰ b p → Memᴰ b q

pub NoCollision-mono :
    (lib : Libraries) {p q P Q : List Bytes}
    → NoCollision lib P Q
    → Included p P
    → Included q Q
    → NoCollision lib p q
NoCollision-mono lib clear i j a b m n = clear a b (i a m) (j b n)

pub decoded-append_left : (xs ys : List Json) → Included (decoded xs) (decoded (xs ++ ys))
decoded-append_left [] ys b m = elim m [ ]
decoded-append_left (x ∷ xs) ys b m = elim (Option-cases (decode_hex x)) [
  | inl e ↦ rw (decoded, e) (decoded-append_left xs ys b (rw (decoded, e) at m))
  | inr (c, e) ↦ elim (Memᴰ.cases_cons (rw (decoded, e) at m)) [
    | inl first ↦ head-decoded x (xs ++ ys) (e ∙ ap some (sym first))
    | inr later ↦ tail-decoded x (xs ++ ys) (decoded-append_left xs ys b later)
  ]
]

decoded-append_right : (xs ys : List Json) → Included (decoded ys) (decoded (xs ++ ys))
decoded-append_right [] ys b m = m
decoded-append_right (x ∷ xs) ys b m = tail-decoded x (xs ++ ys) (decoded-append_right xs ys b m)

pub array_items-as_array :
    (x : Json) (failure : String) {xs : List Json} → as_array x failure ≡ ok xs → array_items x ≡ xs
unfolding as_array
array_items-as_array (Json.arr ys) failure h = cc
array_items-as_array _ failure h = cc

hex_list-decoded :
    (xs : List Json) (label : String) (size : Option ℕ) {bs : List Bytes}
    → hex_list xs label size ≡ ok bs
    → Included bs (decoded xs)
unfolding hex_list
hex_list-decoded [] label size {bs} h b m =
    let e : bs ≡ [] = ground arith in absurd (Memᴰ.not-nil (rw e at m))
hex_list-decoded (x ∷ xs) label size {bs} h b m =
    let (c, first_ok, h') = >>=-eq-ok (hex_bytes x label size) _ h in
    let (cs, rest_ok, h'') = >>=-eq-ok (hex_list xs label size) _ h' in
    let e : bs ≡ c ∷ cs = ground (arith, h'') in
    elim (Memᴰ.cases_cons (rw e at m)) [
      | inl first ↦
          head-decoded x xs (decode_hex-hex_bytes x label size first_ok ∙ ap some (sym first))
      | inr later ↦ tail-decoded x xs (hex_list-decoded xs label size rest_ok b later)
    ]

array-decoded :
    (x : Json) (failure label : String) {xs : List Json} {bs : List Bytes}
    → as_array x failure ≡ ok xs
    → hex_list xs label none ≡ ok bs
    → Included bs (decoded (array_items x))
array-decoded x failure label {xs} a h b m =
    subst (λ ys. Memᴰ b (decoded ys)) (sym (array_items-as_array x failure a))
      (hex_list-decoded xs label none h b m)

-- The proofs that are checked, and that their nodes are among the hashed values.
pub read_proofs-decoded :
    (fs : Fields) {tp rp : List Bytes}
    → read_proofs fs ≡ ok (tp, rp)
    → Included tp (decoded (hashed_values fs)) × Included rp (decoded (hashed_values fs))
unfolding read_proofs
read_proofs-decoded fs {tp} {rp} h =
    let (ts, ts_ok, h₁) = >>=-eq-ok (as_array (get "transactionProof" fs) _) _ h in
    let (_, _, h₂) = >>=-eq-ok (raise_if (ltb 128 (length ts)) _) _ h₁ in
    let (tp', tp_ok, h₃) = >>=-eq-ok (hex_list ts "transaction proof node" none) _ h₂ in
    let (rs, rs_ok, h₄) = >>=-eq-ok (as_array (get "receiptProof" fs) _) _ h₃ in
    let (_, _, h₅) = >>=-eq-ok (raise_if (ltb 128 (length rs)) _) _ h₄ in
    let (rp', rp_ok, h₆) = >>=-eq-ok (hex_list rs "receipt proof node" none) _ h₅ in
    let (_, _, h₇) =
      >>=-eq-ok (raise_if (ltb (4 * 1024 * 1024) (total_length (tp' ++ rp'))) _) _ h₆ in
    let et : tp' ≡ tp = cc h₇ in
    let er : rp' ≡ rp = cc h₇ in
    let header = get "blockHeaderRlp" fs in
    let ancestors = array_items (get "headerAncestry" fs) in
    let t = array_items (get "transactionProof" fs) in
    let r = array_items (get "receiptProof" fs) in
    (
      λ b m. tail-decoded header (ancestors ++ (t ++ r)) (
          decoded-append_right ancestors (t ++ r) b (
            decoded-append_left t r b
              (array-decoded (get "transactionProof" fs) _ _ ts_ok tp_ok b (rw (← et) at m)))),
      λ b m. tail-decoded header (ancestors ++ (t ++ r)) (
          decoded-append_right ancestors (t ++ r) b (
            decoded-append_right t r b
              (array-decoded (get "receiptProof" fs) _ _ rs_ok rp_ok b (rw (← er) at m)))),
    )

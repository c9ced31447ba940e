-- ===== src/Inclusion/Context/Anchoring.antt =====
-- The bytes of a trusted context fix its anchor, whatever the digest and the time it is read at.
use text.Mathlib.Text.{◌==◌ as str_eq}
use protocol_robustness_fram.Prelude.{
  ◌*◌, ◌≡◌, refl, ◌∙◌, ap, String, not, ◌&&◌, some, arith, ltb, length,
}
use protocol_robustness_fram.Prelude.Int.{ℤ}
use protocol_robustness_fram.Prelude.Result.{ok, err, raise_if, >>=-eq-ok, ok_inj}
use protocol_robustness_fram.Json.{Json, Fields, get, has_exactly}
use protocol_robustness_fram.Inclusion.Bytes.{Bytes, Checked, message, hex_bytes}
use protocol_robustness_fram.Inclusion.Libraries.{Libraries}
use protocol_robustness_fram.Inclusion.Context.{
  Trust, trust_schema, trust_required, is_text, as_int, trust_window, trust_identity, read_trust,
  json_no_duplicates, trusted_context,
}

window-number :
    (fs : Fields) (now n : ℤ)
    → trust_window fs now ≡ ok n
    → as_int (get "anchorHeaderNumber" fs) ≡ some n
unfolding trust_window
window-number fs now n h = ground arith

read_trust-anchor :
    (fs : Fields) (now : ℤ) {t : Trust}
    → read_trust fs now ≡ ok t
    → (hex_bytes (get "anchorHeaderHash" fs) "trusted anchor header hash" (some 32)
        ≡ ok t.anchor_hash)
      × (as_int (get "anchorHeaderNumber" fs) ≡ some t.anchor_number)
unfolding read_trust
read_trust-anchor fs now {t} h =
    let (_, _, h₁) =
      >>=-eq-ok
        (raise_if (not (has_exactly fs trust_required && is_text (get "schema" fs) trust_schema)) _)
        _ h in
    let (identity, _, h₂) = >>=-eq-ok (trust_identity fs) _ h₁ in
    let (number, number_ok, h₃) = >>=-eq-ok (trust_window fs now) _ h₂ in
    let (_, _, h₄) =
      >>=-eq-ok (raise_if (not (is_text (get "finalityStatus" fs) "unverified")) _) _ h₃ in
    let (anchor, anchor_ok, h₅) =
      >>=-eq-ok (hex_bytes (get "anchorHeaderHash" fs) "trusted anchor header hash" (some 32)) _
        h₄ in
    let hashes : anchor ≡ t.anchor_hash = ap (λ (x : Trust). x.anchor_hash) (ok_inj h₅) in
    let numbers : number ≡ t.anchor_number = ap (λ (x : Trust). x.anchor_number) (ok_inj h₅) in
    (anchor_ok ∙ ap ok hashes, window-number fs now number number_ok ∙ ap some numbers)

module _ (lib : Libraries) (context : Bytes) where
  read_object : Json → ℤ → Checked Trust
  read_object document now = elim document [
    | Json.obj trust ↦ read_trust trust now
    | _ ↦ err (message "trusted context schema or fields are invalid")
  ]

  read_object-obj :
      (document : Json) (now : ℤ) {t : Trust}
      → read_object document now ≡ ok t
      → (fs : Fields) × (document ≡ Json.obj fs) × (read_trust fs now ≡ ok t)
  unfolding read_object
  read_object-obj (Json.obj fs) now h = (fs, refl, h)
  read_object-obj _ now h = cc

  trusted_context-read :
      (expected : String) (now : ℤ) {t : Trust}
      → trusted_context lib context expected now ≡ ok t
      → (fs : Fields) × (json_no_duplicates lib context ≡ ok (Json.obj fs))
        × (read_trust fs now ≡ ok t)
  unfolding trusted_context read_object
  trusted_context-read expected now h =
      let (_, _, h₁) = >>=-eq-ok (raise_if (ltb (64 * 1024) (length context)) _) _ h in
      let (_, _, h₂) =
        >>=-eq-ok (raise_if (not (str_eq expected (lib.sha256_hex context))) _) _ h₁ in
      let (document, document_ok, h₃) = >>=-eq-ok (json_no_duplicates lib context) _ h₂ in
      let (fs, e, read) = read_object-obj document now h₃ in (fs, document_ok ∙ ap ok e, read)

  pub trusted_context_anchor :
      (expected expected' : String) (now now' : ℤ) {t u : Trust}
      → trusted_context lib context expected now ≡ ok t
      → trusted_context lib context expected' now' ≡ ok u
      → (t.anchor_hash ≡ u.anchor_hash) × (t.anchor_number ≡ u.anchor_number)
  trusted_context_anchor expected expected' now now' h k =
      let (fs, parsed, read) = trusted_context-read expected now h in
      let (gs, parsed', read') = trusted_context-read expected' now' k in
      let same : fs ≡ gs = cc (parsed, parsed') in
      let (hash, number) = read_trust-anchor fs now read in
      let (hash', number') = read_trust-anchor gs now' read' in
      (cc (same, hash, hash'), cc (same, number, number'))

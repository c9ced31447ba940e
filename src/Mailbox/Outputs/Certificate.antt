-- ===== src/Mailbox/Outputs/Certificate.antt =====
-- The signature of a consensus certificate.
use protocol_robustness_fram.Prelude.{
  ◌≡◌, refl, ◌⊎◌, inl, inr, Bool-cases, true, false, [], ◌∷◌, Option, arith,
}
use protocol_robustness_fram.Prelude.Result.{ok}
use protocol_robustness_fram.Json.{Json, null, bool, int, str, arr, obj, Fields, end, get}
use protocol_robustness_fram.Json.Equality.{same_scalar, is_truthy}
use protocol_robustness_fram.Json.Dict.{without}
use protocol_robustness_fram.Identity.{IdentityRegistry, fail}
use protocol_robustness_fram.Signatures.{
  Libraries, canonical_json, message_hash, Verification, is_complete, outcome_record,
  verify_complete, verify_dict, verify_field, verify_message, malformed, hash_mismatch,
}
use protocol_robustness_fram.Mailbox.Submission.{check, certificate_signature}
use protocol_robustness_fram.Mailbox.Outputs.{
  certificate_message, after_verifying, abs_path_check, certificate_signature_checks,
}

module _ (lib : Libraries) (registry : Option IdentityRegistry) (cert : Fields)
    (has_signature : is_truthy (get "consensus-certificate/signature" cert) ≡ true)
    (has_hash : is_truthy (get "consensus-certificate/hash" cert) ≡ true)
    (other_hash : same_scalar
        (get "consensus-certificate/hash" cert)
        (str (lib.sha256_hex (lib.dumps end)))
      ≡ false) where
  verify_field-rejects :
      (s : Json)
      → (v : Verification) × (verify_field lib (certificate_message cert) s registry ≡ ok v)
        × ((v.outcome ≡ malformed) ⊎ (v.outcome ≡ hash_mismatch))
  unfolding verify_field verify_dict verify_complete message_hash canonical_json without
  verify_field-rejects (obj sig) = elim (Bool-cases (is_complete sig)) [
    | inl complete ↦ (
      outcome_record null (get "runner-signature/public-key" sig) hash_mismatch,
      ground (arith, complete, has_hash, other_hash),
      inr refl,
    )
    | inr incomplete ↦ (outcome_record null null malformed, ground (arith, incomplete), inl refl)
  ]
  verify_field-rejects null = (outcome_record null null malformed, refl, inl refl)
  verify_field-rejects (bool b) = (outcome_record null null malformed, refl, inl refl)
  verify_field-rejects (int n) = (outcome_record null null malformed, refl, inl refl)
  verify_field-rejects (str t) = (outcome_record null null malformed, refl, inl refl)
  verify_field-rejects (arr xs) = (outcome_record null null malformed, refl, inl refl)

  -- A signed certificate with a hash other than that of the empty object fails its signature
  -- check, whatever the keys, the signature and the registry.
  pub certificate_signature-fails :
      certificate_signature_checks lib registry cert
      ≡ check fail certificate_signature ∷ abs_path_check lib cert ∷ []
  unfolding certificate_signature_checks after_verifying verify_message
  certificate_signature-fails =
      let (v, verified, o) = verify_field-rejects (get "consensus-certificate/signature" cert) in
      elim o [
        | inl bad ↦ ground (arith, has_signature, verified, bad)
        | inr bad ↦ ground (arith, has_signature, verified, bad)
      ]

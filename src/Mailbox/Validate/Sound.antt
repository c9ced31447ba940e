-- ===== src/Mailbox/Validate/Sound.antt =====
-- What a report without a failed check says of every submission.
use text.Mathlib.Text.{◌==◌ as str_eq}
use text.Mathlib.TextEquality.{eq_iff}
use protocol_robustness_fram.Prelude.{
  ◌≡◌, refl, sym, ap, ◌∙◌, ◌⊎◌, inl, inr, Bool-cases, String, true, false, List, [], ◌∷◌, ◌++◌,
  Option, none, some, arith,
}
use protocol_robustness_fram.Prelude.Result.{ok, >>=-eq-ok, ok_inj}
use protocol_robustness_fram.Json.{Json, null, bool, int, str, arr, obj, lookup, get}
use protocol_robustness_fram.Json.Equality.{same_scalar, is_truthy}
use protocol_robustness_fram.Identity.{IdentityRegistry, fail}
use protocol_robustness_fram.Signatures.{
  Libraries, hash_exclude_keys, Outcome, unsigned, malformed, hash_mismatch, invalid_signature,
  registry_key_mismatch, valid_trusted, valid_unknown, valid_inactive, valid_revoked, Verification,
  hash_changed, message_hash, verify_message,
}
use protocol_robustness_fram.Signatures.Intact.{verify_message-intact}
use protocol_robustness_fram.Mailbox.Messages.Signed.{message_hash-self_hash}
use protocol_robustness_fram.Mailbox.Store.{self_hash}
use protocol_robustness_fram.Mailbox.Submission.{
  CheckResult, check, submission_rrh, Submission, to_submission, text_or_empty, hash_check,
  unless_same, schema_checks, rrh_checks, signature_severity, signature_checks, submission_checks,
  short_hash,
}
use protocol_robustness_fram.Mailbox.Validate.Clean.{is_clean, clean, clean-append}

-- What a submission has when its checks are clean and signatures are required.
pub record Sound (lib : Libraries) (rrh : String) (registry : Option IdentityRegistry)
    (s : Submission) : Type 0 where
  pub has_hash : is_truthy (str s.hash) ≡ true
  pub hash_right : s.hash ≡ self_hash lib hash_exclude_keys s.contents
  pub same_request :
      (is_truthy (get "runner-message/run-request-hash" s.contents) ≡ false)
      ⊎ (get "runner-message/run-request-hash" s.contents ≡ str rrh)
  pub verification : Verification
  pub verified : verify_message lib s.contents registry ≡ ok verification
  pub outcomes :
      (verification.outcome ≡ valid_trusted) ⊎ (verification.outcome ≡ registry_key_mismatch)

same_scalar-str : (v : Json) (t : String) → same_scalar v (str t) ≡ true → v ≡ str t
same_scalar-str (str u) t h = ap str ((eq_iff u t).0 h)
same_scalar-str null t h = cc
same_scalar-str (bool b) t h = cc
same_scalar-str (int n) t h = cc
same_scalar-str (arr xs) t h = cc
same_scalar-str (obj fs) t h = cc

-- The hash of a submission is the text under its key, or empty where there is none.
pub to_submission-hash :
    (v : Json) {s : Submission}
    → to_submission v ≡ ok s
    → (v ≡ obj s.contents) × (text_or_empty (lookup "runner-message/hash" s.contents) ≡ ok s.hash)
unfolding to_submission
to_submission-hash (obj fs) e =
    let (h, eh, e1) = >>=-eq-ok (text_or_empty (lookup "runner-message/hash" fs)) _ e in
    let (t, et, e2) = >>=-eq-ok (text_or_empty (lookup "runner-message/timestamp" fs)) _ e1 in
    let made = ok_inj e2 in
    (
      ap (λ (x : Submission). obj x.contents) made,
      ap (λ (x : Submission). text_or_empty (lookup "runner-message/hash" x.contents)) (sym made)
          ∙ eh
          ∙ ap (λ (x : Submission). ok x.hash) made,
    )
to_submission-hash null e = cc
to_submission-hash (bool b) e = cc
to_submission-hash (int n) e = cc
to_submission-hash (str w) e = cc
to_submission-hash (arr xs) e = cc

text_or_empty-intact :
    (found : Option Json) (h : String)
    → text_or_empty found ≡ ok h
    → hash_changed (elim found [ some v ↦ v | none ↦ null ]) h ≡ false
text_or_empty-intact none h e = refl
text_or_empty-intact (some (str s)) h e = ground (arith, ok_inj e, eq_iff s h)
text_or_empty-intact (some null) h e = refl
text_or_empty-intact (some (bool b)) h e = cc
text_or_empty-intact (some (int n)) h e = cc
text_or_empty-intact (some (arr xs)) h e = cc
text_or_empty-intact (some (obj fs)) h e = cc

module _ (lib : Libraries) (rrh : String) (registry : Option IdentityRegistry)
    (s : Submission) where
  hash_check-clean :
      is_clean (hash_check lib true s).status ≡ true
      → (is_truthy (str s.hash) ≡ true) × (s.hash ≡ self_hash lib hash_exclude_keys s.contents)
  unfolding hash_check
  hash_check-clean h = elim (Bool-cases (is_truthy (str s.hash))) [
    | inl present ↦ elim (Bool-cases (str_eq s.hash (self_hash lib hash_exclude_keys s.contents))) [
      | inl same ↦ (present, (eq_iff _ _).0 same)
      | inr other ↦ ground (arith, h, present, other)
    ]
    | inr missing ↦ ground (arith, h, missing)
  ]

  unless_same-clean :
      (v : Json) (c : CheckResult)
      → is_clean c.status ≡ false
      → clean (unless_same v rrh c) ≡ true
      → (is_truthy v ≡ false) ⊎ (same_scalar v (str rrh) ≡ true)
  unless_same-clean v c bad h = elim (Bool-cases (is_truthy v)) [
    | inl present ↦ elim (Bool-cases (same_scalar v (str rrh))) [
      | inl same ↦ inr same
      | inr other ↦ ground (arith, h, bad, present, other)
    ]
    | inr missing ↦ inl missing
  ]

  hash_intact :
      s.hash ≡ self_hash lib hash_exclude_keys s.contents
      → text_or_empty (lookup "runner-message/hash" s.contents) ≡ ok s.hash
      → hash_changed (get "runner-message/hash" s.contents) (message_hash lib s.contents) ≡ false
  hash_intact right text =
      ap (λ (h : String). hash_changed (get "runner-message/hash" s.contents) h)
        (message_hash-self_hash lib s.contents ∙ sym right)
      ∙ text_or_empty-intact (lookup "runner-message/hash" s.contents) s.hash text

  same_request_clean :
      clean (rrh_checks rrh s) ≡ true
      → (is_truthy (get "runner-message/run-request-hash" s.contents) ≡ false)
        ⊎ (get "runner-message/run-request-hash" s.contents ≡ str rrh)
  unfolding rrh_checks
  same_request_clean h =
      elim (unless_same-clean (get "runner-message/run-request-hash" s.contents)
        (check fail (submission_rrh (short_hash s.hash))) refl h) [
          | inl missing ↦ inl missing
          | inr same ↦ inr (same_scalar-str _ _ same)
        ]

  outcomes-clean :
      (o : Outcome)
      → clean (signature_checks true o s) ≡ true
      → (o ≡ hash_mismatch → ⊥)
      → (o ≡ valid_trusted) ⊎ (o ≡ registry_key_mismatch)
  unfolding signature_checks signature_severity
  outcomes-clean valid_trusted h n = inl refl
  outcomes-clean registry_key_mismatch h n = inr refl
  outcomes-clean hash_mismatch h n = absurd (n refl)
  outcomes-clean unsigned h n = cc
  outcomes-clean malformed h n = cc
  outcomes-clean invalid_signature h n = cc
  outcomes-clean valid_unknown h n = cc
  outcomes-clean valid_inactive h n = cc
  outcomes-clean valid_revoked h n = cc

  pub submission_checks-Sound :
      (v : Json) {checks : List CheckResult}
      → to_submission v ≡ ok s
      → submission_checks lib rrh registry true s ≡ ok checks
      → clean checks ≡ true
      → Sound lib rrh registry s
  unfolding submission_checks rrh_checks
  submission_checks-Sound v made e h =
      let (verification, verified, e1) = >>=-eq-ok (verify_message lib s.contents registry) _ e in
      let signature = signature_checks true verification.outcome s in
      let (a, signed) =
        clean-append (hash_check lib true s ∷ schema_checks s ++ rrh_checks rrh s) signature
          (ap clean (ok_inj e1) ∙ h) in
      let (b, request) =
        clean-append (hash_check lib true s ∷ schema_checks s) (rrh_checks rrh s) a in
      let (c, schema) = clean-append (hash_check lib true s ∷ []) (schema_checks s) b in
      let (present, right) = hash_check-clean (ground (arith, c)) in
      let (dict, text) = to_submission-hash v made in
      let intact = hash_intact right text in
      record {
        has_hash = present;
        hash_right = right;
        same_request = same_request_clean request;
        verification = verification;
        verified = verified;
        outcomes =
            outcomes-clean verification.outcome signed
              (verify_message-intact lib s.contents registry intact verified);
      }

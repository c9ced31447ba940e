-- ===== src/Signatures/Accepted.antt =====
-- Which steps of `verify_message` a message passed whose outcome is `valid-trusted`.
use protocol_robustness_fram.Prelude.{
  ◌≡◌, refl, ap, ◌∙◌, ◌⊎◌, inl, inr, Bool-cases, String, Bool, true, false, Option, none, some,
  arith, if-else, if◌then◌else◌,
}
use text.Mathlib.Text.{◌==◌ as str_eq}
use text.Mathlib.TextEquality.{eq_iff}
use protocol_robustness_fram.Prelude.Result.{Result, ok, err, ◌>>=◌, >>=-eq-ok, ok_inj}
use protocol_robustness_fram.Json.{Json, null, bool, int, str, arr, obj, Fields, get}
use protocol_robustness_fram.Json.Equality.{same_scalar, is_truthy}
use protocol_robustness_fram.Identity.{Failure, IdentityRegistry, status}
use protocol_robustness_fram.Signatures.{
  Libraries, SignatureCheck, verifies, raises, bad_signature, canonical_json, message_hash,
  sign_exclude_keys, Outcome, Verification, is_complete, check_signature, has_other_key,
  has_other_runner, status_outcome, unless_mismatch, hash_changed, after_check, malformed, unsigned,
  verify_field, hash_mismatch, registry_outcome, outcome_record, verify_complete, verify_dict,
  verify_message, valid_trusted,
}

-- The results of the steps.
pub record Passed (lib : Libraries) (msg : Fields) (registry : Option IdentityRegistry)
    : Type 0 where
  pub signature : Fields
  pub registered : IdentityRegistry
  pub in_message : get "runner-message/signature" msg ≡ obj signature
  pub complete : is_complete signature ≡ true
  pub hash_intact :
      (is_truthy (get "runner-message/hash" msg) ≡ false)
      ⊎ (same_scalar (get "runner-message/hash" msg) (str (message_hash lib msg)) ≡ true)
  pub verified :
      check_signature lib
        (get "runner-signature/public-key" signature)
        (canonical_json lib sign_exclude_keys msg)
        (get "runner-signature/value" signature)
      ≡ verifies
  pub in_registry : registry ≡ some registered
  pub own_key :
      has_other_key registered
        (get "runner-message/runner-id" msg)
        (get "runner-signature/public-key" signature)
      ≡ ok false
  pub own_runner :
      has_other_runner registered
        (get "runner-message/runner-id" msg)
        (get "runner-signature/public-key" signature)
      ≡ ok false
  pub trusted :
      status registered
        (get "runner-message/runner-id" msg)
        (get "runner-signature/public-key" signature)
      ≡ ok (str "trusted")

status_outcome-trusted : (s : Json) → status_outcome s ≡ valid_trusted → s ≡ str "trusted"
unfolding status_outcome
status_outcome-trusted (str t) e = elim (Bool-cases (str_eq t "trusted")) [
  | inl same ↦ ap str ((eq_iff t "trusted").0 same)
  | inr other ↦ ground (arith, e, other)
]
status_outcome-trusted null e = ground (arith, e)
status_outcome-trusted (bool b) e = ground (arith, e)
status_outcome-trusted (int n) e = ground (arith, e)
status_outcome-trusted (arr xs) e = ground (arith, e)
status_outcome-trusted (obj fs) e = ground (arith, e)

unless_mismatch-trusted :
    (mismatch : Bool) (next : Result Failure Outcome)
    → unless_mismatch mismatch next ≡ ok valid_trusted
    → (mismatch ≡ false) × (next ≡ ok valid_trusted)
unfolding unless_mismatch
unless_mismatch-trusted true next e = cc
unless_mismatch-trusted false next e = (refl, e)

abbrev TrustedBy : Option IdentityRegistry → Json → Json → Type 0
TrustedBy registry runner key =
    (r : IdentityRegistry) × (registry ≡ some r)
    × (has_other_key r runner key ≡ ok false)
    × (has_other_runner r runner key ≡ ok false)
    × (status r runner key ≡ ok (str "trusted"))

registry_outcome-trusted :
    (registry : Option IdentityRegistry) (runner key : Json)
    → registry_outcome registry runner key ≡ ok valid_trusted
    → TrustedBy registry runner key
unfolding registry_outcome
registry_outcome-trusted none runner key e = cc
registry_outcome-trusted (some r) runner key e =
    let (other_key, k, e1) = >>=-eq-ok (has_other_key r runner key) _ e in
    let (own_key, e2) = unless_mismatch-trusted other_key _ e1 in
    let (other_runner, n, e3) = >>=-eq-ok (has_other_runner r runner key) _ e2 in
    let (own_runner, e4) = unless_mismatch-trusted other_runner _ e3 in
    let (s, t, e5) = >>=-eq-ok (status r runner key) _ e4 in
    (
      r,
      refl,
      k ∙ ap ok own_key,
      n ∙ ap ok own_runner,
      t ∙ ap ok (status_outcome-trusted s (ok_inj e5)),
    )

not_malformed : malformed ≡ valid_trusted → ⊥
not_malformed e = cc

not_unsigned : unsigned ≡ valid_trusted → ⊥
not_unsigned e = cc

not_signature :
    {A : Type 0} {runner : Json} {v : Verification}
    → ◌≡◌ {A = Result Failure Verification} (ok (outcome_record runner null malformed)) (ok v)
    → v.outcome ≡ valid_trusted
    → A
not_signature e t = absurd (not_malformed (ap (λ w. w.outcome) (ok_inj e) ∙ t))

module _ (lib : Libraries) (msg sig : Fields) (registry : Option IdentityRegistry) where
  hash_cases :
      (h : Json) (t : String)
      → hash_changed h t ≡ false
      → (is_truthy h ≡ false) ⊎ (same_scalar h (str t) ≡ true)
  hash_cases h t e = elim (Bool-cases (is_truthy h)) [
    | inl present ↦ inr (ground (arith, e, present))
    | inr missing ↦ inl missing
  ]

  after_check-trusted :
      (check : SignatureCheck) (next : Result Failure Outcome)
      → after_check check next ≡ ok valid_trusted
      → (check ≡ verifies) × (next ≡ ok valid_trusted)
  unfolding after_check
  after_check-trusted verifies next e = (refl, e)
  after_check-trusted bad_signature next e = cc
  after_check-trusted raises next e = cc

  not_trusted : ◌≡◌ {A = Result Failure Outcome} (ok hash_mismatch) (ok valid_trusted) → ⊥
  not_trusted e = cc

  verify_complete-trusted :
      verify_complete lib msg sig registry ≡ ok valid_trusted
      → ((is_truthy (get "runner-message/hash" msg) ≡ false)
          ⊎ (same_scalar (get "runner-message/hash" msg) (str (message_hash lib msg)) ≡ true))
        × (check_signature lib
              (get "runner-signature/public-key" sig)
              (canonical_json lib sign_exclude_keys msg)
              (get "runner-signature/value" sig)
            ≡ verifies)
        × TrustedBy registry
            (get "runner-message/runner-id" msg)
            (get "runner-signature/public-key" sig)
  unfolding verify_complete
  verify_complete-trusted e =
      let (kept, e1) =
        if-else (hash_changed (get "runner-message/hash" msg) (message_hash lib msg)) e
          not_trusted in
      let (v, e2) = after_check-trusted _ _ e1 in
      (
        hash_cases (get "runner-message/hash" msg) (message_hash lib msg) kept,
        v,
        registry_outcome-trusted registry _ _ e2,
      )

  verify_complete_if :
      (complete : Bool) (r : Result Failure Outcome) (runner key : Json) {v : Verification}
      → (if complete
          then (do o ← r; ok (outcome_record runner key o))
          else ok (outcome_record runner null malformed))
        ≡ ok v
      → v.outcome ≡ valid_trusted
      → (complete ≡ true) × (r ≡ ok valid_trusted)
  verify_complete_if true (ok o) runner key e t = (refl, ap ok (ap (λ w. w.outcome) (ok_inj e) ∙ t))
  verify_complete_if true (err failure) runner key e t = cc
  verify_complete_if false r runner key e t =
      absurd (not_malformed (ap (λ w. w.outcome) (ok_inj e) ∙ t))

  verify_dict-Passed :
      {v : Verification}
      → verify_dict lib msg sig registry ≡ ok v
      → v.outcome ≡ valid_trusted
      → get "runner-message/signature" msg ≡ obj sig
      → Passed lib msg registry
  unfolding verify_dict
  verify_dict-Passed e t s =
      let (complete, e1) =
        verify_complete_if (is_complete sig) (verify_complete lib msg sig registry) _ _ e t in
      let (intact, v, (r, in_r, own, other, st)) = verify_complete-trusted e1 in
      record {
        signature = sig;
        registered = r;
        in_message = s;
        complete = complete;
        hash_intact = intact;
        verified = v;
        in_registry = in_r;
        own_key = own;
        own_runner = other;
        trusted = st;
      }

module _ (lib : Libraries) (msg : Fields) (registry : Option IdentityRegistry) where
  signed_if :
      (is_signed : Bool) {r : Result Failure Verification} (runner : Json) {v : Verification}
      → (if is_signed then r else ok (outcome_record runner null unsigned)) ≡ ok v
      → v.outcome ≡ valid_trusted
      → r ≡ ok v
  signed_if true runner e t = e
  signed_if false runner e t = absurd (not_unsigned (ap (λ w. w.outcome) (ok_inj e) ∙ t))

  verify_field-Passed :
      (s : Json) {v : Verification}
      → verify_field lib msg s registry ≡ ok v
      → v.outcome ≡ valid_trusted
      → get "runner-message/signature" msg ≡ s
      → Passed lib msg registry
  unfolding verify_field
  verify_field-Passed (obj sig) e t s = verify_dict-Passed lib msg sig registry e t s
  verify_field-Passed null e t s = not_signature e t
  verify_field-Passed (bool b) e t s = not_signature e t
  verify_field-Passed (int n) e t s = not_signature e t
  verify_field-Passed (str w) e t s = not_signature e t
  verify_field-Passed (arr xs) e t s = not_signature e t

  pub verify_message-Passed :
      {v : Verification}
      → verify_message lib msg registry ≡ ok v
      → v.outcome ≡ valid_trusted
      → Passed lib msg registry
  unfolding verify_message
  verify_message-Passed e t =
      verify_field-Passed (get "runner-message/signature" msg)
        (signed_if (is_truthy (get "runner-message/signature" msg))
          (get "runner-message/runner-id" msg) e t)
        t refl

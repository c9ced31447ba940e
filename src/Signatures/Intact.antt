-- ===== src/Signatures/Intact.antt =====
-- The outcome `hash-mismatch` needs a hash that is not the message's.
use protocol_robustness_fram.Prelude.{
  ◌≡◌, ap, ◌∙◌, Bool, true, false, Option, none, some, arith, if_false, if◌then◌else◌,
}
use protocol_robustness_fram.Prelude.Result.{Result, ok, err, ◌>>=◌, >>=-eq-ok, ok_inj}
use protocol_robustness_fram.Json.{Json, null, bool, int, str, arr, obj, Fields, get}
use protocol_robustness_fram.Json.Equality.{is_truthy}
use protocol_robustness_fram.Identity.{Failure, IdentityRegistry, status}
use protocol_robustness_fram.Signatures.{
  Libraries, SignatureCheck, verifies, raises, bad_signature, message_hash, Outcome, Verification,
  is_complete, has_other_key, has_other_runner, status_outcome, unless_mismatch, hash_changed,
  after_check, registry_outcome, outcome_record, verify_complete, verify_dict, verify_field,
  verify_message, unsigned, malformed, hash_mismatch,
}

status_outcome-intact : (s : Json) → status_outcome s ≡ hash_mismatch → ⊥
unfolding status_outcome
status_outcome-intact s e = ground (arith, e)

unless_mismatch-intact :
    (mismatch : Bool) (next : Result Failure Outcome)
    → (next ≡ ok hash_mismatch → ⊥)
    → unless_mismatch mismatch next ≡ ok hash_mismatch
    → ⊥
unfolding unless_mismatch
unless_mismatch-intact true next n e = cc
unless_mismatch-intact false next n e = n e

registry_outcome-intact :
    (registry : Option IdentityRegistry) (runner key : Json)
    → registry_outcome registry runner key ≡ ok hash_mismatch
    → ⊥
unfolding registry_outcome
registry_outcome-intact none runner key e = cc
registry_outcome-intact (some r) runner key e =
    let (other_key, k, e1) = >>=-eq-ok (has_other_key r runner key) _ e in
    unless_mismatch-intact other_key _
      (λ e2.
        let (other_runner, n, e3) = >>=-eq-ok (has_other_runner r runner key) _ e2 in
        unless_mismatch-intact other_runner _
          (λ e4.
            let (s, t, e5) = >>=-eq-ok (status r runner key) _ e4 in
            status_outcome-intact s (ok_inj e5))
          e3)
      e1

after_check-intact :
    (c : SignatureCheck) (next : Result Failure Outcome)
    → (next ≡ ok hash_mismatch → ⊥)
    → after_check c next ≡ ok hash_mismatch
    → ⊥
unfolding after_check
after_check-intact verifies next n e = n e
after_check-intact bad_signature next n e = cc
after_check-intact raises next n e = cc

malformed-apart : malformed ≡ hash_mismatch → ⊥
malformed-apart e = cc

unsigned-apart : unsigned ≡ hash_mismatch → ⊥
unsigned-apart e = cc

other_outcome :
    (o : Outcome) {runner key : Json} {v : Verification}
    → v.outcome ≡ hash_mismatch
    → (o ≡ hash_mismatch → ⊥)
    → ◌≡◌ {A = Result Failure Verification} (ok (outcome_record runner key o)) (ok v)
    → ⊥
other_outcome o t n e = n (ap (λ w. w.outcome) (ok_inj e) ∙ t)

module _ (lib : Libraries) (msg : Fields) (registry : Option IdentityRegistry)
    (intact : hash_changed (get "runner-message/hash" msg) (message_hash lib msg) ≡ false) where
  verify_complete-intact :
      (sig : Fields) → verify_complete lib msg sig registry ≡ ok hash_mismatch → ⊥
  unfolding verify_complete
  verify_complete-intact sig e =
      after_check-intact _ _
        (registry_outcome-intact registry (get "runner-message/runner-id" msg)
          (get "runner-signature/public-key" sig))
        (if_false (hash_changed (get "runner-message/hash" msg) (message_hash lib msg)) _ _ intact
          e)

  complete-intact :
      (complete : Bool) (r : Result Failure Outcome) (runner key : Json) {v : Verification}
      → (r ≡ ok hash_mismatch → ⊥)
      → (if complete
          then (do o ← r; ok (outcome_record runner key o))
          else ok (outcome_record runner null malformed))
        ≡ ok v
      → v.outcome ≡ hash_mismatch
      → ⊥
  complete-intact true (ok o) runner key n e t = n (ap ok (ap (λ w. w.outcome) (ok_inj e) ∙ t))
  complete-intact true (err failure) runner key n e t = cc
  complete-intact false r runner key n e t = other_outcome malformed t malformed-apart e

  verify_field-intact :
      (s : Json) {v : Verification}
      → verify_field lib msg s registry ≡ ok v
      → v.outcome ≡ hash_mismatch
      → ⊥
  unfolding verify_field verify_dict
  verify_field-intact (obj sig) e t =
      complete-intact (is_complete sig) (verify_complete lib msg sig registry) _ _
        (verify_complete-intact sig) e t
  verify_field-intact null e t = other_outcome malformed t malformed-apart e
  verify_field-intact (bool b) e t = other_outcome malformed t malformed-apart e
  verify_field-intact (int n) e t = other_outcome malformed t malformed-apart e
  verify_field-intact (str w) e t = other_outcome malformed t malformed-apart e
  verify_field-intact (arr xs) e t = other_outcome malformed t malformed-apart e

  signed-intact :
      (is_signed : Bool) (r : Result Failure Verification) (runner : Json) {v : Verification}
      → (r ≡ ok v → ⊥)
      → (if is_signed then r else ok (outcome_record runner null unsigned)) ≡ ok v
      → v.outcome ≡ hash_mismatch
      → ⊥
  signed-intact true r runner n e t = n e
  signed-intact false r runner n e t = other_outcome unsigned t unsigned-apart e

  -- A message whose hash is missing or right is never a hash mismatch.
  pub verify_message-intact :
      {v : Verification} → verify_message lib msg registry ≡ ok v → v.outcome ≡ hash_mismatch → ⊥
  unfolding verify_message
  verify_message-intact e t =
      signed-intact (is_truthy (get "runner-message/signature" msg)) _
        (get "runner-message/runner-id" msg)
        (λ r. verify_field-intact (get "runner-message/signature" msg) r t) e t

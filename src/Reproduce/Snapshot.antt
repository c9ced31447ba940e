-- ===== src/Reproduce/Snapshot.antt =====
-- What a verified reproduction says about the two bundle roots, and what it does not.
use Prim.Native.Nat.{Ordering, compare as compare_ℕ}
use Prim.Native.Char.{Char, code}
use Prim.Native.String.{[], compare, then as combine, ◌∷◌ as ◌∷ₛ◌, ◌++◌ as join}
use Prim.Native.String.compare
use text.Mathlib.Text.{◌==◌ as str_eq, is_eq}
use text.Mathlib.TextLemmas.{cons-append}
use mathlib.Core.List.{Memᴰ}
use protocol_robustness_fram.Prelude.{
  ◌≡◌, refl, ap, any, all, subst, ◌∙◌, String, Bool, true, false, not, List, [], ◌∷◌, Option, some,
  arith, if◌then◌else◌,
}
use protocol_robustness_fram.Prelude.Result.{ok, >>=-eq-ok, ok_inj}
use protocol_robustness_fram.Json.{Json, Fields, get}
use protocol_robustness_fram.Json.Equality.{same_value, is_null}
use protocol_robustness_fram.Reproduce.{
  Check, SourceStatus, core_fields, classify_field, core, diagnostic, is_core, compute_verdict,
  verified,
}
use protocol_robustness_fram.Reproduce.Compare.{
  add_check, compare_bundle_fields, get_dict, get_or_empty,
}
use protocol_robustness_fram.Reproduce.Verified.{verified-matches}

-- Two values that are present and equal.
abbrev pub Agree : Json → Json → Type 0
Agree v w = (is_null v ≡ false) × (same_value v w ≡ true)

add_check-Agree :
    (label : String) (v w : Json) (status : Option SourceStatus)
    → (add_check label v w status).outcome ≡ some true
    → Agree v w
unfolding add_check
add_check-Agree label v w status h = (ground (arith, h), ground (arith, h))

bundle_hash-core :
    (v w : Json) (status : Option SourceStatus)
    → is_core (add_check "bundle/hash" v w status) ≡ true
unfolding add_check classify_field
bundle_hash-core v w status = refl

overview_hash-core :
    (v w : Json) (status : Option SourceStatus)
    → is_core (add_check "overview/overview-hash" v w status) ≡ true
unfolding add_check classify_field
overview_hash-core v w status = refl

module _ (orig new : Fields) (status : Option SourceStatus) where
  -- The checks of the bundle hash and of the overview hash are always made.
  both_checks :
      {checks : List Check}
      → compare_bundle_fields orig new status ≡ ok checks
      → Memᴰ
          (add_check "bundle/hash" (get "bundle/hash" orig) (get "bundle/hash" new) status)
          checks
        × Memᴰ
            (add_check "overview/overview-hash"
              (get "overview/hash" orig)
              (get "overview/hash" new)
              status)
            checks
  unfolding compare_bundle_fields
  both_checks {checks} h =
      let (_, _, h₁) = >>=-eq-ok (get_dict "execution/summary" orig) _ h in
      let (_, _, h₂) = >>=-eq-ok (get_dict "execution/summary" new) _ h₁ in
      let (_, _, h₃) = >>=-eq-ok (get_or_empty "totals" _) _ h₂ in
      let (_, _, h₄) = >>=-eq-ok (get_or_empty "totals" _) _ h₃ in
      let (_, _, h₅) = >>=-eq-ok (get_or_empty "registry/snapshot" orig) _ h₄ in
      let (_, _, h₆) = >>=-eq-ok (get_or_empty "registry/snapshot" new) _ h₅ in
      let (_, _, h₇) = >>=-eq-ok (get_or_empty "protocol/state-hashes" orig) _ h₆ in
      let (_, _, h₈) = >>=-eq-ok (get_or_empty "protocol/state-hashes" new) _ h₇ in
      let is = ok_inj h₈ in
      (
        subst (Memᴰ _) is (Memᴰ.head refl),
        subst (Memᴰ _) is (Memᴰ.tail (Memᴰ.tail (Memᴰ.head refl))),
      )

  -- If the compared bundle roots are judged verified, the bundle hash and the overview hash are
  -- present and equal in both.
  pub verified-hashes :
      {checks : List Check} (bundle_a_ok bundle_b_ok : Bool)
      → compare_bundle_fields orig new status ≡ ok checks
      → (compute_verdict checks bundle_a_ok bundle_b_ok).0 ≡ verified
      → Agree (get "bundle/hash" orig) (get "bundle/hash" new)
        × Agree (get "overview/hash" orig) (get "overview/hash" new)
  verified-hashes {checks} a b compared h =
      let (bundle, overview) = both_checks compared in
      let (_, _, matches) = verified-matches checks a b h in
      (
        add_check-Agree "bundle/hash" _ _ status (matches _ bundle (bundle_hash-core _ _ status)),
        add_check-Agree "overview/overview-hash" _ _ status
            (matches _ overview (overview_hash-core _ _ status)),
      )

then-differs : (first rest : Ordering) → is_eq first ≡ false → is_eq (combine first rest) ≡ false
then-differs Ordering.lt rest h = refl
then-differs Ordering.eq rest h = cc
then-differs Ordering.gt rest h = refl

abbrev other_head : Char → String → Bool
other_head c [] = true
other_head c (d ∷ₛ t) = not (is_eq (compare_ℕ (code c) (code d)))

-- Texts with different first characters are different.
other_head-differs : (c : Char) (s t : String) → other_head c t ≡ true → str_eq (c ∷ₛ s) t ≡ false
other_head-differs c s [] h = ap is_eq (compare.cons-nil c s)
other_head-differs c s (d ∷ₛ t) h =
    ap is_eq (compare.cons-cons c d s t)
    ∙ then-differs (compare_ℕ (code c) (code d)) (compare s t) (ground (arith, h))

no_other_head :
    (c : Char) (s : String) (fs : List String)
    → all (other_head c) fs ≡ true
    → any (λ f. str_eq (c ∷ₛ s) f) fs ≡ false
no_other_head c s [] h = refl
no_other_head c s (f ∷ fs) h = ground (arith, h, other_head-differs c s f, no_other_head c s fs)

-- A field of the registry snapshot is classified as diagnostic, whatever its key.
registry_snapshot-diagnostic :
    (key : String) → classify_field (join "registry/snapshot/" key) ≡ diagnostic
unfolding classify_field
registry_snapshot-diagnostic key =
    let tail = join "egistry/snapshot/" key in
    let joined : join "registry/snapshot/" key ≡ "r" ∷ₛ tail =
      cons-append "r" "egistry/snapshot/" key in
    let other : any (λ f. str_eq (join "registry/snapshot/" key) f) core_fields ≡ false =
      rw (joined) (no_other_head "r" tail core_fields refl) in
    ap (λ b. if b then core else diagnostic) other

-- ===== src/Consensus/Flat.antt =====
-- Bundle roots with flat keys such as `bundle/hash`, and the summaries that consensus makes of them.
use protocol_robustness_fram.Prelude.{
  ℕ, ◌≡◌, refl, ap, ◌∙◌, String, List, [], ◌∷◌, Option, All, map, if◌then◌else◌,
}
use protocol_robustness_fram.Prelude.Int.{ℤ}
use protocol_robustness_fram.Json.{Json, null, obj, Fields, end, field, get}
use protocol_robustness_fram.Json.Equality.{is_null}
use protocol_robustness_fram.Quorum.{split_field}
use protocol_robustness_fram.Consensus.{
  Submission, get_parts, deep_get, keep_value, summary_entries, snapshot_entries, build_summary,
  all_fields, compute_agreement, field_agreements, consensus_verdict, no_consensus,
  consensus_fields,
}

-- No object stands under the first part of a consensus field.
pub record IsFlat (bundle : Fields) : Type 0 where
  pub no_bundle : get "bundle" bundle ≡ null
  pub no_overview : get "overview" bundle ≡ null
  pub no_execution : get "execution" bundle ≡ null
  pub no_source : get "source" bundle ≡ null
  pub no_registry : get "registry" bundle ≡ null

null_parts : (parts : List String) → get_parts null parts ≡ null
unfolding get_parts
null_parts [] = refl
null_parts (p ∷ ps) = refl

missing :
    (bundle : Fields) (name first : String) (rest : List String)
    → split_field name ≡ first ∷ rest
    → get first bundle ≡ null
    → deep_get bundle name ≡ null
unfolding deep_get get_parts
missing bundle name first rest e h =
    ap (get_parts (obj bundle)) e ∙ ap (λ v. get_parts v rest) h ∙ null_parts rest

keep_value-null :
    (name : String) (v : Json) (later : Fields) → v ≡ null → keep_value name v later ≡ later
unfolding keep_value
keep_value-null name v later h = ap (λ w. if is_null w then later else field name w later) h

summary_entries-missing :
    (bundle : Fields) (names : List String)
    → All (λ name. deep_get bundle name ≡ null) names
    → summary_entries bundle names end ≡ end
unfolding summary_entries
summary_entries-missing bundle [] m = refl
summary_entries-missing bundle (name ∷ names) (here, later) =
    keep_value-null name _ _ here ∙ summary_entries-missing bundle names later

flat_fields :
    (bundle : Fields) → IsFlat bundle → All (λ name. deep_get bundle name ≡ null) consensus_fields
flat_fields bundle flat =
    let execution =
      λ (name : String) (rest : List String) (e : split_field name ≡ "execution" ∷ rest).
        missing bundle name "execution" rest e flat.no_execution in
    (
      missing bundle "bundle/hash" "bundle" ("hash" ∷ []) refl flat.no_bundle,
      (
        missing bundle "overview/hash" "overview" ("hash" ∷ []) refl flat.no_overview,
        (
          execution "execution/summary/status" ("summary" ∷ "status" ∷ []) refl,
          (
            execution "execution/summary/totals/total" ("summary" ∷ "totals" ∷ "total" ∷ []) refl,
            (
              execution "execution/summary/totals/passed" ("summary" ∷ "totals" ∷ "passed" ∷ [])
                  refl,
              (
                execution "execution/summary/totals/failed" ("summary" ∷ "totals" ∷ "failed" ∷ [])
                    refl,
                (
                  execution "execution/summary/totals/expected-failed"
                      ("summary" ∷ "totals" ∷ "expected-failed" ∷ []) refl,
                  (
                    execution "execution/summary/totals/unexpected-failed"
                        ("summary" ∷ "totals" ∷ "unexpected-failed" ∷ []) refl,
                    (
                      missing bundle "source/tree-hash" "source" ("tree-hash" ∷ []) refl
                          flat.no_source,
                      (
                        missing bundle "source/tree-hash-algorithm" "source"
                            ("tree-hash-algorithm" ∷ []) refl flat.no_source,
                        tt,
                      ),
                    ),
                  ),
                ),
              ),
            ),
          ),
        ),
      ),
    )

flat_summary : (bundle : Fields) → IsFlat bundle → build_summary bundle ≡ end
unfolding build_summary
flat_summary bundle flat =
    let registry : deep_get bundle "registry/snapshot" ≡ null =
      missing bundle "registry/snapshot" "registry" ("snapshot" ∷ []) refl flat.no_registry in
    ap
      (λ v.
        summary_entries bundle consensus_fields (elim v [ obj fs ↦ snapshot_entries fs | _ ↦ end ]))
      registry
    ∙ summary_entries-missing bundle consensus_fields (flat_fields bundle flat)

-- The submission of a runner for a bundle.
abbrev pub submit : String × Fields → Submission
submit (runner, bundle) = record { runner_id = runner; summary = build_summary bundle }

no_fields :
    (runs : List (String × Fields))
    → All (λ run. IsFlat run.1) runs
    → all_fields (map submit runs) ≡ []
no_fields [] flat = refl
no_fields ((runner, bundle) ∷ runs) (here, later) =
    rw (flat_summary bundle here) (no_fields runs later)

-- If no bundle root has an entry under the first parts of the consensus fields, as with flat keys,
-- the verdict on their submissions is inconclusive, whatever the hashes, the threshold and the
-- exit codes.
pub flat-no_consensus :
    (str_of : Json → String) (runs : List (String × Fields)) (threshold : Option ℕ)
    (exit_codes : List ℤ)
    → All (λ run. IsFlat run.1) runs
    → consensus_verdict (compute_agreement str_of (map submit runs) threshold) exit_codes
      ≡ no_consensus
unfolding compute_agreement consensus_verdict field_agreements
flat-no_consensus str_of [] threshold exit_codes flat = refl
flat-no_consensus str_of (run ∷ runs) threshold exit_codes flat =
    rw (no_fields (run ∷ runs) flat) refl

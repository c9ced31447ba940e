-- ===== src/Consensus/Examples.antt =====
-- Three submissions, one of which has another overview hash, and two with flat bundle roots.
use mathlib.Core.List.{Memᴰ}
use protocol_robustness_fram.Prelude.{
  ◌≤◌, ◌<◌, ◌≡◌, refl, sym, subst, ◌≢◌, String, true, List, [], ◌∷◌, none, some, map, arith,
}
use protocol_robustness_fram.Prelude.Int.{pos}
use protocol_robustness_fram.Json.{Json, str, obj, Fields, end, field}
use protocol_robustness_fram.Counting.{bump, tally_from, tally, occurrences, most_common}
use protocol_robustness_fram.Consensus.{
  Submission, Agreement, agreed, get_parts, deep_get, keep_value, summary_entries, snapshot_entries,
  build_summary, values_of, field_result, add_result, field_agreement, field_agreements,
  compute_agreement, consensus_verdict, consensus_confirmed, consensus_diverged, no_consensus,
  agreed_hash,
}
use protocol_robustness_fram.Consensus.Threshold.{confirmed-threshold, agreed_hash-majority}
use protocol_robustness_fram.Consensus.Flat.{IsFlat, submit, flat-no_consensus}
use text.Mathlib.Text.{◌==◌ as str_eq}
use text.Mathlib.TextEquality.{eq_iff}

-- `str` on the texts of the examples.
abbrev text_of : Json → String
text_of (str s) = s
text_of _ = ""

-- A bundle root nested as `_deep_get` reads it.
abbrev nested : String → Fields
nested hash = field "overview" (obj (field "hash" (str hash) end)) end

nested_summary : build_summary (nested "o") ≡ field "overview/hash" (str "o") end
unfolding build_summary summary_entries snapshot_entries deep_get get_parts keep_value
nested_summary = refl

abbrev submission : String → String → Submission
submission runner hash = record {
  runner_id = runner;
  summary = field "overview/hash" (str hash) end;
}

abbrev submissions : List Submission
submissions = submission "a" "o" ∷ submission "b" "p" ∷ submission "c" "o" ∷ []

abbrev hash_entry : Agreement
hash_entry = record { name = "overview/hash"; status = agreed; winner = "o"; agreement_count = 2 }

agreement : compute_agreement text_of submissions none ≡ hash_entry ∷ []
unfolding compute_agreement field_agreements field_agreement add_result field_result values_of tally
    tally_from bump most_common
agreement = refl

confirmed_verdict :
    consensus_verdict (compute_agreement text_of submissions none) (pos 0 ∷ [])
    ≡ consensus_confirmed
unfolding consensus_verdict compute_agreement field_agreements field_agreement add_result
    field_result values_of tally tally_from bump most_common
confirmed_verdict = refl

stricter_verdict :
    consensus_verdict (compute_agreement text_of submissions (some 3)) (pos 0 ∷ [])
    ≡ consensus_diverged
unfolding consensus_verdict compute_agreement field_agreements field_agreement add_result
    field_result values_of tally tally_from bump most_common
stricter_verdict = refl

the_hash : agreed_hash (compute_agreement text_of submissions none) ≡ some "o"
unfolding agreed_hash compute_agreement field_agreements field_agreement add_result field_result
    values_of tally tally_from bump most_common
the_hash = refl

other_hash : ◌≢◌ {A = String} "p" "o"
other_hash e = let h : str_eq "p" "o" ≡ true = (eq_iff "p" "o").1 e in cc

confirmed-threshold_example :
    2 ≤ occurrences str_eq "o" (values_of text_of "overview/hash" submissions)
confirmed-threshold_example =
    confirmed-threshold text_of submissions none (pos 0 ∷ []) {a = hash_entry} confirmed_verdict
      (subst (Memᴰ hash_entry) (sym agreement) (Memᴰ.head refl))

agreed_hash-majority_example :
    occurrences str_eq "p" (values_of text_of "overview/hash" submissions)
    < occurrences str_eq "o" (values_of text_of "overview/hash" submissions)
agreed_hash-majority_example =
    agreed_hash-majority text_of submissions none {agreed_on = "o"} {other = "p"} the_hash
      (omega arith) other_hash

-- A bundle root with the flat keys that the other forensic tools read.
abbrev flat : Fields
flat = field "bundle/hash" (str "h") (field "overview/hash" (str "o") end)

flat_root : IsFlat flat
flat_root = record {
  no_bundle = refl;
  no_overview = refl;
  no_execution = refl;
  no_source = refl;
  no_registry = refl;
}

flat-no_consensus_example :
    consensus_verdict
      (compute_agreement text_of (map submit (("a", flat) ∷ ("b", flat) ∷ [])) (some 2))
      (pos 0 ∷ pos 0 ∷ [])
    ≡ no_consensus
flat-no_consensus_example =
    flat-no_consensus text_of (("a", flat) ∷ ("b", flat) ∷ []) (some 2) (pos 0 ∷ pos 0 ∷ [])
      (flat_root, (flat_root, tt))

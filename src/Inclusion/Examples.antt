-- ===== src/Inclusion/Examples.antt =====
-- The theorems on the inclusion verifier at the toy packages and the accepted case.
use mathlib.Core.List.{Memᴰ}
use protocol_robustness_fram.Prelude.{◌≡◌, refl, true, [], ◌∷◌, ◌++◌, arith, replicate}
use protocol_robustness_fram.Prelude.Int.{pos}
use protocol_robustness_fram.Prelude.Result.{ok}
use protocol_robustness_fram.Inclusion.Bytes.{
  Bytes, decode_hex, rlp_int, nibbles, compact_path, to_big_endian,
}
use protocol_robustness_fram.Inclusion.Bytes.HexPrefix.{
  hex_prefix, compact_path-hex_prefix, hex_prefix-compact_path,
}
use protocol_robustness_fram.Inclusion.Bytes.Integers.{to_big_endian-rlp_int}
use protocol_robustness_fram.Inclusion.Trie.Binding.{verify_indexed_trie_proof_unique}
use protocol_robustness_fram.Inclusion.Trie.Held.{Holds, verify_indexed_trie_proof-Holds}
use protocol_robustness_fram.Inclusion.Header.Chain.{decoded, follow_unique}
use protocol_robustness_fram.Inclusion.Case.Preimages.{preimages}
use protocol_robustness_fram.Inclusion.Case.Unique.{verify_case_unique}
use protocol_robustness_fram.Inclusion.Receipt.Bloom.{InBloom, logs_bloom-InBloom}
use protocol_robustness_fram.Inclusion.Receipt.{Log, logs_bloom}
use protocol_robustness_fram.Inclusion.Toy.{
  toy, accepted_case, accepted_report, accepted, ancestry, followed, trie_leaf, clear_of,
  clear-NoCollision,
}

verify_case_unique_example :
    (accepted_report.header ≡ accepted_report.header)
    × (accepted_report.index ≡ accepted_report.index
        → (accepted_report.transaction_raw ≡ accepted_report.transaction_raw)
          × (accepted_report.receipt_raw ≡ accepted_report.receipt_raw))
unfolding clear_of decode_hex
verify_case_unique_example =
    verify_case_unique toy accepted_case accepted_case (1 ∷ []) "digest" "digest" (pos 15) (pos 15)
      {v = accepted_report} {w = accepted_report}
      (clear-NoCollision (preimages accepted_case) (preimages accepted_case) refl) accepted accepted
      refl

verify_indexed_trie_proof-Holds_example :
    Holds toy ((2 ∷ 200 ∷ []) ∷ []) (8 ∷ 0 ∷ []) (replicate 31 0 ++ 202 ∷ []) (200 ∷ [])
unfolding nibbles
verify_indexed_trie_proof-Holds_example =
    verify_indexed_trie_proof-Holds toy (replicate 31 0 ++ 202 ∷ []) 0 ((2 ∷ 200 ∷ []) ∷ [])
      trie_leaf

verify_indexed_trie_proof_unique_example : ◌≡◌ {A = Bytes} (200 ∷ []) (200 ∷ [])
unfolding clear_of
verify_indexed_trie_proof_unique_example =
    verify_indexed_trie_proof_unique toy (replicate 31 0 ++ 202 ∷ []) 0 ((2 ∷ 200 ∷ []) ∷ [])
      ((2 ∷ 200 ∷ []) ∷ []) (clear-NoCollision _ _ refl) trie_leaf trie_leaf

compact_path-hex_prefix_example :
    compact_path (hex_prefix (5 ∷ 15 ∷ 1 ∷ []) true) ≡ ok (5 ∷ 15 ∷ 1 ∷ [], true)
compact_path-hex_prefix_example = compact_path-hex_prefix (5 ∷ 15 ∷ 1 ∷ []) true (omega arith)

hex_prefix-compact_path_example : 0x3f ∷ 0x1c ∷ [] ≡ hex_prefix (15 ∷ 1 ∷ 12 ∷ []) true
unfolding compact_path
hex_prefix-compact_path_example =
    hex_prefix-compact_path (0x3f ∷ 0x1c ∷ []) {ns = 15 ∷ 1 ∷ 12 ∷ []} {leaf = true} refl

to_big_endian-rlp_int_example : to_big_endian 1024 ≡ 4 ∷ 0 ∷ []
unfolding rlp_int
to_big_endian-rlp_int_example = to_big_endian-rlp_int (4 ∷ 0 ∷ []) "gas" (omega arith) refl

follow_unique_example : ◌≡◌ {A = Bytes} (replicate 31 0 ++ 1 ∷ []) (replicate 31 0 ++ 1 ∷ [])
unfolding clear_of decode_hex
follow_unique_example =
    follow_unique toy 0 0 (replicate 31 0 ++ 1 ∷ []) (replicate 31 0 ++ 1 ∷ []) 7 ancestry ancestry
      (clear-NoCollision (decoded ancestry) (decoded ancestry) refl) followed followed

abbrev one_log : Log
one_log = record { address = 5 ∷ []; topics = (6 ∷ []) ∷ []; payload = [] }

logs_bloom-InBloom_example : InBloom toy (6 ∷ []) (logs_bloom toy (one_log ∷ []))
logs_bloom-InBloom_example = logs_bloom-InBloom toy (one_log ∷ []) (Memᴰ.tail (Memᴰ.head refl))

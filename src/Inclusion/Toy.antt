-- ===== src/Inclusion/Toy.antt =====
-- A small instance of the third-party packages and one case that `verify_case` accepts over it.
use mathlib.Core.List.{Memᴰ}
use mathlib.Core.List.Memᴰ
use protocol_robustness_fram.Prelude.{
  ℕ, zero, suc, ◌+◌, ◌≡◌, refl, Bool, true, List, [], ◌∷◌, ◌++◌, Option, none, some, String, not,
  ◌&&◌, inl, inr, arith, ◌==◌, length, replicate, drop, set, all, is_empty, if◌then◌else◌,
}
use protocol_robustness_fram.Prelude.Int.{pos}
use protocol_robustness_fram.Prelude.Result.{ok}
use protocol_robustness_fram.Json
use protocol_robustness_fram.Json.{Json, Fields, unique_keys, unique_items, unique_fields}
use protocol_robustness_fram.Inclusion.Bytes.{
  Bytes, codes, hex_bytes, decode_hex, rlp_int, quantity, bytes_eq, bytes_eq→eq, bytes_eq_of_eq,
}
use protocol_robustness_fram.Inclusion.Libraries
use protocol_robustness_fram.Inclusion.Libraries.{Item, bytes, list, elements, from_elements}
use protocol_robustness_fram.Inclusion.Context.{
  trusted_context, json_no_duplicates, read_trust, trust_identity, trust_window, as_text, as_int,
}
use protocol_robustness_fram.Inclusion.Trie.{verify_indexed_trie_proof}
use protocol_robustness_fram.Inclusion.Trie.Binding.{NoCollision}
use protocol_robustness_fram.Inclusion.Header.{
  Header, header_identity, header_items, byte_fields, fixed_widths, follow,
}
use protocol_robustness_fram.Inclusion.Receipt.{as_array, as_object, hex_list, encode_rpc_receipt}
use protocol_robustness_fram.Inclusion.Transaction.{recover_transaction}
use protocol_robustness_fram.Inclusion.Case.{
  Verified, verify_case, case_fields, linked_header, transaction_index, signed_transaction,
  claimed_receipt, check_inclusion, check_sender, lower, is_address, check_receipt_fields,
  read_proofs, total_length,
}

abbrev header_fields : List Item
header_fields =
    bytes (replicate 32 0)
    ∷ bytes (replicate 32 0)
    ∷ bytes (replicate 20 0)
    ∷ bytes (replicate 32 0)
    ∷ bytes (replicate 31 0 ++ 202 ∷ [])
    ∷ bytes (replicate 31 0 ++ 6 ∷ [])
    ∷ bytes (replicate 256 0)
    ∷ bytes []
    ∷ bytes (7 ∷ [])
    ∷ bytes (9 ∷ [])
    ∷ bytes (9 ∷ [])
    ∷ bytes []
    ∷ bytes []
    ∷ bytes (replicate 32 0)
    ∷ bytes (replicate 8 0)
    ∷ []

-- The header above it.
abbrev next_fields : List Item
next_fields = bytes (replicate 31 0 ++ 1 ∷ []) ∷ set (drop 1 header_fields) 7 (bytes (8 ∷ []))

abbrev transaction_fields : List Item
transaction_fields =
    bytes []
    ∷ bytes []
    ∷ bytes []
    ∷ bytes []
    ∷ bytes []
    ∷ bytes []
    ∷ bytes (37 ∷ [])
    ∷ bytes (1 ∷ [])
    ∷ bytes (1 ∷ [])
    ∷ []

-- The byte 1 stands for the header, 3 for the one above it, 200 for the transaction, and 2 before a value for a leaf.
abbrev toy_decode : Bytes → Option Item
toy_decode [] = none
toy_decode (b ∷ rest) =
    if b == 1
    then some (list (from_elements header_fields))
    else if b == 3
    then some (list (from_elements next_fields))
    else if b == 200
    then some (list (from_elements transaction_fields))
    else some (list (from_elements (bytes (32 ∷ 128 ∷ []) ∷ bytes rest ∷ [])))

abbrev byte_sum : Bytes → ℕ
byte_sum [] = 0
byte_sum (b ∷ bs) = b + byte_sum bs

-- A header by its parent.
abbrev toy_encode_header : List Item → Bytes
toy_encode_header (bytes parent ∷ xs) = if byte_sum parent == 0 then 1 ∷ [] else 3 ∷ []
toy_encode_header xs = 1 ∷ []

abbrev toy_encode_list : List Item → Bytes
toy_encode_list (p ∷ bytes value ∷ []) = 2 ∷ value
toy_encode_list xs =
    if length xs == 15 then toy_encode_header xs else if length xs == 9 then 200 ∷ [] else 4 ∷ []

abbrev toy_encode : Item → Bytes
toy_encode (bytes b) = b
toy_encode (list xs) = toy_encode_list (elements xs)

abbrev sender_text : String
sender_text = "0x1111111111111111111111111111111111111111"

abbrev repeat : ℕ → String → String
repeat zero s = s
repeat (suc n) s = String.◌∷◌ "0" (repeat n s)

-- A hexadecimal text of `n` zero bytes and the bytes written in `s`.
abbrev zero_hex : ℕ → String → String
zero_hex n s = String.◌∷◌ "0" (String.◌∷◌ "x" (repeat (n + n) s))

abbrev context_fields : Fields
context_fields = Json.field "schema" (Json.str "prf-ethereum-header-trust-context.v2") (
    Json.field "network" (Json.str "anvil") (
      Json.field "chainFamily" (Json.str "ethereum-l1") (
        Json.field "chainId" (Json.int (pos 1)) (
          Json.field "anchorHeaderHash" (Json.str (zero_hex 31 "01")) (
            Json.field "anchorHeaderNumber" (Json.int (pos 7)) (
              Json.field "sourceId" (Json.str "operator") (
                Json.field "sourceRevision" (Json.str "r1") (
                  Json.field "observedAt" (Json.int (pos 10)) (
                    Json.field "validUntil" (Json.int (pos 20))
                      (Json.field "finalityStatus" (Json.str "unverified") Json.end))))))))))

abbrev pub toy : Libraries.Libraries
toy = record {
  decode = toy_decode;
  encode = toy_encode;
  encode_int = λ n. (128 + n) ∷ [];
  keccak = λ raw. replicate 31 0 ++ byte_sum raw ∷ [];
  curve_order = 7;
  recover = λ parity r s h. some (codes sender_text);
  sha256_hex = λ raw. "digest";
  loads = λ raw. if is_empty raw then none else some (Json.obj context_fields);
}

abbrev receipt_fields : Fields
receipt_fields = Json.field "transactionHash" (Json.str (zero_hex 31 "c8")) (
    Json.field "transactionIndex" (Json.str "0x0") (
      Json.field "blockHash" (Json.str (zero_hex 31 "01")) (
        Json.field "blockNumber" (Json.str "0x7") (
          Json.field "status" (Json.str "0x1") (
            Json.field "cumulativeGasUsed" (Json.str "0x5208") (
              Json.field "logsBloom" (Json.str (zero_hex 256 ""))
                (Json.field "logs" (Json.arr Json.nil) Json.end)))))))

abbrev pub accepted_case : Json
accepted_case = Json.obj (
    Json.field "schema" (Json.str "prf-ethereum-receipt-inclusion-case.v1") (
      Json.field "receipt" (Json.obj receipt_fields) (
        Json.field "transactionRaw" (Json.str "0xc8") (
          Json.field "transactionIndex" (Json.int (pos 0)) (
            Json.field "transactionProof" (Json.arr (Json.cons (Json.str "0x02c8") Json.nil)) (
              Json.field "receiptProof" (Json.arr (Json.cons (Json.str "0x0204") Json.nil)) (
                Json.field "blockHeaderRlp" (Json.str "0x01") (
                  Json.field "headerAncestry" (Json.arr Json.nil)
                    (Json.field "expectedSender" (Json.str sender_text) Json.end)))))))))

abbrev accepted_header : Header
accepted_header = record {
  hash = replicate 31 0 ++ 1 ∷ [];
  number = 7;
  parent = replicate 32 0;
  transactions_root = replicate 31 0 ++ 202 ∷ [];
  receipts_root = replicate 31 0 ++ 6 ∷ [];
}

abbrev pub accepted_report : Verified
accepted_report = record {
  trust = record {
    network = "anvil";
    chain_family = "ethereum-l1";
    chain_id = 1;
    anchor_hash = replicate 31 0 ++ 1 ∷ [];
    anchor_number = pos 7;
    source_id = "operator";
    source_revision = "r1";
  };
  header = accepted_header;
  ancestry_count = 0;
  transaction_raw = 200 ∷ [];
  transaction_hash = replicate 31 0 ++ 200 ∷ [];
  index = 0;
  transaction_type = 0;
  sender = codes sender_text;
  receipt_raw = 4 ∷ [];
}

pub accepted : verify_case toy accepted_case (1 ∷ []) "digest" (pos 15) ≡ ok accepted_report
unfolding verify_case case_fields trusted_context linked_header transaction_index signed_transaction
    claimed_receipt check_inclusion json_no_duplicates read_trust trust_identity trust_window
    as_text as_int unique_keys unique_items unique_fields hex_bytes decode_hex header_identity
    header_items byte_fields fixed_widths rlp_int follow as_array as_object hex_list
    recover_transaction check_sender lower is_address check_receipt_fields quantity
    encode_rpc_receipt read_proofs total_length verify_indexed_trie_proof
accepted = refl

-- The header above the one of the case as an ancestry of it.
abbrev pub ancestry : List Json
ancestry = Json.str "0x03" ∷ []

pub followed : follow toy 0 (replicate 31 0 ++ 1 ∷ []) 7 ancestry ≡ ok (replicate 31 0 ++ 3 ∷ [], 8)
unfolding follow hex_bytes decode_hex header_identity header_items byte_fields fixed_widths rlp_int
followed = refl

pub trie_leaf :
    verify_indexed_trie_proof toy (replicate 31 0 ++ 202 ∷ []) 0 ((2 ∷ 200 ∷ []) ∷ [])
    ≡ ok (200 ∷ [])
unfolding verify_indexed_trie_proof
trie_leaf = refl

-- A test of all pairs shows that there is no collision.
collides_with : Bytes → Bytes → Bool
collides_with a b = bytes_eq (toy.keccak a) (toy.keccak b) && not (bytes_eq a b)

unfoldable pub clear_of : List Bytes → List Bytes → Bool
unfolding collides_with
clear_of p q = all (λ a. all (λ b. not (collides_with a b)) q) p

clear_pair : (a b : Bytes) → not (collides_with a b) ≡ true → toy.keccak a ≡ toy.keccak b → a ≡ b
unfolding collides_with
clear_pair a b h e = bytes_eq→eq a b (ground (arith, h, bytes_eq_of_eq e))

all-mem {ℓ} :
    {A : Type ℓ} (p : A → Bool) (xs : List A) {x : A} → all p xs ≡ true → Memᴰ x xs → p x ≡ true
all-mem p [] h m = elim m [ ]
all-mem p (y ∷ xs) h m = elim (Memᴰ.cases_cons m) [
  | inl first ↦ let here : p y ≡ true = ground (arith, h) in cc (here, first)
  | inr later ↦ all-mem p xs (ground (arith, h)) later
]

pub clear-NoCollision : (p q : List Bytes) → clear_of p q ≡ true → NoCollision toy p q
unfolding clear_of
clear-NoCollision p q h a b m n e = clear_pair a b (all-mem _ q (all-mem _ p h m) n) e

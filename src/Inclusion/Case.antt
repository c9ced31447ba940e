-- ===== src/Inclusion/Case.antt =====
-- scripts/forensic/ethereum_receipt_inclusion.py: `verify_case`, stage by stage.
pub mod Preimages
pub mod Anchor
pub mod Unique
use text.Mathlib.Text.{◌==◌ as str_eq}
use protocol_robustness_fram.Prelude.{
  ℕ, ◌+◌, ◌*◌, Bool, true, false, not, ◌&&◌, ◌||◌, String, List, [], ◌∷◌, ◌++◌, map, Option, none,
  some, ltb, leb, ◌==◌, length, all, if◌then◌else◌,
}
use protocol_robustness_fram.Prelude.Int.{ℤ, pos}
use protocol_robustness_fram.Prelude.Result.{ok, err, ◌>>=◌, ◌>>◌, raise_if}
use protocol_robustness_fram.Json
use protocol_robustness_fram.Json.{Json, Fields, get, items, has_exactly}
use protocol_robustness_fram.Inclusion.Bytes.{
  Bytes, Checked, message, codes, hex_digit, after_0x, hex_bytes, quantity, bytes_eq,
}
use protocol_robustness_fram.Inclusion.Libraries.{Libraries}
use protocol_robustness_fram.Inclusion.Trie.{verify_indexed_trie_proof}
use protocol_robustness_fram.Inclusion.Header.{Header, header_identity, follow}
use protocol_robustness_fram.Inclusion.Transaction.{recover_transaction}
use protocol_robustness_fram.Inclusion.Receipt.{as_object, as_array, hex_list, encode_rpc_receipt}
use protocol_robustness_fram.Inclusion.Context.{Trust, is_text, trusted_context}

abbrev pub case_schema : String
case_schema = "prf-ethereum-receipt-inclusion-case.v1"

abbrev pub case_required : List String
case_required =
    "schema" ∷ "receipt" ∷ "transactionRaw" ∷ "transactionIndex" ∷ "transactionProof"
    ∷ "receiptProof" ∷ "blockHeaderRlp" ∷ "headerAncestry" ∷ "expectedSender" ∷ []

-- The envelope of the case.
unfoldable pub case_fields : Json → Checked Fields
case_fields (Json.obj fs) =
    if has_exactly fs case_required && is_text (get "schema" fs) case_schema
    then ok fs
    else err (message "case schema or fields are invalid")
case_fields _ = err (message "case schema or fields are invalid")

-- The header of the receipt's block, linked to the pinned anchor.
pub record Linked : Type 0 where
  pub header : Header
  pub ancestry_count : ℕ

-- `current_number == trust["anchorHeaderNumber"]`, whose right side is a signed integer.
abbrev pub same_number : ℕ → ℤ → Bool
same_number n (pos m) = n == m
same_number n _ = false

-- `s.lower()` on the code points of an ASCII text.
unfoldable pub lower : List ℕ → List ℕ
lower = map (λ c. if leb b'A' c && leb c b'Z' then c + 32 else c)

-- `ADDRESS_RE.fullmatch`
unfoldable pub is_address : List ℕ → Bool
unfolding after_0x hex_digit
is_address s = elim (after_0x s) [
  | none ↦ false
  | some rest ↦
      length rest == 40 && all (λ c. elim (hex_digit c) [ none ↦ false | some d ↦ true ]) rest
]

unfoldable pub transaction_index : Json → Checked ℕ
transaction_index (Json.int (pos n)) = ok n
transaction_index _ = err (message "transaction index must be a non-negative integer")

unfoldable pub check_sender : List ℕ → Json → Checked (Unit {0})
check_sender sender (Json.str expected) = do
  raise_if (not (is_address (codes expected)))
      (message "expected sender must be an Ethereum address")
  raise_if (not (bytes_eq sender (lower (codes expected))))
      (message "recovered sender differs from expected sender")
check_sender sender _ = err (message "expected sender must be an Ethereum address")

-- The receipt's own claims about its transaction and block.
unfoldable pub check_receipt_fields : Fields → Bytes → ℕ → Header → Checked (Unit {0})
check_receipt_fields receipt tx_hash tx_index header = do
  claimed_hash ← hex_bytes (get "transactionHash" receipt) "receipt transaction hash" (some 32)
  raise_if (not (bytes_eq claimed_hash tx_hash))
      (message "receipt transaction hash differs from signed transaction")
  claimed_index ← quantity (get "transactionIndex" receipt) "receipt transaction index"
  raise_if (not (claimed_index == tx_index))
      (message "receipt transaction index differs from proof key")
  claimed_block ← hex_bytes (get "blockHash" receipt) "receipt block hash" (some 32)
  raise_if (not (bytes_eq claimed_block header.hash))
      (message "receipt block hash differs from trusted header")
  claimed_number ← quantity (get "blockNumber" receipt) "receipt block number"
  raise_if (not (claimed_number == header.number))
      (message "receipt block number differs from trusted header")

unfoldable pub total_length : List Bytes → ℕ
total_length [] = 0
total_length (b ∷ bs) = length b + total_length bs

-- The nodes of the two proofs, within the limits on count and size.
unfoldable pub read_proofs : Fields → Checked (List Bytes × List Bytes)
read_proofs fields = do
  transaction_items ←
      as_array (get "transactionProof" fields)
        "transaction proof is malformed or exceeds node-count limit"
  raise_if (ltb 128 (length transaction_items))
      (message "transaction proof is malformed or exceeds node-count limit")
  transaction_proof ← hex_list transaction_items "transaction proof node" none
  receipt_items ← as_array (get "receiptProof" fields) "receipt proof must be an array"
  raise_if (ltb 128 (length receipt_items)) (message "receipt proof exceeds node-count limit")
  proof ← hex_list receipt_items "receipt proof node" none
  raise_if (ltb (4 * 1024 * 1024) (total_length (transaction_proof ++ proof)))
      (message "transaction and receipt proofs exceed byte-size limit")
  ok (transaction_proof, proof)

-- The part of the returned report that is not copied from the context.
pub record Verified : Type 0 where
  pub trust : Trust
  pub header : Header
  pub ancestry_count : ℕ
  pub transaction_raw : Bytes
  pub transaction_hash : Bytes
  pub index : ℕ
  pub transaction_type : ℕ
  pub sender : List ℕ
  pub receipt_raw : Bytes

module _ (lib : Libraries) where
  unfoldable pub linked_header : Fields → Trust → Checked Linked
  linked_header fields trust = do
    header_raw ← hex_bytes (get "blockHeaderRlp" fields) "block header RLP" none
    raise_if (ltb (64 * 1024) (length header_raw)) (message "block header exceeds size limit")
    header ← header_identity lib header_raw
    ancestry ←
        as_array (get "headerAncestry" fields)
          "header ancestry must be an array within the header-count limit"
    raise_if (ltb 8192 (length ancestry))
        (message "header ancestry must be an array within the header-count limit")
    (top_hash, top_number) ← follow lib 0 header.hash header.number ancestry
    raise_if
        (not (bytes_eq top_hash trust.anchor_hash && same_number top_number trust.anchor_number))
        (message "receipt block is not an ancestor of the trusted header anchor")
    ok (record { header = header; ancestry_count = length ancestry })

  -- The bytes of the signed transaction, its sender and its type.
  unfoldable pub signed_transaction : Fields → ℕ → Checked (Bytes × List ℕ × ℕ)
  signed_transaction fields chain_id = do
    raw ← hex_bytes (get "transactionRaw" fields) "signed transaction" none
    raise_if (ltb (128 * 1024) (length raw)) (message "signed transaction exceeds size limit")
    (sender, tx_type) ← recover_transaction lib raw chain_id
    check_sender sender (get "expectedSender" fields)
    ok (raw, sender, tx_type)

  -- The consensus encoding of the receipt, after the checks on its own claims.
  unfoldable pub claimed_receipt : Fields → Bytes → ℕ → ℕ → Header → Checked Bytes
  claimed_receipt fields tx_hash tx_type index header = do
    receipt ← as_object (get "receipt" fields) "receipt must be an object"
    check_receipt_fields receipt tx_hash index header
    (receipt_raw, receipt_type) ← encode_rpc_receipt lib (get "receipt" fields)
    raise_if (not (receipt_type == tx_type))
        (message "typed receipt and signed transaction types differ")
    ok receipt_raw

  -- Both trie proofs, against the roots of the header.
  unfoldable pub check_inclusion : Fields → Header → ℕ → Bytes → Bytes → Checked (Unit {0})
  check_inclusion fields header index transaction_raw receipt_raw = do
    (transaction_proof, proof) ← read_proofs fields
    included_transaction ←
        verify_indexed_trie_proof lib header.transactions_root index transaction_proof
    raise_if (not (bytes_eq included_transaction transaction_raw))
        (message "transaction proof value differs from signed transaction bytes")
    included ← verify_indexed_trie_proof lib header.receipts_root index proof
    raise_if (not (bytes_eq included receipt_raw))
        (message "receipt proof value differs from serialized RPC receipt")

  unfoldable pub verify_case : Json → Bytes → String → ℤ → Checked Verified
  verify_case input trust_context_bytes expected_sha256 now = do
    fields ← case_fields input
    trust ← trusted_context lib trust_context_bytes expected_sha256 now
    linked ← linked_header fields trust
    index ← transaction_index (get "transactionIndex" fields)
    (raw, sender, tx_type) ← signed_transaction fields trust.chain_id
    receipt_raw ← claimed_receipt fields (lib.keccak raw) tx_type index linked.header
    check_inclusion fields linked.header index raw receipt_raw
    ok (record {
      trust = trust;
      header = linked.header;
      ancestry_count = linked.ancestry_count;
      transaction_raw = raw;
      transaction_hash = lib.keccak raw;
      index = index;
      transaction_type = tx_type;
      sender = sender;
      receipt_raw = receipt_raw;
    })

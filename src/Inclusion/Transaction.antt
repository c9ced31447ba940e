-- ===== src/Inclusion/Transaction.antt =====
-- scripts/forensic/ethereum_receipt_inclusion.py: `_recover_transaction`.
use protocol_robustness_fram.Prelude.{
  ℕ, ◌-◌, ◌/◌, ◌%◌, Bool, false, not, ◌&&◌, ◌||◌, List, [], ◌∷◌, ◌++◌, Option, none, some, ltb, leb,
  ◌==◌, length, take, all, if◌then◌else◌,
}
use protocol_robustness_fram.Prelude.Result.{ok, err, ◌>>=◌, ◌>>◌, raise_if}
use protocol_robustness_fram.Inclusion.Bytes.{
  Bytes, Checked, message, rlp_int, to_big_endian, bytes_eq,
}
use protocol_robustness_fram.Inclusion.Libraries.{
  Item, bytes, list, elements, from_elements, Libraries,
}
use protocol_robustness_fram.Inclusion.Header.{byte_fields, field_of}

-- What both transaction formats yield before the signature is checked.
pub record Signed : Type 0 where
  pub chain_id : ℕ
  pub parity : ℕ
  pub r_value : ℕ
  pub s_value : ℕ
  pub signing_payload : Bytes

is_slot : Item → Bool
is_slot (bytes b) = length b == 32
is_slot (list xs) = false

-- One entry of the access list: an address and storage slots.
unfoldable pub access_entry_shape : Item → Bool
unfolding is_slot
access_entry_shape (bytes b) = false
access_entry_shape (list xs) = elim (elements xs) [
  | bytes address ∷ list slots ∷ [] ↦ length address == 20 && all is_slot (elements slots)
  | _ ↦ false
]

-- `payload[8]` is a list and the other 11 fields are byte strings.
unfoldable pub fee_market_fields : List Item → Option (List Bytes × List Item × List Bytes)
unfolding byte_fields
fee_market_fields (a ∷ b ∷ c ∷ d ∷ e ∷ f ∷ g ∷ h ∷ list access ∷ i ∷ j ∷ k ∷ []) =
    elim (byte_fields (a ∷ b ∷ c ∷ d ∷ e ∷ f ∷ g ∷ h ∷ [])) [
      | none ↦ none
      | some leading ↦ elim (byte_fields (i ∷ j ∷ k ∷ [])) [
        | none ↦ none
        | some signature ↦ some (leading, elements access, signature)
      ]
    ]
fee_market_fields _ = none

-- `len(destination) in (0, 20)`
abbrev pub destination_width : Bytes → Bool
destination_width b = length b == 0 || length b == 20

module _ (lib : Libraries) where
  -- The branch `tx_type == 2`.
  unfoldable pub read_fee_market : List Item → Checked Signed
  unfolding fee_market_fields access_entry_shape rlp_int
  read_fee_market payload = elim (fee_market_fields payload) [
    | none ↦ err (message "EIP-1559 transaction fields are malformed")
    | some (leading, access_list, signature) ↦ do
      chain_id ← rlp_int (field_of leading 0) "transaction chain ID"
      nonce ← rlp_int (field_of leading 1) "transaction nonce"
      priority_fee ← rlp_int (field_of leading 2) "transaction priority fee"
      max_fee ← rlp_int (field_of leading 3) "transaction maximum fee"
      gas_limit ← rlp_int (field_of leading 4) "transaction gas limit"
      value ← rlp_int (field_of leading 6) "transaction value"
      raise_if (ltb chain_id 1 || ltb max_fee priority_fee)
          (message "EIP-1559 transaction numeric fields are invalid")
      raise_if (not (destination_width (field_of leading 5)))
          (message "EIP-1559 transaction destination must be empty or 20 bytes")
      raise_if (not (all access_entry_shape access_list))
          (message "EIP-1559 access-list entry is malformed")
      parity ← rlp_int (field_of signature 0) "transaction y parity"
      r_value ← rlp_int (field_of signature 1) "transaction signature r"
      s_value ← rlp_int (field_of signature 2) "transaction signature s"
      ok (record {
        chain_id = chain_id;
        parity = parity;
        r_value = r_value;
        s_value = s_value;
        signing_payload = 2 ∷ lib.encode (list (from_elements (take 9 payload)));
      })
  ]

  -- The branch of the legacy transactions.
  unfoldable pub read_legacy : List Item → Checked Signed
  unfolding byte_fields rlp_int to_big_endian
  read_legacy payload = elim (if length payload == 9 then byte_fields payload else none) [
    | none ↦ err (message "legacy transaction must have 9 byte-string fields")
    | some fields ↦ do
      nonce ← rlp_int (field_of fields 0) "legacy transaction nonce"
      gas_price ← rlp_int (field_of fields 1) "legacy transaction gas price"
      gas_limit ← rlp_int (field_of fields 2) "legacy transaction gas limit"
      value ← rlp_int (field_of fields 4) "legacy transaction value"
      raise_if (not (destination_width (field_of fields 3)))
          (message "legacy transaction destination must be empty or 20 bytes")
      v ← rlp_int (field_of fields 6) "legacy transaction v"
      raise_if (ltb v 35) (message "unprotected legacy transactions are not accepted")
      r_value ← rlp_int (field_of fields 7) "transaction signature r"
      s_value ← rlp_int (field_of fields 8) "transaction signature s"
      let chain_id = (v - 35) / 2
      ok (record {
        chain_id = chain_id;
        parity = (v - 35) % 2;
        r_value = r_value;
        s_value = s_value;
        signing_payload = lib.encode (
            list (
              from_elements
                (take 6 payload ++ bytes (to_big_endian chain_id) ∷ bytes [] ∷ bytes [] ∷ [])));
      })
  ]

  -- The type byte and the bytes of the list.
  transaction_type : Bytes → Checked (ℕ × Bytes)
  transaction_type [] = err (message "signed transaction bytes are empty")
  transaction_type (first ∷ rest) =
      if ltb first 128
      then (if first == 2
          then ok (first, rest)
          else err (message "unsupported typed transaction type"))
      else ok (0, first ∷ rest)

  transaction_items : Bytes → Checked (List Item)
  transaction_items payload_raw = elim (lib.decode payload_raw) [
    | none ↦ err (message "malformed signed transaction RLP")
    | some (bytes b) ↦ err (message "signed transaction must be a canonical RLP list")
    | some (list xs) ↦
        if bytes_eq (lib.encode (list xs)) payload_raw
        then ok (elements xs)
        else err (message "signed transaction must be a canonical RLP list")
  ]

  -- The chain, the range of the signature and the sender.
  unfoldable pub check_signature : Signed → ℕ → Checked (List ℕ)
  check_signature tx expected_chain_id = do
    raise_if (not (tx.chain_id == expected_chain_id))
        (message "signed transaction chain ID differs from trusted context")
    raise_if
        (ltb 1 tx.parity
          || not (ltb 0 tx.r_value && ltb tx.r_value lib.curve_order)
          || not (ltb 0 tx.s_value && leb tx.s_value (lib.curve_order / 2)))
        (message "transaction signature values are outside secp256k1 range")
    elim (lib.recover tx.parity tx.r_value tx.s_value (lib.keccak tx.signing_payload)) [
      | none ↦ err (message "transaction sender recovery failed")
      | some sender ↦ ok sender
    ]

  -- The sender's address as text, and the transaction type.
  unfoldable pub recover_transaction : Bytes → ℕ → Checked (List ℕ × ℕ)
  unfolding transaction_type transaction_items read_fee_market read_legacy check_signature
  recover_transaction raw expected_chain_id = do
    (tx_type, payload_raw) ← transaction_type raw
    payload ← transaction_items payload_raw
    tx ← (if tx_type == 2 then read_fee_market payload else read_legacy payload)
    sender ← check_signature tx expected_chain_id
    ok (sender, tx_type)

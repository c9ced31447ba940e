-- ===== src/Inclusion/Receipt.antt =====
-- scripts/forensic/ethereum_receipt_inclusion.py: `_logs_bloom` and `encode_rpc_receipt`.
pub mod Bits
pub mod Bloom
use Prim.Native.Nat.{bit_or}
use mathlib.Core.List.{foldl}
use protocol_robustness_fram.Prelude.{
  ℕ, ◌-◌, ◌/◌, ◌%◌, ◌^◌, not, String, List, [], ◌∷◌, ◌++◌, Option, none, some, ltb, ◌==◌, map,
  get_or, set, take, drop, replicate, if◌then◌else◌,
}
use protocol_robustness_fram.Prelude.Result.{ok, err, ◌>>=◌, ◌>>◌, raise_if}
use protocol_robustness_fram.Json.{Json, Fields, lookup, get, items}
use protocol_robustness_fram.Inclusion.Bytes.{
  Bytes, Checked, message, hex_bytes, quantity, from_big_endian, to_big_endian, bytes_eq,
}
use protocol_robustness_fram.Inclusion.Libraries.{Item, bytes, list, from_elements, Libraries}

-- One entry of a receipt's log, its hexadecimal fields decoded.
pub record Log : Type 0 where
  pub address : Bytes
  pub topics : List Bytes
  pub payload : Bytes

unfoldable pub hex_list : List Json → String → Option ℕ → Checked (List Bytes)
hex_list [] label size = ok []
hex_list (x ∷ xs) label size = do
  b ← hex_bytes x label size
  bs ← hex_list xs label size
  ok (b ∷ bs)

-- `isinstance(value, dict)`, else the error.
unfoldable pub as_object : Json → String → Checked Fields
as_object (Json.obj fs) failure = ok fs
as_object _ failure = err (message failure)

-- `isinstance(value, list)`, else the error.
unfoldable pub as_array : Json → String → Checked (List Json)
as_array (Json.arr xs) failure = ok (items xs)
as_array _ failure = err (message failure)

-- The body of the loop over `logs`.
unfoldable pub read_log : Json → Checked Log
unfolding as_object as_array hex_list hex_bytes
read_log value = do
  log ← as_object value "receipt log must be an object"
  address ← hex_bytes (get "address" log) "log address" (some 20)
  topic_values ← as_array (get "topics" log) "log topics must be an array"
  topics ← hex_list topic_values "log topic" (some 32)
  payload ← hex_bytes (get "data" log) "log data" none
  ok (record { address = address; topics = topics; payload = payload })

unfoldable pub read_logs : List Json → Checked (List Log)
unfolding read_log
read_logs [] = ok []
read_logs (x ∷ xs) = do log ← read_log x; logs ← read_logs xs; ok (log ∷ logs)

-- `bloom[255 - bit // 8] |= 1 << (bit % 8)`
unfoldable pub set_bit : ℕ → Bytes → Bytes
set_bit bit bloom =
    let place : ℕ = 255 - bit / 8 in set bloom place (bit_or (get_or bloom place 0) (2 ^ (bit % 8)))

-- `int.from_bytes(digest[offset:offset + 2], "big") & 2047`
unfoldable pub bloom_bit : Bytes → ℕ → ℕ
unfolding from_big_endian
bloom_bit digest offset = from_big_endian 0 (take 2 (drop offset digest)) % 2048

unfoldable pub status_field : Json → Json → Checked Bytes
unfolding quantity hex_bytes to_big_endian
status_field Json.null Json.null = err (message "receipt must contain status or pre-Byzantium root")
status_field Json.null root = hex_bytes root "pre-Byzantium receipt root" (some 32)
status_field value root = do
  status ← quantity value "receipt status"
  raise_if (ltb 1 status) (message "receipt status must be zero or one")
  ok (to_big_endian status)

unfoldable pub log_item : Log → Item
log_item log = list (
    from_elements
      (bytes log.address ∷ list (from_elements (map bytes log.topics)) ∷ bytes log.payload ∷ []))

module _ (lib : Libraries) where
  unfoldable pub add_value : Bytes → Bytes → Bytes
  unfolding set_bit bloom_bit
  add_value bloom value =
      let digest = lib.keccak value in
      set_bit (bloom_bit digest 4)
        (set_bit (bloom_bit digest 2) (set_bit (bloom_bit digest 0) bloom))

  unfoldable pub add_log : Bytes → Log → Bytes
  unfolding add_value
  add_log bloom log = foldl add_value bloom (log.address ∷ log.topics)

  -- `_logs_bloom(logs)` on the decoded entries. `encode_rpc_receipt` has decoded the same fields of
  -- every entry when it calls this, so the errors of the second decoding cannot be reached.
  unfoldable pub logs_bloom : List Log → Bytes
  unfolding add_log
  logs_bloom logs = foldl add_log (replicate 256 0) logs

  -- `receipt.get("type", "0x0")`, and the prefix byte of a typed receipt.
  receipt_type_of : Fields → Checked ℕ
  unfolding quantity
  receipt_type_of receipt = do
    receipt_type ←
        quantity (elim (lookup "type" receipt) [ some v ↦ v | none ↦ Json.str "0x0" ])
          "receipt type"
    raise_if (ltb 127 receipt_type) (message "typed receipt type must fit in one EIP-2718 byte")
    ok receipt_type

  unfoldable pub type_prefix : ℕ → Bytes
  type_prefix receipt_type = if receipt_type == 0 then [] else receipt_type ∷ []

  unfoldable pub encode_rpc_receipt : Json → Checked (Bytes × ℕ)
  unfolding as_object as_array receipt_type_of status_field read_logs logs_bloom type_prefix
      log_item
  encode_rpc_receipt value = do
    receipt ← as_object value "receipt must be an object"
    receipt_type ← receipt_type_of receipt
    state ← status_field (get "status" receipt) (get "root" receipt)
    cumulative_gas ← quantity (get "cumulativeGasUsed" receipt) "cumulativeGasUsed"
    bloom ← hex_bytes (get "logsBloom" receipt) "logsBloom" (some 256)
    log_values ← as_array (get "logs" receipt) "receipt logs must be an array"
    logs ← read_logs log_values
    raise_if (not (bytes_eq (logs_bloom logs) bloom))
        (message "logsBloom does not match the receipt logs")
    let payload = from_elements (
        bytes state
        ∷ bytes (to_big_endian cumulative_gas)
        ∷ bytes bloom
        ∷ list (from_elements (map log_item logs))
        ∷ [])
    ok (type_prefix receipt_type ++ lib.encode (list payload), receipt_type)

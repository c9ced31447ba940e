-- ===== src/Inclusion/Header.antt =====
-- scripts/forensic/ethereum_receipt_inclusion.py: `_header_identity`, and the loop of `verify_case`
-- that follows parent links from the receipt's block up to the pinned anchor.
pub mod Chain
use protocol_robustness_fram.Prelude.{
  ℕ, suc, ◌+◌, ◌*◌, Bool, true, false, not, ◌&&◌, ◌||◌, List, [], ◌∷◌, Option, none, some, ltb,
  ◌==◌, length, get_or, take, drop, all, any, if◌then◌else◌,
}
use protocol_robustness_fram.Prelude.Result.{ok, err, ◌>>=◌, ◌>>◌, raise_if}
use protocol_robustness_fram.Json.{Json}
use protocol_robustness_fram.Inclusion.Bytes.{
  Bytes, Checked, message, hex_bytes, rlp_int, leading_zero, bytes_eq,
}
use protocol_robustness_fram.Inclusion.Libraries.{Item, bytes, list, elements, Libraries}

-- `all(isinstance(field, bytes) for field in fields)`, with the fields taken out.
unfoldable pub byte_fields : List Item → Option (List Bytes)
byte_fields [] = some []
byte_fields (bytes b ∷ xs) = elim (byte_fields xs) [ none ↦ none | some bs ↦ some (b ∷ bs) ]
byte_fields (list xs ∷ ys) = none

abbrev pub field_of : List Bytes → ℕ → Bytes
field_of fields i = get_or fields i []

abbrev pub has_width : List Bytes → ℕ → ℕ → Bool
has_width fields i n = length (field_of fields i) == n

-- The lengths of the fixed-width fields.
unfoldable pub fixed_widths : List Bytes → Bool
fixed_widths fields =
    has_width fields 0 32
    && has_width fields 1 32
    && has_width fields 2 20
    && has_width fields 3 32
    && has_width fields 4 32
    && has_width fields 5 32
    && has_width fields 6 256
    && not (ltb 32 (length (field_of fields 12)))
    && has_width fields 13 32
    && has_width fields 14 8

-- What `_header_identity` returns.
pub record Header : Type 0 where
  pub hash : Bytes
  pub number : ℕ
  pub parent : Bytes
  pub transactions_root : Bytes
  pub receipts_root : Bytes

module _ (lib : Libraries) where
  -- `rlp.decode`, the canonical re-encoding and the number of fields.
  unfoldable pub header_items : Bytes → Checked (List Item)
  header_items header_raw = elim (lib.decode header_raw) [
    | none ↦ err (message "malformed block header RLP")
    | some (bytes b) ↦ err (message "block header is not canonical or lacks required fields")
    | some (list xs) ↦
        if not (bytes_eq (lib.encode (list xs)) header_raw) || ltb (length (elements xs)) 15
        then err (message "block header is not canonical or lacks required fields")
        else ok (elements xs)
  ]

  unfoldable pub header_identity : Bytes → Checked Header
  header_identity header_raw = do
    fields ← header_items header_raw
    elim (byte_fields fields) [
      | none ↦ err (message "block header has malformed fixed fields")
      | some parts ↦ do
        raise_if (not (fixed_widths parts))
            (message "block header fixed-width fields are malformed")
        gas_limit ← rlp_int (field_of parts 9) "header gas limit"
        gas_used ← rlp_int (field_of parts 10) "header gas used"
        raise_if (ltb gas_limit gas_used) (message "header gas used exceeds gas limit")
        raise_if (any leading_zero (take 5 (drop 7 parts)))
            (message "block header numeric fields are not canonical")
        number ← rlp_int (field_of parts 8) "header number"
        ok (record {
          hash = lib.keccak header_raw;
          number = number;
          parent = field_of parts 0;
          transactions_root = field_of parts 4;
          receipts_root = field_of parts 5;
        })
    ]

  -- The loop over `headerAncestry`, from the hash and the number of the header below.
  unfoldable pub follow : ℕ → Bytes → ℕ → List Json → Checked (Bytes × ℕ)
  follow ancestry_bytes current_hash current_number [] = ok (current_hash, current_number)
  follow ancestry_bytes current_hash current_number (encoded_header ∷ ancestry) = do
    ancestor_raw ← hex_bytes encoded_header "ancestry header" none
    raise_if (ltb (8 * 1024 * 1024) (ancestry_bytes + length ancestor_raw))
        (message "header ancestry exceeds byte-size limit")
    ancestor ← header_identity ancestor_raw
    raise_if (not (bytes_eq ancestor.parent current_hash && ancestor.number == current_number + 1))
        (message "header ancestry parent or height link is invalid")
    follow (ancestry_bytes + length ancestor_raw) ancestor.hash ancestor.number ancestry

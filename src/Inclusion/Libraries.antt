-- ===== src/Inclusion/Libraries.antt =====
-- The third-party packages that scripts/forensic/ethereum_receipt_inclusion.py calls (`rlp`,
-- `eth_hash`, `eth_keys`) and the two library calls on whole documents, as one record of functions
-- that the model takes as a parameter. `none` is an exception that the caller turns into its own.
use protocol_robustness_fram.Prelude.{ℕ, String, List, [], ◌∷◌, Option}
use protocol_robustness_fram.Json.{Json}
use protocol_robustness_fram.Inclusion.Bytes.{Bytes}

-- What `rlp.decode` returns and `rlp.encode` takes: byte strings and nested lists of them.
mutual
  pub data Item : Type 0 where
    bytes : Bytes → Item
    list : Items → Item

  pub data Items : Type 0 where
    nil : Items
    cons : Item → Items → Items

abbrev pub elements : Items → List Item
elements nil = []
elements (cons x xs) = x ∷ elements xs

abbrev pub from_elements : List Item → Items
from_elements [] = nil
from_elements (x ∷ xs) = cons x (from_elements xs)

pub record Libraries : Type 0 where
  -- `rlp.decode(raw, strict=True)`
  pub decode : Bytes → Option Item
  -- `rlp.encode(value)` of a nested list, and of an integer
  pub encode : Item → Bytes
  pub encode_int : ℕ → Bytes
  pub keccak : Bytes → Bytes
  -- `SECPK1_N`
  pub curve_order : ℕ
  -- `Signature(vrs=(parity, r, s)).recover_public_key_from_msg_hash(h).to_checksum_address().lower()`,
  -- as the list of the code points of the text
  pub recover : ℕ → ℕ → ℕ → Bytes → Option (List ℕ)
  -- `hashlib.sha256(raw).hexdigest()`
  pub sha256_hex : Bytes → String
  -- `json.loads(raw)`, with every pair of an object kept
  pub loads : Bytes → Option Json

-- ===== src/Inclusion/Bytes.antt =====
-- scripts/forensic/ethereum_receipt_inclusion.py: the byte-level helpers. A byte string is the list
-- of its bytes; a message of `InclusionError` is kept as text, with the label apart.
pub mod HexPrefix
pub mod Integers
use Prim.Native.Char.{code}
use protocol_robustness_fram.Prelude.{
  ℕ, zero, suc, ◌+◌, ◌-◌, ◌*◌, ◌/◌, ◌%◌, String, Bool, true, false, not, ◌&&◌, List, [], ◌∷◌,
  Option, none, some, ltb, leb, ◌==◌, ==_iff, length, if◌then◌else◌, ◌≡◌, refl, arith,
}
use protocol_robustness_fram.Prelude.Result.{Result, ok, err}
use protocol_robustness_fram.Json.{Json}

abbrev pub Bytes : Type 0
Bytes = List ℕ

pub data InclusionError : Type 0 where
  message : String → InclusionError
  labelled : String → String → InclusionError
  -- f"{label} must be {size} bytes"
  wrong_size : String → ℕ → InclusionError

abbrev pub Checked : Type 0 → Type 0
Checked A = Result InclusionError A

-- `data == other` on byte strings.
abbrev pub bytes_eq : Bytes → Bytes → Bool
bytes_eq [] [] = true
bytes_eq [] (y ∷ ys) = false
bytes_eq (x ∷ xs) [] = false
bytes_eq (x ∷ xs) (y ∷ ys) = x == y && bytes_eq xs ys

-- The code points of a text.
abbrev pub codes : String → List ℕ
codes String.[] = []
codes (String.◌∷◌ c s) = code c ∷ codes s

-- The value of one hexadecimal digit.
unfoldable pub hex_digit : ℕ → Option ℕ
hex_digit c =
    if leb b'0' c && leb c b'9'
    then some (c - 48)
    else if leb b'a' c && leb c b'f'
    then some (c - 87)
    else if leb b'A' c && leb c b'F'
    then some (c - 55)
    else none

-- `bytes.fromhex` on the pairs of digits; `none` where the pattern does not match.
unfoldable pub from_hex : List ℕ → Option Bytes
from_hex [] = some []
from_hex (a ∷ []) = none
from_hex (a ∷ b ∷ s) = elim (hex_digit a) [
  | none ↦ none
  | some hi ↦ elim (hex_digit b) [
    | none ↦ none
    | some lo ↦ elim (from_hex s) [ none ↦ none | some rest ↦ some ((hi * 16 + lo) ∷ rest) ]
  ]
]

-- What follows the prefix "0x" of a text.
unfoldable pub after_0x : List ℕ → Option (List ℕ)
after_0x (a ∷ b ∷ s) = if a == b'0' && b == b'x' then some s else none
after_0x _ = none

unfoldable pub decode_hex : Json → Option Bytes
unfolding from_hex after_0x hex_digit
decode_hex (Json.str s) = elim (after_0x (codes s)) [ none ↦ none | some rest ↦ from_hex rest ]
decode_hex _ = none

-- `_hex_bytes(value, label, size)`; `none` for a size that is not asked for.
unfoldable pub hex_bytes : Json → String → Option ℕ → Checked Bytes
unfolding decode_hex
hex_bytes value label size = elim (decode_hex value) [
  | none ↦ err (labelled label "must be even-length 0x-prefixed hex")
  | some data_bytes ↦ elim size [
    | none ↦ ok data_bytes
    | some n ↦ if length data_bytes == n then ok data_bytes else err (wrong_size label n)
  ]
]

hex_value : ℕ → List ℕ → Option ℕ
unfolding hex_digit
hex_value acc [] = some acc
hex_value acc (c ∷ s) = elim (hex_digit c) [ none ↦ none | some d ↦ hex_value (acc * 16 + d) s ]

-- `0x(?:0|[1-9a-fA-F][0-9a-fA-F]*)`: no empty value and no leading zero.
canonical_quantity : List ℕ → Bool
canonical_quantity [] = false
canonical_quantity (c ∷ []) = true
canonical_quantity (c ∷ d ∷ s) = not (c == b'0')

unfoldable pub quantity_digits : Json → Option ℕ
unfolding after_0x hex_value canonical_quantity
quantity_digits (Json.str s) = elim (after_0x (codes s)) [
  | none ↦ none
  | some rest ↦ if canonical_quantity rest then hex_value 0 rest else none
]
quantity_digits _ = none

-- `_quantity(value, label)`
unfoldable pub quantity : Json → String → Checked ℕ
unfolding quantity_digits
quantity value label = elim (quantity_digits value) [
  | none ↦ err (labelled label "must be a canonical JSON-RPC quantity")
  | some n ↦ ok n
]

-- `int.from_bytes(value, "big")`
unfoldable pub from_big_endian : ℕ → Bytes → ℕ
from_big_endian acc [] = acc
from_big_endian acc (b ∷ bs) = from_big_endian (acc * 256 + b) bs

-- The digits of `n` in base 256 before `acc`, on fuel; `n` itself is fuel enough.
unfoldable pub big_endian : ℕ → ℕ → Bytes → Bytes
big_endian zero n acc = acc
big_endian (suc fuel) n acc =
    let more = big_endian fuel (n / 256) ((n % 256) ∷ acc) in if n == 0 then acc else more

-- `n.to_bytes((n.bit_length() + 7) // 8, "big")`
unfoldable pub to_big_endian : ℕ → Bytes
unfolding big_endian
to_big_endian n = big_endian n n []

-- `value and value[0] == 0`
unfoldable pub leading_zero : Bytes → Bool
leading_zero [] = false
leading_zero (b ∷ bs) = b == 0

-- `_rlp_int(value, label)`
unfoldable pub rlp_int : Bytes → String → Checked ℕ
unfolding leading_zero from_big_endian
rlp_int value label =
    if leading_zero value
    then err (labelled label "is not a canonical RLP integer")
    else ok (from_big_endian 0 value)

-- `_nibbles(raw)`: the high and the low half of each byte.
unfoldable pub nibbles : Bytes → List ℕ
nibbles [] = []
nibbles (byte ∷ raw) = (byte / 16) ∷ (byte % 16) ∷ nibbles raw

-- What the first nibble says, `leaf` and `odd`.
compact_body : ℕ → List ℕ → Checked (List ℕ × Bool)
compact_body n ns = if n % 2 == 1 then ok (ns, leb 2 n) else elim ns [
  | [] ↦ err (message "non-canonical even hex-prefix path")
  | m ∷ rest ↦
      if m == 0 then ok (rest, leb 2 n) else err (message "non-canonical even hex-prefix path")
]

compact_nibbles : List ℕ → Checked (List ℕ × Bool)
unfolding compact_body
compact_nibbles [] = err (message "invalid hex-prefix path")
compact_nibbles (n ∷ ns) =
    if ltb n 4 then compact_body n ns else err (message "invalid hex-prefix path")

-- `_compact_path(raw)`
unfoldable pub compact_path : Bytes → Checked (List ℕ × Bool)
unfolding nibbles compact_nibbles
compact_path raw = compact_nibbles (nibbles raw)

pub bytes_eq→eq : (a b : Bytes) → bytes_eq a b ≡ true → a ≡ b
bytes_eq→eq [] [] h = refl
bytes_eq→eq [] (y ∷ ys) h = cc
bytes_eq→eq (x ∷ xs) [] h = cc
bytes_eq→eq (x ∷ xs) (y ∷ ys) h = ground (arith, ==_iff x y, bytes_eq→eq xs ys)

pub bytes_eq_refl : (a : Bytes) → bytes_eq a a ≡ true
bytes_eq_refl [] = refl
bytes_eq_refl (x ∷ xs) = ground (arith, bytes_eq_refl xs)

pub bytes_eq_of_eq : {a b : Bytes} → a ≡ b → bytes_eq a b ≡ true
bytes_eq_of_eq {a} e = rw (← e) (bytes_eq_refl a)

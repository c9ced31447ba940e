-- ===== src/Edn.antt =====
-- scripts/edn.py: the reader of the conformance descriptors. The text is the list of its code points;
-- the position of the reader is the rest of the text that is not yet read. Digits other than those of
-- ASCII, which `int` also reads, are not modelled, nor is the number of digits, 4300 by default, above
-- which `int` raises in recent versions of Python, so that the token stays a text.
pub mod Consumed
pub mod Fuel
pub mod Decimal
pub mod Printer
pub mod Opening
pub mod RoundTrip
mod Examples
use protocol_robustness_fram.Prelude.{
  ℕ, zero, suc, ◌+◌, ◌-◌, ◌*◌, Bool, true, false, ◌&&◌, ◌||◌, not, List, [], ◌∷◌, ◌++◌, Option,
  none, some, length, leb, ◌==◌, is_empty, any, if◌then◌else◌,
}
use protocol_robustness_fram.Prelude.Int.{ℤ, pos, negsuc, ◌-ℤ◌, eqb_ℤ}
use protocol_robustness_fram.Prelude.Result.{Result, ok, err, ◌>>=◌}
use protocol_robustness_fram.Mailbox.{is_space}

-- The values that can be keys of a dict or elements of a set.
pub data Atom : Type 0 where
  number : ℤ → Atom
  word : List ℕ → Atom

mutual
  pub data Edn : Type 0 where
    atom : Atom → Edn
    vector : Values → Edn
    table : Entries → Edn
    elements : List Atom → Edn

  pub data Values : Type 0 where
    nil : Values
    cons : Edn → Values → Values

  pub data Entries : Type 0 where
    end : Entries
    entry : Atom → Edn → Entries → Entries

pub data EdnError : Type 0 where
  unexpected_end unsupported_set unterminated_string malformed_keyword : EdnError
  unexpected_character unhashable out_of_fuel : EdnError

-- `_skip`; a comment ends at the newline, which is skipped as white space.
unfoldable pub skip : Bool → List ℕ → List ℕ
skip in_comment [] = []
skip in_comment (c ∷ s) = elim in_comment [
  | true ↦ elim (c == 10) [ true ↦ skip false s | false ↦ skip true s ]
  | false ↦ elim (is_space c) [
    | true ↦ skip false s
    | false ↦ elim (c == 59) [ true ↦ skip true s | false ↦ c ∷ s ]
  ]
]

-- `[^\s\[\]{}#\"(),]`
abbrev pub is_token_char : ℕ → Bool
is_token_char c = not (
    is_space c
    || c == b'['
    || c == b']'
    || c == b'{'
    || c == b'}'
    || c == b'#'
    || c == b'"'
    || c == b'('
    || c == b')'
    || c == b',')

-- `_TOKEN_RE.match`: the longest token, empty where there is none, and the text after it.
unfoldable pub take_token : List ℕ → List ℕ × List ℕ
take_token [] = ([], [])
take_token (c ∷ s) =
    let (token, rest) = take_token s in if is_token_char c then (c ∷ token, rest) else ([], c ∷ s)

-- The characters of a string after its opening quote, and the text after its closing quote. A
-- backslash makes the next character part of the string.
unfoldable pub read_string : Bool → List ℕ → Result EdnError (List ℕ × List ℕ)
read_string escaped [] = err unterminated_string
read_string true (c ∷ s) = do r ← read_string false s; ok (c ∷ r.0, r.1)
read_string false (c ∷ s) = elim (c == b'"') [
  | true ↦ ok ([], s)
  | false ↦ elim (c == 92) [
    | true ↦ read_string true s
    | false ↦ (do r ← read_string false s; ok (c ∷ r.0, r.1))
  ]
]

abbrev pub is_digit : ℕ → Bool
is_digit c = leb b'0' c && leb c b'9'

-- The digits of an integer literal; one underscore may stand between two digits.
unfoldable pub read_digits : Bool → ℕ → List ℕ → Option ℕ
read_digits after_digit n [] = if after_digit then some n else none
read_digits after_digit n (c ∷ s) = elim (is_digit c) [
  | true ↦ read_digits true (10 * n + (c - b'0')) s
  | false ↦ elim (c == b'_' && after_digit) [ true ↦ read_digits false n s | false ↦ none ]
]

-- `int(tok)` for a token of any length, none where it raises ValueError.
unfoldable pub int_of : List ℕ → Option ℤ
unfolding read_digits
int_of [] = none
int_of (c ∷ s) =
    if c == b'-'
    then elim (read_digits false 0 s) [ none ↦ none | some n ↦ some (pos 0 -ℤ pos n) ]
    else if c == b'+'
    then elim (read_digits false 0 s) [ none ↦ none | some n ↦ some (pos n) ]
    else elim (read_digits false 0 (c ∷ s)) [ none ↦ none | some n ↦ some (pos n) ]

unfoldable pub token_value : List ℕ → Edn
unfolding int_of
token_value token = elim (int_of token) [ some n ↦ atom (number n) | none ↦ atom (word token) ]

-- From the colon's next character on.
unfoldable pub read_keyword : List ℕ → Result EdnError (Edn × List ℕ)
unfolding take_token
read_keyword s =
    let (token, rest) = take_token s in
    if is_empty token then err malformed_keyword else ok (atom (word (b':' ∷ token)), rest)

unfoldable pub read_token : List ℕ → Result EdnError (Edn × List ℕ)
unfolding take_token token_value
read_token s =
    let (token, rest) = take_token s in
    if is_empty token then err unexpected_character else ok (token_value token, rest)

unfoldable pub read_text : List ℕ → Result EdnError (Edn × List ℕ)
unfolding read_string
read_text s = do r ← read_string false s; ok (atom (word r.0), r.1)

-- Which branch of `value` the skipped text takes.
pub data Start : Type 0 where
  at_end bad_set : Start
  open_map open_vector open_set quote colon other : List ℕ → Start

abbrev pub after_hash : List ℕ → Start
after_hash [] = bad_set
after_hash (c ∷ s) = if c == b'{' then open_set s else bad_set

unfoldable pub start_of : List ℕ → Start
start_of [] = at_end
start_of (c ∷ s) =
    if c == b'{'
    then open_map s
    else if c == b'['
    then open_vector s
    else if c == b'#'
    then after_hash s
    else if c == b'"'
    then quote s
    else if c == b':'
    then colon s
    else other (c ∷ s)

-- `self.pos >= n or self.text[self.pos] == close`, and the text after it.
unfoldable pub closing : ℕ → List ℕ → Option (List ℕ)
closing close [] = some []
closing close (c ∷ s) = if c == close then some s else none

abbrev pub same_text : List ℕ → List ℕ → Bool
same_text [] [] = true
same_text (c ∷ s) (d ∷ t) = c == d && same_text s t
same_text _ _ = false

abbrev pub same_atom : Atom → Atom → Bool
same_atom (number m) (number n) = eqb_ℤ m n
same_atom (word s) (word t) = same_text s t
same_atom _ _ = false

-- `m[k] = v`
unfoldable pub put_entry : Atom → Edn → Entries → Entries
put_entry k v end = entry k v end
put_entry k v (entry j w m) =
    let rest = put_entry k v m in if same_atom j k then entry j v m else entry j w rest

-- `s.add(x)`
unfoldable pub add_element : Atom → List Atom → List Atom
add_element k s = if any (λ j. same_atom j k) s then s else s ++ k ∷ []

abbrev pub append_value : Values → Edn → Values
append_value nil v = cons v nil
append_value (cons x xs) v = cons x (append_value xs v)

unfoldable pub key_of : Edn → Result EdnError Atom
key_of (atom k) = ok k
key_of _ = err unhashable

-- `value` and its three loops, on fuel. A loop that meets the end of the text returns.
unfoldable mutual
  pub read_value : ℕ → List ℕ → Result EdnError (Edn × List ℕ)
  read_value zero t = err out_of_fuel
  read_value (suc f) t = elim (start_of (skip false t)) [
    | at_end ↦ err unexpected_end
    | bad_set ↦ err unsupported_set
    | open_map s ↦ read_map f end s
    | open_vector s ↦ read_vector f nil s
    | open_set s ↦ read_set f [] s
    | quote s ↦ read_text s
    | colon s ↦ read_keyword s
    | other s ↦ read_token s
  ]

  pub read_vector : ℕ → Values → List ℕ → Result EdnError (Edn × List ℕ)
  read_vector zero items t = err out_of_fuel
  read_vector (suc f) items t = elim (closing b']' (skip false t)) [
    | some rest ↦ ok (vector items, rest)
    | none ↦ read_value f (skip false t) >>= (λ r. read_vector f (append_value items r.0) r.1)
  ]

  pub read_map : ℕ → Entries → List ℕ → Result EdnError (Edn × List ℕ)
  read_map zero m t = err out_of_fuel
  read_map (suc f) m t = elim (closing b'}' (skip false t)) [
    | some rest ↦ ok (table m, rest)
    | none ↦ read_value f (skip false t) >>= (λ k.
        read_value f k.1 >>= (λ v. key_of k.0 >>= (λ a. read_map f (put_entry a v.0 m) v.1)))
  ]

  pub read_set : ℕ → List Atom → List ℕ → Result EdnError (Edn × List ℕ)
  read_set zero s t = err out_of_fuel
  read_set (suc f) s t = elim (closing b'}' (skip false t)) [
    | some rest ↦ ok (elements s, rest)
    | none ↦
        read_value f (skip false t)
        >>= (λ r. key_of r.0 >>= (λ a. read_set f (add_element a s) r.1))
  ]

-- The fuel for a text: two calls for each of its characters, and one.
abbrev pub enough : List ℕ → ℕ
enough t = 2 * length t + 1

unfoldable pub parse_edn : List ℕ → Result EdnError Edn
unfolding read_value
parse_edn t = do r ← read_value (enough t) t; ok r.0

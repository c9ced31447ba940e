-- ===== src/Edn/Printer.antt =====
-- A printer for the values of the reader, with the text that follows: what a descriptor may look like
-- that holds a given value. Words are printed as strings, and elements are followed by a space.
-- that holds a given value. Words are printed as strings, and elements are followed by a space.
use protocol_robustness_fram.Prelude.{
  ℕ, ◌≡◌, refl, false, ◌||◌, List, [], ◌∷◌, ◌++◌, arith, inl, inr, Bool-cases, ◌==◌, if◌then◌else◌,
}
use protocol_robustness_fram.Prelude.Result.{ok}
use protocol_robustness_fram.Edn.{
  Atom, number, word, Edn, atom, vector, table, elements, Values, nil, cons, Entries, end, entry,
  read_string,
}
use protocol_robustness_fram.Edn.Decimal.{number_token}

-- A string's characters, its closing quote and the rest.
abbrev pub string_body : List ℕ → List ℕ → List ℕ
string_body [] rest = b'"' ∷ rest
string_body (c ∷ s) rest =
    if c == b'"' || c == 92 then 92 ∷ c ∷ string_body s rest else c ∷ string_body s rest

abbrev pub print_atom : Atom → List ℕ → List ℕ
print_atom (number n) rest = number_token n ++ rest
print_atom (word s) rest = b'"' ∷ string_body s rest

abbrev pub print_atoms : List Atom → List ℕ → List ℕ
print_atoms [] rest = b'}' ∷ rest
print_atoms (k ∷ s) rest = print_atom k (b' ' ∷ print_atoms s rest)

unfoldable mutual
  pub print_value : Edn → List ℕ → List ℕ
  print_value (atom k) rest = print_atom k rest
  print_value (vector vs) rest = b'[' ∷ print_values vs rest
  print_value (table m) rest = b'{' ∷ print_entries m rest
  print_value (elements s) rest = b'#' ∷ b'{' ∷ print_atoms s rest

  pub print_values : Values → List ℕ → List ℕ
  print_values nil rest = b']' ∷ rest
  print_values (cons v vs) rest = print_value v (b' ' ∷ print_values vs rest)

  pub print_entries : Entries → List ℕ → List ℕ
  print_entries end rest = b'}' ∷ rest
  print_entries (entry k v m) rest =
      print_atom k (b' ' ∷ print_value v (b' ' ∷ print_entries m rest))

pub read_string-string_body :
    (s rest : List ℕ) → read_string false (string_body s rest) ≡ ok (s, rest)
unfolding read_string
read_string-string_body [] rest = refl
read_string-string_body (c ∷ s) rest = elim (Bool-cases (c == b'"')) [
  | inl q ↦ ground (arith, q, read_string-string_body s rest)
  | inr q ↦ elim (Bool-cases (c == 92)) [
    | inl b ↦ ground (arith, q, b, read_string-string_body s rest)
    | inr b ↦ ground (arith, q, b, read_string-string_body s rest)
  ]
]

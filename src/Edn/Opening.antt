-- ===== src/Edn/Opening.antt =====
-- How printed values begin, and which values have no repeated keys or elements.
use protocol_robustness_fram.Prelude.{
  ℕ, zero, suc, ◌≡◌, ◌⊎◌, refl, sym, ap, ◌∙◌, Bool, true, false, ◌||◌, List, [], ◌∷◌, ◌++◌, none,
  arith, ◌==◌,
}
use protocol_robustness_fram.Edn.{
  Atom, number, word, Edn, atom, vector, table, elements, Values, nil, cons, Entries, end, entry,
  skip, other, start_of, closing, append_value, put_entry, add_element, read_value,
}
use protocol_robustness_fram.Edn.Decimal.{is_first, number_token-first}
use protocol_robustness_fram.Edn.Printer.{
  print_atom, print_atoms, print_value, print_values, print_entries, string_body,
}

abbrev pub append_values : Values → Values → Values
append_values read nil = read
append_values read (cons v vs) = append_values (append_value read v) vs

-- What a dict and a set become when their entries and elements are added in order.
abbrev pub put_all : Entries → Entries → Entries
put_all m end = m
put_all m (entry k v new) = put_all (put_entry k v m) new

abbrev pub add_all : List Atom → List Atom → List Atom
add_all s [] = s
add_all s (k ∷ new) = add_all (add_element k s) new

-- No dict repeats a key and no set an element, at any depth.
unfoldable mutual
  pub Normal : Edn → Type 0
  Normal (atom k) = Unit
  Normal (vector vs) = NormalValues vs
  Normal (table m) = (put_all end m ≡ m) × NormalEntries m
  Normal (elements s) = add_all [] s ≡ s

  pub NormalValues : Values → Type 0
  NormalValues nil = Unit
  NormalValues (cons v vs) = Normal v × NormalValues vs

  pub NormalEntries : Entries → Type 0
  NormalEntries end = Unit
  NormalEntries (entry k v m) = Normal v × NormalEntries m

-- The characters with which a printed value begins.
abbrev opens : ℕ → Bool
opens c = is_first c || c == b'"' || c == b'[' || c == b'{' || c == b'#'

abbrev pub Opens : List ℕ → Type 0
Opens t = (c : ℕ) × (s : List ℕ) × (t ≡ c ∷ s) × (opens c ≡ true)

pub atom-Opens : (k : Atom) (rest : List ℕ) → Opens (print_atom k rest)
atom-Opens (number n) rest =
    let (c, s, e, first) = number_token-first n in
    (c, s ++ rest, ap (λ (t : List ℕ). t ++ rest) e, ground (arith, first))
atom-Opens (word w) rest = (b'"', string_body w rest, refl, refl)

pub value-Opens : (v : Edn) (rest : List ℕ) → Opens (print_value v rest)
unfolding print_value
value-Opens (atom k) rest = atom-Opens k rest
value-Opens (vector vs) rest = (b'[', print_values vs rest, refl, refl)
value-Opens (table m) rest = (b'{', print_entries m rest, refl, refl)
value-Opens (elements s) rest = (b'#', b'{' ∷ print_atoms s rest, refl, refl)

skip-opens : (c : ℕ) (s : List ℕ) → opens c ≡ true → skip false (c ∷ s) ≡ c ∷ s
unfolding skip
skip-opens c s h = ground (arith, h)

pub skip-Opens : (t : List ℕ) → Opens t → skip false t ≡ t
skip-Opens t (c, s, e, h) = ap (skip false) e ∙ skip-opens c s h ∙ sym e

closing-opens :
    (close c : ℕ) (s : List ℕ)
    → (close ≡ b']') ⊎ (close ≡ b'}')
    → opens c ≡ true
    → closing close (c ∷ s) ≡ none
unfolding closing
closing-opens close c s which h = ground (arith, which, h)

pub closing-Opens :
    (close : ℕ) (t : List ℕ) → (close ≡ b']') ⊎ (close ≡ b'}') → Opens t → closing close t ≡ none
closing-Opens close t which (c, s, e, h) = ap (closing close) e ∙ closing-opens close c s which h

pub start_of_first : (c : ℕ) (s : List ℕ) → is_first c ≡ true → start_of (c ∷ s) ≡ other (c ∷ s)
unfolding start_of
start_of_first c s h = ground (arith, h)

pub skip_space : (t : List ℕ) → skip false (b' ' ∷ t) ≡ skip false t
unfolding skip
skip_space t = refl

pub read_value_space : (f : ℕ) (t : List ℕ) → read_value f (b' ' ∷ t) ≡ read_value f t
unfolding read_value skip
read_value_space zero t = refl
read_value_space (suc f) t = refl

pub skip_values :
    (vs : Values) (rest : List ℕ) → skip false (print_values vs rest) ≡ print_values vs rest
unfolding skip print_values
skip_values nil rest = refl
skip_values (cons v vs) rest =
    let t = print_value v (b' ' ∷ print_values vs rest) in skip-Opens t (value-Opens v _)

pub skip_entries :
    (m : Entries) (rest : List ℕ) → skip false (print_entries m rest) ≡ print_entries m rest
unfolding skip print_entries
skip_entries end rest = refl
skip_entries (entry k v m) rest =
    let after = b' ' ∷ print_value v (b' ' ∷ print_entries m rest) in
    skip-Opens (print_atom k after) (atom-Opens k after)

pub skip_atoms :
    (s : List Atom) (rest : List ℕ) → skip false (print_atoms s rest) ≡ print_atoms s rest
unfolding skip
skip_atoms [] rest = refl
skip_atoms (k ∷ s) rest =
    let after = b' ' ∷ print_atoms s rest in skip-Opens (print_atom k after) (atom-Opens k after)

join_values : Values → Values → Values
join_values nil ys = ys
join_values (cons x xs) ys = cons x (join_values xs ys)

join_values-append_value :
    (xs ys : Values) (y : Edn) → join_values (append_value xs y) ys ≡ join_values xs (cons y ys)
unfolding join_values
join_values-append_value nil ys y = refl
join_values-append_value (cons x xs) ys y = ap (cons x) (join_values-append_value xs ys y)

append_values-join_values : (xs ys : Values) → append_values xs ys ≡ join_values xs ys
unfolding join_values
append_values-join_values xs nil = sym (join_nil xs)
  where
    join_nil : (xs : Values) → join_values xs nil ≡ xs
    join_nil nil = refl
    join_nil (cons x xs) = ap (cons x) (join_nil xs)
append_values-join_values xs (cons y ys) =
    append_values-join_values (append_value xs y) ys ∙ join_values-append_value xs ys y

pub append_values_all : (vs : Values) → append_values nil vs ≡ vs
unfolding join_values
append_values_all vs = append_values-join_values nil vs

-- ===== src/Edn/RoundTrip.antt =====
-- Every printed value is read back, whatever text follows it.
use protocol_robustness_fram.Prelude.{
  ℕ, zero, suc, ◌+◌, ◌*◌, ◌≤◌, ◌<◌, ◌≡◌, refl, sym, ap, subst, ◌∙◌, true, false, List, [], ◌∷◌,
  ◌++◌, some, arith, inl, inr, length,
}
use protocol_robustness_fram.Prelude.Result.{Result, ok, ◌>>=◌}
use protocol_robustness_fram.Edn.{
  Atom, number, word, Edn, atom, vector, table, elements, Values, nil, cons, Entries, end, entry,
  EdnError, skip, read_text, read_token, other, start_of, closing, append_value, put_entry,
  add_element, key_of, read_value, read_vector, read_map, read_set, enough, parse_edn,
}
use protocol_robustness_fram.Edn.Consumed.{length-skip, Fits}
use protocol_robustness_fram.Edn.Fuel.{read_value-Fits}
use protocol_robustness_fram.Edn.Decimal.{
  number_token, stops, number_token-first, read_token-number,
}
use protocol_robustness_fram.Edn.Printer.{
  print_atom, print_atoms, print_value, print_values, print_entries, read_string-string_body,
}
use protocol_robustness_fram.Edn.Opening.{
  Normal, NormalEntries, NormalValues, Opens, add_all, append_values, append_values_all, atom-Opens,
  closing-Opens, put_all, read_value_space, skip-Opens, skip_atoms, skip_entries, skip_space,
  skip_values, start_of_first, value-Opens,
}

record Reads (f : ℕ) : Type 0 where
  value :
      (v : Edn) (rest : List ℕ)
      → 2 * length (print_value v rest) + 1 ≤ f
      → Normal v
      → stops rest ≡ true
      → read_value f (print_value v rest) ≡ ok (v, rest)
  items :
      (read vs : Values) (t rest : List ℕ)
      → skip false t ≡ print_values vs rest
      → 2 * length t + 2 ≤ f
      → NormalValues vs
      → read_vector f read t ≡ ok (vector (append_values read vs), rest)
  entries :
      (read m : Entries) (t rest : List ℕ)
      → skip false t ≡ print_entries m rest
      → 2 * length t + 2 ≤ f
      → NormalEntries m
      → read_map f read t ≡ ok (table (put_all read m), rest)
  atoms :
      (read s : List Atom) (t rest : List ℕ)
      → skip false t ≡ print_atoms s rest
      → 2 * length t + 2 ≤ f
      → read_set f read t ≡ ok (elements (add_all read s), rest)

module _ (f : ℕ) (ih : Reads f) where
  token_value_read :
      (t s : List ℕ) → start_of (skip false t) ≡ other s → read_value (suc f) t ≡ read_token s
  unfolding read_value
  token_value_read t s e = ground (arith, e)

  atom_read :
      (k : Atom) (rest : List ℕ)
      → stops rest ≡ true
      → read_value (suc f) (print_atom k rest) ≡ ok (atom k, rest)
  unfolding read_value read_text skip start_of
  atom_read (number n) rest h =
      let t = number_token n ++ rest in
      let (c, s, e, first) = number_token-first n in
      let starts = ap (λ (u : List ℕ). u ++ rest) e in
      token_value_read t t (
        ap start_of (skip-Opens t (atom-Opens (number n) rest))
        ∙ ap start_of starts
        ∙ start_of_first c (s ++ rest) first
        ∙ ap other (sym starts))
      ∙ read_token-number n rest h
  atom_read (word w) rest h = ground (arith, read_string-string_body w rest)

  vector_end :
      (read : Values) (t rest : List ℕ)
      → closing b']' (skip false t) ≡ some rest
      → read_vector (suc f) read t ≡ ok (vector read, rest)
  unfolding read_vector
  vector_end read t rest e = ground (arith, e)

  vector_more :
      (read : Values) (t u after : List ℕ) (v : Edn)
      → skip false t ≡ u
      → Opens u
      → read_value f u ≡ ok (v, after)
      → read_vector (suc f) read t ≡ read_vector f (append_value read v) after
  unfolding read_vector
  vector_more read t u after v e o r =
      ground
        (arith, ap (closing b']') e ∙ closing-Opens b']' u (inl refl) o, ap (read_value f) e ∙ r)

  -- A value that was read left less than it was read from.
  left_shorter :
      (u after : List ℕ) (v : Edn)
      → 2 * length u + 1 ≤ f
      → read_value f u ≡ ok (v, after)
      → length after < length u
  left_shorter u after v h r = subst (Fits (length u)) r (read_value-Fits f u h)

  items_read :
      (read vs : Values) (t rest : List ℕ)
      → skip false t ≡ print_values vs rest
      → 2 * length t + 2 ≤ suc f
      → NormalValues vs
      → read_vector (suc f) read t ≡ ok (vector (append_values read vs), rest)
  unfolding print_values closing NormalValues
  items_read read nil t rest e h n = vector_end read t rest (ap (closing b']') e)
  items_read read (cons v vs) t rest e h (nv, ns) =
      let after = b' ' ∷ print_values vs rest in
      let u = print_value v after in
      let shorter : 2 * length u + 1 ≤ f = omega (arith, length-skip false t, ap length e) in
      let r = ih.value v after shorter nv refl in
      vector_more read t u after v e (value-Opens v after) r
      ∙ ih.items (append_value read v) vs after rest
          (skip_space (print_values vs rest) ∙ skip_values vs rest)
          (omega (arith, left_shorter u after v shorter r)) ns

  map_end :
      (read : Entries) (t rest : List ℕ)
      → closing b'}' (skip false t) ≡ some rest
      → read_map (suc f) read t ≡ ok (table read, rest)
  unfolding read_map
  map_end read t rest e = ground (arith, e)

  map_more :
      (read : Entries) (t u after left : List ℕ) (k : Atom) (v : Edn)
      → skip false t ≡ u
      → Opens u
      → read_value f u ≡ ok (atom k, after)
      → read_value f after ≡ ok (v, left)
      → read_map (suc f) read t ≡ read_map f (put_entry k v read) left
  unfolding read_map key_of
  map_more read t u after left k v e o rk rv =
      ground (
        arith,
        ap (closing b'}') e ∙ closing-Opens b'}' u (inr refl) o,
        ap (read_value f) e ∙ rk,
        rv,
      )

  entries_read :
      (read m : Entries) (t rest : List ℕ)
      → skip false t ≡ print_entries m rest
      → 2 * length t + 2 ≤ suc f
      → NormalEntries m
      → read_map (suc f) read t ≡ ok (table (put_all read m), rest)
  unfolding print_value closing Normal
  entries_read read end t rest e h n = map_end read t rest (ap (closing b'}') e)
  entries_read read (entry k v m) t rest e h (nv, nm) =
      let left = b' ' ∷ print_entries m rest in
      let w = print_value v left in
      let after = b' ' ∷ w in
      let u = print_atom k after in
      let shorter : 2 * length u + 1 ≤ f = omega (arith, length-skip false t, ap length e) in
      let rk : read_value f u ≡ ok (atom k, after) = ih.value (atom k) after shorter tt refl in
      let shorter_w : 2 * length w + 1 ≤ f =
        omega (arith, left_shorter u after (atom k) shorter rk, shorter) in
      let direct = ih.value v left shorter_w nv refl in
      let rv = read_value_space f w ∙ direct in
      map_more read t u after left k v e (atom-Opens k after) rk rv
      ∙ ih.entries (put_entry k v read) m left rest
          (skip_space (print_entries m rest) ∙ skip_entries m rest)
          (omega (
            arith,
            left_shorter u after (atom k) shorter rk,
            left_shorter w left v shorter_w direct,
          ))
          nm

  set_end :
      (read : List Atom) (t rest : List ℕ)
      → closing b'}' (skip false t) ≡ some rest
      → read_set (suc f) read t ≡ ok (elements read, rest)
  unfolding read_set
  set_end read t rest e = ground (arith, e)

  set_more :
      (read : List Atom) (t u after : List ℕ) (k : Atom)
      → skip false t ≡ u
      → Opens u
      → read_value f u ≡ ok (atom k, after)
      → read_set (suc f) read t ≡ read_set f (add_element k read) after
  unfolding read_set key_of
  set_more read t u after k e o r =
      ground
        (arith, ap (closing b'}') e ∙ closing-Opens b'}' u (inr refl) o, ap (read_value f) e ∙ r)

  atoms_read :
      (read s : List Atom) (t rest : List ℕ)
      → skip false t ≡ print_atoms s rest
      → 2 * length t + 2 ≤ suc f
      → read_set (suc f) read t ≡ ok (elements (add_all read s), rest)
  unfolding print_value closing Normal
  atoms_read read [] t rest e h = set_end read t rest (ap (closing b'}') e)
  atoms_read read (k ∷ s) t rest e h =
      let after = b' ' ∷ print_atoms s rest in
      let u = print_atom k after in
      let shorter : 2 * length u + 1 ≤ f = omega (arith, length-skip false t, ap length e) in
      let r : read_value f u ≡ ok (atom k, after) = ih.value (atom k) after shorter tt refl in
      set_more read t u after k e (atom-Opens k after) r
      ∙ ih.atoms (add_element k read) s after rest
          (skip_space (print_atoms s rest) ∙ skip_atoms s rest)
          (omega (arith, left_shorter u after (atom k) shorter r))

  value_read :
      (v : Edn) (rest : List ℕ)
      → 2 * length (print_value v rest) + 1 ≤ suc f
      → Normal v
      → stops rest ≡ true
      → read_value (suc f) (print_value v rest) ≡ ok (v, rest)
  unfolding print_value Normal read_value skip start_of
  value_read (atom k) rest h n e = atom_read k rest e
  value_read (vector vs) rest h n e =
      ih.items nil vs (print_values vs rest) rest (skip_values vs rest) (omega arith) n
      ∙ ap (λ (read : Values). ok (vector read, rest)) (append_values_all vs)
  value_read (table m) rest h (distinct, n) e =
      ih.entries end m (print_entries m rest) rest (skip_entries m rest) (omega arith) n
      ∙ ap (λ (read : Entries). ok (table read, rest)) distinct
  value_read (elements s) rest h distinct e =
      ih.atoms [] s (print_atoms s rest) rest (skip_atoms s rest) (omega arith)
      ∙ ap (λ (read : List Atom). ok (elements read, rest)) distinct

all_read : (f : ℕ) → Reads f
all_read zero = record {
  value = λ v rest h. absurd (omega arith);
  items = λ read vs t rest e h. absurd (omega arith);
  entries = λ read m t rest e h. absurd (omega arith);
  atoms = λ read s t rest e h. absurd (omega arith);
}
all_read (suc f) = record {
  value = value_read f (all_read f);
  items = items_read f (all_read f);
  entries = entries_read f (all_read f);
  atoms = atoms_read f (all_read f);
}

-- A printed value in which no dict repeats a key and no set an element is read back from any text
-- that goes on where no token can, with fuel for the length of the text.
pub read_value-print_value :
    (f : ℕ) (v : Edn) (rest : List ℕ)
    → 2 * length (print_value v rest) + 1 ≤ f
    → Normal v
    → stops rest ≡ true
    → read_value f (print_value v rest) ≡ ok (v, rest)
read_value-print_value f = (all_read f).value

-- Parsing the text of a value in which no dict repeats a key and no set an element returns the
-- value.
pub parse_edn-print_value : (v : Edn) → Normal v → parse_edn (print_value v []) ≡ ok v
unfolding parse_edn
parse_edn-print_value v n =
    ap (λ (r : Result EdnError (Edn × List ℕ)). r >>= (λ x. ok x.0))
      (read_value-print_value (enough (print_value v [])) v [] (omega arith) n refl)

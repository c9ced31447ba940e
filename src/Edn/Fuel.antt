-- ===== src/Edn/Fuel.antt =====
-- The reader ends: the fuel of `parse_edn` is enough for every text.
use protocol_robustness_fram.Prelude.{
  ℕ, zero, suc, ◌+◌, ◌*◌, ◌≤◌, ◌≡◌, ◌≢◌, subst, false, List, [], Option, none, some, length, arith,
}
use protocol_robustness_fram.Prelude.Result.{Result, ok, err, ◌>>=◌, err_inj}
use protocol_robustness_fram.Edn.{
  Atom, Edn, vector, table, elements, Values, nil, Entries, end, EdnError, unexpected_end,
  unsupported_set, out_of_fuel, skip, read_keyword, read_token, read_text, Start, at_end, bad_set,
  open_map, open_vector, open_set, quote, colon, other, start_of, closing, put_entry, add_element,
  append_value, read_value, read_vector, read_map, read_set, enough, parse_edn,
}
use protocol_robustness_fram.Edn.Consumed.{
  ClosingFits, Fits, Fits-bind, Fits-weaken, HasFuel, StartFits, closing-ClosingFits, key_of-bind,
  length-skip, read_keyword-Fits, read_text-Fits, read_token-Fits, start_of-StartFits,
}

-- The fuel that each reader needs for a text.
record Enough (f : ℕ) : Type 0 where
  value : (t : List ℕ) → 2 * length t + 1 ≤ f → Fits (length t) (read_value f t)
  items :
      (vs : Values) (t : List ℕ) → 2 * length t + 2 ≤ f → Fits (suc (length t)) (read_vector f vs t)
  entries :
      (m : Entries) (t : List ℕ) → 2 * length t + 2 ≤ f → Fits (suc (length t)) (read_map f m t)
  atoms :
      (s : List Atom) (t : List ℕ) → 2 * length t + 2 ≤ f → Fits (suc (length t)) (read_set f s t)

module _ (f : ℕ) (ih : Enough f) where
  from_start :
      (n : ℕ) (start : Start)
      → 2 * n ≤ f
      → StartFits n start
      → Fits n (elim start [
        | at_end ↦ err unexpected_end
        | bad_set ↦ err unsupported_set
        | open_map s ↦ read_map f end s
        | open_vector s ↦ read_vector f nil s
        | open_set s ↦ read_set f [] s
        | quote s ↦ read_text s
        | colon s ↦ read_keyword s
        | other s ↦ read_token s
      ])
  from_start n at_end h a = tt
  from_start n bad_set h a = tt
  from_start n (open_map s) h a =
      Fits-weaken (read_map f end s) (omega arith) (ih.entries end s (omega arith))
  from_start n (open_vector s) h a =
      Fits-weaken (read_vector f nil s) (omega arith) (ih.items nil s (omega arith))
  from_start n (open_set s) h a =
      Fits-weaken (read_set f [] s) (omega arith) (ih.atoms [] s (omega arith))
  from_start n (quote s) h a = Fits-weaken (read_text s) (omega arith) (read_text-Fits s)
  from_start n (colon s) h a = Fits-weaken (read_keyword s) (omega arith) (read_keyword-Fits s)
  from_start n (other s) h a = Fits-weaken (read_token s) a (read_token-Fits s)

  from_closing :
      (n : ℕ) (v : Edn) (close : Option (List ℕ)) (next : Result EdnError (Edn × List ℕ))
      → ClosingFits n close
      → Fits (suc n) next
      → Fits (suc n) (elim close [ some rest ↦ ok (v, rest) | none ↦ next ])
  from_closing n v (some rest) next a b = a
  from_closing n v none next a b = b

  Enough-suc : Enough (suc f)
  unfolding read_value read_vector read_map read_set
  Enough-suc = record {
    value = λ t h. Fits-weaken _ (length-skip false t) (
        from_start (length (skip false t)) (start_of (skip false t))
          (omega (arith, length-skip false t)) (start_of-StartFits (skip false t)));
    items = λ vs t h.
        let n = length (skip false t) in
        Fits-weaken _ (omega (arith, length-skip false t)) (
          from_closing n (vector vs) (closing b']' (skip false t)) _
            (closing-ClosingFits b']' (skip false t))
            (Fits-bind n (suc n) (read_value f (skip false t)) _
              (ih.value (skip false t) (omega (arith, length-skip false t)))
              (λ r shorter.
                Fits-weaken _ (omega arith)
                  (ih.items (append_value vs r.0) r.1 (omega (arith, length-skip false t))))));
    entries = λ m t h.
        let n = length (skip false t) in
        Fits-weaken _ (omega (arith, length-skip false t)) (
          from_closing n (table m) (closing b'}' (skip false t)) _
            (closing-ClosingFits b'}' (skip false t))
            (Fits-bind n (suc n) (read_value f (skip false t)) _
              (ih.value (skip false t) (omega (arith, length-skip false t)))
              (λ k shorter.
                Fits-bind (length k.1) (suc n) (read_value f k.1) _
                  (ih.value k.1 (omega (arith, length-skip false t)))
                  (λ v still. key_of-bind (suc n) k.0 _ (λ a.
                    Fits-weaken _ (omega arith) (
                      ih.entries (put_entry a v.0 m) v.1 (omega (arith, length-skip false t))))))));
    atoms = λ s t h.
        let n = length (skip false t) in
        Fits-weaken _ (omega (arith, length-skip false t)) (
          from_closing n (elements s) (closing b'}' (skip false t)) _
            (closing-ClosingFits b'}' (skip false t))
            (Fits-bind n (suc n) (read_value f (skip false t)) _
              (ih.value (skip false t) (omega (arith, length-skip false t)))
              (λ r shorter. key_of-bind (suc n) r.0 _ (λ a.
                Fits-weaken _ (omega arith)
                  (ih.atoms (add_element a s) r.1 (omega (arith, length-skip false t)))))));
  }

fuel-Enough : (f : ℕ) → Enough f
fuel-Enough zero = record {
  value = λ t h. absurd (omega arith);
  items = λ vs t h. absurd (omega arith);
  entries = λ m t h. absurd (omega arith);
  atoms = λ s t h. absurd (omega arith);
}
fuel-Enough (suc f) = Enough-suc f (fuel-Enough f)

-- With twice the length of the text and one as fuel, reading a value never runs out of it, and
-- what is left after a value is shorter than the text.
pub read_value-Fits : (f : ℕ) (t : List ℕ) → 2 * length t + 1 ≤ f → Fits (length t) (read_value f t)
read_value-Fits f = (fuel-Enough f).value

-- Parsing a text ends with a value or with an error of the reader, never for want of fuel.
pub parse_edn-total : (t : List ℕ) → parse_edn t ≢ err out_of_fuel
unfolding parse_edn
parse_edn-total t e =
    by_result (read_value (enough t) t) (read_value-Fits (enough t) t (omega arith)) e
  where
    by_result :
        (r : Result EdnError (Edn × List ℕ))
        → Fits (length t) r
        → (r >>= (λ x. ok x.0)) ≡ err out_of_fuel
        → ⊥
    by_result (ok r) a h = cc
    by_result (err e) a h = subst HasFuel (err_inj h) a

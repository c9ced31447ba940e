-- ===== src/Edn/Examples.antt =====
-- A descriptor with a map, a vector, a set and a comment.
use Prim.Native.Char.{code}
use Prim.Native.String.{[], ◌∷◌ as ◌∷ₛ◌}
use protocol_robustness_fram.Prelude.{ℕ, ◌≡◌, arith, refl, String, List, [], ◌∷◌, length}
use protocol_robustness_fram.Prelude.Int.{◌-ℤ◌, pos, negsuc}
use protocol_robustness_fram.Prelude.Result.{ok}
use protocol_robustness_fram.Edn.{
  number, word, Edn, atom, vector, table, elements, nil, cons, end, entry, parse_edn, read_value,
  skip, start_of, closing, put_entry, add_element, key_of, read_keyword, read_token, read_text,
  enough,
}
use protocol_robustness_fram.Edn.Consumed.{Fits}
use protocol_robustness_fram.Edn.Fuel.{read_value-Fits}
use protocol_robustness_fram.Edn.Printer.{print_value}
use protocol_robustness_fram.Edn.Opening.{Normal}
use protocol_robustness_fram.Edn.RoundTrip.{parse_edn-print_value}

abbrev codes : String → List ℕ
codes [] = []
codes (c ∷ₛ s) = code c ∷ codes s

abbrev descriptor : Edn
descriptor = table (
    entry (word (codes ":id")) (atom (number (pos 7))) (
      entry (word (codes "tags")) (elements (word (codes "a") ∷ number (negsuc 11) ∷ []))
        (entry (number (pos 2)) (vector (cons (atom (word (codes "x y"))) nil)) end)))

read_descriptor :
    parse_edn (codes "{:id 7 ; a comment\n \"tags\" #{a -12} 2 [\"x y\"]}") ≡ ok descriptor
unfolding parse_edn start_of skip closing read_keyword read_token key_of read_text put_entry
    add_element ◌-ℤ◌
read_descriptor = refl

-- The closing brackets are missing.
unclosed : parse_edn (codes "{:id 7 \"tags\" #{a -12} 2 [\"x y\"") ≡ ok descriptor
unfolding parse_edn start_of skip closing read_keyword read_token key_of read_text put_entry
    add_element ◌-ℤ◌
unclosed = refl

normal : Normal descriptor
unfolding Normal put_entry add_element
normal = (refl, (tt, (refl, ((tt, tt), tt))))

parse_edn-print_value_example : parse_edn (print_value descriptor []) ≡ ok descriptor
parse_edn-print_value_example = parse_edn-print_value descriptor normal

read_value-Fits_example :
    Fits (length (codes "[1] 2")) (read_value (enough (codes "[1] 2")) (codes "[1] 2"))
read_value-Fits_example = read_value-Fits (enough (codes "[1] 2")) (codes "[1] 2") (omega arith)

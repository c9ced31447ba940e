-- ===== src/Edn/Consumed.antt =====
-- What each part of the reader leaves of the text.
use protocol_robustness_fram.Prelude.{
  ℕ, suc, ◌+◌, ◌≤◌, ◌<◌, ◌≡◌, refl, Bool, true, false, List, [], ◌∷◌, Option, none, some, length,
  arith, inl, inr, Bool-cases, is_empty, ◌==◌, if◌then◌else◌,
}
use protocol_robustness_fram.Prelude.Result.{Result, ok, err, ◌>>=◌}
use protocol_robustness_fram.Mailbox.{is_space}
use protocol_robustness_fram.Edn.{
  Atom, Edn, atom, vector, table, elements, EdnError, out_of_fuel, skip, is_token_char, take_token,
  read_string, read_keyword, read_token, read_text, Start, at_end, bad_set, open_map, open_vector,
  open_set, quote, colon, other, after_hash, start_of, closing, key_of,
}

abbrev pub HasFuel : EdnError → Type 0
HasFuel out_of_fuel = ⊥
HasFuel _ = Unit

-- The fuel was enough, and less than n characters are left after a value.
abbrev pub Fits : {A : Type 0} → ℕ → Result EdnError (A × List ℕ) → Type 0
Fits n (ok r) = length r.1 < n
Fits n (err e) = HasFuel e

pub Fits-weaken :
    {A : Type 0} {m n : ℕ} (r : Result EdnError (A × List ℕ)) → m ≤ n → Fits m r → Fits n r
Fits-weaken (ok r) h a = omega arith
Fits-weaken (err e) h a = a

pub Fits-bind :
    {A B : Type 0} (m n : ℕ) (r : Result EdnError (A × List ℕ))
    (next : A × List ℕ → Result EdnError (B × List ℕ))
    → Fits m r
    → ((x : A × List ℕ) → length x.1 < m → Fits n (next x))
    → Fits n (r >>= next)
Fits-bind m n (ok r) next a h = h r a
Fits-bind m n (err e) next a h = a

Fits-cases :
    {A : Type 0} (n : ℕ) (b : Bool) (x y : Result EdnError (A × List ℕ))
    → Fits n x
    → Fits n y
    → Fits n (elim b [ true ↦ x | false ↦ y ])
Fits-cases n true x y a b = a
Fits-cases n false x y a b = b

pub key_of-bind :
    (n : ℕ) (v : Edn) (next : Atom → Result EdnError (Edn × List ℕ))
    → ((k : Atom) → Fits n (next k))
    → Fits n (key_of v >>= next)
unfolding key_of
key_of-bind n (atom k) next h = h k
key_of-bind n (vector vs) next h = tt
key_of-bind n (table m) next h = tt
key_of-bind n (elements s) next h = tt

pub length-skip : (in_comment : Bool) (t : List ℕ) → length (skip in_comment t) ≤ length t
unfolding skip
length-skip in_comment [] = omega arith
length-skip true (c ∷ s) = ground (arith, length-skip false s, length-skip true s)
length-skip false (c ∷ s) = elim (Bool-cases (is_space c)) [
  | inl space ↦ ground (arith, space, length-skip false s)
  | inr kept ↦ ground (arith, kept, length-skip true s)
]

length-take_token : (t : List ℕ) → length (take_token t).0 + length (take_token t).1 ≡ length t
unfolding take_token
length-take_token [] = refl
length-take_token (c ∷ s) = elim (Bool-cases (is_token_char c)) [
  | inl taken ↦ ground (arith, taken, length-take_token s)
  | inr stopped ↦ ground (arith, stopped, length-take_token s)
]

read_string-Fits : (escaped : Bool) (t : List ℕ) → Fits (length t) (read_string escaped t)
unfolding read_string
read_string-Fits escaped [] = tt
read_string-Fits true (c ∷ s) =
    Fits-bind (length s) _ (read_string false s) _ (read_string-Fits false s) (λ x h. omega arith)
read_string-Fits false (c ∷ s) = Fits-cases (length (c ∷ s)) (c == b'"') _ _ (omega arith) (
    Fits-cases (length (c ∷ s)) (c == 92) _ _
      (Fits-weaken (read_string true s) (omega arith) (read_string-Fits true s))
      (Fits-bind (length s) _ (read_string false s) _ (read_string-Fits false s)
        (λ x h. omega arith)))

token-Fits :
    (t token rest : List ℕ) (v : Edn) (e : EdnError)
    → length token + length rest ≡ length t
    → HasFuel e
    → Fits (length t) (if is_empty token then err e else ok (v, rest))
token-Fits t [] rest v e h fuel = fuel
token-Fits t (c ∷ token) rest v e h fuel = omega arith

pub read_token-Fits : (t : List ℕ) → Fits (length t) (read_token t)
unfolding read_token
read_token-Fits t = token-Fits t (take_token t).0 (take_token t).1 _ _ (length-take_token t) tt

pub read_keyword-Fits : (t : List ℕ) → Fits (length t) (read_keyword t)
unfolding read_keyword
read_keyword-Fits t = token-Fits t (take_token t).0 (take_token t).1 _ _ (length-take_token t) tt

pub read_text-Fits : (t : List ℕ) → Fits (length t) (read_text t)
unfolding read_text
read_text-Fits t =
    Fits-bind (length t) (length t) (read_string false t) _ (read_string-Fits false t) (λ x h. h)

-- The rest of the text after the first characters of a value.
abbrev pub StartFits : ℕ → Start → Type 0
StartFits n at_end = Unit
StartFits n bad_set = Unit
StartFits n (open_map s) = length s < n
StartFits n (open_vector s) = length s < n
StartFits n (open_set s) = length s < n
StartFits n (quote s) = length s < n
StartFits n (colon s) = length s < n
StartFits n (other s) = length s ≤ n

after_hash-StartFits : (s : List ℕ) → StartFits (suc (length s)) (after_hash s)
after_hash-StartFits [] = tt
after_hash-StartFits (c ∷ s) = elim (Bool-cases (c == b'{')) [
  | inl opens ↦ ground (arith, opens)
  | inr bad ↦ ground (arith, bad)
]

StartFits-if :
    (n : ℕ) (b : Bool) (x y : Start)
    → StartFits n x
    → StartFits n y
    → StartFits n (if b then x else y)
StartFits-if n true x y a b = a
StartFits-if n false x y a b = b

pub start_of-StartFits : (t : List ℕ) → StartFits (length t) (start_of t)
unfolding start_of
start_of-StartFits [] = tt
start_of-StartFits (c ∷ s) =
    let n = length (c ∷ s) in
    StartFits-if n (c == b'{') _ _ (omega arith) (
      StartFits-if n (c == b'[') _ _ (omega arith) (
        StartFits-if n (c == b'#') _ _ (after_hash-StartFits s) (
          StartFits-if n (c == b'"') _ _ (omega arith)
            (StartFits-if n (c == b':') _ _ (omega arith) (omega arith)))))

-- Where a loop ends.
abbrev pub ClosingFits : ℕ → Option (List ℕ) → Type 0
ClosingFits n none = Unit
ClosingFits n (some rest) = length rest < suc n

pub closing-ClosingFits : (close : ℕ) (t : List ℕ) → ClosingFits (length t) (closing close t)
unfolding closing
closing-ClosingFits close [] = omega arith
closing-ClosingFits close (c ∷ s) = elim (Bool-cases (c == close)) [
  | inl closes ↦ ground (arith, closes)
  | inr more ↦ ground (arith, more)
]

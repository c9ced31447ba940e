-- ===== src/Inclusion/Bytes/HexPrefix.antt =====
-- The hex-prefix encoding of trie paths, written down independently of the reader, and the proof
-- that `_compact_path` decodes exactly the texts that it makes.
use protocol_robustness_fram.Prelude.{
  ℕ, zero, suc, ◌+◌, ◌*◌, ◌/◌, ◌%◌, ◌<◌, ◌≡◌, refl, sym, ap, ◌∙◌, Bool, List, [], ◌∷◌, arith, ◌==◌,
  length, All, if◌then◌else◌,
}
use protocol_robustness_fram.Prelude.Result.{ok}
use protocol_robustness_fram.Inclusion.Bytes.{Bytes, nibbles, compact_nibbles, compact_path}

-- Two nibbles make a byte.
unfoldable pub pack : List ℕ → Bytes
pack [] = []
pack (a ∷ []) = a * 16 ∷ []
pack (a ∷ b ∷ ns) = (a * 16 + b) ∷ pack ns

abbrev is_odd : List ℕ → Bool
is_odd ns = length ns % 2 == 1

-- The flag 2 for a leaf, 1 more for a path of odd length, and a zero nibble where that is even.
unfoldable pub prefixed : List ℕ → Bool → List ℕ
prefixed ns leaf =
    let flag : ℕ = if leaf then 2 else 0 in if is_odd ns then (flag + 1) ∷ ns else flag ∷ 0 ∷ ns

unfoldable pub hex_prefix : List ℕ → Bool → Bytes
unfolding pack prefixed
hex_prefix ns leaf = pack (prefixed ns leaf)

nibbles-pack : (ns : List ℕ) → length ns % 2 ≡ 0 → All (λ n. n < 16) ns → nibbles (pack ns) ≡ ns
unfolding nibbles pack
nibbles-pack [] e h = refl
nibbles-pack (a ∷ []) e h = absurd (omega arith)
nibbles-pack (a ∷ b ∷ ns) e h =
    let high : (a * 16 + b) / 16 ≡ a = omega arith in
    let low : (a * 16 + b) % 16 ≡ b = omega arith in
    rw (high, low, nibbles-pack ns (omega arith) h.1.1)

pack-nibbles : (raw : Bytes) → pack (nibbles raw) ≡ raw
unfolding nibbles pack
pack-nibbles [] = refl
pack-nibbles (b ∷ raw) =
    let whole : b / 16 * 16 + b % 16 ≡ b = omega arith in rw (whole, pack-nibbles raw)

length-nibbles : (raw : Bytes) → length (nibbles raw) % 2 ≡ 0
unfolding nibbles
length-nibbles [] = refl
length-nibbles (b ∷ raw) = omega (arith, length-nibbles raw)

prefixed_even : (ns : List ℕ) (leaf : Bool) → length (prefixed ns leaf) % 2 ≡ 0
unfolding prefixed
prefixed_even ns leaf = ground arith

prefixed_nibbles :
    (ns : List ℕ) (leaf : Bool) → All (λ n. n < 16) ns → All (λ n. n < 16) (prefixed ns leaf)
unfolding prefixed
prefixed_nibbles ns leaf h = ground arith

compact_nibbles-prefixed :
    (ns : List ℕ) (leaf : Bool) → compact_nibbles (prefixed ns leaf) ≡ ok (ns, leaf)
unfolding prefixed compact_nibbles
compact_nibbles-prefixed ns leaf = ground arith

-- Every path of nibbles, of a leaf or an extension, is read back from its hex-prefix encoding.
pub compact_path-hex_prefix :
    (ns : List ℕ) (leaf : Bool)
    → All (λ n. n < 16) ns
    → compact_path (hex_prefix ns leaf) ≡ ok (ns, leaf)
unfolding compact_path hex_prefix
compact_path-hex_prefix ns leaf h =
    rw (nibbles-pack (prefixed ns leaf) (prefixed_even ns leaf) (prefixed_nibbles ns leaf h))
      (compact_nibbles-prefixed ns leaf)

prefixed-compact_nibbles :
    (all : List ℕ) {ns : List ℕ} {leaf : Bool}
    → length all % 2 ≡ 0
    → compact_nibbles all ≡ ok (ns, leaf)
    → all ≡ prefixed ns leaf
unfolding prefixed compact_nibbles
prefixed-compact_nibbles [] e h = cc
prefixed-compact_nibbles (n ∷ []) e h = absurd (omega arith)
prefixed-compact_nibbles (zero ∷ m ∷ ns) e h = ground arith
prefixed-compact_nibbles (suc zero ∷ m ∷ ns) e h = ground arith
prefixed-compact_nibbles (suc (suc zero) ∷ m ∷ ns) e h = ground arith
prefixed-compact_nibbles (suc (suc (suc zero)) ∷ m ∷ ns) e h = ground arith
prefixed-compact_nibbles (suc (suc (suc (suc n))) ∷ m ∷ ns) e h = absurd (ground arith)

-- Whatever `_compact_path` accepts is the hex-prefix encoding of the path and the kind that it
-- returns.
pub hex_prefix-compact_path :
    (raw : Bytes) {ns : List ℕ} {leaf : Bool}
    → compact_path raw ≡ ok (ns, leaf)
    → raw ≡ hex_prefix ns leaf
unfolding compact_path hex_prefix
hex_prefix-compact_path raw h =
    sym (pack-nibbles raw) ∙ ap pack (prefixed-compact_nibbles (nibbles raw) (length-nibbles raw) h)

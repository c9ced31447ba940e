-- ===== src/Inclusion/Receipt/Bloom.antt =====
-- The logs bloom of a receipt: every address and every topic of the logs is found in it.
use mathlib.Core.List.{foldl, Memᴰ}
use mathlib.Core.List.Memᴰ
use protocol_robustness_fram.Prelude.{
  ℕ, ◌≡◌, refl, sym, subst, ◌∙◌, true, List, [], ◌∷◌, ◌++◌, arith, replicate, inl, inr,
}
use protocol_robustness_fram.Inclusion.Bytes.{Bytes}
use protocol_robustness_fram.Inclusion.Libraries.{Libraries}
use protocol_robustness_fram.Inclusion.Receipt.{
  Log, set_bit, bloom_bit, add_value, add_log, logs_bloom,
}
use protocol_robustness_fram.Inclusion.Receipt.Bits.{
  IsBloom, has_bit, set_bit-IsBloom, has_bit-set_bit_self, has_bit-set_bit,
}

-- The three bits of a value are set.
abbrev pub InBloom : Libraries → Bytes → Bytes → Type 0
InBloom lib value bloom =
    (has_bit (bloom_bit (lib.keccak value) 0) bloom ≡ true)
    × (has_bit (bloom_bit (lib.keccak value) 2) bloom ≡ true)
    × (has_bit (bloom_bit (lib.keccak value) 4) bloom ≡ true)

-- The addresses and topics of the logs, in the order in which `_logs_bloom` visits them.
abbrev pub logged_values : List Log → List Bytes
logged_values [] = []
logged_values (log ∷ logs) = (log.address ∷ log.topics) ++ logged_values logs

module _ (lib : Libraries) where
  add_value-IsBloom : (bloom value : Bytes) → IsBloom bloom → IsBloom (add_value lib bloom value)
  unfolding add_value
  add_value-IsBloom bloom value w =
      let d = lib.keccak value in
      let w₁ = set_bit-IsBloom (bloom_bit d 0) bloom w in
      let w₂ = set_bit-IsBloom (bloom_bit d 2) (set_bit (bloom_bit d 0) bloom) w₁ in
      set_bit-IsBloom (bloom_bit d 4) (set_bit (bloom_bit d 2) (set_bit (bloom_bit d 0) bloom)) w₂

  has_bit-add_value :
      (bloom value : Bytes) (c : ℕ)
      → IsBloom bloom
      → has_bit c bloom ≡ true
      → has_bit c (add_value lib bloom value) ≡ true
  unfolding add_value
  has_bit-add_value bloom value c w h =
      let d = lib.keccak value in
      let b₁ = set_bit (bloom_bit d 0) bloom in
      let w₁ = set_bit-IsBloom (bloom_bit d 0) bloom w in
      let w₂ = set_bit-IsBloom (bloom_bit d 2) b₁ w₁ in
      has_bit-set_bit (bloom_bit d 4) (set_bit (bloom_bit d 2) b₁) w₂ c
        (has_bit-set_bit (bloom_bit d 2) b₁ w₁ c (has_bit-set_bit (bloom_bit d 0) bloom w c h))

  add_value-InBloom :
      (bloom value : Bytes) → IsBloom bloom → InBloom lib value (add_value lib bloom value)
  unfolding add_value
  add_value-InBloom bloom value w =
      let d = lib.keccak value in
      let b₁ = set_bit (bloom_bit d 0) bloom in
      let b₂ = set_bit (bloom_bit d 2) b₁ in
      let w₁ = set_bit-IsBloom (bloom_bit d 0) bloom w in
      let w₂ = set_bit-IsBloom (bloom_bit d 2) b₁ w₁ in
      (
        has_bit-set_bit (bloom_bit d 4) b₂ w₂ (bloom_bit d 0) (
            has_bit-set_bit (bloom_bit d 2) b₁ w₁ (bloom_bit d 0)
              (has_bit-set_bit_self (bloom_bit d 0) bloom w)),
        has_bit-set_bit (bloom_bit d 4) b₂ w₂ (bloom_bit d 2)
            (has_bit-set_bit_self (bloom_bit d 2) b₁ w₁),
        has_bit-set_bit_self (bloom_bit d 4) b₂ w₂,
      )

  add_values-IsBloom :
      (bloom : Bytes) (vs : List Bytes) → IsBloom bloom → IsBloom (foldl (add_value lib) bloom vs)
  add_values-IsBloom bloom [] w = w
  add_values-IsBloom bloom (v ∷ vs) w =
      add_values-IsBloom (add_value lib bloom v) vs (add_value-IsBloom bloom v w)

  has_bit-add_values :
      (bloom : Bytes) (vs : List Bytes) (c : ℕ)
      → IsBloom bloom
      → has_bit c bloom ≡ true
      → has_bit c (foldl (add_value lib) bloom vs) ≡ true
  has_bit-add_values bloom [] c w h = h
  has_bit-add_values bloom (v ∷ vs) c w h =
      has_bit-add_values (add_value lib bloom v) vs c (add_value-IsBloom bloom v w)
        (has_bit-add_value bloom v c w h)

  add_values-InBloom :
      (bloom : Bytes) (vs : List Bytes) {value : Bytes}
      → IsBloom bloom
      → Memᴰ value vs
      → InBloom lib value (foldl (add_value lib) bloom vs)
  add_values-InBloom bloom [] w m = elim m [ ]
  add_values-InBloom bloom (v ∷ vs) {value} w m = elim (Memᴰ.cases_cons m) [
    | inl first ↦
        let w' = add_value-IsBloom bloom v w in
        let (a, b, c) = add_value-InBloom bloom v w in
        rw first (
          has_bit-add_values (add_value lib bloom v) vs (bloom_bit (lib.keccak v) 0) w' a,
          has_bit-add_values (add_value lib bloom v) vs (bloom_bit (lib.keccak v) 2) w' b,
          has_bit-add_values (add_value lib bloom v) vs (bloom_bit (lib.keccak v) 4) w' c,
        )
    | inr later ↦ add_values-InBloom (add_value lib bloom v) vs (add_value-IsBloom bloom v w) later
  ]

  add_values-append :
      (b : Bytes) (xs ys : List Bytes)
      → foldl (add_value lib) b (xs ++ ys) ≡ foldl (add_value lib) (foldl (add_value lib) b xs) ys
  add_values-append b [] ys = refl
  add_values-append b (x ∷ xs) ys = add_values-append (add_value lib b x) xs ys

  logs-values :
      (bloom : Bytes) (logs : List Log)
      → foldl (add_log lib) bloom logs ≡ foldl (add_value lib) bloom (logged_values logs)
  unfolding add_log
  logs-values bloom [] = refl
  logs-values bloom (log ∷ logs) =
      logs-values (foldl (add_value lib) bloom (log.address ∷ log.topics)) logs
      ∙ sym (add_values-append bloom (log.address ∷ log.topics) (logged_values logs))

  -- The bloom filter that the receipt's own one is compared with has no false negative: the three
  -- bits of every address and topic of the logs are set in it.
  pub logs_bloom-InBloom :
      (logs : List Log) {value : Bytes}
      → Memᴰ value (logged_values logs)
      → InBloom lib value (logs_bloom lib logs)
  unfolding logs_bloom
  logs_bloom-InBloom logs {value} m =
      subst (InBloom lib value) (sym (logs-values (replicate 256 0) logs)) (
        add_values-InBloom (replicate 256 0) (logged_values logs)
          (record { width = refl; are_bytes = omega arith }) m)

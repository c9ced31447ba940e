-- ===== src/Mailbox/Submission/Tracking.antt =====
-- The hashes that are seen under each key.
use text.Mathlib.Text.{◌==◌ as str_eq}
use text.Mathlib.TextEquality.{eq_iff}
use protocol_robustness_fram.Prelude.{
  ◌≡◌, refl, sym, ap, ◌∙◌, inl, inr, Bool-cases, String, true, false, List, [], ◌∷◌, ◌++◌, length,
  ltb, arith, if_true, if_false, if◌then◌else◌,
}
use protocol_robustness_fram.Prelude.Result.{ok, >>=-eq-ok, ok_inj}
use protocol_robustness_fram.Json.{Json, str, elem}
use protocol_robustness_fram.Json.Equality.{is_truthy}
use protocol_robustness_fram.Json.Keys.{Key, same_key, same_key_iff}
use protocol_robustness_fram.Identity.{hashable}
use protocol_robustness_fram.Mailbox.Kept.{elem-snoc}
use protocol_robustness_fram.Mailbox.Messages.{get_or}
use protocol_robustness_fram.Mailbox.Submission.{
  Submission, Hashes, note_hash, Seen, claimed_key, note_crypto, track, unique_texts,
}

abbrev pub hashes_of : Key → Hashes → List String
hashes_of k [] = []
hashes_of k ((j, hs) ∷ seen) = if same_key j k then hs else hashes_of k seen

hashes_of-note_hash :
    (k j : Key) (h : String) (seen : Hashes)
    → hashes_of j (note_hash k h seen)
      ≡ (if same_key k j then hashes_of j seen ++ h ∷ [] else hashes_of j seen)
unfolding note_hash
hashes_of-note_hash k j h [] = ground arith
hashes_of-note_hash k j h ((i, hs) ∷ seen) = elim (Bool-cases (same_key i k)) [
  | inl same ↦
      let one = (same_key_iff i k).0 same in
      ground (arith, same, ap (λ (x : Key). same_key x j) one)
  | inr other ↦ elim (Bool-cases (same_key i j)) [
    | inl found ↦ elim (Bool-cases (same_key k j)) [
      | inl both ↦ absurd (
          let one = (same_key_iff i j).0 found ∙ sym ((same_key_iff k j).0 both) in
          let same = (same_key_iff i k).1 one in cc (other, same))
      | inr apart ↦ ground (arith, other, found, apart)
    ]
    | inr missed ↦ ground (arith, other, missed, hashes_of-note_hash k j h seen)
  ]
]

-- Noting a hash keeps the hashes of every key.
elem-note_hash :
    (k j : Key) (h g : String) (seen : Hashes)
    → elem g (hashes_of j seen) ≡ true
    → elem g (hashes_of j (note_hash k h seen)) ≡ true
elem-note_hash k j h g seen e = elim (Bool-cases (same_key k j)) [
  | inl same ↦
      ground (arith, e, same, hashes_of-note_hash k j h seen, elem-snoc g h (hashes_of j seen))
  | inr other ↦ ground (arith, e, other, hashes_of-note_hash k j h seen)
]

elem-note_hash_self :
    (k : Key) (h : String) (seen : Hashes) → elem h (hashes_of k (note_hash k h seen)) ≡ true
elem-note_hash_self k h seen = ground (
  arith,
  hashes_of-note_hash k k h seen,
  (same_key_iff k k).1 refl,
  elem-snoc h h (hashes_of k seen),
  eq_iff h h,
)

note_crypto-keeps :
    (key : Json) (h g : String) (j : Key) (seen : Hashes) {noted : Hashes}
    → note_crypto key h seen ≡ ok noted
    → elem g (hashes_of j seen) ≡ true
    → elem g (hashes_of j noted) ≡ true
unfolding note_crypto
note_crypto-keeps key h g j seen e m = elim (Bool-cases (is_truthy key)) [
  | inl present ↦
      let (k, hk, e1) = >>=-eq-ok (hashable key) _ (if_true (is_truthy key) _ _ present e) in
      ap (λ (x : Hashes). elem g (hashes_of j x)) (sym (ok_inj e1)) ∙ elem-note_hash k j h g seen m
  | inr missing ↦
      ap (λ (x : Hashes). elem g (hashes_of j x))
        (sym (ok_inj (if_false (is_truthy key) _ _ missing e)))
      ∙ m
]

-- What was noted under a key stays noted.
pub track-keeps :
    (s : Submission) (seen : Seen) (g : String) (j : Key) {noted : Seen}
    → track s seen ≡ ok noted
    → elem g (hashes_of j seen.crypto_keys) ≡ true
    → elem g (hashes_of j noted.crypto_keys) ≡ true
unfolding track
track-keeps s seen g j e m = elim (Bool-cases (is_truthy (str s.hash))) [
  | inl present ↦
      let (rid, hr, e1) =
        >>=-eq-ok (hashable (get_or "runner-message/runner-id" (str "?") s.contents)) _
          (if_true (is_truthy (str s.hash)) _ _ present e) in
      let (keyed, hk, e2) =
        >>=-eq-ok (note_crypto (claimed_key s.contents) s.hash seen.crypto_keys) _ e1 in
      ap (λ (x : Seen). elem g (hashes_of j x.crypto_keys)) (sym (ok_inj e2))
      ∙ note_crypto-keeps (claimed_key s.contents) s.hash g j seen.crypto_keys hk m
  | inr missing ↦
      ap (λ (x : Seen). elem g (hashes_of j x.crypto_keys))
        (sym (ok_inj (if_false (is_truthy (str s.hash)) _ _ missing e)))
      ∙ m
]

-- A submission that claims a key is noted under it.
pub track-notes :
    (s : Submission) (seen : Seen) (k : Key) {noted : Seen}
    → track s seen ≡ ok noted
    → is_truthy (str s.hash) ≡ true
    → is_truthy (claimed_key s.contents) ≡ true
    → hashable (claimed_key s.contents) ≡ ok k
    → elem s.hash (hashes_of k noted.crypto_keys) ≡ true
unfolding track note_crypto
track-notes s seen k e present claimed hk =
    let (rid, hr, e1) =
      >>=-eq-ok (hashable (get_or "runner-message/runner-id" (str "?") s.contents)) _
        (if_true (is_truthy (str s.hash)) _ _ present e) in
    let (keyed, noted, e2) =
      >>=-eq-ok (note_crypto (claimed_key s.contents) s.hash seen.crypto_keys) _ e1 in
    let (j, hj, e3) =
      >>=-eq-ok (hashable (claimed_key s.contents)) _
        (if_true (is_truthy (claimed_key s.contents)) _ _ claimed noted) in
    ap (λ (x : Seen). elem s.hash (hashes_of k x.crypto_keys)) (sym (ok_inj e2))
    ∙ ap (λ (x : Hashes). elem s.hash (hashes_of k x)) (sym (ok_inj e3))
    ∙ ap (λ (x : Key). elem s.hash (hashes_of k (note_hash x s.hash seen.crypto_keys)))
        (ok_inj (sym hj ∙ hk))
    ∙ elem-note_hash_self k s.hash seen.crypto_keys

elem-unique_texts :
    (h : String) (hs : List String) → elem h hs ≡ true → elem h (unique_texts hs) ≡ true
unfolding unique_texts
elem-unique_texts h [] e = e
elem-unique_texts h (g ∷ hs) e = elim (Bool-cases (elem g (unique_texts hs))) [
  | inl again ↦ elim (Bool-cases (str_eq g h)) [
    | inl same ↦
        ground
          (arith, again, ap (λ (x : String). elem x (unique_texts hs)) (sym ((eq_iff g h).0 same)))
    | inr other ↦ ground (arith, again, other, e, elem-unique_texts h hs)
  ]
  | inr new ↦ ground (arith, new, e, elem-unique_texts h hs)
]

-- Of one different text, all are equal.
pub unique_texts-one :
    (g h : String) (hs : List String)
    → ltb 1 (length (unique_texts hs)) ≡ false
    → elem g hs ≡ true
    → elem h hs ≡ true
    → g ≡ h
unique_texts-one g h hs one eg eh =
    one_text (unique_texts hs) one (elem-unique_texts g hs eg) (elem-unique_texts h hs eh)
  where
    one_text :
        (us : List String) → ltb 1 (length us) ≡ false → elem g us ≡ true → elem h us ≡ true → g ≡ h
    one_text [] o a b = cc
    one_text (u ∷ []) o a b =
        sym ((eq_iff u g).0 (ground (arith, a))) ∙ (eq_iff u h).0 (ground (arith, b))
    one_text (u ∷ v ∷ us) o a b = ground (arith, o)

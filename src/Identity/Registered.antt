-- ===== src/Identity/Registered.antt =====
-- Which entry the registry finds: the last one that was listed under the id or the key.
use protocol_robustness_fram.Prelude.{
  ◌≡◌, refl, sym, ap, ◌∙◌, inl, inr, Bool-cases, String, Bool, false, List, [], ◌∷◌, Option, some,
  arith, if_true, if_false, if◌then◌else◌,
}
use protocol_robustness_fram.Prelude.Result.{Result, ok, err, >>=-eq-ok, ok_inj}
use protocol_robustness_fram.Json.{Json, null, bool, int, str, arr, obj, Fields, get}
use protocol_robustness_fram.Json.Equality.{is_truthy}
use protocol_robustness_fram.Json.Keys.{Key, same_key, same_key_iff}
use protocol_robustness_fram.Identity.{
  Failure, hashable, Index, index_entry, find_entry, IdentityRegistry, index_by, add, add_all,
}

find_entry-index_entry :
    (k j : Key) (e : Fields) (index : Index)
    → find_entry j (index_entry k e index) ≡ (if same_key k j then some e else find_entry j index)
unfolding find_entry index_entry
find_entry-index_entry k j e [] = refl
find_entry-index_entry k j e ((i, d) ∷ index) = elim (Bool-cases (same_key i k)) [
  | inl same ↦
      let one = (same_key_iff i k).0 same in
      ground (arith, same, ap (λ (x : Key). same_key x j) one)
  | inr other ↦ elim (Bool-cases (same_key i j)) [
    | inl found ↦ elim (Bool-cases (same_key k j)) [
      | inl both ↦ absurd (
          let one = (same_key_iff i j).0 found ∙ sym ((same_key_iff k j).0 both) in
          let same = (same_key_iff i k).1 one in cc (other, same))
      | inr apart ↦ ground (arith, other, found, apart, find_entry-index_entry k j e index)
    ]
    | inr missed ↦ ground (arith, other, missed, find_entry-index_entry k j e index)
  ]
]

-- The entry that counts for a key so far, and with one more entry.
abbrev pub is_under : Json → Key → Bool
is_under v k = elim (hashable v) [
  | ok j ↦ (if is_truthy v then same_key j k else false)
  | err e ↦ false
]

abbrev pub last_under : String → Key → Option Fields → List Json → Option Fields
last_under name k found [] = found
last_under name k found (e ∷ es) = elim e [
  | obj fs ↦ last_under name k (if is_under (get name fs) k then some fs else found) es
  | _ ↦ last_under name k found es
]

not_under : (v : Json) (k : Key) → is_truthy v ≡ false → is_under v k ≡ false
unfolding hashable
not_under null k h = ground (arith, h)
not_under (bool b) k h = ground (arith, h)
not_under (int n) k h = ground (arith, h)
not_under (str s) k h = ground (arith, h)
not_under (arr xs) k h = refl
not_under (obj fs) k h = refl

not_indexed :
    (v : Json) (k : Key) (e : Fields) (index : Index) {extended : Index}
    → is_truthy v ≡ false
    → ◌≡◌ {A = Result Failure Index} (ok index) (ok extended)
    → find_entry k extended ≡ (if is_under v k then some e else find_entry k index)
not_indexed v k e index missing h = ground (arith, sym (ok_inj h), not_under v k missing)

find_entry-index_by :
    (v : Json) (k : Key) (e : Fields) (index : Index) {extended : Index}
    → index_by v e index ≡ ok extended
    → find_entry k extended ≡ (if is_under v k then some e else find_entry k index)
unfolding index_by
find_entry-index_by v k e index h = elim (Bool-cases (is_truthy v)) [
  | inl present ↦
      let (j, hj, e1) = >>=-eq-ok (hashable v) _ (if_true (is_truthy v) _ _ present h) in
      ground (arith, present, hj, sym (ok_inj e1), find_entry-index_entry j k e index)
  | inr missing ↦ not_indexed v k e index missing (if_false (is_truthy v) _ _ missing h)
]

abbrev Indexes :
    IdentityRegistry
    → IdentityRegistry
    → (Key → Option Fields → Option Fields)
    → (Key → Option Fields → Option Fields)
    → Type 0
Indexes r s ids keyed =
    (k : Key)
    → (find_entry k s.by_id ≡ ids k (find_entry k r.by_id))
      × (find_entry k s.by_key ≡ keyed k (find_entry k r.by_key))

add-Indexes :
    (r s : IdentityRegistry) (e : Fields)
    → add r e ≡ ok s
    → Indexes r s
        (λ k found. if is_under (get "runner/id" e) k then some e else found)
        (λ k found. if is_under (get "runner/public-key" e) k then some e else found)
unfolding add
add-Indexes r s e h k =
    let (ids, h1, h2) = >>=-eq-ok (index_by (get "runner/id" e) e r.by_id) _ h in
    let (keyed, h3, h4) = >>=-eq-ok (index_by (get "runner/public-key" e) e r.by_key) _ h2 in
    let made = sym (ok_inj h4) in
    (
      ap (λ (x : IdentityRegistry). find_entry k x.by_id) made
          ∙ find_entry-index_by (get "runner/id" e) k e r.by_id h1,
      ap (λ (x : IdentityRegistry). find_entry k x.by_key) made
          ∙ find_entry-index_by (get "runner/public-key" e) k e r.by_key h3,
    )

-- When the registry is built, what it finds under a runner id or under a public key is the last
-- entry that was listed with it.
pub add_all-last :
    (r s : IdentityRegistry) (es : List Json)
    → add_all r es ≡ ok s
    → (k : Key)
    → (find_entry k s.by_id ≡ last_under "runner/id" k (find_entry k r.by_id) es)
      × (find_entry k s.by_key ≡ last_under "runner/public-key" k (find_entry k r.by_key) es)
unfolding add_all
add_all-last r s [] h k = (
  ap (λ (x : IdentityRegistry). find_entry k x.by_id) (sym (ok_inj h)),
  ap (λ (x : IdentityRegistry). find_entry k x.by_key) (sym (ok_inj h)),
)
add_all-last r s (obj fs ∷ es) h k =
    let (t, h1, h2) = >>=-eq-ok (add r fs) _ h in
    let (ids, keyed) = add-Indexes r t fs h1 k in
    let (ids', keyed') = add_all-last t s es h2 k in
    (
      ids' ∙ ap (λ (f : Option Fields). last_under "runner/id" k f es) ids,
      keyed' ∙ ap (λ (f : Option Fields). last_under "runner/public-key" k f es) keyed,
    )
add_all-last r s (null ∷ es) h k = cc
add_all-last r s (bool b ∷ es) h k = cc
add_all-last r s (int n ∷ es) h k = cc
add_all-last r s (str t ∷ es) h k = cc
add_all-last r s (arr xs ∷ es) h k = cc

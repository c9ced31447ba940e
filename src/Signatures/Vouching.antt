-- ===== src/Signatures/Vouching.antt =====
-- What the entries of the registry say of a message that `verify_message` judges valid and trusted.
use text.Mathlib.Text.{◌==◌ as str_eq}
use text.Mathlib.TextEquality.{eq_iff}
use protocol_robustness_fram.Prelude.{
  ◌≡◌, ◌≢◌, refl, sym, ap, subst, ◌∙◌, ◌⊎◌, inl, inr, String, true, false, not, ◌&&◌, Option, none,
  some, Bool-cases, Option-cases, arith, if_true, if_false, if-then, if◌then◌else◌,
}
use protocol_robustness_fram.Prelude.Result.{ok, >>=-eq-ok, ok_inj}
use protocol_robustness_fram.Json.{Json, str, Fields, end, field, lookup, get}
use protocol_robustness_fram.Json.Equality.{same_scalar, same_value, is_truthy}
use protocol_robustness_fram.Json.Keys.{Key, word}
use protocol_robustness_fram.Identity.{
  IdentityRegistry, hashable, find_entry, lookup_by_id, lookup_by_key, lookup_if, has_entry,
  entry_status, status, registered_key, public_key,
}
use protocol_robustness_fram.Signatures.{has_other_key, is_entry_of_other, has_other_runner}

module _ (r : IdentityRegistry) (runner : Json) (key : String) where
  -- The runner is not registered under another key.
  pub data BoundKey : Type 0 where
    no_runner : is_truthy runner ≡ false → BoundKey
    not_listed : {k : Key} → hashable runner ≡ ok k → find_entry k r.by_id ≡ none → BoundKey
    without_key :
        {k : Key} {e : Fields}
        → hashable runner ≡ ok k
        → find_entry k r.by_id ≡ some e
        → is_truthy (get "runner/public-key" e) ≡ false
        → BoundKey
    own_key :
        {k : Key} {e : Fields}
        → hashable runner ≡ ok k
        → find_entry k r.by_id ≡ some e
        → get "runner/public-key" e ≡ str key
        → BoundKey

  -- The key is not registered for another runner.
  pub data BoundRunner : Type 0 where
    no_claim : is_truthy runner ≡ false → BoundRunner
    new_key : find_entry (word key) r.by_key ≡ none → BoundRunner
    without_id :
        {e : Fields}
        → find_entry (word key) r.by_key ≡ some e
        → is_truthy (get "runner/id" e) ≡ false
        → BoundRunner
    own_id :
        {e : Fields}
        → find_entry (word key) r.by_key ≡ some e
        → same_value (get "runner/id" e) runner ≡ true
        → BoundRunner

  -- The runner names no entry with fields.
  abbrev NoEntry : Type 0
  NoEntry =
      (is_truthy runner ≡ false)
      ⊎ ((k : Key) × (hashable runner ≡ ok k)
          × ((find_entry k r.by_id ≡ none) ⊎ (find_entry k r.by_id ≡ some end)))

  -- The registry has an entry of status trusted for the runner or, where it has none for the runner,
  -- for the key.
  pub data Vouched : Type 0 where
    for_runner :
        {k : Key} {e : Fields}
        → is_truthy runner ≡ true
        → hashable runner ≡ ok k
        → find_entry k r.by_id ≡ some e
        → lookup "runner/status" e ≡ some (str "trusted")
        → Vouched
    for_key :
        {e : Fields}
        → NoEntry
        → find_entry (word key) r.by_key ≡ some e
        → lookup "runner/status" e ≡ some (str "trusted")
        → Vouched

same_value-str : (j : Json) (s : String) → same_value j (str s) ≡ true → j ≡ str s
unfolding same_value
same_value-str (str t) s e = ap str ((eq_iff t s).0 e)
same_value-str _ s e = cc

-- Both parts of a signature that verifies are texts.

unknown_trusted : str "unknown" ≡ str "trusted" → ⊥
unknown_trusted e =
    let bad : false ≡ true = subst (λ j. same_scalar j (str "unknown") ≡ true) e refl in cc (bad)

abbrev given_status : Option Json → Json
given_status none = str "unknown"
given_status (some s) = s

entry_status-trusted :
    (entry : Option Fields)
    → entry_status entry ≡ str "trusted"
    → (e : Fields) × (entry ≡ some e) × (lookup "runner/status" e ≡ some (str "trusted"))
unfolding entry_status
entry_status-trusted none h = absurd (unknown_trusted h)
entry_status-trusted (some end) h = absurd (unknown_trusted h)
entry_status-trusted (some (field n v fs)) h =
    elim (Option-cases (lookup "runner/status" (field n v fs))) [
      | inl missing ↦
          absurd (unknown_trusted (subst (λ o. given_status o ≡ str "trusted") missing h))
      | inr (s, listed) ↦ (
        field n v fs,
        refl,
        listed ∙ ap some (subst (λ o. given_status o ≡ str "trusted") listed h),
      )
    ]

module _ (r : IdentityRegistry) (key : String) (present : key ≢ "") where
  pub has_other_key-BoundKey :
      (runner : Json) → has_other_key r runner (str key) ≡ ok false → BoundKey r runner key
  unfolding has_other_key public_key lookup_by_id registered_key
  has_other_key-BoundKey runner e = elim (Bool-cases (is_truthy runner)) [
    | inr missing ↦ no_runner missing
    | inl claimed ↦
        let (named, p, e1) =
          >>=-eq-ok (public_key r runner) _ (if_true (is_truthy runner) _ _ claimed e) in
        let (entry, l, e2) = >>=-eq-ok (lookup_by_id r runner) _ p in
        let (k, h, e3) = >>=-eq-ok (hashable runner) _ l in
        of_entry h entry (ok_inj e3) (
          subst (λ v. is_truthy v && not (same_value v (str key)) ≡ false) (sym (ok_inj e2))
            (ok_inj e1))
  ]
    where
      of_entry :
          {k : Key}
          → hashable runner ≡ ok k
          → (entry : Option Fields) → find_entry k r.by_id ≡ entry
          → is_truthy (registered_key entry) && not (same_value (registered_key entry) (str key))
            ≡ false
          → BoundKey r runner key
      of_entry h none f c = not_listed h f
      of_entry h (some end) f c = without_key h f refl
      of_entry h (some (field n v fs)) f c =
          elim (Bool-cases (is_truthy (get "runner/public-key" (field n v fs)))) [
            | inl listed ↦ own_key h f (same_value-str _ key (ground (arith, c, listed)))
            | inr missing ↦ without_key h f missing
          ]

  pub has_other_runner-BoundRunner :
      (runner : Json) → has_other_runner r runner (str key) ≡ ok false → BoundRunner r runner key
  unfolding has_other_runner lookup_by_key is_entry_of_other
  has_other_runner-BoundRunner runner e = elim (Bool-cases (str_eq key "")) [
    | inl empty ↦ absurd (present ((eq_iff key "").0 empty))
    | inr given ↦
        let (entry, l, e1) =
          >>=-eq-ok (lookup_by_key r (str key)) (λ found. ok (is_entry_of_other found runner))
            (if_true (is_truthy (str key)) _ _ (ground (arith, given)) e) in
        of_entry entry (ok_inj l) (ok_inj e1)
  ]
    where
      of_entry :
          (entry : Option Fields)
          → find_entry (word key) r.by_key ≡ entry
          → is_entry_of_other entry runner ≡ false
          → BoundRunner r runner key
      of_entry none f c = new_key f
      of_entry (some end) f c = without_id f refl
      of_entry (some (field n v fs)) f c =
          elim (Bool-cases (is_truthy (get "runner/id" (field n v fs)))) [
            | inr missing ↦ without_id f missing
            | inl given ↦ elim (Bool-cases (is_truthy runner)) [
              | inr unclaimed ↦ no_claim unclaimed
              | inl claimed ↦ own_id f (ground (arith, c, given, claimed))
            ]
          ]

  pub status-Vouched :
      (runner : Json) → status r runner (str key) ≡ ok (str "trusted") → Vouched r runner key
  unfolding status lookup_if lookup_by_id lookup_by_key entry_status
  status-Vouched runner e =
      let (named, n, e1) = >>=-eq-ok (lookup_if runner (lookup_by_id r)) _ e in
      let (entry, f, e2) =
        >>=-eq-ok (if has_entry named then ok named else lookup_if (str key) (lookup_by_key r)) _
          e1 in
      elim (Bool-cases (has_entry named)) [
        | inl found ↦
            let same : named ≡ entry = ok_inj (if_true (has_entry named) _ _ found f) in
            let (claimed, n1) =
              if-then (is_truthy runner) n (λ bad. no_entry named found (ok_inj bad)) in
            let (k, h, n2) = >>=-eq-ok (hashable runner) _ n1 in
            let (x, is_x, st) = entry_status-trusted entry (ok_inj e2) in
            for_runner claimed h (ok_inj n2 ∙ same ∙ is_x) st
        | inr not_found ↦
            let g = if_false (has_entry named) _ _ not_found f in
            let (x, is_x, st) = entry_status-trusted entry (ok_inj e2) in
            let (given, g1) =
              if-then (is_truthy (str key)) g (λ bad. some_entry entry x is_x (ok_inj bad)) in
            let absent = named_nothing named not_found n in for_key absent (ok_inj g1 ∙ is_x) st
      ]
    where
      empty_entry : (o : Option Fields) → has_entry o ≡ false → (o ≡ none) ⊎ (o ≡ some end)
      empty_entry none h = inl refl
      empty_entry (some end) h = inr refl
      empty_entry (some (field m v fs)) h = cc

      named_nothing :
          (o : Option Fields)
          → has_entry o ≡ false
          → (if is_truthy runner then lookup_by_id r runner else ok none) ≡ ok o
          → NoEntry r runner key
      named_nothing o h m = elim (Bool-cases (is_truthy runner)) [
        | inr unclaimed ↦ inl unclaimed
        | inl claimed ↦
            let (k, hashed, l) =
              >>=-eq-ok (hashable runner) (λ i. ok (find_entry i r.by_id))
                (if_true (is_truthy runner) _ _ claimed m) in
            inr (
              k,
              hashed,
              elim (empty_entry o h) [
                | inl none_there ↦ inl (ok_inj l ∙ none_there)
                | inr no_fields ↦ inr (ok_inj l ∙ no_fields)
              ],
            )
      ]

      no_entry : (o : Option Fields) → has_entry o ≡ true → none ≡ o → ⊥
      no_entry none h e = cc
      no_entry (some x) h e = cc

      some_entry : (o : Option Fields) (x : Fields) → o ≡ some x → none ≡ o → ⊥
      some_entry o x e n = cc

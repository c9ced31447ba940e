-- ===== src/Mailbox/Store/RoundTrip.antt =====
-- What is written is read back, under its hash.
use text.Mathlib.Text.{◌==◌ as str_eq}
use text.Mathlib.TextEquality.{eq_iff}
use protocol_robustness_fram.Prelude.{
  ◌≡◌, refl, ap, ◌∙◌, inl, inr, Bool-cases, String, false, List, [], ◌∷◌, none, some, arith,
}
use protocol_robustness_fram.Json.{null, str, obj, Fields, lookup, get}
use protocol_robustness_fram.Json.Dict.{
  without-put, get-put_self, get-put_other, get-set_default_missing, get-set_default_other,
  lookup-set_default_other,
}
use protocol_robustness_fram.Signatures.{Libraries}
use protocol_robustness_fram.Mailbox.Store.{
  Files, write_text, read_text, canonical_json_bytes, self_hash, object_path, object_schema_version,
  object_hash_algorithm, stamp_object, object_exclude, object_hash, stored_object, write_object,
  accept_algorithm, read_object,
}

read_text-write_text :
    (path text : String) (files : Files) → read_text path (write_text path text files) ≡ some text
unfolding read_text write_text
read_text-write_text path text [] = ground (arith, eq_iff path path)
read_text-write_text path text ((p, t) ∷ files) = elim (Bool-cases (str_eq p path)) [
  | inl here ↦ ground (arith, here)
  | inr other ↦ ground (arith, other, read_text-write_text path text files)
]

-- A write leaves the other files.
pub read_text-write_text_other :
    (q path text : String) (files : Files)
    → str_eq path q ≡ false
    → read_text q (write_text path text files) ≡ read_text q files
unfolding read_text write_text
read_text-write_text_other q path text [] h = ground (arith, h)
read_text-write_text_other q path text ((p, t) ∷ files) h = elim (Bool-cases (str_eq p path)) [
  | inl here ↦ ground (arith, here, h, ap (λ (s : String). str_eq s q) ((eq_iff p path).0 here))
  | inr other ↦ ground (arith, other, read_text-write_text_other q path text files h)
]

module _ (lib : Libraries) (root : String) (exclude : List String) (fs : Fields)
    (files : Files) where
  -- The hash of an object is that of its stored form, the hash field left out.
  stored_object-hash :
      self_hash lib (object_exclude exclude) (stored_object lib exclude fs)
      ≡ (write_object lib root exclude fs files).0
  unfolding write_object stored_object object_hash self_hash canonical_json_bytes
  stored_object-hash =
      ap (λ (kept : Fields). lib.sha256_hex (lib.dumps kept))
        (without-put "object/hash" _ (object_exclude exclude) (stamp_object fs) refl)

  accept_algorithm-own :
      (back : Fields)
      → get "object/hash-algorithm" back ≡ str object_hash_algorithm
      → accept_algorithm back ≡ some back
  unfolding accept_algorithm
  accept_algorithm-own back a = ground (arith, a)

  read_object-at :
      (h text : String) (written : Files) (back : Fields)
      → read_text (object_path root h) written ≡ some text
      → lib.loads text ≡ some (obj back)
      → accept_algorithm back ≡ some back
      → read_object lib root h written ≡ some back
  unfolding read_object
  read_object-at h text written back found loaded accepted = ground (arith, found, loaded, accepted)

  stamped_algorithm :
      lookup "object/hash-algorithm" fs ≡ none
      → get "object/hash-algorithm" (stored_object lib exclude fs) ≡ str object_hash_algorithm
  unfolding stored_object stamp_object
  stamped_algorithm new =
      get-put_other "object/hash-algorithm" "object/hash" (str (object_hash lib exclude fs))
        (stamp_object fs) refl
      ∙ get-set_default_other "object/hash-algorithm" "object/hash" null _ refl
      ∙ get-set_default_missing "object/hash-algorithm" (str object_hash_algorithm) _ (
          lookup-set_default_other "object/hash-algorithm" "object/schema-version"
            (str object_schema_version) fs refl
          ∙ new)

  -- An object without an algorithm of its own is read back under the hash that its writing
  -- returned, if the library reads back its text with the same algorithm; that hash is the one of
  -- the stored object without its hash field, which holds it.
  pub write_object-read_object :
      {back : Fields}
      → lib.loads (lib.dumps (stored_object lib exclude fs)) ≡ some (obj back)
      → get "object/hash-algorithm" back
        ≡ get "object/hash-algorithm" (stored_object lib exclude fs)
      → lookup "object/hash-algorithm" fs ≡ none
      → let (h, written) = write_object lib root exclude fs files in
        (read_object lib root h written ≡ some back)
        × (self_hash lib (object_exclude exclude) (stored_object lib exclude fs) ≡ h)
        × (get "object/hash" (stored_object lib exclude fs) ≡ str h)
  unfolding write_object read_object stored_object
  write_object-read_object loaded same_algorithm new = (
    read_object-at _ _ _ _
        (read_text-write_text (object_path root (object_hash lib exclude fs)) _ files) loaded
        (accept_algorithm-own _ (same_algorithm ∙ stamped_algorithm new)),
    stored_object-hash,
    get-put_self "object/hash" _ (stamp_object fs),
  )

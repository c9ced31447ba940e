-- ===== src/Inclusion/Context.antt =====
-- scripts/forensic/ethereum_receipt_inclusion.py: the trusted context that `verify_case` reads.
pub mod Anchoring
use text.Mathlib.Text.{◌==◌ as str_eq}
use protocol_robustness_fram.Prelude.{
  ℕ, ◌*◌, Bool, true, false, not, ◌&&◌, ◌||◌, String, List, [], ◌∷◌, Option, none, some, ltb,
  length, is_some, if◌then◌else◌,
}
use protocol_robustness_fram.Prelude.Int.{ℤ, pos, negsuc, ltb_ℤ}
use protocol_robustness_fram.Prelude.Result.{ok, err, ◌>>=◌, ◌>>◌, raise_if}
use protocol_robustness_fram.Json
use protocol_robustness_fram.Json.{Json, Fields, get, has_exactly, unique_keys}
use protocol_robustness_fram.Inclusion.Bytes.{Bytes, Checked, message, hex_bytes}
use protocol_robustness_fram.Inclusion.Libraries.{Libraries}

abbrev pub trust_schema : String
trust_schema = "prf-ethereum-header-trust-context.v2"

abbrev pub trust_required : List String
trust_required =
    "schema" ∷ "network" ∷ "chainFamily" ∷ "chainId" ∷ "anchorHeaderHash" ∷ "anchorHeaderNumber"
    ∷ "sourceId" ∷ "sourceRevision" ∷ "observedAt" ∷ "validUntil" ∷ "finalityStatus" ∷ []

-- The fields of the context that the rest of `verify_case` uses.
pub record Trust : Type 0 where
  pub network : String
  pub chain_family : String
  pub chain_id : ℕ
  pub anchor_hash : Bytes
  pub anchor_number : ℤ
  pub source_id : String
  pub source_revision : String

-- `value == text` for a JSON value.
abbrev pub is_text : Json → String → Bool
is_text (Json.str s) t = str_eq s t
is_text _ t = false

-- `isinstance(value, str) and value`
unfoldable pub as_text : Json → Option String
as_text (Json.str s) = if str_eq s "" then none else some s
as_text _ = none

-- `type(value) is int`
unfoldable pub as_int : Json → Option ℤ
as_int (Json.int n) = some n
as_int _ = none

-- The identity of the chain and of the context's source.
unfoldable pub trust_identity : Fields → Checked (String × ℕ × String × String × String)
trust_identity trust = do
  family ← elim (get "chainFamily" trust) [
    | Json.str s ↦
        if str_eq s "ethereum-l1" || str_eq s "op-stack-l2"
        then ok s
        else err (message "unsupported chain family")
    | _ ↦ err (message "unsupported chain family")
  ]
  chain_id ← elim (get "chainId" trust) [
    | Json.int (pos n) ↦ if ltb n 1 then err (message "trusted chain ID is invalid") else ok n
    | _ ↦ err (message "trusted chain ID is invalid")
  ]
  elim (as_text (get "network" trust)) [
    | none ↦ err (message "trusted network or source identity is missing")
    | some network ↦ elim (as_text (get "sourceId" trust)) [
      | none ↦ err (message "trusted network or source identity is missing")
      | some source ↦ elim (as_text (get "sourceRevision" trust)) [
        | none ↦ err (message "trusted network or source identity is missing")
        | some revision ↦ ok (family, chain_id, network, source, revision)
      ]
    ]
  ]

-- The anchor's height, with the window of validity around `now`.
unfoldable pub trust_window : Fields → ℤ → Checked ℤ
trust_window trust now = elim (as_int (get "anchorHeaderNumber" trust)) [
  | none ↦ err (message "trusted header time or height is invalid")
  | some number ↦ elim (as_int (get "observedAt" trust)) [
    | none ↦ err (message "trusted header time or height is invalid")
    | some observed ↦ elim (as_int (get "validUntil" trust)) [
      | none ↦ err (message "trusted header time or height is invalid")
      | some until ↦
          if ltb_ℤ observed (pos 0)
            || ltb_ℤ until observed
            || ltb_ℤ now (pos 0)
            || ltb_ℤ now observed
            || ltb_ℤ until now
          then err (message "trusted header context is stale or not yet valid")
          else ok number
    ]
  ]
]

-- The checks on the fields of the parsed context, up to the pinned anchor hash.
unfoldable pub read_trust : Fields → ℤ → Checked Trust
read_trust trust now = do
  raise_if (not (has_exactly trust trust_required && is_text (get "schema" trust) trust_schema))
      (message "trusted context schema or fields are invalid")
  (family, chain_id, network, source, revision) ← trust_identity trust
  number ← trust_window trust now
  raise_if (not (is_text (get "finalityStatus" trust) "unverified"))
      (message "this verifier cannot establish a finality claim")
  anchor ← hex_bytes (get "anchorHeaderHash" trust) "trusted anchor header hash" (some 32)
  ok (record {
    network = network;
    chain_family = family;
    chain_id = chain_id;
    anchor_hash = anchor;
    anchor_number = number;
    source_id = source;
    source_revision = revision;
  })

module _ (lib : Libraries) where
  -- `_json_no_duplicates(raw, label)`
  unfoldable pub json_no_duplicates : Bytes → Checked Json
  json_no_duplicates raw = elim (lib.loads raw) [
    | none ↦ err (message "invalid JSON")
    | some value ↦ if unique_keys value then ok value else err (message "duplicate JSON field")
  ]

  -- From the bytes of the context, with the digest that the verifier was given.
  unfoldable pub trusted_context : Bytes → String → ℤ → Checked Trust
  trusted_context trust_context_bytes expected_sha256 now = do
    raise_if (ltb (64 * 1024) (length trust_context_bytes))
        (message "trusted context exceeds size limit")
    raise_if (not (str_eq expected_sha256 (lib.sha256_hex trust_context_bytes)))
        (message "trusted context digest does not match independent pin")
    document ← json_no_duplicates trust_context_bytes
    elim document [
      | Json.obj trust ↦ read_trust trust now
      | _ ↦ err (message "trusted context schema or fields are invalid")
    ]

-- ===== src/Signatures/Keyless.antt =====
-- A registry entry without a public key.
use protocol_robustness_fram.Prelude.{◌≡◌, String, true, false, none, some, arith}
use text.Mathlib.Text.{◌==◌ as str_eq}
use protocol_robustness_fram.Prelude.Result.{ok}
use protocol_robustness_fram.Json.{str, obj, Fields, lookup, get}
use protocol_robustness_fram.Json.Equality.{is_truthy}
use protocol_robustness_fram.Json.Keys.{word}
use protocol_robustness_fram.Identity.{
  IdentityRegistry, hashable, find_entry, lookup_by_id, lookup_by_key, lookup_if, entry_status,
  status, registered_key, public_key,
}
use protocol_robustness_fram.Signatures.{
  has_other_key, is_entry_of_other, has_other_runner, status_outcome, unless_mismatch,
  registry_outcome, valid_trusted,
}

-- If a runner is registered as trusted without a public key, a verified signature with any key
-- that is not registered makes a message in its name valid and trusted.
pub registry_outcome-keyless :
    (r : IdentityRegistry) (runner key : String) {e : Fields}
    → str_eq runner "" ≡ false
    → find_entry (word runner) r.by_id ≡ some e
    → is_truthy (obj e) ≡ true
    → is_truthy (get "runner/public-key" e) ≡ false
    → lookup "runner/status" e ≡ some (str "trusted")
    → find_entry (word key) r.by_key ≡ none
    → registry_outcome (some r) (str runner) (str key) ≡ ok valid_trusted
unfolding registry_outcome has_other_key has_other_runner is_entry_of_other status_outcome
    unless_mismatch status public_key lookup_by_id lookup_by_key lookup_if entry_status
    registered_key hashable
registry_outcome-keyless r runner key named listed present keyless trusted unknown =
    ground (arith, named, listed, present, keyless, trusted, unknown)

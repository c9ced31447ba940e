-- ===== src/Mailbox.antt =====
-- scripts/forensic/mailbox.py: `deduplicate_submissions`, which keeps one result message of each
-- runner. The hash and the timestamp of a message are texts, empty where they are missing. The result
-- is the kept messages, before the loop that copies them under the keys of the consensus format.
pub mod Store
pub mod Messages
pub mod Submission
pub mod Outputs
pub mod Validate
pub mod Runners
pub mod Kept
mod Examples
use Prim.Native.Char.{Char, code}
use Prim.Native.Nat.{Ordering}
use Prim.Native.String.{[], ◌∷◌ as ◌∷ₛ◌, compare}
use text.Mathlib.Text.{◌==◌ as str_eq}
use protocol_robustness_fram.Prelude.{
  ℕ, ◌≡◌, String, Bool, true, false, not, ◌&&◌, ◌||◌, List, [], ◌∷◌, ◌++◌, Option, none, some, any,
  length, ltb, leb, ◌==◌, if◌then◌else◌,
}
use protocol_robustness_fram.Json.{Json, str, elem}

pub record Message : Type 0 where
  pub runner_id : Json
  pub message_hash : String
  pub timestamp : String
  pub content : Json

pub data Warning : Type 0 where
  malformed_runner_id : Json → String → Warning
  runner_equivocation : String → ℕ → ℕ → Warning

-- `c.isspace()`, the white space that `strip` takes off.
abbrev pub is_space : ℕ → Bool
is_space c =
    (leb 9 c && leb c 13)
    || (leb 28 c && leb c 32)
    || c == 0x85
    || c == 0xa0
    || c == 0x1680
    || (leb 0x2000 c && leb c 0x200a)
    || c == 0x2028
    || c == 0x2029
    || c == 0x202f
    || c == 0x205f
    || c == 0x3000

-- `not rid.strip()`
unfoldable pub is_blank : String → Bool
is_blank [] = true
is_blank (c ∷ₛ s) = is_space (code c) && is_blank s

-- The runner of a message, unless its id is malformed.
unfoldable pub runner_of : Message → Option String
unfolding is_blank
runner_of m = elim m.runner_id [ str s ↦ (if is_blank s then none else some s) | _ ↦ none ]

-- `by_runner.setdefault(rid, []).append(msg)`
unfoldable pub append_message :
    String → Message → List (String × List Message) → List (String × List Message)
append_message rid m [] = (rid, m ∷ []) ∷ []
append_message rid m ((r, ms) ∷ groups) =
    let rest = append_message rid m groups in
    if str_eq r rid then (r, ms ++ m ∷ []) ∷ groups else (r, ms) ∷ rest

unfoldable pub add_grouped :
    Option String → Message → List (String × List Message) → List (String × List Message)
unfolding append_message
add_grouped none m groups = groups
add_grouped (some rid) m groups = append_message rid m groups

-- The first loop: the messages by runner, in the order in which the runners first occur.
unfoldable pub group_messages :
    List (String × List Message) → List Message → List (String × List Message)
unfolding runner_of add_grouped
group_messages groups [] = groups
group_messages groups (m ∷ ms) = group_messages (add_grouped (runner_of m) m groups) ms

unfoldable pub malformed_warnings : List Message → List Warning
unfolding runner_of
malformed_warnings [] = []
malformed_warnings (m ∷ ms) = elim (runner_of m) [
  | none ↦ malformed_runner_id m.runner_id m.message_hash ∷ malformed_warnings ms
  | some rid ↦ malformed_warnings ms
]

-- The messages of one runner with a hash not seen before.
unfoldable pub unique_messages : List String → List Message → List Message
unique_messages seen [] = []
unique_messages seen (m ∷ ms) =
    let again = unique_messages seen ms in
    let fresh = unique_messages (m.message_hash ∷ seen) ms in
    if elem m.message_hash seen then again else m ∷ fresh

abbrev pub is_before : String → String → Bool
is_before s t = elim (compare s t) [ Ordering.lt ↦ true | _ ↦ false ]

-- `unique.sort(key=timestamp, reverse=True)`, then `unique[0]`: the first with the latest timestamp.
unfoldable pub latest : Message → List Message → Message
latest m [] = m
latest m (x ∷ xs) =
    let kept = latest m xs in
    let newer = latest x xs in if is_before m.timestamp x.timestamp then newer else kept

unfoldable pub choose : List Message → List Message
unfolding latest
choose [] = []
choose (m ∷ ms) = latest m ms ∷ []

-- The second loop.
unfoldable pub choose_all : List (String × List Message) → List Message
unfolding choose unique_messages
choose_all [] = []
choose_all ((rid, ms) ∷ groups) = choose (unique_messages [] ms) ++ choose_all groups

unfoldable pub equivocation_warnings : List (String × List Message) → List Warning
unfolding unique_messages
equivocation_warnings [] = []
equivocation_warnings ((rid, ms) ∷ groups) =
    let rest = equivocation_warnings groups in
    if ltb 1 (length (unique_messages [] ms))
    then runner_equivocation rid (length ms) (length (unique_messages [] ms)) ∷ rest
    else rest

unfoldable pub deduplicate_submissions : List Message → List Message × List Warning
deduplicate_submissions messages =
    let groups = group_messages [] messages in
    (choose_all groups, malformed_warnings messages ++ equivocation_warnings groups)

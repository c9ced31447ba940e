-- ===== src/Mailbox/Examples.antt =====
-- A runner that submitted two different results, one that repeated its message, and a blank runner.
use protocol_robustness_fram.Prelude.{◌≡◌, refl, String, true, List, [], ◌∷◌, some, map}
use protocol_robustness_fram.Json.{null, str}
use protocol_robustness_fram.Mailbox.{
  Message, malformed_runner_id, runner_equivocation, is_blank, runner_of, append_message,
  add_grouped, group_messages, malformed_warnings, unique_messages, latest, choose, choose_all,
  equivocation_warnings, deduplicate_submissions,
}
use protocol_robustness_fram.Mailbox.Runners.{runners_from}
use protocol_robustness_fram.Mailbox.Kept.{distinct, deduplicate_submissions-runners}

abbrev message : String → String → String → Message
message runner hash time = record {
  runner_id = str runner;
  message_hash = hash;
  timestamp = time;
  content = null;
}

abbrev messages : List Message
messages =
    message "a" "h1" "t1"
    ∷ message "b" "h3" "t1"
    ∷ message " " "h4" "t1"
    ∷ message "a" "h2" "t2"
    ∷ message "b" "h3" "t1"
    ∷ []

deduplicated : deduplicate_submissions messages ≡ (
  message "a" "h2" "t2" ∷ message "b" "h3" "t1" ∷ [],
  malformed_runner_id (str " ") "h4" ∷ runner_equivocation "a" 2 2 ∷ [],
)
unfolding deduplicate_submissions group_messages add_grouped append_message runner_of is_blank
    malformed_warnings unique_messages latest choose choose_all equivocation_warnings
deduplicated = refl

deduplicate_submissions-runners_example :
    (map runner_of (deduplicate_submissions messages).0 ≡ map some (runners_from [] messages))
    × (distinct (runners_from [] messages) ≡ true)
deduplicate_submissions-runners_example = deduplicate_submissions-runners messages

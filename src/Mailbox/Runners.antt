-- ===== src/Mailbox/Runners.antt =====
-- Which messages are kept, and of which runners.
use text.Mathlib.Text.{◌==◌ as str_eq}
use protocol_robustness_fram.Prelude.{
  ◌≡◌, refl, sym, ap, subst, ◌∙◌, String, false, List, [], ◌∷◌, ◌++◌, Option, none, some, arith,
  inl, inr, Bool-cases, All, if◌then◌else◌,
}
use protocol_robustness_fram.Json.{elem}
use protocol_robustness_fram.Mailbox.{
  Message, runner_of, append_message, add_grouped, group_messages, unique_messages, latest, choose,
  is_before,
}

-- The runners in the order in which they first occur.
abbrev pub note_runner : Option String → List String → List String
note_runner none seen = seen
note_runner (some rid) seen = if elem rid seen then seen else seen ++ rid ∷ []

abbrev pub runners_from : List String → List Message → List String
runners_from seen [] = seen
runners_from seen (m ∷ ms) = runners_from (note_runner (runner_of m) seen) ms

abbrev pub group_runners : List (String × List Message) → List String
group_runners [] = []
group_runners ((rid, ms) ∷ groups) = rid ∷ group_runners groups

note_later :
    (rid r : String) (seen : List String)
    → str_eq r rid ≡ false
    → r ∷ note_runner (some rid) seen ≡ note_runner (some rid) (r ∷ seen)
note_later rid r seen other = elim (Bool-cases (elem rid seen)) [
  | inl old ↦ ground (arith, other, old)
  | inr new ↦ ground (arith, other, new)
]

group_runners-append_message :
    (rid : String) (m : Message) (groups : List (String × List Message))
    → group_runners (append_message rid m groups) ≡ note_runner (some rid) (group_runners groups)
unfolding append_message
group_runners-append_message rid m [] = refl
group_runners-append_message rid m ((r, ms) ∷ groups) = elim (Bool-cases (str_eq r rid)) [
  | inl here ↦ ground (arith, here)
  | inr other ↦
      let kept : append_message rid m ((r, ms) ∷ groups) ≡ (r, ms) ∷ append_message rid m groups =
        ap (λ b. if b then (r, ms ++ m ∷ []) ∷ groups else (r, ms) ∷ append_message rid m groups)
          other in
      ap group_runners kept
      ∙ ap (λ rs. r ∷ rs) (group_runners-append_message rid m groups)
      ∙ note_later rid r (group_runners groups) other
]

group_runners-add_grouped :
    (rid : Option String) (m : Message) (groups : List (String × List Message))
    → group_runners (add_grouped rid m groups) ≡ note_runner rid (group_runners groups)
unfolding add_grouped
group_runners-add_grouped none m groups = refl
group_runners-add_grouped (some rid) m groups = group_runners-append_message rid m groups

pub group_runners-group_messages :
    (groups : List (String × List Message)) (ms : List Message)
    → group_runners (group_messages groups ms) ≡ runners_from (group_runners groups) ms
unfolding group_messages
group_runners-group_messages groups [] = refl
group_runners-group_messages groups (m ∷ ms) =
    group_runners-group_messages (add_grouped (runner_of m) m groups) ms
    ∙ ap (λ seen. runners_from seen ms) (group_runners-add_grouped (runner_of m) m groups)

-- A property of messages holds of the kept one.
latest-holds :
    (P : Message → Type 0) (m : Message) (ms : List Message) → P m → All P ms → P (latest m ms)
unfolding latest
latest-holds P m [] p a = p
latest-holds P m (x ∷ xs) p (q, a) = elim (Bool-cases (is_before m.timestamp x.timestamp)) [
  | inl older ↦
      subst P (sym (ap (λ b. if b then latest x xs else latest m xs) older))
        (latest-holds P x xs q a)
  | inr newer ↦
      subst P (sym (ap (λ b. if b then latest x xs else latest m xs) newer))
        (latest-holds P m xs p a)
]

unique_messages-All :
    (P : Message → Type 0) (seen : List String) (ms : List Message)
    → All P ms
    → All P (unique_messages seen ms)
unfolding unique_messages
unique_messages-All P seen [] a = tt
unique_messages-All P seen (m ∷ ms) (p, a) = elim (Bool-cases (elem m.message_hash seen)) [
  | inl old ↦
      subst (All P)
        (sym (
          ap
            (λ b.
              if b then unique_messages seen ms else m ∷ unique_messages (m.message_hash ∷ seen) ms)
            old))
        (unique_messages-All P seen ms a)
  | inr new ↦
      subst (All P)
        (sym (
          ap
            (λ b.
              if b then unique_messages seen ms else m ∷ unique_messages (m.message_hash ∷ seen) ms)
            new))
        (p, unique_messages-All P (m.message_hash ∷ seen) ms a)
]

-- A group leaves one message, which has every property of all its messages.
pub choose-one :
    (P : Message → Type 0) (m : Message) (ms : List Message)
    → All P (m ∷ ms)
    → (kept : Message) × (choose (unique_messages [] (m ∷ ms)) ≡ kept ∷ []) × P kept
unfolding choose unique_messages
choose-one P m ms (p, a) = (
  latest m (unique_messages (m.message_hash ∷ []) ms),
  refl,
  latest-holds P m _ p (unique_messages-All P (m.message_hash ∷ []) ms a),
)

-- ===== src/Mailbox/Kept.antt =====
-- The result of `deduplicate_submissions`: one submitted message of every runner.
use text.Mathlib.Text.{◌==◌ as str_eq}
use text.Mathlib.TextEquality.{eq_iff}
use mathlib.Core.List.{Memᴰ}
use protocol_robustness_fram.Prelude.{
  ◌≡◌, refl, sym, ap, subst, ◌∙◌, String, Bool, true, false, not, ◌&&◌, ◌||◌, List, [], ◌∷◌, ◌++◌,
  Option, none, some, arith, inl, inr, Bool-cases, All, map, if◌then◌else◌,
}
use protocol_robustness_fram.Prelude.Filter.{All-Mem}
use protocol_robustness_fram.Json.{elem}
use protocol_robustness_fram.Mailbox.{
  Message, runner_of, append_message, add_grouped, group_messages, choose_all,
  deduplicate_submissions,
}
use protocol_robustness_fram.Mailbox.Runners.{
  note_runner, runners_from, group_runners, group_runners-group_messages, choose-one,
}

-- A group has messages, all of its runner and with a property.
abbrev Group : (Message → Type 0) → String → List Message → Type 0
Group P rid [] = ⊥
Group P rid (m ∷ ms) = All (λ x. (runner_of x ≡ some rid) × P x) (m ∷ ms)

abbrev Groups : (Message → Type 0) → List (String × List Message) → Type 0
Groups P [] = Unit
Groups P ((rid, ms) ∷ groups) = Group P rid ms × Groups P groups

All-snoc :
    (P : Message → Type 0) (ms : List Message) (m : Message) → All P ms → P m → All P (ms ++ m ∷ [])
All-snoc P [] m a p = (p, tt)
All-snoc P (x ∷ xs) m (q, a) p = (q, All-snoc P xs m a p)

Group-snoc :
    (P : Message → Type 0) (rid : String) (ms : List Message) (m : Message)
    → Group P rid ms
    → runner_of m ≡ some rid
    → P m
    → Group P rid (ms ++ m ∷ [])
Group-snoc P rid [] m g e p = absurd g
Group-snoc P rid (x ∷ xs) m g e p =
    All-snoc (λ x. (runner_of x ≡ some rid) × P x) (x ∷ xs) m g (e, p)

append_message-Groups :
    (P : Message → Type 0) (rid : String) (m : Message) (groups : List (String × List Message))
    → Groups P groups
    → runner_of m ≡ some rid
    → P m
    → Groups P (append_message rid m groups)
unfolding append_message
append_message-Groups P rid m [] g e p = (((e, p), tt), tt)
append_message-Groups P rid m ((r, ms) ∷ groups) (g, gs) e p = elim (Bool-cases (str_eq r rid)) [
  | inl here ↦
      subst (Groups P)
        (sym (
          ap (λ b. if b then (r, ms ++ m ∷ []) ∷ groups else (r, ms) ∷ append_message rid m groups)
            here))
        (Group-snoc P r ms m g (e ∙ ap some (sym ((eq_iff r rid).0 here))) p, gs)
  | inr other ↦
      subst (Groups P)
        (sym (
          ap (λ b. if b then (r, ms ++ m ∷ []) ∷ groups else (r, ms) ∷ append_message rid m groups)
            other))
        (g, append_message-Groups P rid m groups gs e p)
]

add_grouped-Groups :
    (P : Message → Type 0) (rid : Option String) (m : Message)
    (groups : List (String × List Message))
    → Groups P groups
    → runner_of m ≡ rid
    → P m
    → Groups P (add_grouped rid m groups)
unfolding add_grouped
add_grouped-Groups P none m groups g e p = g
add_grouped-Groups P (some rid) m groups g e p = append_message-Groups P rid m groups g e p

group_messages-Groups :
    (P : Message → Type 0) (groups : List (String × List Message)) (ms : List Message)
    → Groups P groups
    → All P ms
    → Groups P (group_messages groups ms)
unfolding group_messages
group_messages-Groups P groups [] g a = g
group_messages-Groups P groups (m ∷ ms) g (p, a) =
    group_messages-Groups P (add_grouped (runner_of m) m groups) ms
      (add_grouped-Groups P (runner_of m) m groups g refl p) a

-- Every group leaves one message of its runner, with the property.
choose_all-Groups :
    (P : Message → Type 0) (groups : List (String × List Message))
    → Groups P groups
    → (map runner_of (choose_all groups) ≡ map some (group_runners groups))
      × All P (choose_all groups)
unfolding choose_all
choose_all-Groups P [] g = (refl, tt)
choose_all-Groups P ((rid, []) ∷ groups) (g, gs) = absurd g
choose_all-Groups P ((rid, m ∷ ms) ∷ groups) (g, gs) =
    let (kept, e, (of_runner, p)) = choose-one (λ x. (runner_of x ≡ some rid) × P x) m ms g in
    let (runners, a) = choose_all-Groups P groups gs in
    (
      ap (λ one. map runner_of (one ++ choose_all groups)) e ∙ cc (of_runner, runners),
      subst (λ one. All P (one ++ choose_all groups)) (sym e) (p, a),
    )

-- No text is listed twice.
abbrev pub distinct : List String → Bool
distinct [] = true
distinct (k ∷ ks) = not (elem k ks) && distinct ks

pub elem-snoc :
    (k r : String) (ks : List String) → elem k (ks ++ r ∷ []) ≡ (elem k ks || str_eq r k)
elem-snoc k r [] = ground arith
elem-snoc k r (j ∷ ks) = ground (arith, elem-snoc k r ks)

distinct-snoc :
    (r : String) (ks : List String)
    → elem r ks ≡ false
    → distinct ks ≡ true
    → distinct (ks ++ r ∷ []) ≡ true
distinct-snoc r [] new d = refl
distinct-snoc r (k ∷ ks) new d =
    ground (arith, new, d, elem-snoc k r ks, distinct-snoc r ks, eq_iff k r, eq_iff r k)

note_runner-distinct :
    (rid : Option String) (seen : List String)
    → distinct seen ≡ true
    → distinct (note_runner rid seen) ≡ true
note_runner-distinct none seen d = d
note_runner-distinct (some rid) seen d = elim (Bool-cases (elem rid seen)) [
  | inl old ↦ ground (arith, old, d)
  | inr new ↦ ground (arith, new, distinct-snoc rid seen new d)
]

runners_from-distinct :
    (seen : List String) (ms : List Message)
    → distinct seen ≡ true
    → distinct (runners_from seen ms) ≡ true
runners_from-distinct seen [] d = d
runners_from-distinct seen (m ∷ ms) d =
    runners_from-distinct (note_runner (runner_of m) seen) ms
      (note_runner-distinct (runner_of m) seen d)

All-of-Mem :
    (P : Message → Type 0) (ms : List Message) → ((m : Message) → Memᴰ m ms → P m) → All P ms
All-of-Mem P [] h = tt
All-of-Mem P (m ∷ ms) h = (h m (Memᴰ.head refl), All-of-Mem P ms (λ x at. h x (Memᴰ.tail at)))

module _ (messages : List Message) where
  kept_messages :
      (map runner_of (choose_all (group_messages [] messages))
        ≡ map some (group_runners (group_messages [] messages)))
      × All (λ m. Memᴰ m messages) (choose_all (group_messages [] messages))
  kept_messages =
      choose_all-Groups (λ m. Memᴰ m messages) (group_messages [] messages)
        (group_messages-Groups (λ m. Memᴰ m messages) [] messages tt
          (All-of-Mem (λ m. Memᴰ m messages) messages (λ m at. at)))

  -- The kept messages are one of each runner with a well-formed id, in the order in which these
  -- runners first occur, and no runner is listed twice.
  pub deduplicate_submissions-runners :
      (map runner_of (deduplicate_submissions messages).0 ≡ map some (runners_from [] messages))
      × (distinct (runners_from [] messages) ≡ true)
  unfolding deduplicate_submissions
  deduplicate_submissions-runners = (
    kept_messages.0 ∙ ap (map some) (group_runners-group_messages [] messages),
    runners_from-distinct [] messages refl,
  )

  -- Every kept message is one of the submitted messages.
  deduplicate_submissions-submitted :
      {m : Message} → Memᴰ m (deduplicate_submissions messages).0 → Memᴰ m messages
  unfolding deduplicate_submissions
  deduplicate_submissions-submitted kept = All-Mem (λ m. Memᴰ m messages) _ kept_messages.1 kept

-- ===== src/Dag/Exact.antt =====
-- In a graph without paths that return, the search reports nothing.
use text.Mathlib.Text.{◌==◌ as str_eq}
use text.Mathlib.TextEquality.{eq_iff}
use mathlib.Core.List.{Memᴰ}
use protocol_robustness_fram.Prelude.{
  ℕ, zero, suc, ◌≡◌, ◌⊎◌, ◌↔◌, refl, sym, ap, subst, ◌∙◌, String, true, false, List, [], ◌∷◌,
  Option, none, some, arith, inl, inr, Bool-cases, length,
}
use protocol_robustness_fram.Json.{elem, Fields}
use protocol_robustness_fram.Dag.{
  Adjacency, adjacency, children_of, Search, open_node, close_node, set_parent, search_children,
  search, search_all, start, cycles_of, detect_dag_cycles,
}
use protocol_robustness_fram.Dag.Acyclic.{children_black}
use protocol_robustness_fram.Dag.Detected.{searched}
use protocol_robustness_fram.Dag.Paths.{Reaches, child, further, detect_dag_cycles-acyclic}

-- A node that is being searched.
abbrev Open : Search → String → Type 0
Open s k = (elem k s.grays ≡ true) × (elem k s.blacks ≡ false)

-- A later state of the search without a new cycle, in which no more nodes are open.
abbrev Settled : Search → Search → Type 0
Settled s t = ((k : String) → Open t k → Open s k) × (t.cycles ≡ s.cycles)

abbrev Settles : Search → Option Search → Type 0
Settles s none = Unit
Settles s (some t) = Settled s t

abbrev followed : Option Search → (Search → Option Search) → Option Search
followed none next = none
followed (some t) next = next t

Settles-followed :
    (s : Search) (first : Option Search) (next : Search → Option Search)
    → Settles s first
    → ((t : Search) → Settled s t → Settles t (next t))
    → Settles s (followed first next)
Settles-followed s none next f n = tt
Settles-followed s (some t) next (open_f, cycles_f) n = both (next t) (n t (open_f, cycles_f))
  where
    both : (o : Option Search) → Settles t o → Settles s o
    both none h = tt
    both (some r) (open_h, cycles_h) = (λ k e. open_f k (open_h k e), cycles_h ∙ cycles_f)

children_white :
    (visit : String → Search → Option Search) (u v : String) (vs : List String) (s : Search)
    → elem v s.blacks ≡ false
    → elem v s.grays ≡ false
    → search_children visit u (v ∷ vs) s
      ≡ followed (visit v (set_parent v u s)) (search_children visit u vs)
unfolding search_children
children_white visit u v vs s b g = ground (arith, b, g)

all_white :
    (adj : Adjacency) (depth : ℕ) (h : String) (hs : List String) (s : Search)
    → elem h s.blacks ≡ false
    → elem h s.grays ≡ false
    → search_all adj depth (h ∷ hs) s ≡ followed (search adj depth h s) (search_all adj depth hs)
unfolding search_all
all_white adj depth h hs s b g = ground (arith, b, g)

module _ (adj : Adjacency) (acyclic : (h : String) → ¬ Reaches adj h h) where
  Reaches-snoc : {g u v : String} → Reaches adj g u → Memᴰ v (children_of adj u) → Reaches adj g v
  Reaches-snoc (child m) e = further m (child e)
  Reaches-snoc (further m r) e = further m (Reaches-snoc r e)

  -- The open nodes are those on the way to the node, or it.
  abbrev Stack : Search → String → Type 0
  Stack s u = (g : String) → Open s g → (u ≡ g) ⊎ Reaches adj g u

  Stack-child :
      (s : Search) (u v : String)
      → Stack s u
      → Memᴰ v (children_of adj u)
      → (g : String) → Open s g
      → Reaches adj g v
  Stack-child s u v stack e g o = elim (stack g o) [
    | inl same ↦ subst (λ x. Reaches adj x v) same (child e)
    | inr r ↦ Reaches-snoc r e
  ]

  search_children-Settles :
      (step : String → Search → Option Search) (u : String) (vs : List String) (s : Search)
      → Stack s u
      → ((v : String) → Memᴰ v vs → Memᴰ v (children_of adj u))
      → ((v : String) (r : Search)
          → ((g : String) → Open r g → Reaches adj g v)
          → Settles r (step v (set_parent v u r)))
      → Settles s (search_children step u vs s)
  unfolding search_children
  search_children-Settles step u [] s stack edges h = (λ k o. o, refl)
  search_children-Settles step u (v ∷ vs) s stack edges h = elim (Bool-cases (elem v s.blacks)) [
    | inl b ↦
        subst (Settles s) (sym (children_black step u v vs s b))
          (search_children-Settles step u vs s stack (λ w m. edges w (Memᴰ.tail m)) h)
    | inr b ↦ elim (Bool-cases (elem v s.grays)) [
      | inl y ↦ absurd (acyclic v (Stack-child s u v stack (edges v (Memᴰ.head refl)) v (y, b)))
      | inr y ↦ subst (Settles s) (sym (children_white step u v vs s b y)) (
          Settles-followed s (step v (set_parent v u s)) (search_children step u vs)
            (h v s (Stack-child s u v stack (edges v (Memᴰ.head refl))))
            (λ t settled.
              search_children-Settles step u vs t (λ g o. stack g (settled.0 g o))
                (λ w m. edges w (Memᴰ.tail m)) h))
    ]
  ]

  Settles-close :
      (u : String) (s : Search) (o : Option Search)
      → Settles (open_node u s) o
      → Settles s (close_node u o)
  Settles-close u s none h = tt
  Settles-close u s (some t) (back, same) = (λ k e. closed k e, same)
    where
      closed : (k : String) → Open (record t { blacks = u ∷ t.blacks }) k → Open s k
      closed k (y, b) = let (y', b') = back k (y, ground (arith, b)) in (ground (arith, y', b), b')

  search-Settles :
      (depth : ℕ) (u : String) (s : Search)
      → ((g : String) → Open s g → Reaches adj g u)
      → Settles s (search adj depth u s)
  unfolding search
  search-Settles zero u s before = tt
  search-Settles (suc depth) u s before = Settles-close u s _ (
      search_children-Settles (search adj depth) u (children_of adj u) (open_node u s)
        (λ g o. opened g o) (λ w m. m)
        (λ v r before_r. search-Settles depth v (set_parent v u r) before_r))
    where
      opened : (g : String) → Open (open_node u s) g → (u ≡ g) ⊎ Reaches adj g u
      opened g (y, b) = elim (Bool-cases (str_eq u g)) [
        | inl same ↦ inl ((eq_iff u g).0 same)
        | inr apart ↦ inr (before g (ground (arith, y, apart), b))
      ]

  search_all-Settles :
      (depth : ℕ) (hs : List String) (s : Search)
      → ((k : String) → ¬ Open s k)
      → Settles s (search_all adj depth hs s)
  unfolding search_all
  search_all-Settles depth [] s closed = (λ k o. o, refl)
  search_all-Settles depth (h ∷ hs) s closed = elim (Bool-cases (elem h s.blacks)) [
    | inl b ↦ subst (Settles s) (ground (arith, b)) (search_all-Settles depth hs s closed)
    | inr b ↦ elim (Bool-cases (elem h s.grays)) [
      | inl y ↦ absurd (closed h (y, b))
      | inr y ↦ subst (Settles s) (sym (all_white adj depth h hs s b y)) (
          Settles-followed s (search adj depth h s) (search_all adj depth hs)
            (search-Settles depth h s (λ g o. absurd (closed g o)))
            (λ t settled. search_all-Settles depth hs t (λ k o. closed k (settled.0 k o))))
    ]
  ]

-- No cycle is reported exactly if no path in the graph returns to the node where it starts.
pub detect_dag_cycles-exact :
    (nodes : List String) (edges : List Fields)
    → (detect_dag_cycles edges nodes ≡ some [])
      ↔ ((h : String) → ¬ Reaches (adjacency edges nodes) h h)
unfolding detect_dag_cycles
detect_dag_cycles-exact nodes edges = (
  λ none_found h. detect_dag_cycles-acyclic nodes edges none_found,
  λ acyclic.
      let (t, e, ordered, all_black) = searched nodes edges in
      let settled = subst (Settles start) e (
        search_all-Settles (adjacency edges nodes) acyclic (length nodes) nodes start
          (λ k o. cc (o.0))) in
      ap cycles_of e ∙ ap some settled.1,
)

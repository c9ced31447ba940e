-- ===== src/Dag/Acyclic.antt =====
-- The search ends, and without a reported cycle its nodes are ordered, children first.
use text.Mathlib.Text.{◌==◌ as str_eq}
use text.Mathlib.TextEquality.{eq_iff}
use mathlib.Core.List.{Memᴰ}
use protocol_robustness_fram.Prelude.{
  ℕ, zero, suc, ◌≤◌, ◌<◌, ◌≡◌, ◌⊎◌, refl, ap, ◌∙◌, String, true, false, not, List, [], ◌∷◌, ◌++◌,
  Option, some, arith, inl, inr, Bool-cases, All, length, filter,
}
use protocol_robustness_fram.Prelude.Filter.{length-filter, length-filter_le, length-filter_lt}
use protocol_robustness_fram.Json.{elem}
use protocol_robustness_fram.Dag.{
  Adjacency, children_of, Search, cycle_from, open_node, close_node, add_cycle, set_parent,
  search_children, search, search_all,
}

-- Every listed node stands before all its children, which are listed.
abbrev pub Ordered : Adjacency → List String → Type 0
Ordered adj [] = Unit
Ordered adj (h ∷ order) = All (λ c. elem c order ≡ true) (children_of adj h) × Ordered adj order

abbrev Keeps : Adjacency → Search → Search → Type 0
Keeps adj s t = (s.cycles ≡ []) × (Ordered adj s.blacks → Ordered adj t.blacks)

-- A later state of the search: what was gray or black still is, and what became gray is black. If no
-- cycle is reported, none was, and the order of the black nodes is kept.
abbrev pub Grows : Adjacency → Search → Search → Type 0
Grows adj s t =
    ((k : String) → elem k s.grays ≡ true → elem k t.grays ≡ true)
    × ((k : String) → elem k s.blacks ≡ true → elem k t.blacks ≡ true)
    × ((k : String) → elem k t.grays ≡ true → (elem k s.grays ≡ true) ⊎ (elem k t.blacks ≡ true))
    × (t.cycles ≡ [] → Keeps adj s t)

pub Grows-refl : (adj : Adjacency) (s : Search) → Grows adj s s
Grows-refl adj s = (λ k e. e, λ k e. e, λ k e. inl e, λ none_found. (none_found, λ o. o))

pub Grows-trans : (adj : Adjacency) (r s t : Search) → Grows adj r s → Grows adj s t → Grows adj r t
Grows-trans adj r s t (g, b, n, f) (g', b', n', f') = (
  λ k e. g' k (g k e),
  λ k e. b' k (b k e),
  λ k e. elim (n' k e) [
    | inl before ↦ elim (n k before) [ inl first ↦ inl first | inr done ↦ inr (b' k done) ]
    | inr done ↦ inr done
  ],
  λ none_found. let (c', o') = f' none_found in let (c, o) = f c' in (c, λ x. o' (o x)),
)

-- What the search from one node ends with.
abbrev Visited : Adjacency → Search → String → Option Search → Type 0
Visited adj s u result =
    (t : Search) × (result ≡ some t) × Grows adj s t × (t.cycles ≡ [] → elem u t.blacks ≡ true)

module _ (visit : String → Search → Option Search) (u v : String) (vs : List String)
    (s : Search) where
  pub children_black :
      elem v s.blacks ≡ true → search_children visit u (v ∷ vs) s ≡ search_children visit u vs s
  unfolding search_children
  children_black b = ground (arith, b)

  pub children_gray :
      elem v s.blacks ≡ false
      → elem v s.grays ≡ true
      → search_children visit u (v ∷ vs) s ≡ search_children visit u vs (add_cycle u v s)
  unfolding search_children
  children_gray b g = ground (arith, b, g)

  children_white :
      {t : Search}
      → elem v s.blacks ≡ false
      → elem v s.grays ≡ false
      → visit v (set_parent v u s) ≡ some t
      → search_children visit u (v ∷ vs) s ≡ search_children visit u vs t
  unfolding search_children
  children_white b g e = ground (arith, b, g, e)

  add_cycle-found : (add_cycle u v s).cycles ≡ [] → ⊥
  unfolding add_cycle
  add_cycle-found e = not_empty s.cycles e
    where
      not_empty : (cs : List (List String)) → cs ++ cycle_from s.parent u v ∷ [] ≡ [] → ⊥
      not_empty [] h = cc
      not_empty (c ∷ cs) h = cc

  Grows-add_cycle : (adj : Adjacency) → Grows adj s (add_cycle u v s)
  unfolding add_cycle
  Grows-add_cycle adj =
      (λ k e. e, λ k e. e, λ k e. inl e, λ none_found. absurd (add_cycle-found none_found))

pub opened_before :
    (k u : String) (grays blacks : List String)
    → elem k (u ∷ grays) ≡ true
    → (elem k grays ≡ true) ⊎ (elem k (u ∷ blacks) ≡ true)
opened_before k u grays blacks e = elim (Bool-cases (str_eq u k)) [
  | inl same ↦ inr (ground (arith, same))
  | inr apart ↦ inl (ground (arith, e, apart))
]

all_done :
    (adj : Adjacency) (s t : Search)
    → Grows adj s t
    → ((k : String) → elem k s.grays ≡ true → elem k s.blacks ≡ true)
    → (k : String) → elem k t.grays ≡ true
    → elem k t.blacks ≡ true
all_done adj s t g done k e = elim (g.2 k e) [ inl before ↦ g.1 k (done k before) | inr now ↦ now ]

module _ (adj : Adjacency) (nodes : List String) where
  -- The nodes that are still white.
  abbrev pub unopened : Search → List String
  unopened s = filter (λ h. not (elem h s.grays)) nodes

  unopened_le :
      (s t : Search)
      → ((k : String) → elem k s.grays ≡ true → elem k t.grays ≡ true)
      → length (unopened t) ≤ length (unopened s)
  unopened_le s t grow =
      length-filter_le (λ h. not (elem h t.grays)) (λ h. not (elem h s.grays))
        (λ x e. still_white x e) nodes
    where
      still_white : (x : String) → not (elem x t.grays) ≡ true → not (elem x s.grays) ≡ true
      still_white x e = elim (Bool-cases (elem x s.grays)) [
        | inl opened ↦ ground (arith, e, grow x opened)
        | inr closed ↦ ground (arith, closed)
      ]

  unopened_open :
      (u : String) (s : Search)
      → Memᴰ u nodes
      → elem u s.grays ≡ false
      → length (unopened (open_node u s)) < length (unopened s)
  unopened_open u s m new =
      length-filter_lt (λ h. not (elem h (u ∷ s.grays))) (λ h. not (elem h s.grays))
        (λ x e. ground (arith, e)) nodes m (ground (arith, eq_iff u u)) (ground (arith, new))

  search_children-Visited :
      (step : String → Search → Option Search) (depth : ℕ) (u : String) (vs : List String)
      (s : Search)
      → length (unopened s) ≤ depth
      → ((v : String)
          → Memᴰ v vs
          → (r : Search) → length (unopened r) ≤ depth
          → elem v r.grays ≡ false
          → Visited adj r v (step v (set_parent v u r)))
      → (t : Search) × (search_children step u vs s ≡ some t)
        × Grows adj s t
        × (t.cycles ≡ [] → All (λ v. elem v t.blacks ≡ true) vs)
  unfolding search_children
  search_children-Visited step depth u [] s room h = (s, refl, Grows-refl adj s, λ none_found. tt)
  search_children-Visited step depth u (v ∷ vs) s room h = elim (Bool-cases (elem v s.blacks)) [
    | inl b ↦
        let (t, e, g, all_black) =
          search_children-Visited step depth u vs s room (λ w m. h w (Memᴰ.tail m)) in
        (t, children_black step u v vs s b ∙ e, g, λ none_found. (g.1 v b, all_black none_found))
    | inr b ↦ elim (Bool-cases (elem v s.grays)) [
      | inl y ↦
          let (t, e, g, all_black) =
            search_children-Visited step depth u vs (add_cycle u v s) (unfold add_cycle in room)
              (λ w m. h w (Memᴰ.tail m)) in
          (
            t,
            children_gray step u v vs s b y ∙ e,
            Grows-trans adj s (add_cycle u v s) t (Grows-add_cycle step u v vs s adj) g,
            λ none_found. absurd (add_cycle-found step u v vs s ((g.3 none_found).0)),
          )
      | inr y ↦
          let (r, e, g, done) = h v (Memᴰ.head refl) s room y in
          let (t, e', g', all_black) =
            search_children-Visited step depth u vs r (omega (arith, room, unopened_le s r g.0))
              (λ w m. h w (Memᴰ.tail m)) in
          (
            t,
            children_white step u v vs s b y e ∙ e',
            Grows-trans adj s r t g g',
            λ none_found. (g'.1 v (done (g'.3 none_found).0), all_black none_found),
          )
    ]
  ]

  module _ (within : (h c : String) → Memᴰ c (children_of adj h) → Memᴰ c nodes) where
    search-Visited :
        (depth : ℕ) (u : String) (s : Search)
        → length (unopened s) ≤ depth
        → Memᴰ u nodes
        → elem u s.grays ≡ false
        → Visited adj s u (search adj depth u s)
    unfolding search
    search-Visited zero u s room m new = absurd (omega (arith, unopened_open u s m new, room))
    search-Visited (suc depth) u s room m new =
        let (t, e, (grow, keep, fresh, keeps), all_black) =
          search_children-Visited (search adj depth) depth u (children_of adj u) (open_node u s)
            (omega (arith, unopened_open u s m new, room))
            (λ v at r room_r new_r.
              search-Visited depth v (set_parent v u r) room_r (within u v at) new_r) in
        (
          record t { blacks = u ∷ t.blacks },
          ap (close_node u) e,
          (
            λ k k_gray. grow k (ground (arith, k_gray)),
            λ k k_black. ground (arith, keep k k_black),
            λ k k_gray. elim (fresh k k_gray) [
              | inl before ↦ opened_before k u s.grays t.blacks before
              | inr done ↦ inr (ground (arith, done))
            ],
            λ none_found.
                let (c, o) = keeps none_found in (c, λ before. (all_black none_found, o before)),
          ),
          λ none_found. ground (arith, eq_iff u u),
        )

    -- The loop over the nodes, from a state in which every gray node is black.
    pub search_all-Visited :
        (hs : List String) (s : Search)
        → ((h : String) → Memᴰ h hs → Memᴰ h nodes)
        → ((k : String) → elem k s.grays ≡ true → elem k s.blacks ≡ true)
        → (t : Search) × (search_all adj (length nodes) hs s ≡ some t)
          × Grows adj s t
          × (t.cycles ≡ [] → All (λ h. elem h t.blacks ≡ true) hs)
    unfolding search_all
    search_all-Visited [] s all_nodes done = (s, refl, Grows-refl adj s, λ none_found. tt)
    search_all-Visited (h ∷ hs) s all_nodes done = elim (Bool-cases (elem h s.blacks)) [
      | inl b ↦
          let (t, e, g, all_black) =
            search_all-Visited hs s (λ x at. all_nodes x (Memᴰ.tail at)) done in
          (t, ground (arith, b, e), g, λ none_found. (g.1 h b, all_black none_found))
      | inr b ↦ elim (Bool-cases (elem h s.grays)) [
        | inl y ↦ absurd (let bad = done h y in cc (bad, b))
        | inr y ↦
            let (r, e, g, found) =
              search-Visited (length nodes) h s (length-filter (λ x. not (elem x s.grays)) nodes)
                (all_nodes h (Memᴰ.head refl)) y in
            let (t, e', g', all_black) =
              search_all-Visited hs r (λ x at. all_nodes x (Memᴰ.tail at))
                (all_done adj s r g done) in
            (
              t,
              ground (arith, b, y, e, e'),
              Grows-trans adj s r t g g',
              λ none_found. (g'.1 h (found (g'.3 none_found).0), all_black none_found),
            )
      ]
    ]

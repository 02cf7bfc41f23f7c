-- ===== src/Graph/Exclude.antt =====
-- cargo-instrument/src/session.rs: the loop of `configure_dependency_only_policy`. Its stack and its two
-- sets are lists; `none` is a run that is out of fuel.
use rust_compile_time_instru.Prelude.{
  ℕ, zero, suc, ◌+◌, ◌≤◌, String, ◌≡◌, refl, sym, subst, ◌↔◌, ◌⊎◌, inl, inr, true, Option, none,
  some, List, [], ◌∷◌, arith, if◌then◌else◌, Bool-cases, Option-cases, length,
}
use rust_compile_time_instru.Sets.{
  contains, insert, push_all, contains-tail, contains-cons, contains-head, contains-none,
  contains-insert, insert-head, insert-tail, push_all-keeps, push_all-adds, contains-push_all,
  length-push_all,
}
use rust_compile_time_instru.Graph.{Edges, next, Reach, root, edge, weight, weight-done}

-- The packages still to visit, those visited, and those excluded.
pub record Search : Type 0 where
  pub queue : List String
  pub visited : List String
  pub excluded : List String

-- The package taken from the top of the stack, if it has not been visited.
unfoldable pub visit : Edges → String → List String → Search → Search
visit edges id rest s = record {
  queue = push_all (next edges id) rest;
  visited = id ∷ s.visited;
  excluded = insert s.excluded id;
}

-- One turn of the loop, unless the stack is empty.
unfoldable pub step : Edges → Search → Option Search
step edges s = elim s.queue [
  | [] ↦ none
  | id ∷ rest ↦
      some (if contains s.visited id then record s { queue = rest } else visit edges id rest s)
]

unfoldable pub search : ℕ → Edges → Search → Option (List String)
search zero edges s = elim (step edges s) [ none ↦ some s.excluded | some t ↦ none ]
search (suc n) edges s = elim (step edges s) [ none ↦ some s.excluded | some t ↦ search n edges t ]

-- Turns that are left at most.
abbrev pub fuel_for : Edges → Search → ℕ
fuel_for edges s = length s.queue + weight edges s.visited

-- The state of the search, which began with the packages `first` as excluded.
record IsSearching (edges : Edges) (roots first : List String) (s : Search) : Type 0 where
  pub queue_reached : (a : String) → contains s.queue a ≡ true → Reach edges roots a
  pub only_reached :
      (a : String) → contains s.excluded a ≡ true → (contains first a ≡ true) ⊎ Reach edges roots a
  pub first_kept : (a : String) → contains first a ≡ true → contains s.excluded a ≡ true
  pub visited_kept : (a : String) → contains s.visited a ≡ true → contains s.excluded a ≡ true
  pub roots_known :
      (a : String)
      → contains roots a ≡ true
      → (contains s.visited a ≡ true) ⊎ (contains s.queue a ≡ true)
  pub edges_known :
      (a b : String)
      → contains s.visited a ≡ true
      → contains (next edges a) b ≡ true
      → (contains s.visited b ≡ true) ⊎ (contains s.queue b ≡ true)

module _ (id : String) (rest visited : List String) where
  skipped_known :
      (a : String)
      → contains visited id ≡ true
      → (contains visited a ≡ true) ⊎ (contains (id ∷ rest) a ≡ true)
      → (contains visited a ≡ true) ⊎ (contains rest a ≡ true)
  skipped_known a seen (inl h) = inl h
  skipped_known a seen (inr h) = elim (contains-cons id a rest h) [
    | inl e ↦ inl (subst (λ x. contains visited x ≡ true) e seen)
    | inr k ↦ inr k
  ]

  visited_known :
      (edges : Edges) (a : String)
      → (contains visited a ≡ true) ⊎ (contains (id ∷ rest) a ≡ true)
      → (contains (id ∷ visited) a ≡ true) ⊎ (contains (push_all (next edges id) rest) a ≡ true)
  visited_known edges a (inl h) = inl (contains-tail id a visited h)
  visited_known edges a (inr h) = elim (contains-cons id a rest h) [
    | inl e ↦ inl (subst (λ x. contains (id ∷ visited) x ≡ true) e (contains-head id visited))
    | inr k ↦ inr (push_all-keeps (next edges id) rest a k)
  ]

module _ (edges : Edges) (roots first : List String) where
  skip-IsSearching :
      (id : String) (rest visited excluded : List String)
      → IsSearching edges roots first
          (record { queue = id ∷ rest; visited = visited; excluded = excluded })
      → contains visited id ≡ true
      → IsSearching edges roots first
          (record { queue = rest; visited = visited; excluded = excluded })
  skip-IsSearching id rest visited excluded i seen = record {
    queue_reached = λ a h. i.queue_reached a (contains-tail id a rest h);
    only_reached = i.only_reached;
    first_kept = i.first_kept;
    visited_kept = i.visited_kept;
    roots_known = λ a h. skipped_known id rest visited a seen (i.roots_known a h);
    edges_known = λ a b h k. skipped_known id rest visited b seen (i.edges_known a b h k);
  }

  visit-IsSearching :
      (id : String) (rest : List String) (s : Search)
      → IsSearching edges roots first (record s { queue = id ∷ rest })
      → IsSearching edges roots first (visit edges id rest s)
  unfolding visit
  visit-IsSearching id rest s i =
      let here = i.queue_reached id (contains-head id rest) in
      record {
        queue_reached = λ a h. elim (contains-push_all (next edges id) rest a h) [
          | inl k ↦ edge id a here k
          | inr k ↦ i.queue_reached a (contains-tail id a rest k)
        ];
        only_reached = λ a h. elim (contains-insert s.excluded id a h) [
          | inl e ↦ inr (subst (λ x. Reach edges roots x) e here)
          | inr k ↦ i.only_reached a k
        ];
        first_kept = λ a h. insert-tail s.excluded id a (i.first_kept a h);
        visited_kept = λ a h. elim (contains-cons id a s.visited h) [
          | inl e ↦
              subst (λ x. contains (insert s.excluded id) x ≡ true) e (insert-head s.excluded id)
          | inr k ↦ insert-tail s.excluded id a (i.visited_kept a k)
        ];
        roots_known = λ a h. visited_known id rest s.visited edges a (i.roots_known a h);
        edges_known = λ a b h k. elim (contains-cons id a s.visited h) [
          | inl e ↦ inr (
              push_all-adds (next edges id) rest b
                (subst (λ x. contains (next edges x) b ≡ true) (sym e) k))
          | inr l ↦ visited_known id rest s.visited edges b (i.edges_known a b l k)
        ];
      }

  step-IsSearching :
      (queue visited excluded : List String) (t : Search)
      → step edges (record { queue = queue; visited = visited; excluded = excluded }) ≡ some t
      → IsSearching edges roots first
          (record { queue = queue; visited = visited; excluded = excluded })
      → IsSearching edges roots first t
        × (suc (fuel_for edges t) ≤ length queue + weight edges visited)
  unfolding step visit
  step-IsSearching [] visited excluded t e i = absurd cc
  step-IsSearching (id ∷ rest) visited excluded t e i = elim (Bool-cases (contains visited id)) [
    | inl seen ↦
        let skipped = skip-IsSearching id rest visited excluded i seen in
        let same : record { queue = rest; visited = visited; excluded = excluded } ≡ t =
          ground arith in
        subst
          (λ u.
            IsSearching edges roots first u
            × (suc (fuel_for edges u) ≤ suc (length rest) + weight edges visited))
          same (skipped, omega arith)
    | inr new ↦
        let s : Search = record { queue = rest; visited = visited; excluded = excluded } in
        let visited_now = visit-IsSearching id rest s i in
        let same : visit edges id rest s ≡ t = ground arith in
        let paid = weight-done edges visited id new in
        let long = length-push_all (next edges id) rest in
        subst
          (λ u.
            IsSearching edges roots first u
            × (suc (fuel_for edges u) ≤ suc (length rest) + weight edges visited))
          same (visited_now, omega (arith, paid, long))
  ]

  -- At an empty stack the packages visited are those that are reached.
  all_visited :
      (s : Search)
      → s.queue ≡ []
      → IsSearching edges roots first s
      → (a : String) → Reach edges roots a
      → contains s.visited a ≡ true
  all_visited s e i a (root _ h) = elim (i.roots_known a h) [
    | inl k ↦ k
    | inr k ↦ contains-none a (subst (λ q. contains q a ≡ true) e k)
  ]
  all_visited s e i a (edge b _ r h) = elim (i.edges_known b a (all_visited s e i b r) h) [
    | inl k ↦ k
    | inr k ↦ contains-none a (subst (λ q. contains q a ≡ true) e k)
  ]

  -- The set that the search ends with.
  abbrev pub Answers : Option (List String) → Type 0
  Answers o =
      (set : List String) × (o ≡ some set)
      × ((a : String) → (contains set a ≡ true) ↔ ((contains first a ≡ true) ⊎ Reach edges roots a))

  stopped :
      (s : Search) → s.queue ≡ [] → IsSearching edges roots first s → Answers (some s.excluded)
  stopped s e i = (
    s.excluded,
    refl,
    λ a. (
      i.only_reached a,
      λ h. elim h [ inl k ↦ i.first_kept a k | inr r ↦ i.visited_kept a (all_visited s e i a r) ],
    ),
  )

  step_stops : (s : Search) → step edges s ≡ none → s.queue ≡ []
  unfolding step
  step_stops s e = ground arith

  search_lem :
      (n : ℕ) (s : Search)
      → fuel_for edges s ≤ n
      → IsSearching edges roots first s
      → Answers (search n edges s)
  unfolding search
  search_lem zero s enough i = elim (Option-cases (step edges s)) [
    | inl e ↦ rw (search, e) (stopped s (step_stops s e) i)
    | inr t ↦
        let p = step-IsSearching s.queue s.visited s.excluded (t.0) t.1 i in
        absurd (omega (arith, enough, p.1))
  ]
  search_lem (suc n) s enough i = elim (Option-cases (step edges s)) [
    | inl e ↦ rw (search, e) (stopped s (step_stops s e) i)
    | inr t ↦
        let p = step-IsSearching s.queue s.visited s.excluded (t.0) t.1 i in
        let r = search_lem n (t.0) (omega (arith, enough, p.1)) p.0 in rw (search, t.1) r
  ]

  abbrev pub start : Search
  start = record { queue = roots; visited = []; excluded = first }

  -- The search from the roots themselves.
  pub search-Reach : Answers (search (fuel_for edges start) edges start)
  search-Reach = search_lem _ start (omega arith) (record {
    queue_reached = λ a h. root a h;
    only_reached = λ a h. inl h;
    first_kept = λ a h. h;
    visited_kept = λ a h. contains-none a h;
    roots_known = λ a h. inr h;
    edges_known = λ a b h k. contains-none a h;
  })

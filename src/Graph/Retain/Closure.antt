-- ===== src/Graph/Retain/Closure.antt =====
-- The loop of `retained_artifact_closure` ends, and computes what is reached.
use rust_compile_time_instru.Prelude.{
  ℕ, zero, suc, ◌+◌, ◌≤◌, String, ◌≡◌, refl, sym, subst, ◌↔◌, ◌⊎◌, inl, inr, true, false, Option,
  none, some, List, [], ◌∷◌, ◌++◌, arith, Bool-cases, Option-cases, length, length-append,
}
use rust_compile_time_instru.Sets.{
  contains, contains-tail, contains-cons, contains-head, contains-none,
}
use rust_compile_time_instru.Graph.{Edges, next, Reach, root, edge}
use rust_compile_time_instru.Graph.Retain.{
  Retained, retain_all, step, closure, targets, missing, fuel_for, contains-left, contains-right,
  contains-append, next-targets, missing-drops,
}

-- The effect of the loop over dependencies that are ends of edges.
record IsExtension (all deps : List String) (s t : Retained) : Type 0 where
  pub kept : (a : String) → contains s.retained a ≡ true → contains t.retained a ≡ true
  pub kept_queue : (a : String) → contains s.queue a ≡ true → contains t.queue a ≡ true
  pub added : (a : String) → contains deps a ≡ true → contains t.retained a ≡ true
  pub only :
      (a : String)
      → contains t.retained a ≡ true
      → (contains s.retained a ≡ true) ⊎ (contains deps a ≡ true) × (contains t.queue a ≡ true)
  pub only_queue :
      (a : String)
      → contains t.queue a ≡ true
      → (contains s.queue a ≡ true) ⊎ (contains deps a ≡ true)
  pub paid : length t.queue + missing all t.retained ≤ length s.queue + missing all s.retained

module _ (all : List String) where
  nothing-IsExtension : (s : Retained) → IsExtension all [] s s
  nothing-IsExtension s = record {
    kept = λ a h. h;
    kept_queue = λ a h. h;
    added = λ a h. contains-none a h;
    only = λ a h. inl h;
    only_queue = λ a h. inl h;
    paid = omega arith;
  }

  old-IsExtension :
      (d : String) (deps : List String) (s t : Retained)
      → contains s.retained d ≡ true
      → IsExtension all deps s t
      → IsExtension all (d ∷ deps) s t
  old-IsExtension d deps s t old i = record {
    kept = i.kept;
    kept_queue = i.kept_queue;
    added = λ a h. elim (contains-cons d a deps h) [
      | inl e ↦ subst (λ x. contains t.retained x ≡ true) e (i.kept d old)
      | inr k ↦ i.added a k
    ];
    only =
        λ a h. elim (i.only a h) [ inl k ↦ inl k | inr k ↦ inr (contains-tail d a deps k.0, k.1) ];
    only_queue =
        λ a h. elim (i.only_queue a h) [ inl k ↦ inl k | inr k ↦ inr (contains-tail d a deps k) ];
    paid = i.paid;
  }

  abbrev pushed : String → Retained → Retained
  pushed d s = record { retained = d ∷ s.retained; queue = s.queue ++ (d ∷ []) }

  new-IsExtension :
      (d : String) (deps : List String) (s t : Retained)
      → contains all d ≡ true
      → contains s.retained d ≡ false
      → IsExtension all deps (pushed d s) t
      → IsExtension all (d ∷ deps) s t
  new-IsExtension d deps s t end new i =
      let here = contains-head d s.retained in
      let queued = i.kept_queue d (contains-right s.queue (d ∷ []) d (contains-head d [])) in
      record {
        kept = λ a h. i.kept a (contains-tail d a s.retained h);
        kept_queue = λ a h. i.kept_queue a (contains-left s.queue (d ∷ []) a h);
        added = λ a h. elim (contains-cons d a deps h) [
          | inl e ↦ subst (λ x. contains t.retained x ≡ true) e (i.kept d here)
          | inr k ↦ i.added a k
        ];
        only = λ a h. elim (i.only a h) [
          | inr k ↦ inr (contains-tail d a deps k.0, k.1)
          | inl k ↦ elim (contains-cons d a s.retained k) [
            | inr l ↦ inl l
            | inl e ↦ inr (
                subst (λ x. (contains (d ∷ deps) x ≡ true) × (contains t.queue x ≡ true)) e
                  (contains-head d deps, queued))
          ]
        ];
        only_queue = λ a h. elim (i.only_queue a h) [
          | inr k ↦ inr (contains-tail d a deps k)
          | inl k ↦ elim (contains-append s.queue (d ∷ []) a k) [
            | inl l ↦ inl l
            | inr l ↦ elim (contains-cons d a [] l) [
              | inl e ↦ inr (subst (λ x. contains (d ∷ deps) x ≡ true) e (contains-head d deps))
              | inr m ↦ contains-none a m
            ]
          ]
        ];
        paid =
            let drops = missing-drops all s.retained d end new in
            let longer = length-append s.queue (d ∷ []) in omega (arith, i.paid, drops, longer);
      }

  retain_all-IsExtension :
      (deps : List String) (s : Retained)
      → ((a : String) → contains deps a ≡ true → contains all a ≡ true)
      → IsExtension all deps s (retain_all deps s)
  unfolding retain_all
  retain_all-IsExtension [] s ends = nothing-IsExtension s
  retain_all-IsExtension (d ∷ deps) s ends =
      let more : (a : String) → contains deps a ≡ true → contains all a ≡ true =
        λ a h. ends a (contains-tail d a deps h) in
      elim (Bool-cases (contains s.retained d)) [
        | inl old ↦ rw old (old-IsExtension d deps s _ old (retain_all-IsExtension deps s more))
        | inr new ↦ rw new (
            new-IsExtension d deps s _ (ends d (contains-head d deps)) new
              (retain_all-IsExtension deps (pushed d s) more))
      ]

-- The state of the search.
record IsRetaining (edges : Edges) (roots : List String) (s : Retained) : Type 0 where
  pub queue_reached : (a : String) → contains s.queue a ≡ true → Reach edges roots a
  pub only_reached : (a : String) → contains s.retained a ≡ true → Reach edges roots a
  pub roots_kept : (a : String) → contains roots a ≡ true → contains s.retained a ≡ true
  pub edges_kept :
      (a b : String)
      → contains s.retained a ≡ true
      → contains (next edges a) b ≡ true
      → (contains s.queue a ≡ true) ⊎ (contains s.retained b ≡ true)

module _ (edges : Edges) (roots : List String) where
  turn-IsRetaining :
      (id : String) (rest retained : List String) (t : Retained)
      → IsRetaining edges roots (record { retained = retained; queue = id ∷ rest })
      → IsExtension (targets edges) (next edges id) (record { retained = retained; queue = rest }) t
      → IsRetaining edges roots t
  turn-IsRetaining id rest retained t i x =
      let here = i.queue_reached id (contains-head id rest) in
      record {
        queue_reached = λ a h. elim (x.only_queue a h) [
          | inl k ↦ i.queue_reached a (contains-tail id a rest k)
          | inr k ↦ edge id a here k
        ];
        only_reached =
            λ a h. elim (x.only a h) [ inl k ↦ i.only_reached a k | inr k ↦ edge id a here k.0 ];
        roots_kept = λ a h. x.kept a (i.roots_kept a h);
        edges_kept = λ a b h k. elim (x.only a h) [
          | inr l ↦ inl l.1
          | inl l ↦ elim (i.edges_kept a b l k) [
            | inr m ↦ inr (x.kept b m)
            | inl m ↦ elim (contains-cons id a rest m) [
              | inr n ↦ inl (x.kept_queue a n)
              | inl e ↦ inr (x.added b (subst (λ y. contains (next edges y) b ≡ true) (sym e) k))
            ]
          ]
        ];
      }

  step-IsRetaining :
      (queue retained : List String) (t : Retained)
      → step edges (record { retained = retained; queue = queue }) ≡ some t
      → IsRetaining edges roots (record { retained = retained; queue = queue })
      → IsRetaining edges roots t
        × (suc (fuel_for edges t) ≤ length queue + missing (targets edges) retained)
  unfolding step
  step-IsRetaining [] retained t e i = absurd cc
  step-IsRetaining (id ∷ rest) retained t e i =
      let s : Retained = record { retained = retained; queue = rest } in
      let x =
        retain_all-IsExtension (targets edges) (next edges id) s
          (λ a h. next-targets edges id a h) in
      let turned = turn-IsRetaining id rest retained _ i x in
      let same : retain_all (next edges id) s ≡ t = cc e in
      subst
        (λ u.
          IsRetaining edges roots u
          × (suc (fuel_for edges u) ≤ suc (length rest) + missing (targets edges) retained))
        same (turned, omega (arith, x.paid))

  -- At an empty queue the set is closed.
  all_retained :
      (s : Retained)
      → s.queue ≡ []
      → IsRetaining edges roots s
      → (a : String) → Reach edges roots a
      → contains s.retained a ≡ true
  all_retained s e i a (root _ h) = i.roots_kept a h
  all_retained s e i a (edge b _ r h) = elim (i.edges_kept b a (all_retained s e i b r) h) [
    | inr k ↦ k
    | inl k ↦ contains-none b (subst (λ q. contains q b ≡ true) e k)
  ]

  abbrev pub Answers : Option (List String) → Type 0
  Answers o =
      (set : List String) × (o ≡ some set)
      × ((a : String) → (contains set a ≡ true) ↔ Reach edges roots a)

  step_stops : (s : Retained) → step edges s ≡ none → s.queue ≡ []
  unfolding step
  step_stops s e = ground arith

  stopped :
      (s : Retained) → step edges s ≡ none → IsRetaining edges roots s → Answers (some s.retained)
  stopped s e i =
      (s.retained, refl, λ a. (i.only_reached a, λ r. all_retained s (step_stops s e) i a r))

  closure_lem :
      (n : ℕ) (s : Retained)
      → fuel_for edges s ≤ n
      → IsRetaining edges roots s
      → Answers (closure n edges s)
  unfolding closure
  closure_lem zero s enough i = elim (Option-cases (step edges s)) [
    | inl e ↦ rw (closure, e) (stopped s e i)
    | inr t ↦
        let p = step-IsRetaining s.queue s.retained (t.0) t.1 i in
        absurd (omega (arith, enough, p.1))
  ]
  closure_lem (suc n) s enough i = elim (Option-cases (step edges s)) [
    | inl e ↦ rw (closure, e) (stopped s e i)
    | inr t ↦
        let p = step-IsRetaining s.queue s.retained (t.0) t.1 i in
        let r = closure_lem n (t.0) (omega (arith, enough, p.1)) p.0 in rw (closure, t.1) r
  ]

  -- The search from the roots themselves.
  pub closure-Reach : Answers (
      closure
        (fuel_for edges (record { retained = roots; queue = roots }))
        edges
        (record { retained = roots; queue = roots }))
  closure-Reach =
      closure_lem _ (record { retained = roots; queue = roots }) (omega arith)
        (record {
          queue_reached = λ a h. root a h;
          only_reached = λ a h. root a h;
          roots_kept = λ a h. h;
          edges_kept = λ a b h k. inl h;
        })

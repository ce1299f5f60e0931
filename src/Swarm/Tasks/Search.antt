-- ===== src/Swarm/Tasks/Search.antt =====
-- vad/swarm/tasks.py: what the search of `_reject_cycles` finds, and that it ends.
use verified_agentic_develop.Prelude.{
  All-map, All-zip, String, true, false, not, List, [], ◌∷◌, Option, none, some, Error, ◌≡◌, refl,
  ◌==◌, eq_refl, eq_iff, elem, All, ℕ, zero, suc, ◌≤◌, ◌<◌, inl, inr, arith, Bool-cases, if_true,
  if_false, length, keep_if, if◌then◌else◌, ◌≢◌, sym, subst, ◌∙◌,
}
use verified_agentic_develop.Swarm.Tasks.{
  Outcome, done, failed, out_of_fuel, ◌>>=◌, Edges, deps_of, Marks, remove, visit_all, finish,
  enter, visit, keys, reject_cycles,
}

pub >>=-eq-done :
    {A B : Type 0} (first : Outcome A) (next : A → Outcome B) {b : B}
    → (first >>= next) ≡ done b
    → (a : A) × (first ≡ done a) × (next a ≡ done b)
>>=-eq-done (done a) next h = (a, refl, h)
>>=-eq-done (failed problem) next h = cc
>>=-eq-done out_of_fuel next h = cc

done_eq : {A : Type 0} {a b : A} → done a ≡ done b → a ≡ b
done_eq h = cc

pub All-elem :
    (P : String → Type 0) (t : String) (xs : List String) → elem t xs ≡ true → All P xs → P t
unfolding elem
All-elem P t [] here all = cc
All-elem P t (x ∷ xs) here all = elim (Bool-cases (t == x)) [
  | inl e ↦ subst P (sym ((eq_iff t x).0 e)) all.0
  | inr e ↦ All-elem P t xs (ground (arith, e)) all.1
]

-- a key of the dictionary
abbrev pub IsKnown : Edges → String → Type 0
IsKnown edges t = (deps : List String) × (deps_of edges t ≡ some deps)

pub keys-IsKnown : (es : Edges) → All (IsKnown es) (keys es)
unfolding deps_of
keys-IsKnown [] = tt
keys-IsKnown ((k, ds) ∷ es) = (
  (ds, if_true _ _ (eq_refl k)),
  All-map (keys es)
      (λ d (deps, known). elim (Bool-cases (k == d)) [
        | inl e ↦ (ds, if_true _ _ e)
        | inr e ↦ (deps, rw (if_false {b = k == d} _ _ e) known)
      ])
      (keys-IsKnown es),
)

module _ (edges : Edges) where
  -- the dependencies of each visited task were visited before it
  abbrev pub Ordered : List String → Type 0
  Ordered [] = Unit
  Ordered (x ∷ xs) =
      ((deps : List String) → deps_of edges x ≡ some deps → All (λ d. elem d xs ≡ true) deps)
      × Ordered xs

  abbrev pub Grows : List String → List String → Type 0
  Grows before after = (x : String) → elem x before ≡ true → elem x after ≡ true

  -- what a call of `visit` on each of `ds` leaves behind
  pub record Visited (ds : List String) (m m' : Marks) : Type 0 where
    pub same : m'.visiting ≡ m.visiting
    pub found : All (λ d. elem d m'.visited ≡ true) ds
    pub kept : Grows m.visited m'.visited
    pub ordered : Ordered m.visited → Ordered m'.visited

  abbrev Visits : (String → Marks → Outcome Marks) → Type 0
  Visits f = (d : String) (m m' : Marks) → f d m ≡ done m' → Visited (d ∷ []) m m'

  visit_all-Visited :
      (f : String → Marks → Outcome Marks)
      → Visits f
      → (ds : List String) (m m' : Marks) → visit_all f ds m ≡ done m'
      → Visited ds m m'
  unfolding visit_all
  visit_all-Visited f each [] m m' h =
      subst (λ k. Visited [] m k) (cc)
        (record { same = refl; found = tt; kept = λ x e. e; ordered = λ o. o })
  visit_all-Visited f each (d ∷ ds) m m' h =
      let (m1, e, rest) = >>=-eq-done (f d m) (visit_all f ds) h in
      let one = each d m m1 e in
      let others = visit_all-Visited f each ds m1 m' rest in
      record {
        same = others.same ∙ one.same;
        found = (others.kept d one.found.0, others.found);
        kept = λ x k. others.kept x (one.kept x k);
        ordered = λ o. others.ordered (one.ordered o);
      }

  elem-cons : (x y : String) (ys : List String) → elem x ys ≡ true → elem x (y ∷ ys) ≡ true
  unfolding elem
  elem-cons x y ys h = ground arith

  -- the task leaves `visiting` as it entered
  finish-Visited :
      (t : String) (deps : List String) (m m1 m' : Marks)
      → deps_of edges t ≡ some deps
      → Visited deps (record m { visiting = t ∷ m.visiting }) m1
      → finish t m1 ≡ done m'
      → Visited (t ∷ []) m m'
  unfolding finish remove elem
  finish-Visited t deps m m1 m' known below h =
      subst (λ k. Visited (t ∷ []) m k) (done_eq h)
        (record {
          same = rw below.same (if_true _ _ (eq_refl t));
          found = (if_true _ _ (eq_refl t), tt);
          kept = λ x k. elem-cons x t m1.visited (below.kept x k);
          ordered = λ o. (
            λ ds e.
                let given : deps ≡ ds = cc in
                subst (All (λ d. elem d m1.visited ≡ true)) given below.found,
            below.ordered o,
          );
        })

  enter-Visited :
      (f : String → Marks → Outcome Marks)
      → Visits f
      → (t : String) (deps : Option (List String)) (m m' : Marks) → deps_of edges t ≡ deps
      → enter f deps t m ≡ done m'
      → Visited (t ∷ []) m m'
  unfolding enter
  enter-Visited f each t none m m' known h = cc
  enter-Visited f each t (some deps) m m' known h =
      let start = record m { visiting = t ∷ m.visiting } in
      let (m1, e, last) = >>=-eq-done (visit_all f deps start) (finish t) h in
      let below = visit_all-Visited f each deps start m1 e in
      finish-Visited t deps m m1 m' known below last

  visit-Visited : (fuel : ℕ) → Visits (visit edges fuel)
  unfolding visit
  visit-Visited zero t m m' = λ h. cc
  visit-Visited (suc fuel) t m m' = elim (Bool-cases (elem t m.visiting)) [
    | inl seen ↦ rw (if_true _ _ seen) (λ h. cc)
    | inr fresh ↦ rw (if_false _ _ fresh) (elim (Bool-cases (elem t m.visited)) [
      | inl old ↦ rw (if_true _ _ old) (λ h.
          subst (λ k. Visited (t ∷ []) m k) (cc)
            (record { same = refl; found = (old, tt); kept = λ x e. e; ordered = λ o. o }))
      | inr new ↦ rw (if_false _ _ new) (λ h.
          enter-Visited (visit edges fuel) (visit-Visited fuel) t (deps_of edges t) m m' refl h)
    ])
  ]

  then-avoids :
      (Bad : Outcome Marks → Type 0) (next : Marks → Outcome Marks) (r : Outcome Marks)
      → ¬ Bad r
      → ((m : Marks) → r ≡ done m → ¬ Bad (next m))
      → ¬ Bad (r >>= next)
  then-avoids Bad next (done m) here later = later m refl
  then-avoids Bad next (failed problem) here later = here
  then-avoids Bad next out_of_fuel here later = here

  -- An outcome that each call avoids is avoided by the loop. What a call needs may depend on
  -- `visiting`, which the calls before have left as it was.
  visit_all-avoids :
      (Bad : Outcome Marks → Type 0)
      → ((m : Marks) → ¬ Bad (done m))
      → (f : String → Marks → Outcome Marks) → Visits f
      → (ds : List String) (visiting : List String)
      → All (λ d. (m : Marks) → m.visiting ≡ visiting → ¬ Bad (f d m)) ds
      → (m : Marks) → m.visiting ≡ visiting
      → ¬ Bad (visit_all f ds m)
  unfolding visit_all
  visit_all-avoids Bad fine f each [] visiting good m same = fine m
  visit_all-avoids Bad fine f each (d ∷ ds) visiting good m same =
      then-avoids Bad (visit_all f ds) (f d m) (good.0 m same) (λ m1 e.
        visit_all-avoids Bad fine f each ds visiting good.1 m1 ((each d m m1 e).same ∙ same))

  -- `rank` puts each dependency below its task, so there is no cycle
  abbrev pub IsRanked : (String → ℕ) → Type 0
  IsRanked rank =
      (t : String) (deps : List String)
      → deps_of edges t ≡ some deps
      → All (λ d. rank d < rank t) deps

  abbrev pub IsClosed : Type 0
  IsClosed =
      (t : String) (deps : List String) → deps_of edges t ≡ some deps → All (IsKnown edges) deps

  abbrev Fails : Outcome Marks → Type 0
  Fails r = (problem : Error) × (r ≡ failed problem)

  elem-below :
      (rank : String → ℕ) (t : String) (vs : List String)
      → All (λ v. rank t < rank v) vs
      → elem t vs ≡ false
  unfolding elem
  elem-below rank t [] above = refl
  elem-below rank t (v ∷ vs) above = elim (Bool-cases (t == v)) [
    | inl e ↦ absurd (
        let same = (eq_iff t v).0 e in
        omega (arith, subst (λ x. rank t < rank x) (sym same) above.0))
    | inr e ↦ rw (if_false _ _ e) (elem-below rank t vs above.1)
  ]

  -- in a ranked graph the search reports no cycle
  visit_sound :
      (rank : String → ℕ)
      → IsRanked rank
      → IsClosed
      → (fuel : ℕ) (t : String) → IsKnown edges t
      → (m : Marks) → All (λ v. rank t < rank v) m.visiting
      → ¬ Fails (visit edges fuel t m)
  unfolding visit enter finish
  visit_sound rank ranked closed zero t known m above = λ h. cc h.1
  visit_sound rank ranked closed (suc fuel) t (deps, known) m above =
      rw (if_false _ _ (elem-below rank t m.visiting above), known)
        (elim (Bool-cases (elem t m.visited)) [
          | inl old ↦ rw (if_true _ _ old) (λ h. cc h.1)
          | inr new ↦ rw (if_false _ _ new) (
              then-avoids Fails (finish t) _
                (visit_all-avoids Fails (λ m1 h. cc h.1) (visit edges fuel) (visit-Visited fuel)
                  deps (t ∷ m.visiting)
                  (All-zip deps (ranked t deps known) (closed t deps known) (λ d low k m1 same.
                    visit_sound rank ranked closed fuel d k m1 (
                      subst (All (λ v. rank d < rank v)) (sym same)
                        (low, All-zip m.visiting above above (λ v a b. omega arith)))))
                  (record m { visiting = t ∷ m.visiting }) refl)
                (λ m1 e h. cc h.1))
        ])

  -- how many of the keys are not in the set
  abbrev unseen : List String → List String → ℕ
  unseen visiting ks = length (keep_if (λ k. not (elem k visiting)) ks)

  unseen-cons-le : (t : String) (vs ks : List String) → unseen (t ∷ vs) ks ≤ unseen vs ks
  unfolding elem
  unseen-cons-le t vs [] = omega arith
  unseen-cons-le t vs (k ∷ ks) = ground (arith, unseen-cons-le t vs ks)

  unseen-cons-lt :
      (t : String) (vs ks : List String)
      → elem t ks ≡ true
      → elem t vs ≡ false
      → unseen (t ∷ vs) ks < unseen vs ks
  unfolding elem
  unseen-cons-lt t vs [] here out = cc
  unseen-cons-lt t vs (k ∷ ks) here out = elim (Bool-cases (t == k)) [
    | inl e ↦
        let same : t ≡ k = (eq_iff t k).0 e in
        let fresh : elem k vs ≡ false = subst (λ x. elem x vs ≡ false) same out in
        ground (arith, unseen-cons-le t vs ks, eq_iff k t)
    | inr e ↦ ground (arith, unseen-cons-lt t vs ks, unseen-cons-le t vs ks, eq_iff k t, eq_iff t k)
  ]

  known-elem :
      (es : Edges) (t : String) (deps : List String)
      → deps_of es t ≡ some deps
      → elem t (keys es) ≡ true
  unfolding deps_of elem
  known-elem [] t deps h = cc
  known-elem ((k, ds) ∷ es) t deps h = ground (arith, known-elem es t deps, eq_iff k t, eq_iff t k)

  -- the search ends within its fuel
  visit-ends :
      IsClosed
      → (fuel : ℕ) (t : String) → IsKnown edges t
      → (m : Marks) → unseen m.visiting (keys edges) < fuel
      → ¬ (visit edges fuel t m ≡ out_of_fuel)
  unfolding visit enter finish
  visit-ends closed zero t known m enough = elim enough [ ]
  visit-ends closed (suc fuel) t (deps, known) m enough = elim (Bool-cases (elem t m.visiting)) [
    | inl seen ↦ rw (if_true _ _ seen) (λ h. cc)
    | inr fresh ↦
        rw (if_false _ _ fresh, known)
          (elim (Bool-cases (elem t m.visited)) [
            | inl old ↦ rw (if_true _ _ old) (λ h. cc)
            | inr new ↦ rw (if_false _ _ new) (
                then-avoids (λ r. r ≡ out_of_fuel) (finish t) _
                  (visit_all-avoids (λ r. r ≡ out_of_fuel) (λ m1 h. cc) (visit edges fuel)
                    (visit-Visited fuel) deps (t ∷ m.visiting)
                    (All-zip deps (closed t deps known) (closed t deps known) (λ d k k2 m1 same.
                      visit-ends closed fuel d k m1 (
                        rw same (
                          omega (
                            arith,
                            unseen-cons-lt t m.visiting (keys edges) (known-elem edges t deps known)
                                fresh,
                          )))))
                    (record m { visiting = t ∷ m.visiting }) refl)
                  (λ m1 e h. cc))
          ])
  ]

  -- the place of a task in an order, counted from the end
  abbrev place : List String → String → ℕ
  place [] x = 0
  place (y ∷ ys) x = if elem x ys then place ys x else suc (length ys)

  place-le : (ys : List String) (x : String) → place ys x ≤ length ys
  place-le [] x = omega arith
  place-le (y ∷ ys) x = ground (arith, place-le ys x)

  place-ranks :
      (xs : List String)
      → Ordered xs
      → (t : String) (deps : List String) → elem t xs ≡ true
      → deps_of edges t ≡ some deps
      → All (λ d. (elem d xs ≡ true) × (place xs d < place xs t)) deps
  unfolding elem
  place-ranks [] o t deps here known = cc
  place-ranks (y ∷ ys) o t deps here known = elim (Bool-cases (elem t ys)) [
    | inl e ↦ rw (if_true {b = elem t ys} _ _ e) (
        All-map deps
          (λ d below. (elem-cons d y ys below.0, rw (if_true {b = elem d ys} _ _ below.0) below.1))
          (place-ranks ys o.1 t deps e known))
    | inr e ↦ rw (if_false {b = elem t ys} _ _ e) (
        All-map deps
          (λ d below. (
            elem-cons d y ys below,
            rw (if_true {b = elem d ys} _ _ below) (omega (arith, place-le ys d)),
          ))
          (o.0 deps (rw (← (eq_iff t y).0 (ground (arith, e))) known)))
  ]

  unseen-le : (vs ks : List String) → unseen vs ks ≤ length ks
  unseen-le vs [] = omega arith
  unseen-le vs (k ∷ ks) = ground (arith, unseen-le vs ks)

  abbrev empty : Marks
  empty = record { visiting = []; visited = [] }

  -- The search ends, and it accepts exactly the graphs that some rank orders.
  pub reject_cycles-ends : IsClosed → reject_cycles edges ≢ out_of_fuel
  unfolding reject_cycles
  reject_cycles-ends closed =
      visit_all-avoids (λ r. r ≡ out_of_fuel) (λ m h. cc) _ (visit-Visited _) (keys edges) []
        (All-map (keys edges)
          (λ d k m same.
            visit-ends closed _ d k m (rw same (omega (arith, unseen-le [] (keys edges)))))
          (keys-IsKnown edges))
        empty refl

  pub reject_cycles-accepts :
      (rank : String → ℕ)
      → IsRanked rank
      → IsClosed
      → (problem : Error) → reject_cycles edges ≢ failed problem
  unfolding reject_cycles
  reject_cycles-accepts rank ranked closed problem h =
      visit_all-avoids Fails (λ m h. cc h.1) _ (visit-Visited _) (keys edges) []
        (All-map (keys edges) (λ d k m same. visit_sound rank ranked closed _ d k m (rw same tt))
          (keys-IsKnown edges))
        empty refl (problem, h)

  pub reject_cycles-IsRanked :
      (m : Marks) → reject_cycles edges ≡ done m → (rank : String → ℕ) × IsRanked rank
  unfolding reject_cycles
  reject_cycles-IsRanked m h =
      let visited = visit_all-Visited _ (visit-Visited _) (keys edges) empty m h in
      (
        place m.visited,
        λ t deps known.
            All-map deps (λ d below. below.1)
              (place-ranks m.visited (visited.ordered tt) t deps
                (All-elem _ t (keys edges) (known-elem edges t deps known) visited.found) known),
      )

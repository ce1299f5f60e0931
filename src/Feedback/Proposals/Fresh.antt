-- ===== src/Feedback/Proposals/Fresh.antt =====
-- The loop of `_next_obligation_id` in vad/feedback/proposals.py and the id that it finds.
use verified_agentic_develop.Prelude.{
  subst, ltb→lt, ltb, ◌∙◌, ℕ, zero, suc, String, true, false, List, [], ◌∷◌, ◌≡◌, sym, ◌≢◌, ◌<◌,
  ◌≤◌, elem, length, inl, inr, arith, if_true, if_false, Bool-cases, eq_iff, ◌==◌, clash,
}
use verified_agentic_develop.Swarm.Tasks.{done, remove}
use verified_agentic_develop.Feedback.Proposals.{numbered, find_free, next_obligation_id}

eq_swap : (x y : String) → x == y ≡ true → y == x ≡ true
eq_swap x y h = (eq_iff y x).1 (sym ((eq_iff x y).0 h))

length-remove :
    (x : String) (ys : List String) → elem x ys ≡ true → length (remove x ys) < length ys
unfolding elem remove
length-remove x [] h = cc
length-remove x (y ∷ ys) h = elim (Bool-cases (y == x)) [
  | inl e ↦ rw (if_true {b = y == x} ys (y ∷ remove x ys) e) (omega arith)
  | inr e ↦
      let later : elem x ys ≡ true = elim (Bool-cases (x == y)) [
        | inl k ↦ absurd (clash (eq_swap x y k) e)
        | inr k ↦ sym (if_false {b = x == y} true (elem x ys) k) ∙ h
      ] in
      rw (if_false {b = y == x} ys (y ∷ remove x ys) e) (omega (arith, length-remove x ys later))
]

elem-remove :
    (x z : String) (ys : List String) → x ≢ z → elem z ys ≡ true → elem z (remove x ys) ≡ true
unfolding elem remove
elem-remove x z [] other h = cc
elem-remove x z (y ∷ ys) other h = elim (Bool-cases (z == y)) [
  | inl k ↦ elim (Bool-cases (y == x)) [
    | inl e ↦ absurd (other (sym ((eq_iff z y).0 k ∙ (eq_iff y x).0 e)))
    | inr e ↦ rw (if_false {b = y == x} ys (y ∷ remove x ys) e) (if_true {b = z == y} _ _ k)
  ]
  | inr k ↦
      let later : elem z ys ≡ true = sym (if_false {b = z == y} true (elem z ys) k) ∙ h in
      elim (Bool-cases (y == x)) [
        | inl e ↦ rw (if_true {b = y == x} ys (y ∷ remove x ys) e) later
        | inr e ↦
            rw (if_false {b = y == x} ys (y ∷ remove x ys) e)
              (if_false {b = z == y} _ _ k ∙ elem-remove x z ys other later)
      ]
]

module _ (show : ℕ → String)
    (distinct : (m n : ℕ) → numbered show m ≡ numbered show n → m ≡ n) where
  -- the first free number from `index` on
  pub record IsFirstFree (index : ℕ) (ids : List String) (n : ℕ) : Type 0 where
    pub late : index ≤ n
    pub free : elem (numbered show n) ids ≡ false
    pub taken : (j : ℕ) → index ≤ j → j < n → elem (numbered show j) ids ≡ true

  differ : {m n : ℕ} → m ≡ n → suc m ≤ n → ⊥
  differ same lt = omega arith

  taken_here :
      (index n : ℕ) (ids : List String)
      → elem (numbered show index) ids ≡ true
      → ((j : ℕ) → suc index ≤ j → j < n → elem (numbered show j) ids ≡ true)
      → (j : ℕ) → index ≤ j
      → j < n
      → elem (numbered show j) ids ≡ true
  taken_here index n ids here later j le lt = elim (Bool-cases (ltb index j)) [
    | inl e ↦ later j (ltb→lt index j e) lt
    | inr e ↦
        let same : index ≡ j = ground arith in
        subst (λ k. elem (numbered show k) ids ≡ true) same here
  ]

  find_free-ends :
      (fuel index : ℕ) (ids rest : List String)
      → length rest < fuel
      → ((j : ℕ)
          → index ≤ j
          → elem (numbered show j) ids ≡ true
          → elem (numbered show j) rest ≡ true)
      → (n : ℕ) × (find_free show fuel index ids ≡ done (numbered show n)) × IsFirstFree index ids n
  unfolding find_free
  find_free-ends zero index ids rest short known = absurd (omega arith)
  find_free-ends (suc fuel) index ids rest short known =
      elim (Bool-cases (elem (numbered show index) ids)) [
        | inl e ↦
            let here = known index (omega arith) e in
            let (n, ends, first) =
              find_free-ends fuel (suc index) ids (remove (numbered show index) rest)
                (omega (arith, length-remove (numbered show index) rest here))
                (λ j le k.
                  elem-remove _ _ rest (λ same. differ (distinct index j same) le)
                    (known j (omega arith) k)) in
            (
              n,
              rw (if_true {b = elem (numbered show index) ids} _ _ e) ends,
              record {
                late = omega (arith, first.late);
                free = first.free;
                taken = taken_here index n ids e first.taken;
              },
            )
        | inr e ↦ (
          index,
          if_false _ _ e,
          record { late = omega arith; free = e; taken = λ j le lt. absurd (omega arith) },
        )
      ]

  -- The loop that looks for an id ends within one round more than there are ids, and it gives
  -- `po-n` for the least n, from 1 on, whose id is free.
  pub next_obligation_id-first :
      (existing_ids : List String)
      → (n : ℕ) × (next_obligation_id show existing_ids ≡ done (numbered show n))
        × IsFirstFree 1 existing_ids n
  unfolding next_obligation_id
  next_obligation_id-first existing_ids =
      find_free-ends (suc (length existing_ids)) 1 existing_ids existing_ids (omega arith)
        (λ j le h. h)

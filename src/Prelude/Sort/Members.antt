-- ===== src/Prelude/Sort/Members.antt =====
-- What `sort` keeps: its result has the elements of its argument.
use verified_agentic_develop.Prelude.{
  Bool, List, [], ◌∷◌, map, All, Bool-cases, if_true, if_false, inl, inr, Memᴰ,
}
use mathlib.Core.List.Memᴰ
use verified_agentic_develop.Prelude.Sort.{sort, insert}

module _ {A : Type 0} (le : A → A → Bool) where
  insert-All : (P : A → Type 0) (x : A) (xs : List A) → P x → All P xs → All P (insert le x xs)
  unfolding insert
  insert-All P x [] p all = (p, tt)
  insert-All P x (y ∷ ys) p all = elim (Bool-cases (le x y)) [
    | inl e ↦ rw (if_true {b = le x y} _ _ e) (p, all)
    | inr e ↦ rw (if_false {b = le x y} _ _ e) (all.0, insert-All P x ys p all.1)
  ]

  pub sort-All : (P : A → Type 0) (xs : List A) → All P xs → All P (sort le xs)
  unfolding sort
  sort-All P [] all = tt
  sort-All P (x ∷ xs) all = insert-All P x (sort le xs) all.0 (sort-All P xs all.1)

  insert-mem :
      (B : Type 0) (g : A → B) (k : B) (x : A) (xs : List A)
      → Memᴰ k (map g (x ∷ xs))
      → Memᴰ k (map g (insert le x xs))
  unfolding insert
  insert-mem B g k x [] = λ m. m
  insert-mem B g k x (y ∷ ys) = elim (Bool-cases (le x y)) [
    | inl e ↦ rw (if_true {b = le x y} _ _ e) (λ m. m)
    | inr e ↦ rw (if_false {b = le x y} _ _ e) (λ m. elim (Memᴰ.cases_cons m) [
      | inl here ↦ Memᴰ.tail (insert-mem B g k x ys (Memᴰ.head here))
      | inr later ↦ elim (Memᴰ.cases_cons later) [
        | inl second ↦ Memᴰ.head second
        | inr rest ↦ Memᴰ.tail (insert-mem B g k x ys (Memᴰ.tail rest))
      ]
    ])
  ]

  pub sort-mem :
      (B : Type 0) (g : A → B) (k : B) (xs : List A)
      → Memᴰ k (map g xs)
      → Memᴰ k (map g (sort le xs))
  unfolding sort
  sort-mem B g k [] m = m
  sort-mem B g k (x ∷ xs) m = insert-mem B g k x (sort le xs) (elim (Memᴰ.cases_cons m) [
    | inl here ↦ Memᴰ.head here
    | inr later ↦ Memᴰ.tail (sort-mem B g k xs later)
  ])

module _ {A : Type 0} (le : A → A → Bool) (P : A → Type 0) where
  All-insert : (x : A) (xs : List A) → All P (insert le x xs) → P x × All P xs
  unfolding insert
  All-insert x [] = λ h. h
  All-insert x (y ∷ ys) = elim (Bool-cases (le x y)) [
    | inl b ↦ rw (if_true _ _ b) (λ h. h)
    | inr b ↦ rw (if_false _ _ b) (λ h. let (p, rest) = All-insert x ys h.1 in (p, (h.0, rest)))
  ]

  -- what holds of all the sorted elements holds of all the elements
  pub All-sort : (xs : List A) → All P (sort le xs) → All P xs
  unfolding sort
  All-sort [] h = tt
  All-sort (x ∷ xs) h = let (p, rest) = All-insert x (sort le xs) h in (p, All-sort xs rest)

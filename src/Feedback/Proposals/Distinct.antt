-- ===== src/Feedback/Proposals/Distinct.antt =====
-- Lists of texts and obligations of vad/feedback/proposals.py, and what the appends do to them.
use mathlib.Core.List.Memᴰ
use verified_agentic_develop.Prelude.{
  String, true, false, List, [], ◌∷◌, ◌++◌, Memᴰ, ◌≡◌, refl, sym, ap, ◌∙◌, inl, inr, elem,
  if◌then◌else◌, if_true, if_false, Bool-cases, ◌==◌, eq_iff, eq_refl, clash,
}
use verified_agentic_develop.Contracts.{ProofObligation}
use verified_agentic_develop.Feedback.Proposals.{add_missing, ids_of}
use verified_agentic_develop.Feedback.Proposals.Extends.{Extends}

-- no text twice
unfoldable pub AreDistinct : List String → Type 0
AreDistinct [] = Unit
AreDistinct (x ∷ xs) = (elem x xs ≡ false) × AreDistinct xs

elem-append :
    (x d : String) (xs : List String) → elem x (xs ++ d ∷ []) ≡ (if elem x xs then true else x == d)
unfolding elem
elem-append x d [] = elim (Bool-cases (x == d)) [ inl e ↦ rw e refl | inr e ↦ rw e refl ]
elem-append x d (y ∷ ys) = elim (Bool-cases (x == y)) [
  | inl e ↦ rw e refl
  | inr e ↦ rw e (elem-append x d ys)
]

pub AreDistinct-append :
    (d : String) (xs : List String)
    → elem d xs ≡ false
    → AreDistinct xs
    → AreDistinct (xs ++ d ∷ [])
unfolding AreDistinct elem
AreDistinct-append d [] absent h = (refl, tt)
AreDistinct-append d (x ∷ xs) absent (fresh, h) = elim (Bool-cases (d == x)) [
  | inl e ↦ absurd (clash (if_true {b = d == x} true (elem d xs) e) absent)
  | inr e ↦
      let apart : (x == d) ≡ false = (elim (Bool-cases (x == d)) [
        | inl k ↦ absurd (clash ((eq_iff d x).1 (sym ((eq_iff x d).0 k))) e)
        | inr k ↦ k
      ]) in
      (
        elem-append x d xs ∙ if_false _ _ fresh ∙ apart,
        AreDistinct-append d xs (sym (if_false {b = d == x} true (elem d xs) e) ∙ absent) h,
      )
]

elem-left : (x : String) (xs zs : List String) → elem x xs ≡ true → elem x (xs ++ zs) ≡ true
unfolding elem
elem-left x [] zs h = cc
elem-left x (y ∷ ys) zs h = elim (Bool-cases (x == y)) [
  | inl e ↦ if_true {b = x == y} _ _ e
  | inr e ↦
      if_false {b = x == y} _ _ e
      ∙ elem-left x ys zs (sym (if_false {b = x == y} true (elem x ys) e) ∙ h)
]

pub elem-Extends :
    (x : String) (xs ys : List String) → Extends xs ys → elem x xs ≡ true → elem x ys ≡ true
unfolding Extends
elem-Extends x xs ys (added, e) h = rw e (elem-left x xs added h)

pub mem-left : {A : Type 0} (x : A) (xs zs : List A) → Memᴰ x xs → Memᴰ x (xs ++ zs)
mem-left x [] zs m = absurd (Memᴰ.not-nil m)
mem-left x (y ∷ ys) zs m = elim (Memᴰ.cases_cons m) [
  | inl here ↦ Memᴰ.head here
  | inr later ↦ Memᴰ.tail (mem-left x ys zs later)
]

pub mem-last : {A : Type 0} (x : A) (xs : List A) → Memᴰ x (xs ++ x ∷ [])
mem-last x [] = Memᴰ.head refl
mem-last x (y ∷ ys) = Memᴰ.tail (mem-last x ys)

pub add_missing-elem : (d : String) (xs : List String) → elem d (add_missing d xs) ≡ true
unfolding add_missing
add_missing-elem d xs = elim (Bool-cases (elem d xs)) [
  | inl e ↦ rw (if_true {b = elem d xs} xs (xs ++ d ∷ []) e) e
  | inr e ↦
      rw (if_false {b = elem d xs} xs (xs ++ d ∷ []) e)
        (elem-append d d xs ∙ if_false _ _ e ∙ eq_refl d)
]

pub add_missing-AreDistinct :
    (d : String) (xs : List String) → AreDistinct xs → AreDistinct (add_missing d xs)
unfolding add_missing
add_missing-AreDistinct d xs h = elim (Bool-cases (elem d xs)) [
  | inl e ↦ rw (if_true {b = elem d xs} xs (xs ++ d ∷ []) e) h
  | inr e ↦ rw (if_false {b = elem d xs} xs (xs ++ d ∷ []) e) (AreDistinct-append d xs e h)
]

-- an obligation of this id
pub elem-ids :
    (id : String) (os : List ProofObligation)
    → elem id (ids_of os) ≡ true
    → (o : ProofObligation) × Memᴰ o os × (o.id ≡ id)
unfolding elem ids_of
elem-ids id [] h = cc
elem-ids id (o ∷ os) h = elim (Bool-cases (id == o.id)) [
  | inl e ↦ (o, Memᴰ.head refl, sym ((eq_iff id o.id).0 e))
  | inr e ↦
      let (p, m, same) =
        elem-ids id os (sym (if_false {b = id == o.id} true (elem id (ids_of os)) e) ∙ h) in
      (p, Memᴰ.tail m, same)
]

pub ids_of-append :
    (os : List ProofObligation) (o : ProofObligation)
    → ids_of (os ++ o ∷ []) ≡ ids_of os ++ o.id ∷ []
unfolding ids_of
ids_of-append [] o = refl
ids_of-append (p ∷ os) o = ap (λ l. p.id ∷ l) (ids_of-append os o)

-- ===== src/Prelude/Action.antt =====
-- Methods that write to an object or a database and may raise. What was written before an
-- exception stays written, so the state comes back beside the exception too.
use mathlib.Core.Path.{◌≡◌, refl}
use verified_agentic_develop.Prelude.Errors.{Result, ok, raise}

abbrev pub Action {ℓ} : Type ℓ → Type ℓ → Type ℓ
Action State Answer = State → Result Answer × State

module _ {ℓ} {State X : Type ℓ} where
  abbrev pub from_result : Result X → Action State X
  from_result result state = (result, state)

  abbrev pub give : X → Action State X
  give x = from_result (ok x)

module _ {ℓ} {State X Y : Type ℓ} where
  -- the rest of a block, after what its first statement gave
  abbrev pub continue : Result X → (X → Action State Y) → Action State Y
  continue (raise problem) rest state = (raise problem, state)
  continue (ok x) rest state = rest x state

  infixl 5 ◌>>=◌
  abbrev pub ◌>>=◌ : Action State X → (X → Action State Y) → Action State Y
  ◌>>=◌ first rest state = continue (first state).0 rest (first state).1

-- an invariant that holds before holds after, also if the action raises
pub record Keeps {ℓ} {State X : Type ℓ} (Inv : State → Type ℓ) (action : Action State X)
    : Type ℓ where
  pub at : (before : State) → Inv before → Inv (action before).1

module _ {ℓ} {State X Y : Type ℓ} {Inv : State → Type ℓ} where
  keeps_rest :
      (result : Result X) (rest : X → Action State Y) (state : State)
      → Inv state
      → ((x : X) → Keeps Inv (rest x))
      → Inv (continue result rest state).1
  keeps_rest (raise problem) rest state holds each = holds
  keeps_rest (ok x) rest state holds each = (each x).at state holds

  pub Keeps-bind :
      (first : Action State X) (rest : X → Action State Y)
      → Keeps Inv first
      → ((x : X) → Keeps Inv (rest x))
      → Keeps Inv (first >>= rest)
  Keeps-bind first rest one each = record {
    at = λ before holds.
        keeps_rest (first before).0 rest (first before).1 (one.at before holds) each;
  }

  pub Keeps-bind_result :
      (result : Result X) (rest : X → Action State Y)
      → ((x : X) → result ≡ ok x → Keeps Inv (rest x))
      → Keeps Inv (from_result result >>= rest)
  Keeps-bind_result (raise problem) rest each = record { at = λ before holds. holds }
  Keeps-bind_result (ok x) rest each = each x refl

-- `Q` holds of the answer and the state after the action, where `P` holds before and the action
-- does not raise.
pub record Ensures {ℓ} {State X : Type ℓ} (P : State → Type ℓ) (Q : X → State → Type ℓ)
    (action : Action State X) : Type ℓ where
  pub at : (before : State) → P before → (x : X) → (action before).0 ≡ ok x → Q x (action before).1

module _ {ℓ} {State X : Type ℓ} {P : State → Type ℓ} where
  pub Ensures-from_result :
      (result : Result X)
      → Ensures P (λ x state. P state × (result ≡ ok x)) (from_result {State = State} result)
  Ensures-from_result result = record { at = λ before p x returned. (p, returned) }

  pub Ensures-Keeps : {action : Action State X} → Keeps P action → Ensures P (λ _. P) action
  Ensures-Keeps keeps = record { at = λ before p x returned. keeps.at before p }

module _ {ℓ} {State X Y : Type ℓ} {Q : X → State → Type ℓ} {R : Y → State → Type ℓ} where
  ensures_rest :
      (result : Result X) (rest : X → Action State Y) (state : State) (y : Y)
      → ((x : X) → result ≡ ok x → Q x state)
      → ((x : X) → Ensures (Q x) R (rest x))
      → (continue result rest state).0 ≡ ok y
      → R y (continue result rest state).1
  ensures_rest (raise problem) rest state y q each returned = cc
  ensures_rest (ok x) rest state y q each returned = (each x).at state (q x refl) y returned

module _ {ℓ} {State X Y : Type ℓ} {P : State → Type ℓ} {Q : X → State → Type ℓ}
    {R : Y → State → Type ℓ} where
  pub Ensures-bind :
      (first : Action State X) (rest : X → Action State Y)
      → Ensures P Q first
      → ((x : X) → Ensures (Q x) R (rest x))
      → Ensures P R (first >>= rest)
  Ensures-bind first rest one each = record {
    at = λ before p y returned.
        ensures_rest (first before).0 rest (first before).1 y (one.at before p) each returned;
  }

-- ===== src/Prelude/Errors.antt =====
-- Python's exceptions as values. A `ValidationError` is raised when a model is constructed; its
-- message is not modelled. An `IntegrityError` comes from the database.
use Prim.Native.String.{String, ◌++◌ as text_append}
use mathlib.Core.Path.{◌≡◌, refl}
use mathlib.Core.Logic.{◌⊎◌, inl, inr}
use verified_agentic_develop.Prelude.Tests.{if◌then◌else◌}
use mathlib.Core.Bool.{Bool, true, false}

pub data Error : Type 0 where
  value_error key_error permission_error runtime_error os_error : String → Error
  validation_error integrity_error index_error : Error

pub data Result {ℓ} (X : Type ℓ) : Type ℓ where
  raise : Error → Result X
  ok : X → Result X

module _ {ℓ κ} {X : Type ℓ} {Y : Type κ} where
  -- an exception skips what follows
  infixl 5 ◌>>=◌
  abbrev pub ◌>>=◌ : Result X → (X → Result Y) → Result Y
  raise problem >>= next = raise problem
  ok x >>= next = next x

  -- a block that returns has a first statement that returns
  pub >>=-eq-ok :
      (first : Result X) (next : X → Result Y) {y : Y}
      → (first >>= next) ≡ ok y
      → (x : X) × (first ≡ ok x) × (next x ≡ ok y)
  >>=-eq-ok (raise problem) next returned = cc
  >>=-eq-ok (ok x) next returned = (x, refl, returned)

-- a statement whose value is not used
infixl 5 ◌>>◌
abbrev pub ◌>>◌ {κ} : {Y : Type κ} → Result (Unit {0}) → Result Y → Result Y
raise problem >> rest = raise problem
ok done >> rest = rest

pub >>-eq-ok {κ} :
    {Y : Type κ} (first : Result (Unit {0})) (rest : Result Y) {y : Y}
    → (first >> rest) ≡ ok y
    → rest ≡ ok y
>>-eq-ok (raise problem) rest returned = cc
>>-eq-ok (ok done) rest returned = returned

-- `if not test: raise problem`
abbrev pub require : Bool → Error → Result (Unit {0})
require test problem = if test then ok tt else raise problem

-- `str(error)`; the texts of the last three are not modelled
unfoldable pub message : Error → String
message (value_error m) = m
message (key_error m) = text_append "'" (text_append m "'")
message (permission_error m) = m
message (runtime_error m) = m
message (os_error m) = m
message _ = ""

-- a constructor that checks its argument returns it, or raises
pub checked-ok {ℓ} :
    {A : Type ℓ} (b : Bool) (x r : A) (e : Error) → (if b then ok x else raise e) ≡ ok r → r ≡ x
checked-ok true x r e h = cc
checked-ok false x r e h = cc

pub checked-cases {ℓ} :
    {A : Type ℓ} (b : Bool) (x : A) (e : Error)
    → ((if b then ok x else raise e) ≡ ok x) ⊎ ((if b then ok x else raise e) ≡ raise e)
checked-cases true x e = inl refl
checked-cases false x e = inr refl

pub ok_eq {ℓ} : {A : Type ℓ} {a b : A} → ok a ≡ ok b → b ≡ a
ok_eq h = cc

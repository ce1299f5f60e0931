-- ===== src/Tests/Feedback.antt =====
-- Proposals on an EIP at concrete inputs.
use Prim.Native.String.{◌++◌ as text_append}
use Prim.Native.String.append
use verified_agentic_develop.Prelude.{
  ℕ, zero, suc, ◌+◌, String, true, [], ◌∷◌, none, some, ◌≡◌, refl, sym, ap, arith, joined,
  text_length, Result, ok, raise, validation_error, ◌∙◌,
}
use verified_agentic_develop.Contracts.{unit_tests, ProofKind}
use verified_agentic_develop.Swarm.Tasks.{done}
use verified_agentic_develop.Feedback.Proposals.{
  FeedbackProposal, add_proof_obligation, numbered, next_obligation_id,
}
use verified_agentic_develop.Feedback.Proposals.Fresh.{IsFirstFree, next_obligation_id-first}

-- a number as so many strokes
abbrev strokes : ℕ → String
strokes zero = ""
strokes (suc n) = String.◌∷◌ "1" (strokes n)

text_length-append : (s t : String) → text_length (text_append s t) ≡ text_length s + text_length t
unfolding text_length
text_length-append String.[] t = ap text_length (append.nil t) ∙ omega arith
text_length-append (String.◌∷◌ c s) t =
    ap text_length (append.cons c s t) ∙ omega (arith, text_length-append s t)

length-strokes : (n : ℕ) → text_length (strokes n) ≡ n
unfolding text_length
length-strokes zero = refl
length-strokes (suc n) = ap suc (length-strokes n)

length-numbered : (n : ℕ) → text_length (numbered strokes n) ≡ 3 + n
unfolding numbered joined text_length
length-numbered n =
    text_length-append "po-" (text_append (strokes n) "")
    ∙ omega (arith, text_length-append (strokes n) "", length-strokes n)

numbered_differ : (m n : ℕ) → numbered strokes m ≡ numbered strokes n → m ≡ n
numbered_differ m n same =
    let e : 3 + m ≡ 3 + n = sym (length-numbered m) ∙ ap text_length same ∙ length-numbered n in
    omega arith

next_obligation_id-first_example :
    (n : ℕ) × (next_obligation_id strokes ("po-1" ∷ "po-111" ∷ []) ≡ done (numbered strokes n))
    × IsFirstFree strokes numbered_differ 1 ("po-1" ∷ "po-111" ∷ []) n
next_obligation_id-first_example =
    next_obligation_id-first strokes numbered_differ ("po-1" ∷ "po-111" ∷ [])

abbrev read_kind : String → Result ProofKind
read_kind t = ok unit_tests

abbrev no_attribute : String → String → Result (Unit {0})
no_attribute category description = raise validation_error

abbrev proposal : FeedbackProposal
proposal = record {
  proposal_type = add_proof_obligation;
  reason = "a run failed";
  payload = record { category = none; description = none; id = none; kind = some "unit" };
  approved = true;
}

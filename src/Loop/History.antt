-- ===== src/Loop/History.antt =====
-- Sequences of transitions of vad/loop/state.py: what they record, and that they are short.
use mathlib.Core.List.{append_assoc, append-nil}
use verified_agentic_develop.Prelude.{
  ok_eq, sym, ap, ◌∙◌, ◌≤◌, ◌+◌, length, >>=-eq-ok, arith, length, ℕ, ◌+◌, ◌≤◌, ◌≡◌, true, List, [],
  ◌∷◌, ◌++◌, Result, ok, ◌>>=◌, is_in, arith,
}
use verified_agentic_develop.Loop.State.{
  initial, LoopStatus, initialized, assessed, planned, policy_checked, building, verifying,
  releasing, feedback, LoopStatus-discrete, allowed_transitions, LoopState, transition,
}

-- the transitions of a list of targets, in order
unfoldable pub follow : LoopState → List LoopStatus → Result LoopState
follow s [] = ok s
follow s (n ∷ ns) = do t ← transition s n; follow t ns

-- how many transitions a status has ahead of it at most
abbrev rank : LoopStatus → ℕ
rank initialized = 8
rank assessed = 7
rank planned = 6
rank policy_checked = 5
rank building = 4
rank verifying = 3
rank releasing = 2
rank feedback = 1
rank _ = 0

abbrev pub IsTerminal : LoopStatus → Type 0
IsTerminal n = allowed_transitions n ≡ []

allowed-rank :
    (a b : LoopStatus)
    → is_in LoopStatus-discrete b (allowed_transitions a) ≡ true
    → rank b + 1 ≤ rank a
unfolding allowed_transitions LoopStatus-discrete
allowed-rank initialized b h = ground arith
allowed-rank assessed b h = ground arith
allowed-rank planned b h = ground arith
allowed-rank policy_checked b h = ground arith
allowed-rank building b h = ground arith
allowed-rank verifying b h = ground arith
allowed-rank releasing b h = ground arith
allowed-rank feedback b h = ground arith
allowed-rank _ b h = ground arith

-- what a successful transition returns
pub transition-ok :
    (s t : LoopState) (n : LoopStatus)
    → transition s n ≡ ok t
    → (t ≡ record { status = n; history = s.history ++ n ∷ [] })
      × (is_in LoopStatus-discrete n (allowed_transitions s.status) ≡ true)
unfolding transition
transition-ok s t n h = ground arith

follow-rank :
    (s t : LoopState) (path : List LoopStatus)
    → follow s path ≡ ok t
    → (t.history ≡ s.history ++ path) × (length path + rank t.status ≤ rank s.status)
unfolding follow
follow-rank s t [] h = (
  ap (λ x. x.history) (ok_eq h) ∙ sym (append-nil s.history),
  omega (arith, ap (λ x. rank x.status) (ok_eq h)),
)
follow-rank s t (n ∷ ns) h =
    let (u, first, rest) = >>=-eq-ok (transition s n) (λ u. follow u ns) h in
    let (made, edge) = transition-ok s u n first in
    let (history, bound) = follow-rank u t ns rest in
    (
      history ∙ ap (λ x. x.history ++ ns) made ∙ append_assoc s.history (n ∷ []) ns,
      omega (arith, bound, ap (λ x. rank x.status) made, allowed-rank s.status n edge),
    )

-- A sequence of transitions from the initial state that raises nothing has at most 8 steps, and the
-- history it leaves is `initialized` and then the sequence itself.
pub follow-bounded :
    (t : LoopState) (path : List LoopStatus)
    → follow initial path ≡ ok t
    → (length path ≤ 8) × (t.history ≡ initialized ∷ path)
follow-bounded t path h = let (e, b) = follow-rank initial t path h in (omega (arith, b), e)

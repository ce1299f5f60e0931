-- ===== src/Prelude/Text.antt =====
-- Python's operations on `str` over the native text.
use Prim.Native.Nat.{ℕ, suc}
use Prim.Native.Char.{code}
use Prim.Native.String.{String, ◌++◌ as text_append}
use mathlib.Core.Bool.{Bool, true, false, ◌&&◌, ◌||◌}
use mathlib.Core.List.{List, [], ◌∷◌}
use text.Mathlib.Text.{◌==◌}
use verified_agentic_develop.Prelude.Tests.{if◌then◌else◌, eqb, ltb, leb}

-- `len(s)`: the number of characters
unfoldable pub text_length : String → ℕ
text_length String.[] = 0
text_length (String.◌∷◌ c s) = suc (text_length s)

-- `s.startswith(t)`
pub has_prefix : String → String → Bool
has_prefix s String.[] = true
has_prefix String.[] (String.◌∷◌ d t) = false
has_prefix (String.◌∷◌ c s) (String.◌∷◌ d t) = eqb (code c) (code d) && has_prefix s t

-- `t in s`
unfoldable pub contains : String → String → Bool
unfolding has_prefix
contains String.[] t = has_prefix String.[] t
contains (String.◌∷◌ c s) t = has_prefix (String.◌∷◌ c s) t || contains s t

-- `x in {"a", "b"}` over texts
unfoldable pub elem : String → List String → Bool
elem x [] = false
elem x (y ∷ ys) = if x == y then true else elem x ys

-- `s <= t`: by code points
unfoldable pub text_leb : String → String → Bool
text_leb String.[] t = true
text_leb (String.◌∷◌ c s) String.[] = false
text_leb (String.◌∷◌ c s) (String.◌∷◌ d t) =
    let rest = text_leb s t in
    if ltb (code c) (code d) then true else if eqb (code c) (code d) then rest else false

-- any of the texts occurs in `s`
unfoldable pub contains_any : String → List String → Bool
unfolding contains
contains_any s [] = false
contains_any s (t ∷ ts) = contains s t || contains_any s ts

-- `any(separator in value for separator in ["/", "\\", "\n", "\r", "\t"])`, on code points
is_separator : ℕ → Bool
is_separator n = eqb n 47 || eqb n 92 || eqb n 10 || eqb n 13 || eqb n 9

unfoldable pub has_separator : String → Bool
unfolding is_separator
has_separator String.[] = false
has_separator (String.◌∷◌ c s) = is_separator (code c) || has_separator s

is_control : ℕ → Bool
is_control n = eqb n 10 || eqb n 13 || eqb n 9

unfoldable pub has_control : String → Bool
unfolding is_control
has_control String.[] = false
has_control (String.◌∷◌ c s) = is_control (code c) || has_control s

-- `[a-f0-9]`
is_hex : ℕ → Bool
is_hex n = (leb 48 n && leb n 57) || (leb 97 n && leb n 102)

are_hex : String → Bool
unfolding is_hex
are_hex String.[] = true
are_hex (String.◌∷◌ c s) = is_hex (code c) && are_hex s

-- `[a-f0-9]{64}`
unfoldable pub is_digest : String → Bool
unfolding are_hex text_length
is_digest s = eqb (text_length s) 64 && are_hex s

-- an f-string: its pieces joined
unfoldable pub joined : List String → String
joined [] = ""
joined (s ∷ ss) = text_append s (joined ss)

-- `separator.join(texts)`
unfoldable pub join : String → List String → String
join separator [] = ""
join separator (s ∷ []) = s
join separator (s ∷ t ∷ ss) = text_append s (text_append separator (join separator (t ∷ ss)))

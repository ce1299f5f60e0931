-- ===== src/Prelude/Lines.antt =====
-- `str.splitlines`, `str.split` at one character and `str.strip`, over code points.
use verified_agentic_develop.Prelude.Tests.{if◌then◌else◌, eqb, leb}
use mathlib.Core.Bool.{Bool, true, false, ◌&&◌, ◌||◌}
use mathlib.Core.List.{List, [], ◌∷◌, ◌++◌, reverse}
use Prim.Native.Nat.{suc, ℕ, zero}
use Prim.Native.Char.{code}
use Prim.Native.String.{String}

-- The code points of a text.
abbrev pub codes : String → List ℕ
codes String.[] = []
codes (String.◌∷◌ c s) = code c ∷ codes s

-- the characters that end a line
abbrev pub is_line_break : ℕ → Bool
is_line_break c =
    (leb 10 c && leb c 13) || (leb 28 c && leb c 30) || eqb c 133 || eqb c 8232 || eqb c 8233

abbrev pub is_space : ℕ → Bool
is_space c =
    (leb 9 c && leb c 13)
    || (leb 28 c && leb c 32)
    || eqb c 133
    || eqb c 160
    || eqb c 5760
    || (leb 8192 c && leb c 8202)
    || eqb c 8232
    || eqb c 8233
    || eqb c 8239
    || eqb c 8287
    || eqb c 12288

-- the last line has no end, and is none if it is empty
abbrev pub last_line : List ℕ → List (List ℕ)
last_line [] = []
last_line (c ∷ cs) = (c ∷ cs) ∷ []

-- `line` is what was read of the line, and `after_cr` says that a carriage return was just read, so
-- that a line feed belongs to it
unfoldable pub lines_from : List ℕ → Bool → List ℕ → List (List ℕ)
lines_from line after_cr [] = last_line line
lines_from line after_cr (c ∷ cs) =
    let skipped = lines_from [] false cs in
    let ended = line ∷ lines_from [] (eqb c 13) cs in
    let longer = lines_from (line ++ c ∷ []) false cs in
    if after_cr && eqb c 10 then skipped else if is_line_break c then ended else longer

unfoldable pub splitlines : List ℕ → List (List ℕ)
unfolding lines_from
splitlines = lines_from [] false

-- `text.split(separator)`
unfoldable pub parts_from : List ℕ → ℕ → List ℕ → List (List ℕ)
parts_from part separator [] = part ∷ []
parts_from part separator (c ∷ cs) =
    let ended = part ∷ parts_from [] separator cs in
    let longer = parts_from (part ++ c ∷ []) separator cs in
    if eqb c separator then ended else longer

unfoldable pub split_at : ℕ → List ℕ → List (List ℕ)
unfolding parts_from
split_at = parts_from []

unfoldable pub lstrip : List ℕ → List ℕ
lstrip [] = []
lstrip (c ∷ cs) = if is_space c then lstrip cs else c ∷ cs

unfoldable pub strip : List ℕ → List ℕ
unfolding lstrip
strip cs = reverse (lstrip (reverse (lstrip cs)))

-- `text.splitlines(keepends=True)`: `line` is what was read of the line, and `after_cr` says that it ends
-- in a carriage return, to which a line feed belongs
unfoldable pub keep_from : List ℕ → Bool → List ℕ → List (List ℕ)
keep_from line after_cr [] = last_line line
keep_from line after_cr (c ∷ cs) =
    let ended = (line ++ c ∷ []) ∷ keep_from [] false cs in
    let open_cr = keep_from (line ++ c ∷ []) true cs in
    let longer = keep_from (line ++ c ∷ []) false cs in
    let next_ended = line ∷ (c ∷ []) ∷ keep_from [] false cs in
    let next_cr = line ∷ keep_from (c ∷ []) true cs in
    let next_line = line ∷ keep_from (c ∷ []) false cs in
    if after_cr
    then (if eqb c 10
        then ended
        else if eqb c 13
        then next_cr
        else if is_line_break c
        then next_ended
        else next_line)
    else (if eqb c 13 then open_cr else if is_line_break c then ended else longer)

unfoldable pub splitlines_keepends : List ℕ → List (List ℕ)
unfolding keep_from
splitlines_keepends = keep_from [] false

-- `text.startswith(prefix)`
unfoldable pub starts_with : List ℕ → List ℕ → Bool
starts_with [] text = true
starts_with (p ∷ ps) [] = false
starts_with (p ∷ ps) (c ∷ cs) = eqb p c && starts_with ps cs

-- `text == other`
unfoldable pub same_text : List ℕ → List ℕ → Bool
same_text [] [] = true
same_text [] (d ∷ ds) = false
same_text (c ∷ cs) [] = false
same_text (c ∷ cs) (d ∷ ds) = eqb c d && same_text cs ds

-- `text <= other`, by code points
unfoldable pub text_le : List ℕ → List ℕ → Bool
text_le [] ds = true
text_le (c ∷ cs) [] = false
text_le (c ∷ cs) (d ∷ ds) = let rest = text_le cs ds in if eqb c d then rest else leb c d

-- `text[n:]`
unfoldable pub drop : ℕ → List ℕ → List ℕ
drop zero cs = cs
drop (suc n) [] = []
drop (suc n) (c ∷ cs) = drop n cs

-- ===== src/Repo/Patch.antt =====
-- vad/repo/patch_apply.py: reading a unified diff, and applying its hunks to the lines of a file.
pub mod Script
use verified_agentic_develop.Prelude.{
  ℕ, zero, suc, ◌+◌, ◌-◌, Bool, true, false, List, [], ◌∷◌, ◌++◌, Option, none, some, length, ltb,
  eqb, if◌then◌else◌, ◌||◌,
}
use verified_agentic_develop.Prelude.Options.{◌>>=◌}
use verified_agentic_develop.Prelude.Int.{ℤ, pos, negsuc}
use verified_agentic_develop.Prelude.Lines.{
  codes, split_at, strip, starts_with, same_text, drop, splitlines_keepends,
}

-- a text is the list of its code points, and a line ends with its line break
abbrev pub Text : Type 0
Text = List ℕ

pub record FilePatch : Type 0 where
  pub path : Text
  pub hunks : List (List Text)

unfoldable pub clean_diff_path : Text → Text
unfolding starts_with drop
clean_diff_path path =
    if starts_with (codes "b/") path || starts_with (codes "a/") path then drop 2 path else path

-- where the loops of `_parse_unified_diff` are: before a file, after its `---` line, among its hunks, and
-- in a hunk. A file has its path and its earlier hunks, and a hunk its earlier lines.
pub data Place : Type 0 where
  outside after_old : Place
  in_file : Text → List (List Text) → Place
  in_hunk : Text → List (List Text) → List Text → Place

-- the file that ends here
unfoldable pub closed : Place → List FilePatch → List FilePatch
closed (in_file path hunks) patches = patches ++ record { path = path; hunks = hunks } ∷ []
closed (in_hunk path hunks hunk) patches =
    patches ++ record { path = path; hunks = hunks ++ hunk ∷ [] } ∷ []
closed _ patches = patches

-- `none` stands for `return []` at a file without a `+++` line
unfoldable pub next_place : Place → Text → Option Place
unfolding clean_diff_path
next_place outside line = if starts_with (codes "--- ") line then some after_old else some outside
next_place after_old line =
    if starts_with (codes "+++ ") line
    then some (in_file (clean_diff_path (strip (drop 4 line))) [])
    else none
next_place (in_file path hunks) line =
    if starts_with (codes "--- ") line
    then some after_old
    else if starts_with (codes "@@") line
    then some (in_hunk path hunks (line ∷ []))
    else some (in_file path hunks)
next_place (in_hunk path hunks hunk) line =
    if starts_with (codes "--- ") line
    then some after_old
    else if starts_with (codes "@@") line
    then some (in_hunk path (hunks ++ hunk ∷ []) (line ∷ []))
    else some (in_hunk path hunks (hunk ++ line ∷ []))

-- the end of the text; after a `---` line it is `return []` again
unfoldable pub read_end : Place → List FilePatch → List FilePatch
unfolding closed
read_end after_old patches = []
read_end place patches = closed place patches

-- a `---` line ends the file before it
unfoldable pub read_lines : Place → List FilePatch → List Text → List FilePatch
unfolding next_place read_end
read_lines place patches [] = read_end place patches
read_lines place patches (line ∷ lines) = elim (next_place place line) [
  | none ↦ []
  | some next ↦
      read_lines next (if starts_with (codes "--- ") line then closed place patches else patches)
        lines
]

unfoldable pub parse_unified_diff : Text → List FilePatch
unfolding read_lines
parse_unified_diff patch_text = read_lines outside [] (splitlines_keepends patch_text)

-- `text.lstrip("-")`
unfoldable pub strip_dashes : Text → Text
strip_dashes [] = []
strip_dashes (c ∷ cs) = let rest = strip_dashes cs in if eqb c 45 then rest else c ∷ cs

unfoldable pub first_part : List Text → Text
first_part [] = []
first_part (part ∷ parts) = part

-- `header.split(" ", 2)[1]`, where it exists
unfoldable pub second_part : List Text → Option Text
second_part (first ∷ second ∷ rest) = some second
second_part _ = none

-- `int_of` stands for `int`; it has no value where `int` raises a ValueError
unfoldable pub old_start : (Text → Option ℤ) → Text → Option ℤ
unfolding strip_dashes first_part second_part
old_start int_of header = do
  old_range ← second_part (split_at 32 header)
  int_of (first_part (split_at 44 (strip_dashes old_range)))

-- `max(0, old_start - 1)`
unfoldable pub target_index : ℤ → ℕ
target_index (pos n) = n - 1
target_index (negsuc n) = 0

-- the variables of `_apply_hunks`, with `original[cursor:]` beside the cursor
pub record Cursor : Type 0 where
  pub cursor : ℕ
  pub rest : List Text
  pub output : List Text

-- `output.extend(original[cursor:target_index]); cursor = target_index`, for so many lines
unfoldable pub copy_lines : ℕ → List Text → ℕ → List Text → Cursor
copy_lines n [] cursor output = record { cursor = cursor + n; rest = []; output = output }
copy_lines zero (line ∷ rest) cursor output = record {
  cursor = cursor;
  rest = line ∷ rest;
  output = output;
}
copy_lines (suc n) (line ∷ rest) cursor output =
    copy_lines n rest (suc cursor) (output ++ line ∷ [])

-- the line at the cursor has to be this one
unfoldable pub match_line : Text → List Text → Option (List Text)
match_line content [] = none
match_line content (line ∷ rest) = if same_text line content then some rest else none

unfoldable pub keep_line : Text → Cursor → Option Cursor
unfolding match_line
keep_line content c = do
  rest ← match_line content c.rest
  some (record { cursor = c.cursor + 1; rest = rest; output = c.output ++ content ∷ [] })

unfoldable pub remove_line : Text → Cursor → Option Cursor
unfolding match_line
remove_line content c = do
  rest ← match_line content c.rest
  some (record { cursor = c.cursor + 1; rest = rest; output = c.output })

-- one line of a hunk: its first character is the marker
unfoldable pub apply_line : Text → Cursor → Option Cursor
unfolding keep_line remove_line
apply_line [] c = none
apply_line (marker ∷ content) c =
    if eqb marker 92
    then some c
    else if eqb marker 32
    then keep_line content c
    else if eqb marker 45
    then remove_line content c
    else if eqb marker 43
    then some (record c { output = c.output ++ content ∷ [] })
    else none

unfoldable pub apply_lines : List Text → Cursor → Option Cursor
unfolding apply_line
apply_lines [] c = some c
apply_lines (line ∷ lines) c = do next ← apply_line line c; apply_lines lines next

-- the tests at the head of a hunk
unfoldable pub start_hunk : Option ℤ → Cursor → Option Cursor
unfolding target_index copy_lines
start_hunk none c = none
start_hunk (some start) c =
    let target = target_index start in
    if ltb target c.cursor || ltb (c.cursor + length c.rest) target
    then none
    else some (copy_lines (target - c.cursor) c.rest c.cursor c.output)

unfoldable pub apply_hunk : (Text → Option ℤ) → List Text → Cursor → Option Cursor
unfolding old_start start_hunk
apply_hunk int_of [] c = none
apply_hunk int_of (header ∷ lines) c = do
  here ← start_hunk (old_start int_of header) c
  apply_lines lines here

unfoldable pub apply_all : (Text → Option ℤ) → List (List Text) → Cursor → Option (List Text)
unfolding apply_hunk
apply_all int_of [] c = some (c.output ++ c.rest)
apply_all int_of (hunk ∷ hunks) c = do next ← apply_hunk int_of hunk c; apply_all int_of hunks next

unfoldable pub apply_hunks : (Text → Option ℤ) → List Text → List (List Text) → Option (List Text)
unfolding apply_all
apply_hunks int_of original hunks =
    apply_all int_of hunks (record { cursor = 0; rest = original; output = [] })

-- ===== src/Repo/Patch/Script.antt =====
-- vad/repo/patch_apply.py: the hunks of an edit script turn the old lines into the new ones.
use verified_agentic_develop.Prelude.{
  ℕ, suc, ◌+◌, ◌-◌, true, false, List, [], ◌∷◌, ◌++◌, Option, some, length, length-append, ltb, ◌≡◌,
  refl, arith, ◌∙◌, sym, if_true, map,
}
use mathlib.Core.List.{append-nil, append_assoc}
use verified_agentic_develop.Prelude.Int.{ℤ, pos}
use verified_agentic_develop.Prelude.Lines.{same_text}
use verified_agentic_develop.Repo.Patch.{
  Text, old_start, target_index, Cursor, copy_lines, match_line, keep_line, remove_line, apply_line,
  apply_lines, start_hunk, apply_hunk, apply_all, apply_hunks,
}

-- what a script does with the lines of a file
pub data Edit : Type 0 where
  keep : Text → Edit
  remove : Text → Edit
  insert : Text → Edit

-- lines that stay outside the hunks, and then a hunk
pub record Chunk : Type 0 where
  pub gap : List Text
  pub edits : List Edit

abbrev pub old_lines : List Edit → List Text
old_lines [] = []
old_lines (keep line ∷ es) = line ∷ old_lines es
old_lines (remove line ∷ es) = line ∷ old_lines es
old_lines (insert line ∷ es) = old_lines es

abbrev pub new_lines : List Edit → List Text
new_lines [] = []
new_lines (keep line ∷ es) = line ∷ new_lines es
new_lines (remove line ∷ es) = new_lines es
new_lines (insert line ∷ es) = line ∷ new_lines es

abbrev pub printed : Edit → Text
printed (keep line) = 32 ∷ line
printed (remove line) = 45 ∷ line
printed (insert line) = 43 ∷ line

-- the file before and after, with `tail` for the lines after the last hunk
abbrev pub old_file : List Chunk → List Text → List Text
old_file [] tail = tail
old_file (c ∷ cs) tail = c.gap ++ (old_lines c.edits ++ old_file cs tail)

abbrev pub new_file : List Chunk → List Text → List Text
new_file [] tail = tail
new_file (c ∷ cs) tail = c.gap ++ (new_lines c.edits ++ new_file cs tail)

-- the hunks, each under the header for the number of its first old line
abbrev pub hunks_from : (ℕ → Text) → ℕ → List Chunk → List (List Text)
hunks_from header before [] = []
hunks_from header before (c ∷ cs) =
    let start = before + length c.gap in
    (header (suc start) ∷ map printed c.edits)
    ∷ hunks_from header (start + length (old_lines c.edits)) cs

pub same_text_self : (t : Text) → same_text t t ≡ true
unfolding same_text
same_text_self [] = refl
same_text_self (c ∷ cs) = ground (arith, same_text_self cs)

match_self : (line : Text) (rest : List Text) → match_line line (line ∷ rest) ≡ some rest
unfolding match_line
match_self line rest = if_true _ _ (same_text_self line)

-- the cursor after so many lines
abbrev moved : ℕ → List Text → List Text → Cursor
moved n rest output = record { cursor = n; rest = rest; output = output }

keep-here :
    (line : Text) (n : ℕ) (after output : List Text)
    → keep_line line (moved n (line ∷ after) output)
      ≡ some (moved (n + 1) after (output ++ line ∷ []))
unfolding keep_line
keep-here line n after output = rw (match_self line after) refl

remove-here :
    (line : Text) (n : ℕ) (after output : List Text)
    → remove_line line (moved n (line ∷ after) output) ≡ some (moved (n + 1) after output)
unfolding remove_line
remove-here line n after output = rw (match_self line after) refl

moved_eq :
    {m n : ℕ} {rest out out' : List Text}
    → m ≡ n
    → out ≡ out'
    → some (moved m rest out) ≡ some (moved n rest out')
moved_eq e f = cc

-- the edits of a hunk take their old lines and put out their new ones
apply_lines-edits :
    (es : List Edit) (n : ℕ) (after output : List Text)
    → apply_lines (map printed es) (moved n (old_lines es ++ after) output)
      ≡ some (moved (n + length (old_lines es)) after (output ++ new_lines es))
unfolding apply_lines apply_line
apply_lines-edits [] n after output = moved_eq (omega arith) (sym (append-nil output))
apply_lines-edits (keep line ∷ es) n after output =
    rw (keep-here line n (old_lines es ++ after) output) (
      apply_lines-edits es (n + 1) after (output ++ line ∷ [])
      ∙ moved_eq (omega arith) (append_assoc output (line ∷ []) (new_lines es)))
apply_lines-edits (remove line ∷ es) n after output =
    rw (remove-here line n (old_lines es ++ after) output)
      (apply_lines-edits es (n + 1) after output ∙ moved_eq (omega arith) refl)
apply_lines-edits (insert line ∷ es) n after output =
    apply_lines-edits es n after (output ++ line ∷ [])
    ∙ moved_eq refl (append_assoc output (line ∷ []) (new_lines es))

copy_lines-gap :
    (gap rest : List Text) (n : ℕ) (output : List Text)
    → some (copy_lines (length gap) (gap ++ rest) n output)
      ≡ some (moved (n + length gap) rest (output ++ gap))
unfolding copy_lines
copy_lines-gap [] [] n output = moved_eq refl (sym (append-nil output))
copy_lines-gap [] (line ∷ rest) n output = moved_eq (omega arith) (sym (append-nil output))
copy_lines-gap (line ∷ gap) rest n output =
    copy_lines-gap gap rest (suc n) (output ++ line ∷ [])
    ∙ moved_eq (omega arith) (append_assoc output (line ∷ []) gap)

start_hunk-gap :
    (gap rest : List Text) (n : ℕ) (output : List Text)
    → start_hunk (some (pos (suc (n + length gap)))) (moved n (gap ++ rest) output)
      ≡ some (moved (n + length gap) rest (output ++ gap))
unfolding start_hunk target_index
start_hunk-gap gap rest n output =
    let a : ltb (n + length gap) n ≡ false = ground arith in
    let size = length-append gap rest in
    let b : ltb (n + length (gap ++ rest)) (n + length gap) ≡ false = ground (arith, size) in
    let skip : suc (n + length gap) - 1 - n ≡ length gap = omega arith in
    let at : suc (n + length gap) - 1 ≡ n + length gap = omega arith in
    rw (skip, at, a, b) (copy_lines-gap gap rest n output)

module _ (int_of : Text → Option ℤ) (header : ℕ → Text)
    (reads : (n : ℕ) → old_start int_of (header n) ≡ some (pos n)) where
  apply_all-script :
      (cs : List Chunk) (tail : List Text) (n : ℕ) (output : List Text)
      → apply_all int_of (hunks_from header n cs) (moved n (old_file cs tail) output)
        ≡ some (output ++ new_file cs tail)
  unfolding apply_all apply_hunk
  apply_all-script [] tail n output = refl
  apply_all-script (c ∷ cs) tail n output =
      let rest = old_lines c.edits ++ old_file cs tail in
      let at = n + length c.gap in
      rw
        (
          reads (suc at),
          start_hunk-gap c.gap rest n output,
          apply_lines-edits c.edits at (old_file cs tail) (output ++ c.gap),
        )
        (apply_all-script cs tail (at + length (old_lines c.edits))
            ((output ++ c.gap) ++ new_lines c.edits)
          ∙ simp append_assoc)

  -- The hunks of an edit script, each under a header that names its first old line, apply to the old lines
  -- of the file, and the result is the new lines.
  pub apply_hunks-script :
      (cs : List Chunk) (tail : List Text)
      → apply_hunks int_of (old_file cs tail) (hunks_from header 0 cs) ≡ some (new_file cs tail)
  unfolding apply_hunks
  apply_hunks-script cs tail = apply_all-script cs tail 0 []

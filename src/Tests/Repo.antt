-- ===== src/Tests/Repo.antt =====
-- Diffs, proposals, deployments, routes and the life of the control plane at concrete inputs.
use verified_agentic_develop.Prelude.{
  ◌++◌, ℕ, ◌+◌, ◌-◌, true, false, List, [], ◌∷◌, Option, none, some, ok, ◌≡◌, refl, arith, leb,
  if◌then◌else◌, ◌&&◌,
}
use verified_agentic_develop.Prelude.Int.{ℤ, pos}
use verified_agentic_develop.Prelude.Lines.{
  same_text, codes, strip, splitlines_keepends, starts_with, split_at, parts_from,
}
use verified_agentic_develop.Policy.{PolicyDecision}
use verified_agentic_develop.Guards.Filesystem.{resolve_write, Disk, Files}
use verified_agentic_develop.Repo.Patch.{
  apply_lines, Text, old_start, strip_dashes, first_part, second_part, apply_hunks,
  parse_unified_diff,
}
use verified_agentic_develop.Repo.Patch.Script.{
  keep, remove, insert, Chunk, old_file, hunks_from, apply_hunks-script,
}
use verified_agentic_develop.Repo.Apply.{
  apply_unified_diff, plan_writes, target_of, capture, concat,
}
use verified_agentic_develop.Repo.Apply.Restore.{IsSound, apply_unified_diff-IsSound}
use verified_agentic_develop.Repo.Proposal.{Application}

-- a number is one code point from 1000 on
abbrev read_point : Text → Option ℤ
read_point (c ∷ []) = some (pos (c - 1000))
read_point _ = none

abbrev header : ℕ → Text
header n = 64 ∷ 64 ∷ 32 ∷ 45 ∷ (n + 1000) ∷ 32 ∷ []

header_read : (n : ℕ) → old_start read_point (header n) ≡ some (pos n)
unfolding old_start strip_dashes first_part second_part split_at parts_from
header_read n = ground arith

abbrev chunks : List Chunk
chunks =
    record {
      gap = codes "a" ∷ [];
      edits = keep (codes "b") ∷ remove (codes "c") ∷ insert (codes "d") ∷ [];
    }
    ∷ record { gap = []; edits = remove (codes "e") ∷ [] }
    ∷ []

apply_hunks-script_example :
    apply_hunks read_point (old_file chunks (codes "f" ∷ [])) (hunks_from header 0 chunks)
    ≡ some (codes "a" ∷ codes "b" ∷ codes "d" ∷ codes "f" ∷ [])
apply_hunks-script_example =
    apply_hunks-script read_point header header_read chunks (codes "f" ∷ [])

-- a disk of texts, with every file under the root `/r`
abbrev text_disk : Disk Text
text_disk = record {
  is_absolute = λ p. starts_with (codes "/") p;
  resolve = λ p. codes "/r/" ++ p;
  resolve_parent = λ p. codes "/r/" ++ p;
  inside = λ p. starts_with (codes "/r/") p;
  decode = ok;
  encode = λ t. t;
  no_bytes = [];
  read_fault = λ files p. none;
  text_fault = λ files p t. none;
  bytes_fault = λ files p t. none;
  unlink_fault = λ files p. none;
}

abbrev one_file : Files Text
one_file k = if same_text k (codes "/r/x") then some (codes "old\n") else none

abbrev read_digit : Text → Option ℤ
read_digit (c ∷ []) = if leb 48 c && leb c 57 then some (pos (c - 48)) else none
read_digit _ = none

abbrev small_patch : Text
small_patch = codes "--- a/x\n+++ b/x\n@@ -1 +1 @@\n-old\n+new\n"

patched :
    (apply_unified_diff text_disk read_digit small_patch one_file).1 (codes "/r/x")
    ≡ some (codes "new\n")
unfolding apply_unified_diff parse_unified_diff splitlines_keepends plan_writes target_of
    resolve_write strip same_text apply_hunks split_at apply_lines capture concat
patched = refl

apply_unified_diff-IsSound_example :
    IsSound text_disk read_digit one_file
      (parse_unified_diff small_patch)
      (apply_unified_diff text_disk read_digit small_patch one_file)
apply_unified_diff-IsSound_example =
    apply_unified_diff-IsSound text_disk read_digit small_patch one_file

abbrev yes_decision : PolicyDecision
yes_decision = record { allow = true; reasons = []; denials = []; requires_human = false }

abbrev application : Application Text
application = record {
  disk = text_disk;
  int_of = read_digit;
  digest = λ t. "digest";
  patch_digest = λ j. "digest";
  now = "now";
  proposal = record {
    proposal_id = "p";
    run_id = "r";
    task_id = "t";
    submitted_by = "builder";
    role = "builder";
    patch_text = small_patch;
    patch_digest = "digest";
    changed_files = codes "y" ∷ [];
    created_at = "now";
    summary = "change x";
  };
  verifier_decision = yes_decision;
  release_guardian_decision = yes_decision;
}

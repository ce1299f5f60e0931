-- ===== src/Repo/Proposal.antt =====
-- vad/repo/diff_workflow.py: proposals to change files, and the application of an approved one. A time and
-- a new id are arguments, `sha256` gives the hexadecimal digest of a text, and `digest` that of bytes.
pub mod Approved
use verified_agentic_develop.Prelude.{
  ℕ, Bool, true, false, not, List, [], ◌∷◌, ◌++◌, Option, none, some, String, Result, ok, raise,
  ◌>>=◌, value_error, os_error, Error, validation_error, map, if◌then◌else◌, ◌&&◌, ◌||◌,
  text_length, has_separator, is_digest, length, leb, ltb, any_of, eqb,
}
use verified_agentic_develop.Prelude.Sort.{sort}
use verified_agentic_develop.Prelude.Int.{ℤ}
use verified_agentic_develop.Prelude.Lines.{codes, starts_with, same_text, text_le, split_at}
use verified_agentic_develop.Policy.{PolicyDecision}
use verified_agentic_develop.Guards.Filesystem.{FilePath, Disk, Files}
use verified_agentic_develop.Repo.Patch.{Text}
use verified_agentic_develop.Repo.Apply.{
  PatchJournal, RollbackResult, PatchApplyResult, rollback, apply_unified_diff,
}

pub record DiffProposal : Type 0 where
  pub proposal_id : String
  pub run_id : String
  pub task_id : String
  pub submitted_by : String
  pub role : String
  pub patch_text : Text
  pub patch_digest : String
  pub changed_files : List FilePath
  pub created_at : String
  pub summary : String

-- the fields' limits and `identifiers_must_be_safe`
unfoldable pub diff_proposal : DiffProposal → Result DiffProposal
diff_proposal p =
    if leb (text_length p.proposal_id) 120
      && not (
          any_of has_separator
            (p.proposal_id ∷ p.run_id ∷ p.task_id ∷ p.submitted_by ∷ p.role ∷ []))
      && ltb 0 (length p.patch_text)
      && is_digest p.patch_digest
      && ltb 0 (length p.changed_files)
      && ltb 0 (text_length p.summary)
      && leb (text_length p.summary) 300
    then ok p
    else raise validation_error

-- `path.replace("\\", "/")`
unfoldable pub with_slashes : FilePath → FilePath
with_slashes [] = []
with_slashes (c ∷ cs) = (if eqb c 92 then 47 else c) ∷ with_slashes cs

-- `path.startswith("/") or ".." in path.split("/")`
unfoldable pub is_unsafe : FilePath → Bool
is_unsafe path = starts_with (codes "/") path || any_of (same_text (codes "..")) (split_at 47 path)

-- the message names the path
unfoldable pub normalize_changed_files : List FilePath → Result (List FilePath)
unfolding with_slashes is_unsafe
normalize_changed_files [] = ok []
normalize_changed_files (path ∷ paths) =
    if is_unsafe (with_slashes path)
    then raise (value_error "unsafe changed file path")
    else (do rest ← normalize_changed_files paths; ok (with_slashes path ∷ rest))

-- `given` has the arguments, the new id and the time
unfoldable pub create_diff_proposal :
    (Text → String) → DiffProposal → List FilePath → Result DiffProposal
unfolding normalize_changed_files diff_proposal
create_diff_proposal sha256 given changed_files = do
  normalized ← normalize_changed_files changed_files
  diff_proposal (record given {
    patch_digest = sha256 given.patch_text;
    changed_files = sort text_le normalized;
  })

pub record DiffApplyRecord : Type 0 where
  pub proposal_id : String
  pub run_id : String
  pub task_id : String
  pub applied : Bool
  pub changed_files : List FilePath
  pub verifier_decision : PolicyDecision
  pub release_guardian_decision : PolicyDecision
  pub before_digest : Option String
  pub after_file_digests : List (FilePath × String)
  pub blocker : Option Text
  pub created_at : String

unfoldable pub approval_blocker : PolicyDecision → PolicyDecision → Option Text
approval_blocker verifier_decision release_guardian_decision =
    if not verifier_decision.allow
    then some (codes "verifier approval required before diff apply")
    else if not release_guardian_decision.allow
    then some (codes "release guardian approval required before diff apply")
    else none

-- two lists of paths are equal
unfoldable pub same_paths : List FilePath → List FilePath → Bool
same_paths [] [] = true
same_paths [] (q ∷ qs) = false
same_paths (p ∷ ps) [] = false
same_paths (p ∷ ps) (q ∷ qs) = same_text p q && same_paths ps qs

-- what a record is made from
pub record Application (B : Type 0) : Type 0 where
  pub disk : Disk B
  pub int_of : Text → Option ℤ
  pub digest : B → String
  pub patch_digest : PatchJournal B → String
  pub now : String
  pub proposal : DiffProposal
  pub verifier_decision : PolicyDecision
  pub release_guardian_decision : PolicyDecision

module _ {B : Type 0} (a : Application B) where
  -- a file's bytes, or what reading them raises
  unfoldable pub read_bytes : Option Error → Option B → Result B
  read_bytes (some problem) content = raise problem
  read_bytes none none = raise (os_error "No such file or directory")
  read_bytes none (some bytes) = ok bytes

  unfoldable pub file_digests : Files B → List FilePath → Result (List (FilePath × String))
  unfolding read_bytes
  file_digests files [] = ok []
  file_digests files (path ∷ paths) =
      let target = a.disk.resolve path in
      if not (a.disk.inside target)
      then raise (value_error "path is not in the subpath of the root")
      else do
        bytes ← read_bytes (a.disk.read_fault files target) (files target)
        rest ← file_digests files paths
        ok ((path, a.digest bytes) ∷ rest)

  unfoldable pub apply_record :
      Bool
      → List FilePath
      → Option String
      → List (FilePath × String)
      → Option Text
      → DiffApplyRecord
  apply_record applied changed_files before_digest after_file_digests blocker = record {
    proposal_id = a.proposal.proposal_id;
    run_id = a.proposal.run_id;
    task_id = a.proposal.task_id;
    applied = applied;
    changed_files = changed_files;
    verifier_decision = a.verifier_decision;
    release_guardian_decision = a.release_guardian_decision;
    before_digest = before_digest;
    after_file_digests = after_file_digests;
    blocker = blocker;
    created_at = a.now;
  }

  unfoldable pub rollback_blocker : RollbackResult → Text
  rollback_blocker r =
      if r.rolled_back
      then codes "applied files do not match approved proposal"
      else codes "applied files do not match approved proposal; rollback failed: "
        ++ (elim r.blocker [ none ↦ codes "None" | some reason ↦ reason ])

  -- the applied files are compared with the approved ones
  unfoldable pub compare_files :
      PatchJournal B → List FilePath → Files B → Result DiffApplyRecord × Files B
  unfolding rollback_blocker apply_record
  compare_files journal changed_files files =
      if same_paths changed_files (sort text_le a.proposal.changed_files)
      then (
        (do
          digests ← file_digests files changed_files
          ok (apply_record true changed_files (some (a.patch_digest journal)) digests none)),
        files,
      )
      else (
        ok (
            apply_record false changed_files (some (a.patch_digest journal)) []
              (some (rollback_blocker (rollback a.disk journal files).0))),
        (rollback a.disk journal files).1,
      )

  unfoldable pub after_apply :
      Result (PatchApplyResult B) × Files B → Result DiffApplyRecord × Files B
  unfolding apply_record
  after_apply (raise problem, files) = (raise problem, files)
  after_apply (ok r, files) =
      let stopped : Result DiffApplyRecord × Files B =
        (ok (apply_record false [] none [] r.blocker), files) in
      if r.applied
      then elim r.journal [
        | none ↦ stopped
        | some journal ↦ compare_files journal (sort text_le r.changed_files) files
      ]
      else stopped

  unfoldable pub apply_unless : Option Text → Files B → Result DiffApplyRecord × Files B
  unfolding apply_record after_apply
  apply_unless (some denial) files = (ok (apply_record false [] none [] (some denial)), files)
  apply_unless none files =
      after_apply (apply_unified_diff a.disk a.int_of a.proposal.patch_text files)

  unfoldable pub apply_approved_diff_proposal : Files B → Result DiffApplyRecord × Files B
  unfolding apply_unless
  apply_approved_diff_proposal files =
      apply_unless (approval_blocker a.verifier_decision a.release_guardian_decision) files

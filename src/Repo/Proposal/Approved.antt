-- ===== src/Repo/Proposal/Approved.antt =====
-- vad/repo/diff_workflow.py: what an approved or refused proposal does to the files.
use verified_agentic_develop.Prelude.{
  Error, message, ◌++◌, ◌>>=◌, String, true, false, List, some, Result, ok, raise, ◌≡◌, ◌⊎◌,
}
use verified_agentic_develop.Prelude.Sort.{sort}
use verified_agentic_develop.Prelude.Lines.{text_le, codes}
use verified_agentic_develop.Guards.Filesystem.{FilePath, Files}
use verified_agentic_develop.Repo.Patch.{FilePatch, parse_unified_diff}
use verified_agentic_develop.Repo.Apply.Plan.{patch_paths}
use verified_agentic_develop.Repo.Apply.Rollback.{AreInside, Only, RestoreFails}
use verified_agentic_develop.Repo.Apply.Restore.{Targeted, TextFails, IsPatched}
use verified_agentic_develop.Repo.Proposal.{DiffApplyRecord, Application}

module _ {B : Type 0} (a : Application B) where
  abbrev patches : List FilePatch
  patches = parse_unified_diff a.proposal.patch_text

  -- a reading that raises this
  pub ReadFails : Error → Type 0
  ReadFails problem =
      (at : Files B) × (target : FilePath) × (a.disk.read_fault at target ≡ some problem)

  -- both decisions allow the diff, and the files that it names are the approved ones
  pub record IsApproved : Type 0 where
    pub verified : a.verifier_decision.allow ≡ true
    pub guarded : a.release_guardian_decision.allow ≡ true
    pub files : sort text_le (patch_paths patches) ≡ sort text_le a.proposal.changed_files

  -- the diff of the proposal is applied, in all the files that it names and no other
  abbrev pub IsDone : Files B → Files B → Type 0
  IsDone before after = IsApproved × IsPatched a.disk a.int_of before patches after

  abbrev pub OnlyNamed : Files B → Files B → Type 0
  OnlyNamed = Only a.disk (Targeted a.disk (patch_paths patches))

  -- What a call did to the files. One that raises changed nothing; or a write raised on the way, after both
  -- decisions allowed it; or the diff is applied as approved, and reading the files for their digests raised.
  -- One that answers changed nothing; or it answers that the rollback failed, since the disk raised; or the
  -- diff is applied as approved.
  pub IsFaithful : Files B → Result DiffApplyRecord × Files B → Type 0
  IsFaithful before (raise problem, after) =
      ((k : FilePath) → after k ≡ before k)
      ⊎ ((TextFails a.disk problem
            × (a.verifier_decision.allow ≡ true)
            × (a.release_guardian_decision.allow ≡ true)
            × AreInside a.disk (patch_paths patches)
            × OnlyNamed before after)
          ⊎ (ReadFails problem × IsDone before after))
  IsFaithful before (ok r, after) =
      ((r.applied ≡ false) × ((k : FilePath) → after k ≡ before k))
      ⊎ (((r.applied ≡ false)
            × (problem : Error) × (r.blocker
                ≡ some (
                    codes "applied files do not match approved proposal; rollback failed: "
                    ++ codes (message problem)))
            × RestoreFails a.disk problem
            × OnlyNamed before after)
          ⊎ ((r.applied ≡ true) × IsDone before after))

  -- the digests are read, or a reading raises
  Digested : Result (List (FilePath × String)) → Type 0
  Digested (raise problem) = ReadFails problem
  Digested (ok digests) = Unit

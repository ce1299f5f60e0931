-- ===== src/Repo/Apply.antt =====
-- vad/repo/journal.py and `apply_unified_diff` of vad/repo/patch_apply.py: files are captured, written
-- and put back. What the disk raises on a write is `Disk`'s.
pub mod Plan
pub mod Rollback
pub mod Restore
use verified_agentic_develop.Prelude.{
  ℕ, Bool, true, false, not, List, [], ◌∷◌, ◌++◌, Option, none, some, is_some, String, Result, ok,
  raise, value_error, Error, message, map, ◌>>=◌, if◌then◌else◌,
}
use verified_agentic_develop.Prelude.Int.{ℤ}
use verified_agentic_develop.Prelude.Lines.{codes, splitlines_keepends}
use verified_agentic_develop.Guards.Filesystem.{
  FilePath, Disk, Fault, Files, update, FilesystemDecision, resolve_write,
}
use verified_agentic_develop.Repo.Patch.{Text, FilePatch, apply_hunks, parse_unified_diff}

pub record FileSnapshot (B : Type 0) : Type 0 where
  pub path : FilePath
  pub existed : Bool
  pub content : Option B

abbrev pub PatchJournal : Type 0 → Type 0
PatchJournal B = List (FileSnapshot B)

pub record RollbackResult : Type 0 where
  pub rolled_back : Bool
  pub restored_files : List FilePath
  pub blocker : Option Text

pub record PatchApplyResult (B : Type 0) : Type 0 where
  pub applied : Bool
  pub changed_files : List FilePath
  pub journal : Option (PatchJournal B)
  pub blocker : Option Text

-- a patch is stopped, or gives the texts to write
pub data Planned : Type 0 where
  blocked : Text → Planned
  writes : List (FilePath × Text) → Planned

unfoldable pub join_plans : List (FilePath × Text) → Planned → Planned
join_plans first (blocked reason) = blocked reason
join_plans first (writes later) = writes (first ++ later)

-- what follows the plan of a file
unfoldable pub then_plan : Planned → Result Planned → Result Planned
unfolding join_plans
then_plan (blocked reason) rest = ok (blocked reason)
then_plan (writes first) rest = do more ← rest; ok (join_plans first more)

-- `"".join(lines)`
unfoldable pub concat : List Text → Text
concat [] = []
concat (line ∷ lines) = line ++ concat lines

module _ {B : Type 0} (disk : Disk B) where
  abbrev pub snapshot : Files B → FilePath → FileSnapshot B
  snapshot files path = record {
    path = path;
    existed = is_some (files (disk.resolve path));
    content = files (disk.resolve path);
  }

  -- the content of a file that exists is read
  unfoldable pub then_capture :
      Bool → Option Error → Result (PatchJournal B) → Result (PatchJournal B)
  then_capture true (some problem) rest = raise problem
  then_capture _ _ rest = rest

  -- `PatchJournal.capture`; its message names the path
  unfoldable pub capture : Files B → List FilePath → Result (PatchJournal B)
  unfolding then_capture
  capture files [] = ok []
  capture files (path ∷ paths) =
      if disk.inside (disk.resolve path)
      then then_capture (is_some (files (disk.resolve path)))
          (disk.read_fault files (disk.resolve path))
          (do rest ← capture files paths; ok (snapshot files path ∷ rest))
      else raise (value_error "path escapes repository root")

  -- `snapshot.content or b""`
  abbrev pub or_empty : Option B → B
  or_empty none = disk.no_bytes
  or_empty (some bytes) = bytes

  -- a write of bytes, or a deletion, that raises or not
  unfoldable pub write_bytes : Option (Fault B) → FilePath → B → Files B → Option Error × Files B
  unfolding update
  write_bytes none target bytes files = (none, update target (some bytes) files)
  write_bytes (some fault) target bytes files = (some fault.problem, update target fault.left files)

  unfoldable pub unlink : Option Error → FilePath → Files B → Option Error × Files B
  unfolding update
  unlink none target files = (none, update target none files)
  unlink (some problem) target files = (some problem, files)

  unfoldable pub restore : FileSnapshot B → Files B → Option Error × Files B
  unfolding write_bytes unlink
  restore s files =
      let target = disk.resolve s.path in
      let bytes = or_empty s.content in
      if s.existed
      then write_bytes (disk.bytes_fault files target bytes) target bytes files
      else if is_some (files target)
      then unlink (disk.unlink_fault files target) target files
      else (none, files)

  unfoldable pub not_rolled_back : List FilePath → Text → RollbackResult
  not_rolled_back restored reason = record {
    rolled_back = false;
    restored_files = restored;
    blocker = some reason;
  }

  -- what follows a file's restoration: an `OSError` ends the rollback
  unfoldable pub after_restore :
      List FilePath
      → (Files B → RollbackResult × Files B)
      → Option Error × Files B
      → RollbackResult × Files B
  unfolding not_rolled_back message
  after_restore restored go (none, files) = go files
  after_restore restored go (some problem, files) =
      (not_rolled_back restored (codes (message problem)), files)

  unfoldable pub rollback_from : PatchJournal B → List FilePath → Files B → RollbackResult × Files B
  unfolding restore after_restore not_rolled_back
  rollback_from [] restored files =
      (record { rolled_back = true; restored_files = restored; blocker = none }, files)
  rollback_from (s ∷ ss) restored files =
      let rest =
        after_restore restored (rollback_from ss (restored ++ s.path ∷ [])) (restore s files) in
      if disk.inside (disk.resolve s.path)
      then rest
      else (not_rolled_back restored (codes "path escapes repository root: " ++ s.path), files)

  unfoldable pub rollback : PatchJournal B → Files B → RollbackResult × Files B
  unfolding rollback_from
  rollback journal files = rollback_from journal [] files

  unfoldable pub planned_text : FilePatch → Option (List Text) → Planned
  unfolding concat
  planned_text p none = blocked (codes "patch does not apply cleanly: " ++ p.path)
  planned_text p (some lines) = writes ((p.path, concat lines) ∷ [])

  -- the tests of one file, after its target was read
  unfoldable pub plan_content : (Text → Option ℤ) → FilePatch → Option B → Result Planned
  unfolding planned_text
  plan_content int_of p none = ok (blocked (codes "target file does not exist: " ++ p.path))
  plan_content int_of p (some bytes) = do
    text ← disk.decode bytes
    ok (planned_text p (apply_hunks int_of (splitlines_keepends text) p.hunks))

  unfoldable pub plan_one :
      (Text → Option ℤ)
      → Files B
      → FilePatch
      → FilesystemDecision
      → Option FilePath
      → Result Planned
  unfolding plan_content
  plan_one int_of files p decision none = ok (blocked decision.reason)
  plan_one int_of files p decision (some target) = plan_content int_of p (files target)

  unfoldable pub target_of : FilesystemDecision → Option FilePath
  target_of d = if d.allowed then d.path else none

  -- the first loop of `apply_unified_diff`
  unfoldable pub plan_writes : (Text → Option ℤ) → Files B → List FilePatch → Result Planned
  unfolding plan_one then_plan
  plan_writes int_of files [] = ok (writes [])
  plan_writes int_of files (p ∷ ps) =
      let rest = plan_writes int_of files ps in
      let decision = resolve_write disk true files p.path in
      do first ← plan_one int_of files p decision (target_of decision); then_plan first rest

  -- what follows a file's write
  unfoldable pub then_write :
      FilePath
      → Text
      → Files B
      → (Files B → Result (Unit {0}) × Files B)
      → Option (Fault B)
      → Result (Unit {0}) × Files B
  unfolding update
  then_write target text files go none = go (update target (some (disk.encode text)) files)
  then_write target text files go (some fault) =
      (raise fault.problem, update target fault.left files)

  -- the second loop
  unfoldable pub write_all : List (FilePath × Text) → Files B → Result (Unit {0}) × Files B
  unfolding then_write
  write_all [] files = (ok tt, files)
  write_all ((path, text) ∷ rest) files =
      let target = disk.resolve path in
      then_write target text files (write_all rest) (disk.text_fault files target text)

  abbrev pub paths_of : List (FilePath × Text) → List FilePath
  paths_of = map (λ w. w.0)

  unfoldable pub refused : Text → PatchApplyResult B
  refused reason = record {
    applied = false;
    changed_files = [];
    journal = none;
    blocker = some reason;
  }

  -- an exception in the middle of the writes loses the journal
  unfoldable pub after_writes :
      List (FilePath × Text)
      → PatchJournal B
      → Result (Unit {0}) × Files B
      → Result (PatchApplyResult B) × Files B
  after_writes planned journal (raise problem, files) = (raise problem, files)
  after_writes planned journal (ok _, files) = (
    ok (record {
      applied = true;
      changed_files = paths_of planned;
      journal = some journal;
      blocker = none;
    }),
    files,
  )

  -- the files are written after all of them are captured
  unfoldable pub write_captured :
      List (FilePath × Text)
      → Result (PatchJournal B)
      → Files B
      → Result (PatchApplyResult B) × Files B
  unfolding write_all after_writes
  write_captured planned (raise problem) files = (raise problem, files)
  write_captured planned (ok journal) files = after_writes planned journal (write_all planned files)

  unfoldable pub write_planned : Result Planned → Files B → Result (PatchApplyResult B) × Files B
  unfolding refused write_captured
  write_planned (raise problem) files = (raise problem, files)
  write_planned (ok (blocked reason)) files = (ok (refused reason), files)
  write_planned (ok (writes planned)) files =
      write_captured planned (capture files (paths_of planned)) files

  unfoldable pub apply_parsed :
      (Text → Option ℤ) → List FilePatch → Files B → Result (PatchApplyResult B) × Files B
  unfolding refused write_planned
  apply_parsed int_of [] files = (ok (refused (codes "no file patches found")), files)
  apply_parsed int_of (p ∷ ps) files = write_planned (plan_writes int_of files (p ∷ ps)) files

  unfoldable pub apply_unified_diff :
      (Text → Option ℤ) → Text → Files B → Result (PatchApplyResult B) × Files B
  unfolding apply_parsed
  apply_unified_diff int_of patch_text files =
      apply_parsed int_of (parse_unified_diff patch_text) files

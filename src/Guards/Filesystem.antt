-- ===== src/Guards/Filesystem.antt =====
-- vad/guards/filesystem.py and vad/repo/workspace.py: which files under a root may be written.
use verified_agentic_develop.Prelude.{
  Bool, true, false, not, Option, none, Error, some, is_some, Result, if◌then◌else◌, ◌&&◌, ℕ, List,
}
use verified_agentic_develop.Prelude.Lines.{codes, same_text}

-- a path is the list of its code points
abbrev pub FilePath : Type 0
FilePath = List ℕ

abbrev pub Files : Type 0 → Type 0
Files B = FilePath → Option B

-- a write that raises, and what it leaves of the file
pub record Fault (B : Type 0) : Type 0 where
  pub problem : Error
  pub left : Option B

-- What `pathlib`, the operating system and the codec do under one root, as long as no link changes:
-- `resolve p` is the file that `root / p` leads to, links followed, and `resolve_parent p` follows the
-- links of its directory only; `inside` asks whether a path is relative to the root. `B` is the type of
-- a file's bytes. Any write, deletion or reading may raise, depending on all that the disk holds.
pub record Disk (B : Type 0) : Type 0 where
  pub is_absolute : FilePath → Bool
  pub resolve : FilePath → FilePath
  pub resolve_parent : FilePath → FilePath
  pub inside : FilePath → Bool
  -- `read_text`, which raises where the file cannot be read or is no UTF-8, and turns every line end
  -- into a line feed
  pub decode : B → Result (List ℕ)
  pub encode : List ℕ → B
  pub no_bytes : B
  -- what `read_bytes`, `write_text`, `write_bytes` and `unlink` raise, if they do
  pub read_fault : (FilePath → Option B) → FilePath → Option Error
  pub text_fault : (FilePath → Option B) → FilePath → List ℕ → Option (Fault B)
  pub bytes_fault : (FilePath → Option B) → FilePath → B → Option (Fault B)
  pub unlink_fault : (FilePath → Option B) → FilePath → Option Error

unfoldable pub update : {B : Type 0} → FilePath → Option B → Files B → Files B
update path content files other = if same_text path other then content else files other

pub record FilesystemDecision : Type 0 where
  pub allowed : Bool
  pub path : Option FilePath
  pub reason : List ℕ

module _ {B : Type 0} (disk : Disk B) where
  unfoldable pub resolve_for_access : Files B → FilePath → FilePath
  resolve_for_access files path =
      if is_some (files (disk.resolve path)) then disk.resolve path else disk.resolve_parent path

  unfoldable pub resolve_path : Bool → Files B → FilePath → Bool → FilesystemDecision
  unfolding resolve_for_access
  resolve_path writable files path write =
      let resolved = resolve_for_access files path in
      if write && not writable
      then record { allowed = false; path = none; reason = codes "workspace is read-only" }
      else if disk.is_absolute path
      then record { allowed = false; path = none; reason = codes "absolute paths are not allowed" }
      else if not (disk.inside resolved)
      then record { allowed = false; path = none; reason = codes "path escapes workspace root" }
      else record { allowed = true; path = some resolved; reason = codes "path allowed" }

  unfoldable pub resolve_read : Bool → Files B → FilePath → FilesystemDecision
  unfolding resolve_path
  resolve_read writable files path = resolve_path writable files path false

  unfoldable pub resolve_write : Bool → Files B → FilePath → FilesystemDecision
  unfolding resolve_path
  resolve_write writable files path = resolve_path writable files path true

-- ===== src/Repo/Apply/Rollback.antt =====
-- vad/repo/journal.py: a captured journal, rolled back.
use verified_agentic_develop.Prelude.{
  is_some, clash, true, false, List, [], ◌∷◌, ◌++◌, Option, none, some, Result, ok, ◌≡◌, refl, ◌⊎◌,
  inl, inr, map, if◌then◌else◌, if_true, if_false, arith, Bool-cases, Option-cases, Memᴰ, All, sym,
  subst, ap, ◌∙◌, >>=-eq-ok, ok_eq, Error, message, Bool,
}
use mathlib.Core.List.Memᴰ
use verified_agentic_develop.Prelude.Lines.{same_text, codes}
use verified_agentic_develop.Guards.Filesystem.{FilePath, Disk, Fault, Files, update}
use verified_agentic_develop.Repo.Patch.{Text}
use verified_agentic_develop.Repo.Patch.Script.{same_text_self}
use verified_agentic_develop.Repo.Apply.{
  PatchJournal, RollbackResult, snapshot, then_capture, capture, restore, write_bytes, unlink,
  after_restore, not_rolled_back, rollback_from,
}

pub same_text-eq : (a b : Text) → same_text a b ≡ true → a ≡ b
unfolding same_text
same_text-eq [] [] h = refl
same_text-eq [] (d ∷ ds) h = cc
same_text-eq (c ∷ cs) [] h = cc
same_text-eq (c ∷ cs) (d ∷ ds) h = ground (arith, same_text-eq cs ds)

module _ {B : Type 0} (disk : Disk B) where
  abbrev pub targets : List FilePath → List FilePath
  targets = map disk.resolve

  abbrev pub AreInside : List FilePath → Type 0
  AreInside = All (λ p. disk.inside (disk.resolve p) ≡ true)

  -- no file changes but some
  abbrev pub Only : (FilePath → Type 0) → Files B → Files B → Type 0
  Only Q before files = (k : FilePath) → (files k ≡ before k) ⊎ Q k

  -- each file is as it was, or is yet to be put back
  abbrev pub Differs : Files B → List FilePath → Files B → Type 0
  Differs before paths files = Only (λ k. Memᴰ k (targets paths)) before files

  -- a write of bytes or a deletion that raises this
  pub RestoreFails : Error → Type 0
  RestoreFails problem =
      ((at : Files B) × (target : FilePath) × (bytes : B) × (fault : Fault B) × (disk.bytes_fault at
            target bytes
          ≡ some fault)
        × (fault.problem ≡ problem))
      ⊎ ((at : Files B) × (target : FilePath) × (disk.unlink_fault at target ≡ some problem))

  -- a file is put back with the content that was captured, or the disk raises
  Restored : Files B → Files B → FilePath → Option Error × Files B → Type 0
  Restored before files path out =
      ((out.0 ≡ none)
        × ((k : FilePath)
            → out.1 k
              ≡ (if same_text (disk.resolve path) k then before (disk.resolve path) else files k)))
      ⊎ ((problem : Error) × (out.0 ≡ some problem)
          × RestoreFails problem
          × ((k : FilePath) → (out.1 k ≡ files k) ⊎ (k ≡ disk.resolve path)))

  pub update-near :
      (files : Files B) (target : FilePath) (content : Option B) (k : FilePath)
      → (update target content files k ≡ files k) ⊎ (k ≡ target)
  unfolding update
  update-near files target content k = elim (Bool-cases (same_text target k)) [
    | inl e ↦ inr (sym (same_text-eq target k e))
    | inr e ↦ inl (if_false _ _ e)
  ]

  write_bytes-Restored :
      (before files : Files B) (path : FilePath) (bytes : B) (fault : Option (Fault B))
      → disk.bytes_fault files (disk.resolve path) bytes ≡ fault
      → before (disk.resolve path) ≡ some bytes
      → Restored before files path (write_bytes disk fault (disk.resolve path) bytes files)
  unfolding write_bytes update Restored RestoreFails
  write_bytes-Restored before files path bytes none e here = inl (refl, λ k. rw here refl)
  write_bytes-Restored before files path bytes (some fault) e here = inr (
    fault.problem,
    refl,
    inl (files, disk.resolve path, bytes, fault, e, refl),
    λ k. update-near files (disk.resolve path) fault.left k,
  )

  unlink-Restored :
      (before files : Files B) (path : FilePath) (problem : Option Error)
      → disk.unlink_fault files (disk.resolve path) ≡ problem
      → before (disk.resolve path) ≡ none
      → Restored before files path (unlink disk problem (disk.resolve path) files)
  unfolding unlink update Restored RestoreFails
  unlink-Restored before files path none e here = inl (refl, λ k. rw here refl)
  unlink-Restored before files path (some problem) e here =
      inr (problem, refl, inr (files, disk.resolve path, e), λ k. inl refl)

  gone-Restored :
      (before files : Files B) (path : FilePath)
      → before (disk.resolve path) ≡ none
      → files (disk.resolve path) ≡ none
      → Restored before files path (none, files)
  unfolding Restored
  gone-Restored before files path e gone = inl (
    refl,
    λ k. elim (Bool-cases (same_text (disk.resolve path) k)) [
      | inl same ↦ ap files (sym (same_text-eq _ _ same)) ∙ gone ∙ sym e ∙ sym (if_true _ _ same)
      | inr other ↦ sym (if_false _ _ other)
    ],
  )

  restore-Restored :
      (before files : Files B) (path : FilePath)
      → Restored before files path (restore disk (snapshot disk before path) files)
  unfolding restore
  restore-Restored before files path = elim (Option-cases (before (disk.resolve path))) [
    | inr (bytes, e) ↦ rw e (write_bytes-Restored before files path bytes _ refl e)
    | inl e ↦ rw e (elim (Option-cases (files (disk.resolve path))) [
      | inr (bytes, there) ↦ rw there (unlink-Restored before files path _ refl e)
      | inl gone ↦ rw gone (gone-Restored before files path e gone)
    ])
  ]

  then_capture-ok :
      (existed : Bool) (fault : Option Error) (rest : Result (PatchJournal B)) (j : PatchJournal B)
      → then_capture disk existed fault rest ≡ ok j
      → rest ≡ ok j
  unfolding then_capture
  then_capture-ok true (some problem) rest j h = cc
  then_capture-ok true none rest j h = h
  then_capture-ok false (some problem) rest j h = h
  then_capture-ok false none rest j h = h

  pub capture-ok :
      (files : Files B) (paths : List FilePath) (j : PatchJournal B)
      → capture disk files paths ≡ ok j
      → (j ≡ map (snapshot disk files) paths) × AreInside paths
  unfolding capture
  capture-ok files [] j = λ h. (ok_eq h, tt)
  capture-ok files (path ∷ paths) j = elim (Bool-cases (disk.inside (disk.resolve path))) [
    | inl e ↦ rw (if_true {b = disk.inside (disk.resolve path)} _ _ e) (λ h.
        let (rest, first, last) =
          >>=-eq-ok (capture disk files paths) _
            (then_capture-ok (is_some (files (disk.resolve path))) _ _ j h) in
        let (same, within) = capture-ok files paths rest first in
        (ok_eq last ∙ ap (λ l. snapshot disk files path ∷ l) same, (e, within)))
    | inr e ↦ rw (if_false {b = disk.inside (disk.resolve path)} _ _ e) (λ h. cc)
  ]

  -- the end of a rollback: all files are as they were, or the disk raised and the result says so
  unfoldable pub RolledBack : Files B → (FilePath → Type 0) → RollbackResult × Files B → Type 0
  RolledBack before Q out =
      ((out.0.rolled_back ≡ true) × ((k : FilePath) → out.1 k ≡ before k))
      ⊎ ((out.0.rolled_back ≡ false)
          × (problem : Error) × (out.0.blocker ≡ some (codes (message problem)))
          × RestoreFails problem
          × Only Q before out.1)

  Differs-restored :
      (before files next : Files B) (path : FilePath) (paths : List FilePath)
      → Differs before (path ∷ paths) files
      → ((k : FilePath)
          → next k
            ≡ (if same_text (disk.resolve path) k then before (disk.resolve path) else files k))
      → Differs before paths next
  Differs-restored before files next path paths differs set k =
      elim (Bool-cases (same_text (disk.resolve path) k)) [
        | inl e ↦ inl (set k ∙ if_true _ _ e ∙ ap before (same_text-eq _ _ e))
        | inr e ↦ elim (differs k) [
          | inl same ↦ inl (set k ∙ if_false _ _ e ∙ same)
          | inr m ↦ elim (Memᴰ.cases_cons m) [
            | inl here ↦
                absurd (clash (subst (λ x. same_text x k ≡ true) here (same_text_self k)) e)
            | inr later ↦ inr later
          ]
        ]
      ]

  module _ (before : Files B) (Q : FilePath → Type 0) where
    Only-restored :
        (files next : Files B) (path : FilePath)
        → Only Q before files
        → ((k : FilePath)
            → next k
              ≡ (if same_text (disk.resolve path) k then before (disk.resolve path) else files k))
        → Only Q before next
    Only-restored files next path only set k = elim (Bool-cases (same_text (disk.resolve path) k)) [
      | inl e ↦ inl (set k ∙ if_true _ _ e ∙ ap before (same_text-eq _ _ e))
      | inr e ↦ elim (only k) [ inl same ↦ inl (set k ∙ if_false _ _ e ∙ same) | inr q ↦ inr q ]
    ]

    Only-near :
        (files next : Files B) (target : FilePath)
        → Only Q before files
        → Q target
        → ((k : FilePath) → (next k ≡ files k) ⊎ (k ≡ target))
        → Only Q before next
    Only-near files next target only q near k = elim (near k) [
      | inr here ↦ inr (subst Q (sym here) q)
      | inl same ↦ elim (only k) [ inl old ↦ inl (same ∙ old) | inr r ↦ inr r ]
    ]

    after_restore-RolledBack :
        (files : Files B) (path : FilePath) (restored : List FilePath)
        (go : Files B → RollbackResult × Files B) (out : Option Error × Files B)
        → Only Q before files
        → Q (disk.resolve path)
        → ((next : Files B)
            → ((k : FilePath)
                → next k ≡ (
                    if same_text (disk.resolve path) k
                    then before (disk.resolve path)
                    else files k))
            → RolledBack before Q (go next))
        → Restored before files path out
        → RolledBack before Q (after_restore disk restored go out)
    unfolding after_restore not_rolled_back RolledBack Restored
    after_restore-RolledBack files path restored go (none, next) only q f (inl (e, set)) =
        f next set
    after_restore-RolledBack files path restored go (none, next) only q f
          (inr (p, e, fails, near)) =
        cc
    after_restore-RolledBack files path restored go (some problem, next) only q f (inl (e, set)) =
        cc
    after_restore-RolledBack files path restored go (some problem, next) only q f
          (inr (p, e, fails, near)) =
        let same : problem ≡ p = cc in
        inr (
          refl,
          p,
          ap (λ x. some (codes (message x))) same,
          fails,
          Only-near files next (disk.resolve path) only q near,
        )

    pub rollback_from-RolledBack :
        (paths restored : List FilePath) (files : Files B)
        → AreInside paths
        → All (λ p. Q (disk.resolve p)) paths
        → Differs before paths files
        → Only Q before files
        → RolledBack before Q (rollback_from disk (map (snapshot disk before) paths) restored files)
    unfolding rollback_from RolledBack
    rollback_from-RolledBack [] restored files within listed differs only =
        inl (refl, λ k. elim (differs k) [ inl same ↦ same | inr m ↦ absurd (Memᴰ.not-nil m) ])
    rollback_from-RolledBack (path ∷ paths) restored files within listed differs only =
        rw (if_true {b = disk.inside (disk.resolve path)} _ _ within.0) (
          after_restore-RolledBack files path restored _ _ only listed.0
            (λ next set.
              rollback_from-RolledBack paths (restored ++ path ∷ []) next within.1 listed.1
                (Differs-restored before files next path paths differs set)
                (Only-restored files next path only set))
            (restore-Restored before files path))

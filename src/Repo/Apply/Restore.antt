-- ===== src/Repo/Apply/Restore.antt =====
-- vad/repo/patch_apply.py and journal.py: what a diff writes, and its rollback.
use verified_agentic_develop.Prelude.{
  clash, true, false, List, [], ◌∷◌, Option, none, some, Result, ok, raise, ◌≡◌, refl, ◌⊎◌, inl,
  inr, map, if_true, if_false, Bool-cases, Memᴰ, sym, All-self, All-map, subst, ap, ◌∙◌, Error,
}
use mathlib.Core.List.Memᴰ
use verified_agentic_develop.Prelude.Int.{ℤ}
use verified_agentic_develop.Prelude.Lines.{same_text}
use verified_agentic_develop.Guards.Filesystem.{FilePath, Disk, Fault, Files, update}
use verified_agentic_develop.Repo.Patch.{Text, FilePatch, parse_unified_diff}
use verified_agentic_develop.Repo.Patch.Script.{same_text_self}
use verified_agentic_develop.Repo.Apply.{
  PatchJournal, PatchApplyResult, Planned, blocked, writes, snapshot, capture, then_write,
  after_writes, rollback_from, rollback, write_all, paths_of, refused, write_captured,
  write_planned, apply_parsed, apply_unified_diff,
}
use verified_agentic_develop.Repo.Apply.Plan.{
  patch_paths, IsPatch, ArePlanned, ArePlannedBy, ArePlanned-paths, ArePlanned-mem,
  plan_writes-ArePlanned,
}
use verified_agentic_develop.Repo.Apply.Rollback.{
  same_text-eq, targets, AreInside, Only, RolledBack, capture-ok, rollback_from-RolledBack,
  update-near,
}

pub mem-map : {X Y : Type 0} (f : X → Y) (x : X) (xs : List X) → Memᴰ x xs → Memᴰ (f x) (map f xs)
mem-map f x [] m = absurd (Memᴰ.not-nil m)
mem-map f x (y ∷ ys) m = elim (Memᴰ.cases_cons m) [
  | inl here ↦ Memᴰ.head (ap f here)
  | inr later ↦ Memᴰ.tail (mem-map f x ys later)
]

module _ {B : Type 0} (disk : Disk B) where
  abbrev pub Targeted : List FilePath → FilePath → Type 0
  Targeted paths k = Memᴰ k (targets disk paths)

  -- a write of a text that raises this
  pub TextFails : Error → Type 0
  TextFails problem =
      (at : Files B) × (target : FilePath) × (text : Text) × (fault : Fault B) × (disk.text_fault at
          target text
        ≡ some fault)
      × (fault.problem ≡ problem)

  abbrev WroteAt : List (FilePath × Text) → Files B → Files B → FilePath → Type 0
  WroteAt planned files after k =
      ((after k ≡ files k) × ¬ Targeted (paths_of disk planned) k)
      ⊎ ((w : FilePath × Text) × Memᴰ w planned
          × (disk.resolve w.0 ≡ k)
          × (after k ≡ some (disk.encode w.1)))

  -- all is written, or the disk raised on the way
  Wrote : List (FilePath × Text) → Files B → Result (Unit {0}) × Files B → Type 0
  Wrote planned files (ok done, after) = (k : FilePath) → WroteAt planned files after k
  Wrote planned files (raise problem, after) =
      TextFails problem × Only disk (Targeted (paths_of disk planned)) files after

  module _ (path : FilePath) (text : Text) (rest : List (FilePath × Text)) (files : Files B) where
    abbrev next : Files B
    next = update (disk.resolve path) (some (disk.encode text)) files

    written-later :
        (after : Files B)
        → ((k : FilePath) → WroteAt rest next after k)
        → (k : FilePath) → WroteAt ((path, text) ∷ rest) files after k
    unfolding update
    written-later after h k = elim (h k) [
      | inr (w, m, here, e) ↦ inr (w, Memᴰ.tail m, here, e)
      | inl (same, other) ↦ elim (Bool-cases (same_text (disk.resolve path) k)) [
        | inl e ↦ inr ((path, text), Memᴰ.head refl, same_text-eq _ _ e, same ∙ if_true _ _ e)
        | inr e ↦ inl (
          same ∙ if_false _ _ e,
          λ m. elim (Memᴰ.cases_cons m) [
            | inl here ↦ clash (subst (λ x. same_text x k ≡ true) here (same_text_self k)) e
            | inr later ↦ other later
          ],
        )
      ]
    ]

    partly-later :
        (after : Files B)
        → Only disk (Targeted (paths_of disk rest)) next after
        → Only disk (Targeted (paths_of disk ((path, text) ∷ rest))) files after
    partly-later after only k = elim (only k) [
      | inr m ↦ inr (Memᴰ.tail m)
      | inl same ↦ elim (update-near disk files (disk.resolve path) (some (disk.encode text)) k) [
        | inl old ↦ inl (same ∙ old)
        | inr here ↦ inr (Memᴰ.head here)
      ]
    ]

    Wrote-later :
        (out : Result (Unit {0}) × Files B)
        → Wrote rest next out
        → Wrote ((path, text) ∷ rest) files out
    unfolding Wrote
    Wrote-later (ok done, after) h = written-later after h
    Wrote-later (raise problem, after) h = (h.0, partly-later after h.1)

    then_write-Wrote :
        (go : Files B → Result (Unit {0}) × Files B) (fault : Option (Fault B))
        → disk.text_fault files (disk.resolve path) text ≡ fault
        → Wrote rest next (go next)
        → Wrote
            ((path, text) ∷ rest)
            files
            (then_write disk (disk.resolve path) text files go fault)
    unfolding then_write Wrote TextFails
    then_write-Wrote go none e h = Wrote-later (go next) h
    then_write-Wrote go (some fault) e h = (
      (files, disk.resolve path, text, fault, e, refl),
      λ k. elim (update-near disk files (disk.resolve path) fault.left k) [
        | inl old ↦ inl old
        | inr here ↦ inr (Memᴰ.head here)
      ],
    )

  write_all-Wrote :
      (planned : List (FilePath × Text)) (files : Files B)
      → Wrote planned files (write_all disk planned files)
  unfolding write_all Wrote
  write_all-Wrote [] files = λ k. inl (refl, λ m. Memᴰ.not-nil m)
  write_all-Wrote ((path, text) ∷ rest) files =
      then_write-Wrote path text rest files (write_all disk rest) _ refl
        (write_all-Wrote rest (update (disk.resolve path) (some (disk.encode text)) files))

  module _ (int_of : Text → Option ℤ) (before : Files B) (ps : List FilePatch) where
    -- Every file that a patch names holds what a patch of it makes of the text before, and no other file
    -- has changed.
    unfoldable pub IsPatched : Files B → Type 0
    IsPatched after =
        (k : FilePath)
        → ((after k ≡ before k) × ¬ Targeted (patch_paths ps) k)
          ⊎ ((p : FilePatch) × Memᴰ p ps
              × (disk.resolve p.path ≡ k)
              × (text : Text) × IsPatch disk int_of before p text
              × (after k ≡ some (disk.encode text)))

    -- What a diff did that was applied: what it changed lies under the root and is listed, and a rollback of
    -- its journal puts every file back, or says that the disk raised.
    pub record IsUndoable (r : PatchApplyResult B) (after : Files B) : Type 0 where
      pub journal : PatchJournal B
      pub kept : r.journal ≡ some journal
      pub listed : r.changed_files ≡ patch_paths ps
      pub within : AreInside disk (patch_paths ps)
      pub patched : IsPatched after
      pub undone : RolledBack disk before (Targeted (patch_paths ps)) (rollback disk journal after)

    -- Nothing is written; or a write raised on the way, and what may have changed lies under the root and is
    -- named by the diff; or the diff was applied.
    unfoldable pub IsSound : Result (PatchApplyResult B) × Files B → Type 0
    IsSound (raise problem, after) =
        (after ≡ before)
        ⊎ (TextFails problem
            × AreInside disk (patch_paths ps)
            × Only disk (Targeted (patch_paths ps)) before after)
    IsSound (ok r, after) =
        ((r.applied ≡ false) × (after ≡ before)) ⊎ ((r.applied ≡ true) × IsUndoable r after)

    IsPatched-Only :
        (after : Files B) → IsPatched after → Only disk (Targeted (patch_paths ps)) before after
    unfolding IsPatched
    IsPatched-Only after h k = elim (h k) [
      | inl (same, other) ↦ inl same
      | inr (p, m, here, text, patch, e) ↦ inr (
          subst (λ x. Targeted (patch_paths ps) x) here
            (mem-map disk.resolve p.path (patch_paths ps)
              (mem-map (λ (q : FilePatch). q.path) p ps m)))
    ]

    WroteAt-IsPatched :
        (planned : List (FilePath × Text)) (after : Files B)
        → ArePlanned disk int_of before ps planned
        → ((k : FilePath) → WroteAt planned before after k)
        → IsPatched after
    unfolding IsPatched
    WroteAt-IsPatched planned after plan wrote k = elim (wrote k) [
      | inl (same, other) ↦ inl (
        same,
        subst (λ l. ¬ Targeted l k) (ArePlanned-paths disk int_of before ps planned plan) other,
      )
      | inr (w, m, here, e) ↦
          let (p, there, path, patch) = ArePlanned-mem disk int_of before ps planned w plan m in
          inr (p, there, sym (ap disk.resolve path) ∙ here, w.1, patch, e)
    ]

    undone :
        (journal : PatchJournal B) (after : Files B)
        → journal ≡ map (snapshot disk before) (patch_paths ps)
        → AreInside disk (patch_paths ps)
        → IsPatched after
        → RolledBack disk before (Targeted (patch_paths ps)) (rollback disk journal after)
    unfolding rollback
    undone journal after same within patched =
        let only = IsPatched-Only after patched in
        subst
          (λ j. RolledBack disk before (Targeted (patch_paths ps)) (rollback_from disk j [] after))
          (sym same)
          (rollback_from-RolledBack disk before (Targeted (patch_paths ps)) (patch_paths ps) []
            after within
            (All-map (patch_paths ps) (λ p m. mem-map disk.resolve p (patch_paths ps) m)
              (All-self (patch_paths ps)))
            only only)

    after_writes-IsSound :
        (planned : List (FilePath × Text)) (journal : PatchJournal B)
        (out : Result (Unit {0}) × Files B)
        → ArePlanned disk int_of before ps planned
        → journal ≡ map (snapshot disk before) (patch_paths ps)
        → AreInside disk (patch_paths ps)
        → Wrote planned before out
        → IsSound (after_writes disk planned journal out)
    unfolding after_writes IsSound Wrote
    after_writes-IsSound planned journal (raise problem, after) plan same within (fails, only) =
        inr (
          fails,
          within,
          subst (λ l. Only disk (Targeted l) before after)
              (ArePlanned-paths disk int_of before ps planned plan) only,
        )
    after_writes-IsSound planned journal (ok done, after) plan same within wrote =
        let listed = ArePlanned-paths disk int_of before ps planned plan in
        let patched : IsPatched after = WroteAt-IsPatched planned after plan wrote in
        inr (
          refl,
          record {
            journal = journal;
            kept = refl;
            listed = listed;
            within = within;
            patched = patched;
            undone = undone journal after same within patched;
          },
        )

    write_captured-IsSound :
        (planned : List (FilePath × Text)) (captured : Result (PatchJournal B))
        → ArePlanned disk int_of before ps planned
        → capture disk before (paths_of disk planned) ≡ captured
        → IsSound (write_captured disk planned captured before)
    unfolding write_captured IsSound
    write_captured-IsSound planned (raise problem) plan h = inl refl
    write_captured-IsSound planned (ok journal) plan h =
        let listed = ArePlanned-paths disk int_of before ps planned plan in
        let (same, within) =
          capture-ok disk before (patch_paths ps) journal
            (ap (capture disk before) (sym listed) ∙ h) in
        after_writes-IsSound planned journal _ plan same within (write_all-Wrote planned before)

    write_planned-IsSound :
        (plan : Result Planned)
        → ArePlannedBy disk int_of before ps plan
        → IsSound (write_planned disk plan before)
    unfolding write_planned refused IsSound ArePlannedBy
    write_planned-IsSound (raise problem) h = inl refl
    write_planned-IsSound (ok (blocked reason)) h = inl (refl, refl)
    write_planned-IsSound (ok (writes planned)) h = write_captured-IsSound planned _ h refl

  parsed-IsSound :
      (int_of : Text → Option ℤ) (before : Files B) (ps : List FilePatch)
      → IsSound int_of before ps (apply_parsed disk int_of ps before)
  unfolding apply_parsed refused IsSound
  parsed-IsSound int_of before [] = inl (refl, refl)
  parsed-IsSound int_of before (p ∷ ps) =
      write_planned-IsSound int_of before (p ∷ ps) _
        (plan_writes-ArePlanned disk int_of before (p ∷ ps))

  -- A diff that is refused changes no file. One that raises changes none either, or a write raised, and
  -- then at most files under the root that the diff names have changed. After a diff that is applied, each
  -- file that it names holds what a patch of it makes of the text before, no other file has changed, and
  -- a rollback of the journal puts every file back, or says that the disk raised; this also where the
  -- diff changes one file twice.
  pub apply_unified_diff-IsSound :
      (int_of : Text → Option ℤ) (patch_text : Text) (files : Files B)
      → IsSound int_of files
          (parse_unified_diff patch_text)
          (apply_unified_diff disk int_of patch_text files)
  unfolding apply_unified_diff
  apply_unified_diff-IsSound int_of patch_text files =
      parsed-IsSound int_of files (parse_unified_diff patch_text)

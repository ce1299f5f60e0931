-- ===== src/Repo/Apply/Plan.antt =====
-- `apply_unified_diff` of vad/repo/patch_apply.py: what its first loop plans to write.
use verified_agentic_develop.Prelude.{
  true, List, [], ◌∷◌, Option, none, some, Result, ok, raise, ◌≡◌, refl, map, Memᴰ, sym, subst,
  ◌>>=◌, inl, inr,
}
use mathlib.Core.List.Memᴰ
use verified_agentic_develop.Prelude.Int.{ℤ}
use verified_agentic_develop.Prelude.Lines.{splitlines_keepends}
use verified_agentic_develop.Guards.Filesystem.{
  FilePath, Disk, Files, resolve_write, FilesystemDecision,
}
use verified_agentic_develop.Repo.Patch.{Text, FilePatch, apply_hunks}
use verified_agentic_develop.Repo.Apply.{
  Planned, blocked, writes, then_plan, join_plans, planned_text, concat, plan_content, plan_one,
  target_of, plan_writes, paths_of,
}

-- the paths of a diff
abbrev pub patch_paths : List FilePatch → List FilePath
patch_paths ps = map (λ p. p.path) ps

module _ {B : Type 0} (disk : Disk B) (int_of : Text → Option ℤ) (before : Files B) where
  -- the text is what the patch's hunks make of the file that it may write
  pub record IsPatch (p : FilePatch) (text : Text) : Type 0 where
    pub target : FilePath
    pub may_write : target_of disk (resolve_write disk true before p.path) ≡ some target
    pub bytes : B
    pub there : before target ≡ some bytes
    pub original : Text
    pub decoded : disk.decode bytes ≡ ok original
    pub lines : List Text
    pub patched : apply_hunks int_of (splitlines_keepends original) p.hunks ≡ some lines
    pub joined : text ≡ concat lines

  -- a write for each patch, in their order
  pub ArePlanned : List FilePatch → List (FilePath × Text) → Type 0
  ArePlanned [] [] = Unit
  ArePlanned [] (w ∷ ws) = ⊥
  ArePlanned (p ∷ ps) [] = ⊥
  ArePlanned (p ∷ ps) (w ∷ ws) = (w.0 ≡ p.path) × IsPatch p w.1 × ArePlanned ps ws

  pub ArePlanned-paths :
      (ps : List FilePatch) (ws : List (FilePath × Text))
      → ArePlanned ps ws
      → paths_of disk ws ≡ patch_paths ps
  unfolding ArePlanned
  ArePlanned-paths [] [] h = refl
  ArePlanned-paths [] (w ∷ ws) h = absurd h
  ArePlanned-paths (p ∷ ps) [] h = absurd h
  ArePlanned-paths (p ∷ ps) (w ∷ ws) (e, h, rest) = rw (e, ArePlanned-paths ps ws rest) refl

  pub ArePlanned-mem :
      (ps : List FilePatch) (ws : List (FilePath × Text)) (w : FilePath × Text)
      → ArePlanned ps ws
      → Memᴰ w ws
      → (p : FilePatch) × Memᴰ p ps × (w.0 ≡ p.path) × IsPatch p w.1
  unfolding ArePlanned
  ArePlanned-mem [] [] w h m = absurd (Memᴰ.not-nil m)
  ArePlanned-mem [] (v ∷ ws) w h m = absurd h
  ArePlanned-mem (p ∷ ps) [] w h m = absurd h
  ArePlanned-mem (p ∷ ps) (v ∷ ws) w (e, h, rest) m = elim (Memᴰ.cases_cons m) [
    | inl here ↦
        (let (same, patch) =
            subst (λ (x : FilePath × Text). (x.0 ≡ p.path) × IsPatch p x.1) (sym here) (e, h) in
          (p, Memᴰ.head refl, same, patch))
    | inr later ↦
        let (q, there, same, found) = ArePlanned-mem ps ws w rest later in
        (q, Memᴰ.tail there, same, found)
  ]

  -- the end of a planning: writes, for these patches
  unfoldable pub ArePlannedBy : List FilePatch → Result Planned → Type 0
  ArePlannedBy ps (raise problem) = Unit
  ArePlannedBy ps (ok (blocked reason)) = Unit
  ArePlannedBy ps (ok (writes ws)) = ArePlanned ps ws

  module _ (p : FilePatch) where
    planned_text-ArePlanned :
        (target : FilePath) (bytes : B) (original : Text) (o : Option (List Text))
        → target_of disk (resolve_write disk true before p.path) ≡ some target
        → before target ≡ some bytes
        → disk.decode bytes ≡ ok original
        → apply_hunks int_of (splitlines_keepends original) p.hunks ≡ o
        → ArePlannedBy (p ∷ []) (ok (planned_text disk p o))
    unfolding ArePlannedBy ArePlanned planned_text
    planned_text-ArePlanned target bytes original none may there decoded h = tt
    planned_text-ArePlanned target bytes original (some lines) may there decoded h = (
      refl,
      record {
        target = target;
        may_write = may;
        bytes = bytes;
        there = there;
        original = original;
        decoded = decoded;
        lines = lines;
        patched = h;
        joined = refl;
      },
      tt,
    )

    read-ArePlanned :
        (target : FilePath) (bytes : B) (read : Result Text)
        → target_of disk (resolve_write disk true before p.path) ≡ some target
        → before target ≡ some bytes
        → disk.decode bytes ≡ read
        → ArePlannedBy (p ∷ []) (do
          text ← read
          ok (planned_text disk p (apply_hunks int_of (splitlines_keepends text) p.hunks)))
    unfolding ArePlannedBy
    read-ArePlanned target bytes (raise problem) may there h = tt
    read-ArePlanned target bytes (ok original) may there h =
        planned_text-ArePlanned target bytes original _ may there h refl

    content-ArePlanned :
        (target : FilePath) (content : Option B)
        → target_of disk (resolve_write disk true before p.path) ≡ some target
        → before target ≡ content
        → ArePlannedBy (p ∷ []) (plan_content disk int_of p content)
    unfolding plan_content ArePlannedBy
    content-ArePlanned target none may h = tt
    content-ArePlanned target (some bytes) may h = read-ArePlanned target bytes _ may h refl

    one-ArePlanned :
        (decision : FilesystemDecision) (target : Option FilePath)
        → target_of disk (resolve_write disk true before p.path) ≡ target
        → ArePlannedBy (p ∷ []) (plan_one disk int_of before p decision target)
    unfolding plan_one ArePlannedBy
    one-ArePlanned decision none may = tt
    one-ArePlanned decision (some target) may = content-ArePlanned target _ may refl

    joined-ArePlanned :
        (first : List (FilePath × Text)) (ps : List FilePatch) (more : Planned)
        → ArePlanned (p ∷ []) first
        → ArePlannedBy ps (ok more)
        → ArePlannedBy (p ∷ ps) (ok (join_plans first more))
    unfolding ArePlannedBy ArePlanned join_plans
    joined-ArePlanned first ps (blocked reason) h k = tt
    joined-ArePlanned [] ps (writes later) h k = absurd h
    joined-ArePlanned (w ∷ []) ps (writes later) h k = (h.0, h.1, k)
    joined-ArePlanned (w ∷ v ∷ ws) ps (writes later) h k = absurd h.2

    rest-ArePlanned :
        (first : List (FilePath × Text)) (ps : List FilePatch) (rest : Result Planned)
        → ArePlanned (p ∷ []) first
        → ArePlannedBy ps rest
        → ArePlannedBy (p ∷ ps) (then_plan (writes first) rest)
    unfolding then_plan ArePlannedBy
    rest-ArePlanned first ps (raise problem) h k = tt
    rest-ArePlanned first ps (ok more) h k = joined-ArePlanned first ps more h k

    then_plan-ArePlanned :
        (first : Result Planned) (ps : List FilePatch) (rest : Result Planned)
        → ArePlannedBy (p ∷ []) first
        → ArePlannedBy ps rest
        → ArePlannedBy (p ∷ ps) (do plan ← first; then_plan plan rest)
    unfolding ArePlannedBy then_plan
    then_plan-ArePlanned (raise problem) ps rest h k = tt
    then_plan-ArePlanned (ok (blocked reason)) ps rest h k = tt
    then_plan-ArePlanned (ok (writes first)) ps rest h k = rest-ArePlanned first ps rest h k

  pub plan_writes-ArePlanned :
      (ps : List FilePatch) → ArePlannedBy ps (plan_writes disk int_of before ps)
  unfolding plan_writes ArePlannedBy ArePlanned
  plan_writes-ArePlanned [] = tt
  plan_writes-ArePlanned (p ∷ ps) =
      then_plan-ArePlanned p _ ps _
        (one-ArePlanned p (resolve_write disk true before p.path) _ refl)
        (plan_writes-ArePlanned ps)

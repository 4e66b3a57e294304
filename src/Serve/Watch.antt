-- ===== src/Serve/Watch.antt =====
-- watchLoop of cmd/attndb/serve.go: which batches reach the reconciler, and when a recalibration is
-- started. The loop handles one event at a time; a recalibration runs beside it and frees `recalSem`
-- when it is done.
pub mod Policy
pub mod Skipped
use attndb.Prelude.{
  ℕ, ◌+◌, ◌/◌, ◌≡◌, Bool, true, false, Option, none, some, List, [], ◌∷◌, if◌then◌else◌, ltb, leb,
  ◌==◌, max,
}
use attndb.Prelude.Text.{Bytes}
use attndb.Core.Types.{Document}
use attndb.Reconcile.Index.{Index, Error}
use attndb.Reconcile.Passes.{Reconciler, PathInfo, reconcile, reconcile_all, count}

-- `Calib` is what a recalibration gives, and `idle_floor` the field of vaultService.
module _ (I : Index) (Calib : Type 0) (idle_floor : ℕ) where
  pub record Loop : Type 0 where
    pub rec : Reconciler I
    pub dirty : ℕ
    -- whether idleTimer runs
    pub armed : Bool
    -- whether recalSem is taken
    pub in_flight : Bool
    pub calib : Calib
    -- how many recalibrations have been started, and have ended
    pub started : ℕ
    pub ended : ℕ

  unfoldable pub recalibrate : Loop → Loop
  recalibrate l = if l.in_flight then l else record l { in_flight = true; started = l.started + 1 }

  unfoldable pub recal : Loop → Loop
  unfolding recalibrate
  recal l = record (recalibrate l) { dirty = 0 }

  -- The test of `apply` on the churn.
  unfoldable pub settle : Loop → Loop
  unfolding recal
  settle l =
      if leb (max 20 (count I l.rec / 10)) l.dirty
      then record (recal l) { armed = false }
      else record l { armed = true }

  unfoldable pub apply : ℕ × Error × Reconciler I → Loop → Loop
  unfolding settle
  apply (changed, e, r) l = elim e [
    | some m ↦ record l { rec = r }
    | none ↦
        if changed == 0
        then record l { rec = r }
        else settle (record l { rec = r; dirty = l.dirty + changed })
  ]

  -- What the file system holds when an event is handled: the documents that `LoadDir` gives, or none
  -- and the error's message.
  abbrev pub Tree : Type 0
  Tree = Option (List Document) × Bytes

  unfoldable pub on_batch : List (Bytes × PathInfo) → Tree → Loop → Loop
  unfolding apply
  on_batch [] (docs, m) l = apply (reconcile_all I docs m l.rec) l
  on_batch (p ∷ batch) tree l = apply (reconcile I (p ∷ batch) l.rec) l

  unfoldable pub on_backstop : Tree → Loop → Loop
  unfolding apply
  on_backstop (docs, m) l = apply (reconcile_all I docs m l.rec) l

  -- The timer has run out.
  unfoldable pub on_idle : Loop → Loop
  unfolding recal
  on_idle l =
      let spent : Loop = record l { armed = false } in
      if leb idle_floor l.dirty then recal spent else spent

  unfoldable pub on_stale : Loop → Loop
  unfolding recal
  on_stale l = if ltb 0 l.dirty then recal l else l

  -- The end of a recalibration, with a calibration to swap in, or without where it failed.
  unfoldable pub on_done : Option Calib → Loop → Loop
  on_done none l = record l { in_flight = false; ended = l.ended + 1 }
  on_done (some c) l = record l { in_flight = false; ended = l.ended + 1; calib = c }

  -- One turn of the loop, or the end of a recalibration.
  pub data Step : Loop → Loop → Type 0 where
    batch :
        (paths : List (Bytes × PathInfo)) (tree : Tree) (l : Loop) → Step l (on_batch paths tree l)
    backstop : (tree : Tree) (l : Loop) → Step l (on_backstop tree l)
    idle : (l : Loop) → l.armed ≡ true → Step l (on_idle l)
    stale : (l : Loop) → Step l (on_stale l)
    done : (c : Option Calib) (l : Loop) → l.in_flight ≡ true → Step l (on_done c l)

  pub data Reach : Loop → Loop → Type 0 where
    here : (l : Loop) → Reach l l
    after : {l k n : Loop} → Reach l k → Step k n → Reach l n

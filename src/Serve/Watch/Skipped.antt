-- ===== src/Serve/Watch/Skipped.antt =====
-- What becomes of the pending changes when a recalibration is asked for while one is in flight.
use attndb.Prelude.{ℕ, ◌<◌, ◌≡◌, true, Option, none, some, List, [], ◌∷◌, arith}
use attndb.Prelude.Text.{Bytes}
use attndb.Reconcile.Index.{Index, Error}
use attndb.Reconcile.Passes.{Reconciler, PathInfo, reconcile, reconcile_all}
use attndb.Serve.Watch.{
  Loop, recalibrate, recal, apply, Tree, on_batch, on_backstop, on_idle, on_stale, on_done,
}

module _ (I : Index) (Calib : Type 0) (idle_floor : ℕ) where
  abbrev State : Type 0
  State = Loop I Calib idle_floor

  -- Turns of the loop in which the reconciler finds nothing changed.
  pub data Quiet : State → State → Type 0 where
    rest : (l : State) → Quiet l l
    batch :
        (paths : List (Bytes × PathInfo)) (tree : Tree I Calib idle_floor) (l k : State)
        → Quiet l k
        → (reconcile_all I tree.0 tree.1 k.rec).0 ≡ 0
        → (reconcile I paths k.rec).0 ≡ 0
        → Quiet l (on_batch I Calib idle_floor paths tree k)
    backstop :
        (tree : Tree I Calib idle_floor) (l k : State)
        → Quiet l k
        → (reconcile_all I tree.0 tree.1 k.rec).0 ≡ 0
        → Quiet l (on_backstop I Calib idle_floor tree k)
    idle : (l k : State) → Quiet l k → Quiet l (on_idle I Calib idle_floor k)
    stale : (l k : State) → Quiet l k → Quiet l (on_stale I Calib idle_floor k)
    done : (c : Option Calib) (l k : State) → Quiet l k → Quiet l (on_done I Calib idle_floor c k)

  -- Nothing is pending, and the count of recalibrations is still `n`.
  abbrev Still : ℕ → State → Type 0
  Still n l = (l.dirty ≡ 0) × (l.started ≡ n)

  apply-Still :
      (n : ℕ) (res : ℕ × Error × Reconciler I) (l : State)
      → res.0 ≡ 0
      → Still n l
      → Still n (apply I Calib idle_floor res l)
  unfolding apply
  apply-Still n (changed, some m, r) l none_changed h = h
  apply-Still n (changed, none, r) l none_changed h = rw none_changed h

  Quiet-Still : (n : ℕ) {l k : State} → 0 < idle_floor → Still n l → Quiet l k → Still n k
  unfolding on_batch on_backstop on_idle on_stale on_done recal
  Quiet-Still n floor h (rest l) = h
  Quiet-Still n floor h (batch [] tree l k q all_same same) =
      apply-Still n (reconcile_all I tree.0 tree.1 k.rec) k all_same (Quiet-Still n floor h q)
  Quiet-Still n floor h (batch (p ∷ paths) tree l k q all_same same) =
      apply-Still n (reconcile I (p ∷ paths) k.rec) k same (Quiet-Still n floor h q)
  Quiet-Still n floor h (backstop tree l k q same) =
      apply-Still n (reconcile_all I tree.0 tree.1 k.rec) k same (Quiet-Still n floor h q)
  Quiet-Still n floor h (idle l k q) =
      let (d, b) = Quiet-Still n floor h q in (ground (arith, d, b), ground (arith, d, b))
  Quiet-Still n floor h (stale l k q) =
      let (d, b) = Quiet-Still n floor h q in (ground (arith, d, b), ground (arith, d, b))
  Quiet-Still n floor h (done none l k q) = Quiet-Still n floor h q
  Quiet-Still n floor h (done (some c) l k q) = Quiet-Still n floor h q

  recal-skipped :
      (l : State)
      → l.in_flight ≡ true
      → 0 < l.dirty
      → Still l.started (on_stale I Calib idle_floor l)
  unfolding on_stale recal recalibrate
  recal-skipped l busy pending = (ground arith, ground arith)

  -- If the floor of the idle timer is not 0, and the staleness tick comes with changes pending while
  -- a recalibration is in flight, then no recalibration is started for these changes: neither by this
  -- tick nor afterwards, also once the one in flight has ended, for as long as the reconciler finds
  -- no further change.
  pub stale_skipped_lost :
      (l k : State)
      → 0 < idle_floor
      → l.in_flight ≡ true
      → 0 < l.dirty
      → Quiet (on_stale I Calib idle_floor l) k
      → (k.started ≡ l.started) × (k.dirty ≡ 0)
  stale_skipped_lost l k floor busy pending q =
      let (d, b) = Quiet-Still l.started floor (recal-skipped l busy pending) q in (b, d)

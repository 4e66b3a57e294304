-- ===== src/Serve/Watch/Policy.antt =====
-- What holds in every state that the loop reaches.
use attndb.Prelude.{
  ℕ, ◌+◌, ◌<◌, ◌≡◌, ◌⊎◌, inl, inr, true, none, some, [], ◌∷◌, ◌==◌, if◌then◌else◌, max, arith,
  Bool-cases,
}
use attndb.Reconcile.Index.{Index, Error}
use attndb.Reconcile.Passes.{Reconciler, reconcile, reconcile_all}
use attndb.Serve.Watch.{
  Loop, recalibrate, recal, settle, apply, on_batch, on_backstop, on_idle, on_stale, on_done, Step,
  batch, backstop, idle, stale, done, Reach, here, after,
}

module _ (I : Index) (Calib : Type 0) (idle_floor : ℕ) where
  abbrev State : Type 0
  State = Loop I Calib idle_floor

  -- A pending count that the idle timer would act on has the timer running, and one recalibration at
  -- most is in flight.
  pub record Watched (l : State) : Type 0 where
    pub pending : (l.armed ≡ true) ⊎ (l.dirty < max idle_floor 1)
    pub in_balance : l.started ≡ l.ended + (if l.in_flight then 1 else 0)

  recal-Watched : (l : State) → Watched l → Watched (recal I Calib idle_floor l)
  unfolding recal recalibrate
  recal-Watched l w = record { pending = ground arith; in_balance = ground (arith, w.in_balance) }

  settle-Watched :
      (l : State)
      → l.started ≡ l.ended + (if l.in_flight then 1 else 0)
      → Watched (settle I Calib idle_floor l)
  unfolding settle recal recalibrate
  settle-Watched l b = record { pending = ground arith; in_balance = ground (arith, b) }

  apply-Watched :
      (res : ℕ × Error × Reconciler I) (l : State)
      → Watched l
      → Watched (apply I Calib idle_floor res l)
  unfolding apply
  apply-Watched (changed, some m, r) l w = record { pending = w.pending; in_balance = w.in_balance }
  apply-Watched (changed, none, r) l w = elim (Bool-cases (changed == 0)) [
    | inl none_changed ↦
        rw (none_changed, if◌then◌else◌) (record { pending = w.pending; in_balance = w.in_balance })
    | inr some_changed ↦
        rw (some_changed, if◌then◌else◌)
          (settle-Watched (record l { rec = r; dirty = l.dirty + changed }) w.in_balance)
  ]

  Step-Watched : {l k : State} → Step I Calib idle_floor l k → Watched l → Watched k
  unfolding on_batch on_backstop on_idle on_stale on_done recal recalibrate
  Step-Watched (batch [] (docs, m) l) w = apply-Watched (reconcile_all I docs m l.rec) l w
  Step-Watched (batch (p ∷ paths) tree l) w = apply-Watched (reconcile I (p ∷ paths) l.rec) l w
  Step-Watched (backstop (docs, m) l) w = apply-Watched (reconcile_all I docs m l.rec) l w
  Step-Watched (idle l armed) w = record {
    pending = ground arith;
    in_balance = ground (arith, w.in_balance);
  }
  Step-Watched (stale l) w = record {
    pending = ground (arith, w.pending);
    in_balance = ground (arith, w.in_balance);
  }
  Step-Watched (done none l busy) w = record {
    pending = w.pending;
    in_balance = ground (arith, w.in_balance);
  }
  Step-Watched (done (some c) l busy) w = record {
    pending = w.pending;
    in_balance = ground (arith, w.in_balance);
  }

  -- In every state that the loop reaches from one where this holds, as it does at the start: a
  -- pending count of changes that the idle timer would act on has the timer running, and the
  -- recalibrations that have been started are those that have ended and at most one more, which is
  -- there exactly where the semaphore is taken.
  pub Reach-Watched : {l k : State} → Reach I Calib idle_floor l k → Watched l → Watched k
  Reach-Watched (here l) w = w
  Reach-Watched (after r st) w = Step-Watched st (Reach-Watched r w)

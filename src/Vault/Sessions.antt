-- ===== src/Vault/Sessions.antt =====
-- `readState` of cmd/attndb/serve.go: for each session, the content hash of each document that it
-- has read. Times are nanoseconds from Go's zero time, and `now` is the time of a call: the clock
-- does not go back, and a difference is not negative.
pub mod Noted
pub mod Unseen
use attndb.Prelude.{
  ℕ, ◌+◌, ◌-◌, ◌*◌, ◌≡◌, Bool, Option, none, some, List, [], ◌∷◌, if◌then◌else◌, ltb,
}
use attndb.Prelude.Text.{Bytes, bytes_eq}
use attndb.Prelude.Dict.{Dict, lookup, insert}

abbrev pub read_ttl : ℕ
read_ttl = 3600000000000

abbrev pub read_sweep_ival : ℕ
read_sweep_ival = 600000000000

pub record SessionReads : Type 0 where
  pub seen : Dict Bytes
  pub at : ℕ

pub record ReadState : Type 0 where
  pub sessions : Dict SessionReads
  pub last_sweep : ℕ

unfoldable pub new_read_state : ReadState
new_read_state = record { sessions = []; last_sweep = 0 }

unfoldable pub or_new : Option SessionReads → SessionReads
or_new none = record { seen = []; at = 0 }
or_new (some s) = s

unfoldable pub note : Bytes → Bytes → Bytes → ℕ → ReadState → ReadState
unfolding lookup insert or_new bytes_eq
note sess name sum now r = if bytes_eq sess [] then r else record r {
  sessions =
      insert sess
        (record { seen = insert name sum (or_new (lookup sess r.sessions)).seen; at = now })
        r.sessions;
}

unfoldable pub saw : Bytes → Bytes → ℕ → ReadState → Option Bytes × ReadState
unfolding lookup insert bytes_eq
saw sess name now r =
    let found : Option Bytes × ReadState = elim (lookup sess r.sessions) [
      | none ↦ (none, r)
      | some s ↦ (
        lookup name s.seen,
        record r { sessions = insert sess (record s { at = now }) r.sessions },
      )
    ] in
    if bytes_eq sess [] then (none, r) else found

-- delete(r.sessions, id) for the sessions untouched for too long
unfoldable pub drop_stale : ℕ → Dict SessionReads → Dict SessionReads
drop_stale now [] = []
drop_stale now ((id, s) ∷ sessions) =
    let rest = drop_stale now sessions in if ltb read_ttl (now - s.at) then rest else (id, s) ∷ rest

unfoldable pub sweep_reads : ℕ → ReadState → ReadState
unfolding drop_stale
sweep_reads now r =
    if ltb (now - r.last_sweep) read_sweep_ival
    then r
    else record { sessions = drop_stale now r.sessions; last_sweep = now }

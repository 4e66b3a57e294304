-- ===== src/Vault/Sessions/Unseen.antt =====
-- A session that has seen no such content of a file: neither a sweep nor a look changes that.
use attndb.Prelude.{
  ℕ, ◌-◌, ◌≡◌, ◌≢◌, true, some, [], ◌∷◌, ltb, Bool-cases, Option-cases, inl, inr, All,
}
use attndb.Prelude.Text.{Bytes, bytes_eq}
use attndb.Prelude.Dict.{Dict, lookup}
use attndb.Vault.Sessions.{
  SessionReads, ReadState, read_ttl, read_sweep_ival, saw, drop_stale, sweep_reads,
}

-- No reads of the session hold the hash `sum` for the file, whatever other sessions have read.
abbrev pub NeverSaw : Bytes → Bytes → Bytes → Dict SessionReads → Type 0
NeverSaw sess name sum sessions =
    All (λ (id, s). bytes_eq id sess ≡ true → lookup name s.seen ≢ some sum) sessions

drop_stale-NeverSaw :
    (sess name sum : Bytes) (now : ℕ) (sessions : Dict SessionReads)
    → NeverSaw sess name sum sessions
    → NeverSaw sess name sum (drop_stale now sessions)
unfolding drop_stale
drop_stale-NeverSaw sess name sum now [] h = tt
drop_stale-NeverSaw sess name sum now ((id, s) ∷ sessions) (h, hs) =
    elim (Bool-cases (ltb read_ttl (now - s.at))) [
      | inl old ↦ rw old (drop_stale-NeverSaw sess name sum now sessions hs)
      | inr young ↦ rw young (h, drop_stale-NeverSaw sess name sum now sessions hs)
    ]

sweep_reads-NeverSaw :
    (sess name sum : Bytes) (now : ℕ) (r : ReadState)
    → NeverSaw sess name sum r.sessions
    → NeverSaw sess name sum (sweep_reads now r).sessions
unfolding sweep_reads
sweep_reads-NeverSaw sess name sum now r h =
    elim (Bool-cases (ltb (now - r.last_sweep) read_sweep_ival)) [
      | inl early ↦ rw early h
      | inr due ↦ rw due (drop_stale-NeverSaw sess name sum now r.sessions h)
    ]

lookup-NeverSaw :
    (sess name sum : Bytes) (sessions : Dict SessionReads) (s : SessionReads)
    → NeverSaw sess name sum sessions
    → lookup sess sessions ≡ some s
    → lookup name s.seen ≢ some sum
unfolding lookup
lookup-NeverSaw sess name sum [] s h e = absurd (cc e)
lookup-NeverSaw sess name sum ((id, t) ∷ sessions) s (h, hs) e =
    elim (Bool-cases (bytes_eq id sess)) [
      | inl here ↦ let same : t ≡ s = cc (rw here at e) in rw same at (h here)
      | inr further ↦ lookup-NeverSaw sess name sum sessions s hs (rw further at e)
    ]

saw-NeverSaw :
    (sess name sum : Bytes) (now : ℕ) (r : ReadState)
    → NeverSaw sess name sum r.sessions
    → (saw sess name now r).0 ≢ some sum
unfolding saw
saw-NeverSaw sess name sum now r h e = elim (Bool-cases (bytes_eq sess [])) [
  | inl empty ↦ cc (rw empty at e)
  | inr known ↦ elim (Option-cases (lookup sess r.sessions)) [
    | inl new ↦ cc (rw (new, saw) at (rw known at e))
    | inr (s, found) ↦
        lookup-NeverSaw sess name sum r.sessions s h found (rw (found, saw) at (rw known at e))
  ]
]

-- So the session's last look, after a sweep, does not find the hash.
pub saw-sweep_reads :
    (sess name sum : Bytes) (now : ℕ) (r : ReadState)
    → NeverSaw sess name sum r.sessions
    → (saw sess name now (sweep_reads now r)).0 ≢ some sum
saw-sweep_reads sess name sum now r h =
    saw-NeverSaw sess name sum now (sweep_reads now r) (sweep_reads-NeverSaw sess name sum now r h)

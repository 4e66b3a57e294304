-- ===== src/Vault/Sessions/Noted.antt =====
-- What a note leaves behind: the session has seen the content until its reads are too old.
use attndb.Prelude.{
  ℕ, ◌-◌, ◌≤◌, ◌≡◌, refl, false, some, [], ◌∷◌, if◌then◌else◌, ltb, arith, Bool-cases, inl, inr,
  ◌∙◌,
}
use attndb.Prelude.Text.{Bytes, bytes_eq, bytes_eq_refl}
use attndb.Prelude.Dict.{Dict, lookup, insert, lookup-insert}
use attndb.Vault.Sessions.{
  SessionReads, ReadState, read_ttl, read_sweep_ival, or_new, note, saw, drop_stale, sweep_reads,
}

-- A session that is young enough survives a sweep.
lookup-drop_stale :
    (sess : Bytes) (now : ℕ) (s : SessionReads) (sessions : Dict SessionReads)
    → lookup sess sessions ≡ some s
    → now - s.at ≤ read_ttl
    → lookup sess (drop_stale now sessions) ≡ some s
unfolding lookup drop_stale
lookup-drop_stale sess now s [] e young = cc
lookup-drop_stale sess now s ((id, t) ∷ sessions) e young = elim (Bool-cases (bytes_eq id sess)) [
  | inl here ↦
      let same : t ≡ s = cc (rw here at e) in
      let kept : ltb read_ttl (now - t.at) ≡ false = rw same (ground arith) in
      rw (kept, if◌then◌else◌) (rw (here, if◌then◌else◌) (cc same))
  | inr further ↦ ground (arith, lookup-drop_stale sess now s sessions)
]

lookup-sweep_reads :
    (sess : Bytes) (now : ℕ) (s : SessionReads) (r : ReadState)
    → lookup sess r.sessions ≡ some s
    → now - s.at ≤ read_ttl
    → lookup sess (sweep_reads now r).sessions ≡ some s
unfolding sweep_reads
lookup-sweep_reads sess now s r e young =
    elim (Bool-cases (ltb (now - r.last_sweep) read_sweep_ival)) [
      | inl early ↦ rw early e
      | inr due ↦ rw due (lookup-drop_stale sess now s r.sessions e young)
    ]

saw_known :
    (sess name : Bytes) (now : ℕ) (s : SessionReads) (r : ReadState)
    → bytes_eq sess [] ≡ false
    → lookup sess r.sessions ≡ some s
    → (saw sess name now r).0 ≡ lookup name s.seen
unfolding saw
saw_known sess name now s r known e = rw known (rw (e, saw) refl)

-- A session that has noted the content of a file has seen that content, as long as its reads are
-- not too old.
pub saw-note :
    (sess name sum : Bytes) (t now : ℕ) (r : ReadState)
    → bytes_eq sess [] ≡ false
    → now - t ≤ read_ttl
    → (saw sess name now (sweep_reads now (note sess name sum t r))).0 ≡ some sum
unfolding note
saw-note sess name sum t now r known young =
    let s : SessionReads = record {
      seen = insert name sum (or_new (lookup sess r.sessions)).seen;
      at = t;
    } in
    let e : lookup sess (note sess name sum t r).sessions ≡ some s =
      rw known (rw (lookup-insert, bytes_eq_refl) refl) in
    saw_known sess name now s (sweep_reads now (note sess name sum t r)) known
      (lookup-sweep_reads sess now s (note sess name sum t r) e young)
    ∙ rw (lookup-insert, bytes_eq_refl) refl

-- ===== src/Vault/Docs/Guard.antt =====
-- Whole-file overwrites: a session replaces what it has read, and nothing else.
use attndb.Prelude.{
  ℕ, ◌-◌, ◌≤◌, ◌≡◌, ◌≢◌, refl, false, Option, none, some, [], if◌then◌else◌, arith, sym, Bool-cases,
  Option-cases, inl, inr, ◌⊎◌,
}
use attndb.Prelude.Int.{ℤ}
use attndb.Prelude.Text.{Bytes, bytes_eq, bytes_eq→eq, bytes_eq_refl}
use attndb.Vault.Fault.{Fault, done, unread, changed}
use attndb.Vault.Path.{vault_name}
use attndb.Vault.Disk.{Disk}
use attndb.Vault.Sessions.{read_ttl, note, saw, sweep_reads}
use attndb.Vault.Sessions.Noted.{saw-note}
use attndb.Vault.Sessions.Unseen.{NeverSaw, saw-sweep_reads}
use attndb.Vault.Docs.{WriteDocInput, Vault, guard_overwrite, read_doc, store_text, write_doc}

bytes_eq_apart : (a b : Bytes) → a ≢ b → bytes_eq a b ≡ false
bytes_eq_apart a b ne = elim (Bool-cases (bytes_eq a b)) [
  | inl same ↦ absurd (ne (bytes_eq→eq a b same))
  | inr differs ↦ differs
]

module _ (D : Disk) (hash : Bytes → Bytes) where
  -- The hash that the guard finds for the session.
  abbrev pub last_seen : Bytes → Bytes → ℕ → Vault D hash → Option Bytes
  last_seen sess name now v = (saw sess name now (sweep_reads now v.reads)).0

  pub guard_seen :
      (sess name cur : Bytes) (now : ℕ) (v : Vault D hash)
      → bytes_eq sess [] ≡ false
      → D.read_file name v.disk ≡ some cur
      → last_seen sess name now v ≡ some (hash cur)
      → (guard_overwrite D hash sess name now v).0 ≡ none
  unfolding guard_overwrite
  guard_seen sess name cur now v known there seen =
      rw (there, guard_overwrite)
        (rw (known, if◌then◌else◌)
          (rw (seen, guard_overwrite) (rw (bytes_eq_refl, if◌then◌else◌) refl)))

  guard_unseen :
      (sess name cur : Bytes) (now : ℕ) (v : Vault D hash)
      → bytes_eq sess [] ≡ false
      → D.read_file name v.disk ≡ some cur
      → last_seen sess name now v ≢ some (hash cur)
      → ((guard_overwrite D hash sess name now v).0 ≡ some unread)
        ⊎ ((guard_overwrite D hash sess name now v).0 ≡ some changed)
  unfolding guard_overwrite
  guard_unseen sess name cur now v known there unseen =
      elim (Option-cases (last_seen sess name now v)) [
        | inl never ↦ inl (
            rw (there, guard_overwrite)
              (rw (known, if◌then◌else◌) (rw (never, guard_overwrite) refl)))
        | inr (old, e) ↦
            let differs : bytes_eq (hash cur) old ≡ false =
              bytes_eq_apart (hash cur) old (λ same. unseen (cc (e, same))) in
            inr (
              rw (there, guard_overwrite)
                (rw (known, if◌then◌else◌)
                  (rw (e, guard_overwrite) (rw (differs, if◌then◌else◌) refl))))
      ]

  pub guard-disk :
      (sess name : Bytes) (now : ℕ) (v : Vault D hash)
      → (guard_overwrite D hash sess name now v).1.disk ≡ v.disk
  unfolding guard_overwrite
  guard-disk sess name now v = ground arith

  write_guarded :
      (sess name : Bytes) (i : WriteDocInput) (now : ℕ) (v : Vault D hash) (f : Fault)
      → vault_name i.path ≡ done name
      → i.append ≡ false
      → (guard_overwrite D hash sess name now v).0 ≡ some f
      → ((write_doc D hash sess i now v).0 ≡ some f)
        × ((write_doc D hash sess i now v).1.disk ≡ v.disk)
  unfolding write_doc
  write_guarded sess name i now v f named whole stop = ground (arith, guard-disk sess name now v)

  pub write_allowed :
      (sess name : Bytes) (i : WriteDocInput) (now : ℕ) (v : Vault D hash)
      → vault_name i.path ≡ done name
      → i.append ≡ false
      → (guard_overwrite D hash sess name now v).0 ≡ none
      → write_doc D hash sess i now v
        ≡ store_text D hash sess name i.content false now (guard_overwrite D hash sess name now v).1
  unfolding write_doc
  write_allowed sess name i now v named whole go = ground arith

  -- If a session with an identifier overwrites a file that can be read, and among the reads that are
  -- kept none of that session holds the hash of the file's present content under its name, whatever
  -- other sessions have read, the write is refused and the disk stays as it was.
  pub overwrite_unseen :
      (sess name cur : Bytes) (i : WriteDocInput) (now : ℕ) (v : Vault D hash)
      → vault_name i.path ≡ done name
      → i.append ≡ false
      → bytes_eq sess [] ≡ false
      → D.read_file name v.disk ≡ some cur
      → NeverSaw sess name (hash cur) v.reads.sessions
      → (((write_doc D hash sess i now v).0 ≡ some unread)
          ⊎ ((write_doc D hash sess i now v).0 ≡ some changed))
        × ((write_doc D hash sess i now v).1.disk ≡ v.disk)
  overwrite_unseen sess name cur i now v named whole known there never =
      elim (guard_unseen sess name cur now v known there
        (saw-sweep_reads sess name (hash cur) now v.reads never)) [
          | inl e ↦
              let done = write_guarded sess name i now v unread named whole e in
              (inl done.0, done.1)
          | inr e ↦
              let done = write_guarded sess name i now v changed named whole e in
              (inr done.0, done.1)
        ]

  read_noted :
      (sess name path b : Bytes) (offset limit : ℤ) (t : ℕ) (v : Vault D hash)
      → vault_name path ≡ done name
      → D.read_file name v.disk ≡ some b
      → (read_doc D hash sess (path, offset, limit) t v).1.reads ≡ note sess name (hash b) t v.reads
  unfolding read_doc
  read_noted sess name path b offset limit t v named there =
      rw (named, read_doc) (rw (there, read_doc) refl)

  -- What a session has after it read a document, when the disk has become `s`.
  abbrev pub after_read : Bytes → Bytes → ℤ → ℤ → ℕ → Vault D hash → D.State → Vault D hash
  after_read sess path offset limit t v s =
      record (read_doc D hash sess (path, offset, limit) t v).1 { disk = s }

  pub after_read-seen :
      (sess name path b : Bytes) (offset limit : ℤ) (t now : ℕ) (v : Vault D hash) (s : D.State)
      → bytes_eq sess [] ≡ false
      → vault_name path ≡ done name
      → D.read_file name v.disk ≡ some b
      → now - t ≤ read_ttl
      → last_seen sess name now (after_read sess path offset limit t v s) ≡ some (hash b)
  after_read-seen sess name path b offset limit t now v s known named there young =
      rw (read_noted sess name path b offset limit t v named there)
        (saw-note sess name (hash b) t now v.reads known young)

  -- If a session with an identifier reads a document, the file then gets a content with another
  -- hash, and the session overwrites it within the hour with no new read, the write is refused and
  -- the change is kept.
  pub read_then_changed :
      (sess name path b cur : Bytes) (offset limit : ℤ) (t now : ℕ) (i : WriteDocInput)
      (v : Vault D hash) (s : D.State)
      → bytes_eq sess [] ≡ false
      → vault_name path ≡ done name
      → vault_name i.path ≡ done name
      → i.append ≡ false
      → D.read_file name v.disk ≡ some b
      → now - t ≤ read_ttl
      → D.read_file name s ≡ some cur
      → hash b ≢ hash cur
      → ((write_doc D hash sess i now (after_read sess path offset limit t v s)).0 ≡ some changed)
        × ((write_doc D hash sess i now (after_read sess path offset limit t v s)).1.disk ≡ s)
  unfolding guard_overwrite
  read_then_changed sess name path b cur offset limit t now i v s known named again whole there
        young new ne =
      let v' = after_read sess path offset limit t v s in
      let seen = after_read-seen sess name path b offset limit t now v s known named there young in
      let differs = bytes_eq_apart (hash cur) (hash b) (λ e. ne (sym e)) in
      let stop : (guard_overwrite D hash sess name now v').0 ≡ some changed =
        rw (new, guard_overwrite)
          (rw (known, if◌then◌else◌)
            (rw (seen, guard_overwrite) (rw (differs, if◌then◌else◌) refl))) in
      write_guarded sess name i now v' changed again whole stop

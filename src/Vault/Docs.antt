-- ===== src/Vault/Docs.antt =====
-- `readDoc`, `writeDoc`, `appendFile`, `editDoc` and `deleteDoc` of cmd/attndb/serve.go. A call sees
-- the disk and the recorded reads, and takes no time. `hash` stands for `sha256Hex`, and the session
-- identifier of a call is empty where there is none. The text of the answer and the log lines are
-- left out.
pub mod Guard
pub mod Write
pub mod Append
pub mod Edit
use attndb.Prelude.{
  ℕ, ◌+◌, ◌-◌, ◌≡◌, Bool, true, false, not, ◌&&◌, ◌||◌, Option, none, some, List, [], ◌∷◌, ◌++◌,
  if◌then◌else◌, ltb, leb, ◌==◌,
}
use attndb.Prelude.Int.{ℤ}
use attndb.Prelude.Text.{Bytes, codes, bytes_eq, has_prefix}
use attndb.Reconcile.Index.{Error}
use attndb.Vault.Fault.{
  Fault, Result, refused, done, unread, changed, no_old_string, same_string, not_found, not_unique,
  io,
}
use attndb.Vault.Path.{vault_name}
use attndb.Vault.Find.{count_string, replace_all, replace_first}
use attndb.Vault.Disk.{Disk}
use attndb.Vault.Sessions.{ReadState, note, saw, sweep_reads}
use attndb.Vault.Lines.{ReadWindow, read_window}

abbrev pub ReadDocInput : Type 0
ReadDocInput = Bytes × ℤ × ℤ

pub record WriteDocInput : Type 0 where
  pub path : Bytes
  pub content : Bytes
  pub append : Bool

pub record EditDocInput : Type 0 where
  pub path : Bytes
  pub old_string : Bytes
  pub new_string : Bytes
  pub all : Bool

unfoldable pub has_slash : Bytes → Bool
has_slash [] = false
has_slash (c ∷ rest) = (c == b'/') || has_slash rest

-- filepath.Dir of a clean relative name: what stands before the last "/", "." where there is none.
unfoldable pub dir_of : Bytes → Bytes
unfolding has_slash
dir_of name = if has_slash name then before_slash name else codes "."
  where
    before_slash : Bytes → Bytes
    before_slash [] = []
    before_slash (c ∷ rest) =
        let more = c ∷ before_slash rest in if has_slash rest then more else []

module _ (D : Disk) (hash : Bytes → Bytes) where
  open D use {State}

  -- The part of the service that the tools change.
  pub record Vault : Type 0 where
    pub disk : State
    pub reads : ReadState

  -- The guard's answer, and the reads after its sweep and its look-up.
  unfoldable pub guard_overwrite : Bytes → Bytes → ℕ → Vault → Option Fault × Vault
  guard_overwrite sess name now v =
      let swept = sweep_reads now v.reads in
      let (sum, looked) = saw sess name now swept in
      elim (D.read_file name v.disk) [
        | none ↦ (none, record v { reads = swept })
        | some cur ↦ if bytes_eq sess [] then (none, record v { reads = swept }) else elim sum [
          | none ↦ (some unread, record v { reads = looked })
          | some old ↦
              (if bytes_eq (hash cur) old then none else some changed, record v { reads = looked })
        ]
      ]

  unfoldable pub read_doc : Bytes → ReadDocInput → ℕ → Vault → Result ReadWindow × Vault
  read_doc sess (path, offset, limit) now v = elim (vault_name path) [
    | refused e ↦ (refused e, v)
    | done name ↦ elim (D.read_file name v.disk) [
      | none ↦ (refused (io path), v)
      | some b ↦ (
        done (read_window b offset limit),
        record v { reads = note sess name (hash b) now v.reads },
      )
    ]
  ]

  -- The text that `appendFile` writes: a line break first where the last byte is none. No text where
  -- a read fails.
  unfoldable pub append_text : Bytes → Bytes → State → Option Bytes
  append_text name content s = elim (D.seek_end name s) [
    | none ↦ none
    | some end ↦
        if ltb 0 end
        then elim (D.read_at name (end - 1) s) [
          | none ↦ none
          | some last ↦ some (if last == b'\n' then content else b'\n' ∷ content)
        ]
        else some content
  ]

  unfoldable pub append_file : Bytes → Bytes → State → Error × State
  append_file name content s =
      let (e, s') = D.open_file name s in
      elim e [
        | some m ↦ (some m, s')
        | none ↦ elim (append_text name content s') [
          | none ↦ (some [], s')
          | some text ↦ D.write_end name text s'
        ]
      ]

  -- The session has seen what the file now holds.
  unfoldable pub note_current : Bytes → Bytes → ℕ → Vault → Vault
  note_current sess name now v = elim (D.read_file name v.disk) [
    | none ↦ v
    | some b ↦ record v { reads = note sess name (hash b) now v.reads }
  ]

  unfoldable pub make_folder : Bytes → State → Error × State
  make_folder name s =
      if bytes_eq (dir_of name) (codes ".") then (none, s) else D.make_dirs (dir_of name) s

  -- The writing half of `writeDoc`, behind the guard.
  unfoldable pub store_text : Bytes → Bytes → Bytes → Bool → ℕ → Vault → Option Fault × Vault
  store_text sess name content append now v =
      let (e, s) = make_folder name v.disk in
      elim e [
        | some m ↦ (some (io m), record v { disk = s })
        | none ↦
            (let (e', s') =
                if append then append_file name content s else D.write_file name content s in
              elim e' [
                | some m ↦ (some (io m), record v { disk = s' })
                | none ↦ (none, note_current sess name now (record v { disk = s' }))
              ])
      ]

  unfoldable pub write_doc : Bytes → WriteDocInput → ℕ → Vault → Option Fault × Vault
  write_doc sess i now v = elim (vault_name i.path) [
    | refused e ↦ (some e, v)
    | done name ↦
        (let (e, v') = if i.append then (none, v) else guard_overwrite sess name now v in
          elim e [ some f ↦ (some f, v') | none ↦ store_text sess name i.content i.append now v' ])
  ]

  -- The text after the edit and the number of replacements.
  unfoldable pub edited : EditDocInput → Bytes → Result (Bytes × ℕ)
  edited i text =
      let n = count_string text i.old_string in
      if n == 0
      then refused not_found
      else if i.all
      then done (replace_all text i.old_string i.new_string, n)
      else if ltb 1 n
      then refused (not_unique n)
      else done (replace_first text i.old_string i.new_string, 1)

  unfoldable pub put_edit : Bytes → Bytes → ℕ → Bytes × ℕ → Vault → Result ℕ × Vault
  put_edit sess name now (updated, n) v =
      let (e, s) = D.write_file name updated v.disk in
      elim e [
        | some m ↦ (refused (io m), record v { disk = s })
        | none ↦ (done n, record { disk = s; reads = note sess name (hash updated) now v.reads })
      ]

  unfoldable pub edit_text : Bytes → Bytes → EditDocInput → ℕ → Vault → Result ℕ × Vault
  edit_text sess name i now v = elim (D.read_file name v.disk) [
    | none ↦ (refused (io i.path), v)
    | some b ↦ elim (edited i b) [
      | refused e ↦ (refused e, v)
      | done out ↦ put_edit sess name now out v
    ]
  ]

  unfoldable pub edit_doc : Bytes → EditDocInput → ℕ → Vault → Result ℕ × Vault
  edit_doc sess i now v = elim (vault_name i.path) [
    | refused e ↦ (refused e, v)
    | done name ↦
        if bytes_eq i.old_string []
        then (refused no_old_string, v)
        else if bytes_eq i.old_string i.new_string
        then (refused same_string, v)
        else edit_text sess name i now v
  ]

  unfoldable pub delete_doc : Bytes → Vault → Option Fault × Vault
  delete_doc path v = elim (vault_name path) [
    | refused e ↦ (some e, v)
    | done name ↦
        (let (e, s) = D.remove name v.disk in
          elim e [
            | some m ↦ (some (io m), record v { disk = s })
            | none ↦ (none, record v { disk = s })
          ])
  ]

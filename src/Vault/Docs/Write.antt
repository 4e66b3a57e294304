-- ===== src/Vault/Docs/Write.antt =====
-- What a write that goes through leaves in the file.
use attndb.Prelude.{
  ℕ, ◌-◌, ◌≤◌, ◌≡◌, refl, ◌∙◌, ap, false, none, some, [], arith, Bool-cases, inl, inr,
}
use attndb.Prelude.Int.{ℤ}
use attndb.Prelude.Text.{Bytes, codes, bytes_eq}
use attndb.Vault.Fault.{done}
use attndb.Vault.Path.{vault_name}
use attndb.Vault.Disk.{Disk, DiskLaws}
use attndb.Vault.Sessions.{read_ttl}
use attndb.Vault.Docs.{
  WriteDocInput, Vault, dir_of, guard_overwrite, note_current, make_folder, store_text, write_doc,
}
use attndb.Vault.Docs.Guard.{guard-disk, guard_seen, write_allowed, after_read, after_read-seen}

module _ (D : Disk) (hash : Bytes → Bytes) (L : DiskLaws D) where
  note_current-disk :
      (sess name : Bytes) (now : ℕ) (v : Vault D hash)
      → (note_current D hash sess name now v).disk ≡ v.disk
  unfolding note_current
  note_current-disk sess name now v = ground arith

  make_folder-keeps :
      (name other : Bytes) (s : D.State)
      → D.read_file other (make_folder D hash name s).1 ≡ D.read_file other s
  unfolding make_folder
  make_folder-keeps name other s = elim (Bool-cases (bytes_eq (dir_of name) (codes "."))) [
    | inl flat ↦ rw flat refl
    | inr deep ↦ rw deep (L.make_dirs_keeps (dir_of name) other s)
  ]

  store_text-written :
      (sess name content : Bytes) (now : ℕ) (v : Vault D hash)
      → (make_folder D hash name v.disk).0 ≡ none
      → (D.write_file name content (make_folder D hash name v.disk).1).0 ≡ none
      → ((store_text D hash sess name content false now v).0 ≡ none)
        × (D.read_file name (store_text D hash sess name content false now v).1.disk ≡ some content)
  unfolding store_text
  store_text-written sess name content now v folder written =
      let s = (D.write_file name content (make_folder D hash name v.disk).1).1 in
      rw (folder, store_text)
        (rw (written, store_text)
          (
            refl,
            ap (D.read_file name) (note_current-disk sess name now (record v { disk = s }))
                ∙ L.write_self name content (make_folder D hash name v.disk).1 written,
          ))

  -- If a session with an identifier reads a document and within the hour overwrites it while the
  -- content's hash is what it was, the write goes through, provided that the disk can make the
  -- folder and write the file: the file then has the new content.
  pub read_then_overwrite :
      (sess name path b cur : Bytes) (offset limit : ℤ) (t now : ℕ) (i : WriteDocInput)
      (v : Vault D hash) (s : D.State)
      → bytes_eq sess [] ≡ false
      → vault_name path ≡ done name
      → vault_name i.path ≡ done name
      → i.append ≡ false
      → D.read_file name v.disk ≡ some b
      → now - t ≤ read_ttl
      → D.read_file name s ≡ some cur
      → hash b ≡ hash cur
      → (make_folder D hash name s).0 ≡ none
      → (D.write_file name i.content (make_folder D hash name s).1).0 ≡ none
      → ((write_doc D hash sess i now (after_read D hash sess path offset limit t v s)).0 ≡ none)
        × (D.read_file name
              (write_doc D hash sess i now (after_read D hash sess path offset limit t v s)).1.disk
            ≡ some i.content)
  read_then_overwrite sess name path b cur offset limit t now i v s known named again whole there
        young new same folder written =
      let v' = after_read D hash sess path offset limit t v s in
      let seen =
        after_read-seen D hash sess name path b offset limit t now v s known named there young in
      let go = guard_seen D hash sess name cur now v' known new (seen ∙ ap some same) in
      let kept = guard-disk D hash sess name now v' in
      rw (write_allowed D hash sess name i now v' again whole go) (
        store_text-written sess name i.content now (guard_overwrite D hash sess name now v').1
          (rw kept folder) (rw kept written))

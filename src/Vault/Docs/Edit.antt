-- ===== src/Vault/Docs/Edit.antt =====
-- Editing a document replaces one string and keeps the rest.
use attndb.Prelude.{
  ℕ, ◌≡◌, refl, ◌∙◌, false, some, [], ltb, ◌==◌, Bool-cases, Option-cases, inl, inr, ◌⊎◌,
}
use attndb.Prelude.Text.{Bytes, bytes_eq}
use attndb.Vault.Fault.{Fault, Result, refused, done}
use attndb.Vault.Path.{vault_name}
use attndb.Vault.Find.{count_string}
use attndb.Vault.Find.Edit.{Replaced, replace_first-Replaced}
use attndb.Vault.Disk.{Disk, DiskLaws}
use attndb.Vault.Docs.{EditDocInput, Vault, edited, put_edit, edit_text, edit_doc}

Result-cases :
    {A : Type 0} (x : Result A) → ((f : Fault) × (x ≡ refused f)) ⊎ ((a : A) × (x ≡ done a))
Result-cases (refused f) = inl (f, refl)
Result-cases (done a) = inr (a, refl)

module _ (D : Disk) (hash : Bytes → Bytes) (L : DiskLaws D) where
  edited-Replaced :
      (i : EditDocInput) (text out : Bytes) (n : ℕ)
      → i.all ≡ false
      → edited D hash i text ≡ done (out, n)
      → (n ≡ 1) × Replaced i.old_string i.new_string text out
  unfolding edited
  edited-Replaced i text out n one e = elim (Bool-cases (count_string text i.old_string == 0)) [
    | inl no_match ↦ absurd (cc (rw no_match at e))
    | inr some_match ↦ elim (Bool-cases (ltb 1 (count_string text i.old_string))) [
      | inl many ↦ absurd (cc (rw many at (rw one at (rw some_match at e))))
      | inr single ↦
          let made = rw single at (rw one at (rw some_match at e)) in
          let (pre, post, before, after) =
            replace_first-Replaced text i.old_string i.new_string some_match in
          (cc made, (pre, post, before, cc (made, after)))
    ]
  ]

  put_edit-Stored :
      (sess name out : Bytes) (now n m : ℕ) (v : Vault D hash)
      → (put_edit D hash sess name now (out, n) v).0 ≡ done m
      → (m ≡ n) × (D.read_file name (put_edit D hash sess name now (out, n) v).1.disk ≡ some out)
  unfolding put_edit
  put_edit-Stored sess name out now n m v ok =
      elim (Option-cases (D.write_file name out v.disk).0) [
        | inl written ↦ (
          cc (rw (written, put_edit) at ok),
          rw (written, put_edit) (L.write_self name out v.disk written),
        )
        | inr (x, failed) ↦ absurd (cc (rw (failed, put_edit) at ok))
      ]

  edit_text-Replaced :
      (sess name b : Bytes) (i : EditDocInput) (now n : ℕ) (v : Vault D hash)
      → D.read_file name v.disk ≡ some b
      → i.all ≡ false
      → (edit_text D hash sess name i now v).0 ≡ done n
      → (n ≡ 1)
        × ((out : Bytes) × (D.read_file name (edit_text D hash sess name i now v).1.disk ≡ some out)
            × Replaced i.old_string i.new_string b out)
  unfolding edit_text
  edit_text-Replaced sess name b i now n v there one ok = elim (Result-cases (edited D hash i b)) [
    | inl (f, failed) ↦ absurd (cc (rw (failed, edit_text) at (rw (there, edit_text) at ok)))
    | inr ((out, m), e) ↦
        let (single, replaced) = edited-Replaced i b out m one e in
        let (same, stored) =
          put_edit-Stored sess name out now m n v
            (rw (e, edit_text) at (rw (there, edit_text) at ok)) in
        (same ∙ single, (out, rw (there, edit_text) (rw (e, edit_text) stored), replaced))
  ]

  -- If an edit of a file that can be read asks for a single replacement and succeeds, it reports
  -- one replacement, and the file holds its old text with the new string in the place of the old
  -- one, and all else as it was.
  pub edit_doc-Replaced :
      (sess name b : Bytes) (i : EditDocInput) (now n : ℕ) (v : Vault D hash)
      → vault_name i.path ≡ done name
      → D.read_file name v.disk ≡ some b
      → i.all ≡ false
      → (edit_doc D hash sess i now v).0 ≡ done n
      → (n ≡ 1)
        × ((out : Bytes) × (D.read_file name (edit_doc D hash sess i now v).1.disk ≡ some out)
            × Replaced i.old_string i.new_string b out)
  unfolding edit_doc
  edit_doc-Replaced sess name b i now n v named there one ok =
      elim (Bool-cases (bytes_eq i.old_string [])) [
        | inl empty ↦ absurd (cc (rw empty at (rw (named, edit_doc) at ok)))
        | inr given ↦ elim (Bool-cases (bytes_eq i.old_string i.new_string)) [
          | inl same ↦ absurd (cc (rw same at (rw given at (rw (named, edit_doc) at ok))))
          | inr differs ↦
              rw (named, edit_doc)
                (rw given (
                  rw differs (
                    edit_text-Replaced sess name b i now n v there one
                      (rw differs at (rw given at (rw (named, edit_doc) at ok))))))
        ]
      ]

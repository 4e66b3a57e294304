-- ===== src/Vault/Docs/Append.antt =====
-- Appending to a document keeps its text and begins a new line.
use attndb.Prelude.{
  ℕ, zero, suc, ◌-◌, ◌≡◌, refl, ◌∙◌, ap, none, some, [], ◌∷◌, ◌++◌, length, get_elem?,
  if◌then◌else◌, ltb, ◌==◌, arith, Bool-cases, Option-cases, inl, inr,
}
use attndb.Prelude.Text.{Bytes}
use attndb.Vault.Disk.{Disk, DiskLaws}
use attndb.Vault.Docs.{append_text, append_file}

-- What has to stand between a text and what is appended, so that the latter begins a line.
abbrev pub line_break : Bytes → Bytes
line_break [] = []
line_break (c ∷ []) = if c == b'\n' then [] else b'\n' ∷ []
line_break (c ∷ d ∷ b) = line_break (d ∷ b)

line_break-last :
    (b content : Bytes) (c k : ℕ)
    → length b ≡ suc k
    → get_elem? b k ≡ some c
    → line_break b ++ content ≡ (if c == b'\n' then content else b'\n' ∷ content)
line_break-last [] content c k l e = cc
line_break-last (d ∷ []) content c zero l e = ground arith
line_break-last (d ∷ []) content c (suc k) l e = cc
line_break-last (d ∷ x ∷ b) content c zero l e = absurd (omega arith)
line_break-last (d ∷ x ∷ b) content c (suc k) l e =
    line_break-last (x ∷ b) content c k (omega arith) e

empty_of_length : (b : Bytes) → length b ≡ 0 → b ≡ []
empty_of_length [] e = refl
empty_of_length (c ∷ b) e = absurd (omega arith)

module _ (D : Disk) (hash : Bytes → Bytes) (L : DiskLaws D) where
  append_text-break :
      (name content b text : Bytes) (s : D.State)
      → D.read_file name s ≡ some b
      → append_text D hash name content s ≡ some text
      → text ≡ line_break b ++ content
  unfolding append_text
  append_text-break name content b text s there e = elim (Option-cases (D.seek_end name s)) [
    | inl lost ↦ absurd (cc (rw (lost, append_text) at e))
    | inr (n, seek) ↦
        let size = L.end_of name b n s there seek in
        elim (Bool-cases (ltb 0 n)) [
          | inl some_text ↦ elim (Option-cases (D.read_at name (n - 1) s)) [
            | inl lost ↦ absurd (
                cc (
                  (rw (lost, append_text) at
                    (rw (some_text, if◌then◌else◌) at (rw (seek, append_text) at e)))))
            | inr (c, got) ↦
                let last = L.byte_at name b (n - 1) c s there got in
                ground (arith, line_break-last b content c (n - 1) (ground arith) last)
          ]
          | inr no_text ↦ let empty = empty_of_length b (ground arith) in rw empty (ground arith)
        ]
  ]

  -- If appending to a file that can be read succeeds, the file holds its old text, then a line
  -- break unless it was empty or ended in one, and then the new text.
  pub append_file-KeepsText :
      (name content b : Bytes) (s : D.State)
      → D.read_file name s ≡ some b
      → (append_file D hash name content s).0 ≡ none
      → D.read_file name (append_file D hash name content s).1
        ≡ some (b ++ (line_break b ++ content))
  unfolding append_file
  append_file-KeepsText name content b s there ok =
      let s' = (D.open_file name s).1 in
      elim (Option-cases (D.open_file name s).0) [
        | inl opened ↦ elim (Option-cases (append_text D hash name content s')) [
          | inl lost ↦ absurd (cc (rw (lost, append_file) at (rw (opened, append_file) at ok)))
          | inr (text, e) ↦
              let old = L.open_old name b s there in
              let what = append_text-break name content b text s' old e in
              rw (opened, append_file)
                (rw (e, append_file)
                  (L.write_end_self name b text s' old
                      (rw (e, append_file) at (rw (opened, append_file) at ok))
                    ∙ ap (λ t. some (b ++ t)) what))
        ]
        | inr (m, failed) ↦ absurd (cc (rw (failed, append_file) at ok))
      ]

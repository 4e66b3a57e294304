-- ===== src/Tests/Vaults.antt =====
-- The vault tools on a disk that is a table of files.
use attndb.Prelude.{
  All, ℕ, ◌≡◌, ◌≤◌, true, refl, false, Option, none, some, [], ◌∷◌, ◌++◌, length, get_elem?, arith,
  ◌⊎◌,
}
use attndb.Prelude.Int.{pos}
use attndb.Prelude.Text.{Bytes, codes, bytes_eq, bytes_eq_refl, split}
use attndb.Prelude.Dict.{Dict, lookup, insert, remove, lookup-insert}
use attndb.Vault.Fault.{done, unread, changed}
use attndb.Corpus.{is_indexable}
use attndb.Vault.Path.{vault_name}
use attndb.Vault.Path.Plain.{Plain, vault_name-Plain}
use attndb.Vault.Lines.{read_window}
use attndb.Vault.Lines.Verbatim.{read_window-Tiles}
use attndb.Vault.Find.{count_string}
use attndb.Vault.Find.Edit.{Replaced}
use attndb.Vault.Disk.{Disk, DiskLaws}
use attndb.Vault.Docs.{
  WriteDocInput, EditDocInput, Vault, dir_of, append_text, append_file, make_folder, write_doc,
  edited, put_edit, edit_text, edit_doc,
}
use attndb.Vault.Sessions.Unseen.{NeverSaw}
use attndb.Vault.Docs.Guard.{after_read, overwrite_unseen, read_then_changed}
use attndb.Vault.Docs.Write.{read_then_overwrite}
use attndb.Vault.Docs.Append.{line_break, append_file-KeepsText}
use attndb.Vault.Docs.Edit.{edit_doc-Replaced}

abbrev or_empty : Option Bytes → Bytes
or_empty none = []
or_empty (some b) = b

abbrev size_of : Option Bytes → Option ℕ
size_of none = none
size_of (some b) = some (length b)

abbrev byte_of : Option Bytes → ℕ → Option ℕ
byte_of none k = none
byte_of (some b) k = get_elem? b k

abbrev files : Disk
files = record {
  State = Dict Bytes;
  read_file = λ name s. lookup name s;
  write_file = λ name b s. (none, insert name b s);
  make_dirs = λ dir s. (none, s);
  remove = λ name s. (none, remove name s);
  open_file = λ name s. (none, insert name (or_empty (lookup name s)) s);
  seek_end = λ name s. size_of (lookup name s);
  read_at = λ name k s. byte_of (lookup name s) k;
  write_end = λ name c s. (none, insert name (or_empty (lookup name s) ++ c) s);
}

read_own : (name b : Bytes) (s : Dict Bytes) → lookup name (insert name b s) ≡ some b
read_own name b s = rw (lookup-insert, bytes_eq_refl) refl

size_of-some :
    (o : Option Bytes) (b : Bytes) (n : ℕ) → o ≡ some b → size_of o ≡ some n → n ≡ length b
size_of-some none b n e f = cc
size_of-some (some c) b n e f = cc

byte_of-some :
    (o : Option Bytes) (b : Bytes) (k c : ℕ)
    → o ≡ some b
    → byte_of o k ≡ some c
    → get_elem? b k ≡ some c
byte_of-some none b k c e f = cc
byte_of-some (some d) b k c e f = cc

files-DiskLaws : DiskLaws files
files-DiskLaws = record {
  write_self = λ name b s ok. read_own name b s;
  make_dirs_keeps = λ dir name s. refl;
  open_old = λ name b s e. rw e (read_own name b s);
  end_of = λ name b n s e f. size_of-some (lookup name s) b n e f;
  byte_at = λ name b k c s e f. byte_of-some (lookup name s) b k c e f;
  write_end_self = λ name b c s e ok. rw e (read_own name (b ++ c) s);
}

abbrev same : Bytes → Bytes
same b = b

abbrev day : Bytes
day = codes "day.md"

abbrev disk : Dict Bytes
disk = (day, codes "one two") ∷ []

abbrev later : Dict Bytes
later = (day, codes "one two three") ∷ []

abbrev start : Vault files same
start = record { disk = disk; reads = record { sessions = []; last_sweep = 0 } }

abbrev write : WriteDocInput
write = record { path = codes "/day.md"; content = codes "new"; append = false }

abbrev edit : EditDocInput
edit = record {
  path = codes "/day.md";
  old_string = codes "two";
  new_string = codes "2";
  all = false;
}

named_run : vault_name (codes "/day.md") ≡ done day
unfolding vault_name
named_run = refl

known : bytes_eq (codes "s") [] ≡ false
unfolding bytes_eq
known = refl

there : lookup day disk ≡ some (codes "one two")
unfolding lookup bytes_eq
there = refl

grown : lookup day later ≡ some (codes "one two three")
unfolding lookup bytes_eq
grown = refl

-- The session has seen an older content; another one has seen the present content.
abbrev shared : Vault files same
shared = record {
  disk = disk;
  reads = record {
    sessions =
        (codes "s", record { seen = (day, codes "one") ∷ []; at = 3 })
        ∷ (codes "t", record { seen = (day, codes "one two") ∷ []; at = 4 })
        ∷ [];
    last_sweep = 0;
  };
}

never_saw : NeverSaw (codes "s") day (codes "one two") shared.reads.sessions
unfolding lookup bytes_eq
never_saw = (λ here e. cc e, (λ here. cc here, tt))

overwrite_unseen_example :
    (((write_doc files same (codes "s") write 5 shared).0 ≡ some unread)
      ⊎ ((write_doc files same (codes "s") write 5 shared).0 ≡ some changed))
    × ((write_doc files same (codes "s") write 5 shared).1.disk ≡ disk)
overwrite_unseen_example =
    overwrite_unseen files same (codes "s") day (codes "one two") write 5 shared named_run refl
      known there never_saw

read_then_changed_example :
    ((write_doc files same
        (codes "s")
        write
        90
        (after_read files same (codes "s") (codes "/day.md") (pos 1) (pos 0) 5 start later)).0
      ≡ some changed)
    × ((write_doc files same (codes "s") write 90 (
          after_read files same (codes "s") (codes "/day.md") (pos 1) (pos 0) 5 start later)).1.disk
        ≡ later)
read_then_changed_example =
    read_then_changed files same (codes "s") day (codes "/day.md") (codes "one two")
      (codes "one two three") (pos 1) (pos 0) 5 90 write start later known named_run named_run refl
      there (omega arith) grown (λ e. cc)

flat_run : (make_folder files same day disk).0 ≡ none
unfolding make_folder dir_of bytes_eq
flat_run = refl

read_then_overwrite_example :
    ((write_doc files same
        (codes "s")
        write
        90
        (after_read files same (codes "s") (codes "/day.md") (pos 1) (pos 0) 5 start disk)).0
      ≡ none)
    × (lookup day
          (write_doc files same (codes "s") write 90 (
            after_read files same
              (codes "s")
              (codes "/day.md")
              (pos 1)
              (pos 0)
              5
              start
              disk)).1.disk
        ≡ some (codes "new"))
read_then_overwrite_example =
    read_then_overwrite files same files-DiskLaws (codes "s") day (codes "/day.md")
      (codes "one two") (codes "one two") (pos 1) (pos 0) 5 90 write start disk known named_run
      named_run refl there (omega arith) there refl flat_run refl

append_run : (append_file files same day (codes "x") disk).0 ≡ none
unfolding append_file append_text insert lookup bytes_eq
append_run = refl

append_file-KeepsText_example :
    lookup day (append_file files same day (codes "x") disk).1
    ≡ some (codes "one two" ++ (line_break (codes "one two") ++ codes "x"))
append_file-KeepsText_example =
    append_file-KeepsText files same files-DiskLaws day (codes "x") (codes "one two") disk there
      append_run

edit_run : (edit_doc files same (codes "s") edit 7 start).0 ≡ done 1
unfolding edit_doc edit_text edited put_edit vault_name count_string lookup bytes_eq
edit_run = refl

edit_doc-Replaced_example :
    (◌≡◌ {A = ℕ} 1 1)
    × ((out : Bytes) × (lookup day (edit_doc files same (codes "s") edit 7 start).1.disk ≡ some out)
        × Replaced (codes "two") (codes "2") (codes "one two") out)
edit_doc-Replaced_example =
    edit_doc-Replaced files same files-DiskLaws (codes "s") day (codes "one two") edit 7 1 start
      named_run there refl edit_run

long_run : vault_name (codes "/a/./b//../c.md") ≡ done (codes "a/c.md")
unfolding vault_name
long_run = refl

vault_name-Plain_example :
    All Plain (split b'/' (codes "a/c.md"))
    × (is_indexable (codes "a/c.md") ≡ true)
    × (vault_name (b'/' ∷ codes "a/c.md") ≡ done (codes "a/c.md"))
vault_name-Plain_example = vault_name-Plain (codes "/a/./b//../c.md") (codes "a/c.md") long_run

three_run : (read_window (codes "a\nb\nc\n") (pos 1) (pos 2)).total_lines ≤ 9
unfolding read_window
three_run = omega arith

read_window-Tiles_example :
    (read_window (codes "a\nb\nc\n") (pos 1) (pos 2)).content
      ++ (read_window (codes "a\nb\nc\n") (pos 3) (pos 9)).content
    ≡ codes "a\nb\nc\n"
read_window-Tiles_example =
    read_window-Tiles (codes "a\nb\nc\n") 2 9 (omega arith) (omega arith) three_run (omega arith)

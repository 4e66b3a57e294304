-- ===== src/Vault/Disk.antt =====
-- The files of the vault behind `os.Root`, which the tools share with the user: the operations of
-- the program on a state, and what the theorems assume of them.
use attndb.Prelude.{ℕ, ◌≡◌, Option, none, some, ◌++◌, length, get_elem?}
use attndb.Prelude.Text.{Bytes}
use attndb.Reconcile.Index.{Error}

pub record Disk : Type 1 where
  pub State : Type 0
  -- none where the file is not there or cannot be read
  pub read_file : Bytes → State → Option Bytes
  pub write_file : Bytes → Bytes → State → Error × State
  pub make_dirs : Bytes → State → Error × State
  pub remove : Bytes → State → Error × State
  -- OpenFile(name, O_RDWR|O_CREATE)
  pub open_file : Bytes → State → Error × State
  -- Seek(0, SeekEnd) and ReadAt of one byte, none where they fail
  pub seek_end : Bytes → State → Option ℕ
  pub read_at : Bytes → ℕ → State → Option ℕ
  -- Write, at the end of the file
  pub write_end : Bytes → Bytes → State → Error × State

-- What a successful operation does to the contents of the files. Opening creates an empty file
-- where there is none. No two names are one file.
pub record DiskLaws (D : Disk) : Type 0 where
  pub write_self :
      (name b : Bytes) (s : D.State)
      → (D.write_file name b s).0 ≡ none
      → D.read_file name (D.write_file name b s).1 ≡ some b
  pub make_dirs_keeps :
      (dir name : Bytes) (s : D.State) → D.read_file name (D.make_dirs dir s).1 ≡ D.read_file name s
  pub open_old :
      (name b : Bytes) (s : D.State)
      → D.read_file name s ≡ some b
      → D.read_file name (D.open_file name s).1 ≡ some b
  pub end_of :
      (name b : Bytes) (n : ℕ) (s : D.State)
      → D.read_file name s ≡ some b
      → D.seek_end name s ≡ some n
      → n ≡ length b
  pub byte_at :
      (name b : Bytes) (k c : ℕ) (s : D.State)
      → D.read_file name s ≡ some b
      → D.read_at name k s ≡ some c
      → get_elem? b k ≡ some c
  pub write_end_self :
      (name b c : Bytes) (s : D.State)
      → D.read_file name s ≡ some b
      → (D.write_end name c s).0 ≡ none
      → D.read_file name (D.write_end name c s).1 ≡ some (b ++ c)

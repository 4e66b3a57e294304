-- ===== src/Vault/Fault.antt =====
-- The errors of the vault tools, one constructor for each message; `io` is an error of the disk.
use attndb.Prelude.{ℕ}
use attndb.Prelude.Text.{Bytes}

pub data Fault : Type 0 where
  not_absolute : Fault
  vault_root : Fault
  not_markdown : Fault
  hidden : Fault
  unread : Fault
  changed : Fault
  no_old_string : Fault
  same_string : Fault
  not_found : Fault
  not_unique : ℕ → Fault
  io : Bytes → Fault

pub data Result {ℓ} (A : Type ℓ) : Type ℓ where
  refused : Fault → Result A
  done : A → Result A

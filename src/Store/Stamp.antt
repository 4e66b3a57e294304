-- ===== src/Store/Stamp.antt =====
-- `DocStamp` of internal/store/pool.go, and how a stamp is read from a `map[string]any`.
use attndb.Prelude.{Option, none, some, []}
use attndb.Prelude.Int.{ℤ, pos}
use attndb.Prelude.Text.{Bytes}
use attndb.Core.Types.{Value, str, int, int64, bool}

pub record DocStamp : Type 0 where
  pub mtime : ℤ
  pub sha : Bytes

abbrev pub zero_stamp : DocStamp
zero_stamp = record { mtime = pos 0; sha = [] }

-- m["mtime"].(int64), into the field `mtime`
abbrev pub with_mtime : Option Value → DocStamp → DocStamp
with_mtime none st = st
with_mtime (some (int64 v)) st = record st { mtime = v }
with_mtime (some (str v)) st = st
with_mtime (some (int v)) st = st
with_mtime (some (bool v)) st = st

-- m["sha"].(string), into the field `sha`
abbrev pub with_sha : Option Value → DocStamp → DocStamp
with_sha none st = st
with_sha (some (str v)) st = record st { sha = v }
with_sha (some (int64 v)) st = st
with_sha (some (int v)) st = st
with_sha (some (bool v)) st = st

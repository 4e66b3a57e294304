-- ===== src/Command/Pools.antt =====
-- newPools of cmd/attndb/main.go: the names of the collections. `Made` is what a factory makes.
pub mod Apart
use attndb.Prelude.{Option, none, some, List, [], ◌∷◌, ◌++◌, ◌≡◌, refl}
use attndb.Prelude.Text.{Bytes, codes}

-- The three passes that have a pool.
pub data PoolKind : Type 0 where
  tok : PoolKind
  para : PoolKind
  doc : PoolKind

unfoldable pub kind_name : PoolKind → Bytes
kind_name tok = codes "_tok_section"
kind_name para = codes "_para"
kind_name doc = codes "_doc"

-- `prefix`
unfoldable pub name_prefix : Bytes → Bytes
name_prefix [] = codes "attndb"
name_prefix (c ∷ ns) = codes "attndb" ++ (b'_' ∷ c ∷ ns)

-- prefix + "_…" + suffix
unfoldable pub pool_name : Bytes → Bytes → PoolKind → Bytes
unfolding kind_name name_prefix
pool_name enc_kind ns k = (name_prefix ns ++ kind_name k) ++ (b'_' ∷ enc_kind)

module _ {Made : Type 0} (mk : Bytes → Option Made) where
  -- None where the factory fails.
  unfoldable pub new_pools : Bytes → Bytes → Option (Made × Made × Made)
  unfolding pool_name
  new_pools enc_kind ns = elim (mk (pool_name enc_kind ns tok)) [
    | none ↦ none
    | some t ↦ elim (mk (pool_name enc_kind ns para)) [
      | none ↦ none
      | some p ↦ elim (mk (pool_name enc_kind ns doc)) [ none ↦ none | some d ↦ some (t, p, d) ]
    ]
  ]

pool_name_runs : pool_name (codes "stub") (codes "vault") para ≡ codes "attndb_vault_para_stub"
unfolding pool_name
pool_name_runs = refl

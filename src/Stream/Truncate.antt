-- ===== src/Stream/Truncate.antt =====
-- dbfs_truncateblocks and dbfs_dels of stores/dbfs/stream.c.
use mangoo.Base.{ℕ, zero, suc, ◌+◌, ◌-◌, ◌%◌, ◌^◌, true, false, leb}
use mangoo.Types.{ok, err, not_found, Code, success, eio, db, block, Handle}
use mangoo.System.{System, M, pure, db_call, still_running, ◌>>=◌}
use mangoo.Stream.{block_start, size_in_block}

-- size_t subtraction
unfoldable pub sub_size : ℕ → ℕ → ℕ
sub_size a b = (a + 2 ^ 64 - b) % 2 ^ 64

module _ (os : System) where
  -- while (size <= 0): the fuel counts the rounds.
  unfoldable pub truncate_loop : ℕ → ℕ → ℕ → ℕ → ℕ → Code → M os Code
  truncate_loop zero ino offset dbk_offset size error = still_running
  truncate_loop (suc fuel) ino offset dbk_offset size error = elim (leb size 0) [
    | false ↦ pure error
    | true ↦ (do
      let sizeinblk = size_in_block (offset - dbk_offset) size
      let next = truncate_loop fuel ino (offset + sizeinblk) (offset + sizeinblk) (size - sizeinblk)
      reply ← db_call (λ s. os.del s (block ino dbk_offset))
      elim reply [
        | ok _ ↦ next success
        | err e ↦ elim e [ not_found ↦ next (db not_found) | _ ↦ pure eio ]
      ])
  ]

  unfoldable pub dbfs_truncateblocks : ℕ → ℕ → ℕ → ℕ → M os Code
  unfolding sub_size block_start truncate_loop
  dbfs_truncateblocks fuel ino offset end =
      truncate_loop fuel ino offset (block_start offset) (sub_size end offset) success

  unfoldable pub dbfs_dels : ℕ → Handle → M os Code
  unfolding dbfs_truncateblocks
  dbfs_dels fuel dh = dbfs_truncateblocks fuel dh.attr_ddd.ddd_ino 0 dh.attr_ddd.ddd_size

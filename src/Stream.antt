-- ===== src/Stream.antt =====
-- File data in blocks and the stream interface of the dbfs store: stores/dbfs/stream.c.
-- Offsets and sizes are non-negative; the additions that the code makes in size_t wrap.
pub mod Truncate
pub mod Interface
pub mod Content
pub mod Read
pub mod Splice
pub mod Written
pub mod Write
pub mod ReadBack
pub mod RoundTrip
pub mod Handles
pub mod Isolation
pub mod Bounds
pub mod Deleting
pub mod Blocks
use mangoo.Base.{
  ℕ, zero, suc, ◌+◌, ◌-◌, ◌%◌, ◌^◌, Bool, true, false, Option, none, some, List, [], ◌++◌, ltb,
  if◌then◌else◌, length, take, drop, replicate,
}
use mangoo.Types.{Reply, ok, err, not_found, Code, success, eio, db, block, dbfs_blksize}
use mangoo.System.{
  System, M, pure, gets, db_call, overwrite, ◌>>=◌, ◌>>◌, still_running, undefined_behaviour,
}

-- size_t addition
unfoldable pub add_size : ℕ → ℕ → ℕ
add_size a b = (a + b) % 2 ^ 64

-- offset - (offset & (DBFS_BLKSIZE - 1))
unfoldable pub block_start : ℕ → ℕ
block_start offset = offset - offset % dbfs_blksize

-- The bytes of one round that lie in the block.
unfoldable pub size_in_block : ℕ → ℕ → ℕ
unfolding add_size
size_in_block offinblk size =
    if ltb dbfs_blksize (add_size offinblk size) then dbfs_blksize - offinblk else size

-- Whether so many bytes from the offset in a block run over its end, which they do where the sum
-- in size_in_block has wrapped. The size is then so near to 2^64 that no caller's buffer holds as
-- many zeros either.
unfoldable pub overruns : ℕ → ℕ → Bool
overruns offinblk sizeinblk = ltb dbfs_blksize (offinblk + sizeinblk)

-- memcpy(data + offinblk, buf, sizeinblk)
unfoldable pub splice : List ℕ → ℕ → List ℕ → List ℕ
splice block_data offinblk bytes =
    take offinblk block_data ++ (bytes ++ drop (offinblk + length bytes) block_data)

-- What a transfer leaves: the int returned, the bytes copied to the caller (none for a write), and
-- the number of bytes done, *sp.
pub record Transfer : Type 0 where
  pub error : Code
  pub bytes : List ℕ
  pub count : ℕ

module _ (os : System) where
  -- One round of a read: a missing block reads as zeros and leaves DB_NOTFOUND in `error`;
  -- on another error the loop is left.
  unfoldable pub read_round : Reply (List ℕ) → ℕ → ℕ → Code × List ℕ × Bool
  read_round (ok content) offinblk sizeinblk =
      (success, take sizeinblk (drop offinblk content), true)
  read_round (err not_found) offinblk sizeinblk = (db not_found, replicate sizeinblk 0, true)
  read_round (err e) offinblk sizeinblk = (eio, [], false)

  unfoldable pub read_loop : ℕ → ℕ → ℕ → ℕ → ℕ → Code → M os Transfer
  unfolding overruns
  read_loop fuel ino offset dbk_offset zero error =
      pure (record { error = error; bytes = []; count = 0 })
  read_loop zero ino offset dbk_offset (suc size) error = still_running
  read_loop (suc fuel) ino offset dbk_offset (suc size) error = do
    let offinblk = offset - dbk_offset
    let sizeinblk = size_in_block offinblk (suc size)
    reply ← gets (λ w. os.get w.base (block ino dbk_offset))
    let round = read_round reply offinblk sizeinblk
    elim (round.2) [
      | false ↦ pure (record { error = round.0; bytes = []; count = 0 })
      | true ↦ elim (overruns offinblk sizeinblk) [
        | true ↦ undefined_behaviour
        | false ↦ (do
          rest ←
              read_loop fuel ino (offset + sizeinblk) (offset + sizeinblk) (suc size - sizeinblk)
                (round.0)
          pure (record {
            error = rest.error;
            bytes = round.1 ++ rest.bytes;
            count = sizeinblk + rest.count;
          }))
      ]
    ]

  -- What a write puts its bytes over: the stored block, or uninitialised memory where there is
  -- none. The result of malloc is not tested.
  unfoldable pub block_to_write : Reply (List ℕ) → ℕ → ℕ → M os (Option (List ℕ))
  block_to_write (ok content) ino dbk_offset = pure (some content)
  block_to_write (err not_found) ino dbk_offset =
      if os.malloc dbfs_blksize
      then pure (some (os.fresh_block ino dbk_offset))
      else undefined_behaviour
  block_to_write (err e) ino dbk_offset = pure none

  -- One round of a write: whether the loop goes on, and what it leaves if it does not.
  unfoldable pub write_round : ℕ → ℕ → ℕ → List ℕ → M os Bool
  unfolding block_to_write splice overruns
  write_round ino dbk_offset offinblk bytes = do
    reply ← gets (λ w. os.get w.base (block ino dbk_offset))
    found ← block_to_write reply ino dbk_offset
    elim found [
      | none ↦ pure false
      | some content ↦ elim (overruns offinblk (length bytes)) [
        | true ↦ undefined_behaviour
        | false ↦ (do
          stored ←
              db_call
                (λ s. os.put s (block ino dbk_offset) (splice content offinblk bytes) overwrite)
          elim stored [ ok _ ↦ pure true | err e ↦ pure false ])
      ]
    ]

  unfoldable pub write_loop : ℕ → ℕ → List ℕ → ℕ → ℕ → ℕ → M os Transfer
  write_loop fuel ino buf offset dbk_offset zero =
      pure (record { error = success; bytes = []; count = 0 })
  write_loop zero ino buf offset dbk_offset (suc size) = still_running
  write_loop (suc fuel) ino buf offset dbk_offset (suc size) = do
    let offinblk = offset - dbk_offset
    let sizeinblk = size_in_block offinblk (suc size)
    continues ← write_round ino dbk_offset offinblk (take sizeinblk buf)
    elim continues [
      | false ↦ pure (record { error = eio; bytes = []; count = 0 })
      | true ↦ (do
        rest ←
            write_loop fuel ino (drop sizeinblk buf) (offset + sizeinblk) (offset + sizeinblk)
              (suc size - sizeinblk)
        pure (record rest { count = sizeinblk + rest.count }))
    ]

  -- A round moves at least one byte, so `size` rounds are enough.
  unfoldable pub dbfs_readwrite : ℕ → List ℕ → ℕ → ℕ → Bool → M os Transfer
  dbfs_readwrite ino buf size offset true =
      read_loop size ino offset (block_start offset) size success
  dbfs_readwrite ino buf size offset false =
      write_loop size ino buf offset (block_start offset) size

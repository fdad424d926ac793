-- ===== src/Stream/Blocks.antt =====
-- The arithmetic of blocks: where an offset stands in its block, and what a round of a loop covers.
use mangoo.Base.{ℕ, suc, ◌+◌, ◌-◌, ◌%◌, ◌^◌, ◌≤◌, ◌≡◌, ◌⊎◌, false, arith}
use mangoo.Types.{dbfs_blksize}
use mangoo.Stream.{block_start, size_in_block, overruns}

-- The largest transfer whose size_t additions do not wrap.
abbrev pub max_transfer : ℕ
max_transfer = 2 ^ 63

pub record IsRound (offset offinblk size part : ℕ) : Type 0 where
  pub aligned : block_start offset % dbfs_blksize ≡ 0
  pub inside : block_start offset + offinblk ≡ offset
  pub fits : offinblk + part ≤ dbfs_blksize
  pub moves : 1 ≤ part
  pub bounded : part ≤ size
  pub ends : (part ≡ size) ⊎ (block_start (offset + part) ≡ offset + part)

-- A round covers at least one byte, stays in one block, and ends the transfer or the block.
pub size_in_block-IsRound :
    (offset n : ℕ)
    → suc n ≤ max_transfer
    → IsRound offset
        (offset - block_start offset)
        (suc n)
        (size_in_block (offset - block_start offset) (suc n))
unfolding block_start size_in_block
size_in_block-IsRound offset n h = ground arith

pub overruns-fits :
    (offinblk part : ℕ) → offinblk + part ≤ dbfs_blksize → overruns offinblk part ≡ false
unfolding overruns
overruns-fits offinblk part h = ground arith

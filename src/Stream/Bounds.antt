-- ===== src/Stream/Bounds.antt =====
-- How much dbfs_read reads, at the end of the file and at the end of size_t.
use mangoo.Base.{
  ℕ, zero, suc, ◌+◌, ◌-◌, ◌%◌, ◌^◌, ◌≤◌, ◌<◌, min, ◌≡◌, ◌∙◌, inl, inr, true, false, [], arith, ltb,
  if◌then◌else◌,
}
use mangoo.Types.{success, Handle, Code, block, dbfs_blksize}
use mangoo.System.{System, World, returns, undefined}
use mangoo.System.Laws.{IsReliable}
use mangoo.Stream.{
  add_size, dbfs_readwrite, block_start, size_in_block, overruns, read_round, read_loop,
}
use mangoo.Stream.Interface.{dbfs_read}
use mangoo.Stream.Blocks.{max_transfer}
use mangoo.Stream.Content.{HasBlocks, bytes_from}
use mangoo.Stream.Read.{last_error, dbfs_readwrite-read}

clamped :
    (file_size offset size : ℕ)
    → offset ≤ file_size
    → offset + size < 2 ^ 64
    → (if ltb file_size (add_size offset size) then file_size - offset else size)
      ≡ min size (file_size - offset)
unfolding add_size
clamped file_size offset size h b = ground arith

module _ (os : System) where
  dbfs_read-clamped :
      (dh : Handle) (size offset : ℕ) (w : World os.State)
      → offset ≤ dh.attr_ddd.ddd_size
      → offset + size < 2 ^ 64
      → dbfs_read os dh size offset w
        ≡ dbfs_readwrite os dh.attr_ddd.ddd_ino []
            (min size (dh.attr_ddd.ddd_size - offset))
            offset
            true
            w
  unfolding dbfs_read
  dbfs_read-clamped dh size offset w h b =
      let inside : ltb dh.attr_ddd.ddd_size offset ≡ false = ground arith in
      rw (inside, clamped dh.attr_ddd.ddd_size offset size h b)

  -- A read at an offset inside the file, or at its end, where the end of the range fits in a
  -- size_t: it returns the content from the offset on, cut at the file's end, and counts exactly
  -- those bytes, at most as many as were asked for. The int is that of the block of the last byte
  -- read, 0 if it is stored or if no byte is read. The database does not fail, every stored block is
  -- whole, and no more than 2^63 bytes are asked for.
  pub dbfs_read_bounds :
      (dh : Handle) (size offset : ℕ) (w : World os.State)
      → IsReliable os.berkeley
      → HasBlocks os w.base
      → offset ≤ dh.attr_ddd.ddd_size
      → offset + size < 2 ^ 64
      → size ≤ max_transfer
      → let ino = dh.attr_ddd.ddd_ino in
        let n = min size (dh.attr_ddd.ddd_size - offset) in
        (dbfs_read os dh size offset w
          ≡ returns (
            record {
              error = last_error os w.base ino offset n success;
              bytes = bytes_from os w.base ino offset n;
              count = n;
            },
            w,
          ))
        × (n ≤ size)
        × (offset + n ≤ dh.attr_ddd.ddd_size)
  dbfs_read_bounds dh size offset w reliable h inside fits m =
      let n = min size (dh.attr_ddd.ddd_size - offset) in
      (
        dbfs_read-clamped dh size offset w inside fits
            ∙ dbfs_readwrite-read os reliable dh.attr_ddd.ddd_ino [] n offset w h (omega arith),
        omega arith,
        omega arith,
      )

  wraps-overruns :
      (offinblk n : ℕ)
      → offinblk < dbfs_blksize
      → suc n < 2 ^ 64
      → 2 ^ 64 ≤ offinblk + suc n
      → overruns offinblk (size_in_block offinblk (suc n)) ≡ true
  unfolding overruns size_in_block add_size
  wraps-overruns offinblk n inside small wraps = ground arith

  read_round_copies :
      (s : os.State) (ino base i part : ℕ)
      → IsReliable os.berkeley
      → (read_round os (os.get s (block ino base)) i part).2 ≡ true
  unfolding read_round
  read_round_copies s ino base i part reliable = elim (reliable.get_answers s (block ino base)) [
    | inl (content, e) ↦ rw e
    | inr e ↦ rw e
  ]

  read_loop-overruns :
      (fuel ino offset dbk n : ℕ) (error : Code) (w : World os.State)
      → let i = offset - dbk in
        let part = size_in_block i (suc n) in
        overruns i part ≡ true
        → (read_round os (os.get w.base (block ino dbk)) i part).2 ≡ true
        → read_loop os (suc fuel) ino offset dbk (suc n) error w ≡ undefined
  unfolding read_loop
  read_loop-overruns fuel ino offset dbk n error w f c = cc (c, f)

  dbfs_readwrite-overruns :
      (ino size offset : ℕ) (w : World os.State)
      → IsReliable os.berkeley
      → size < 2 ^ 64
      → 2 ^ 64 ≤ offset % dbfs_blksize + size
      → dbfs_readwrite os ino [] size offset true w ≡ undefined
  unfolding dbfs_readwrite
  dbfs_readwrite-overruns ino zero offset w reliable small wraps = absurd (omega arith)
  dbfs_readwrite-overruns ino (suc n) offset w reliable small wraps =
      let i = offset - block_start offset in
      let here : i ≡ offset % dbfs_blksize = (unfold block_start in omega arith) in
      read_loop-overruns n ino offset (block_start offset) n success w
        (wraps-overruns i n (omega arith) small (omega arith))
        (read_round_copies w.base ino (block_start offset) i (size_in_block i (suc n)) reliable)

  -- A read from an offset inside the file, of a size below 2^64 that comes to 2^64 or more with the
  -- offset in its block: the cut at the file's end is missed, and so is the cut at the block's end.
  -- Where the database does not fail, the read is undefined behaviour.
  pub dbfs_read_wraps :
      (dh : Handle) (size offset : ℕ) (w : World os.State)
      → IsReliable os.berkeley
      → offset ≤ dh.attr_ddd.ddd_size
      → dh.attr_ddd.ddd_size < 2 ^ 64
      → size < 2 ^ 64
      → 2 ^ 64 ≤ offset % dbfs_blksize + size
      → dbfs_read os dh size offset w ≡ undefined
  unfolding dbfs_read add_size
  dbfs_read_wraps dh size offset w reliable inside a b wraps =
      let before : ltb dh.attr_ddd.ddd_size offset ≡ false = ground arith in
      let missed : ltb dh.attr_ddd.ddd_size ((offset + size) % 2 ^ 64) ≡ false = ground arith in
      rw (before, missed)
        (dbfs_readwrite-overruns dh.attr_ddd.ddd_ino size offset w reliable b wraps)

-- ===== src/Stream/ReadBack.antt =====
-- Reading what was written by dbfs_readwrite, and what a read depends on.
use mathlib.Core.Path.{subst}
use native.Mathlib.Nat.{add-zero}
use mangoo.Base.{
  ℕ, zero, suc, ◌+◌, ◌-◌, ◌%◌, ◌≤◌, ◌<◌, ◌≡◌, refl, sym, ap, ◌∙◌, true, List, [], ◌∷◌, arith,
  length, get_or,
}
use mangoo.Types.{success, block, dbfs_blksize}
use mangoo.System.{System, World, returns}
use mangoo.System.Laws.{IsReliable}
use mangoo.Stream.{block_start, dbfs_readwrite}
use mangoo.Stream.Blocks.{max_transfer}
use mangoo.Stream.Content.{HasBlocks, byte_at, byte_of, bytes_from}
use mangoo.Stream.Read.{last_error, round_error, dbfs_readwrite-read}
use mangoo.Stream.Written.{IsWritten, IsStored, found_byte, block_or}

module _ (os : System) where
  -- A byte of a stored block is the one that a write would find.
  byte_at-stored :
      (s : os.State) (ino p : ℕ)
      → IsStored os s (block ino (block_start p))
      → byte_at os s ino p ≡ found_byte os s ino p
  unfolding byte_at found_byte
  byte_at-stored s ino p (c, e) =
      ap (λ r. byte_of r (p % dbfs_blksize)) e
      ∙ sym (
          ap (λ r. get_or (block_or (os.fresh_block ino (block_start p)) r) (p % dbfs_blksize) 0) e)

  bytes_from-eq :
      (s : os.State) (ino offset : ℕ) (buf : List ℕ)
      → ((j : ℕ) → j < length buf → byte_at os s ino (offset + j) ≡ get_or buf j 0)
      → bytes_from os s ino offset (length buf) ≡ buf
  unfolding bytes_from
  bytes_from-eq s ino offset [] h = refl
  bytes_from-eq s ino offset (x ∷ xs) h =
      let first : byte_at os s ino offset ≡ x =
        subst (λ (p : ℕ). byte_at os s ino p ≡ x) (add-zero offset) (h 0 (omega arith)) in
      let rest = bytes_from-eq s ino (offset + 1) xs (λ j k.
        subst (λ (p : ℕ). byte_at os s ino p ≡ get_or xs j 0) (omega arith)
          (h (suc j) (omega arith))) in
      cc (first, rest)

  module _ {s s' : os.State} {ino offset : ℕ} {buf : List ℕ}
      (v : IsWritten os s s' ino offset buf) where
    byte_at-written : (j : ℕ) → j < length buf → byte_at os s' ino (offset + j) ≡ get_or buf j 0
    byte_at-written j h =
        let e : offset + j - offset ≡ j = omega arith in
        byte_at-stored s' ino (offset + j) (v.stored (offset + j) (omega arith) (omega arith))
        ∙ v.bytes (offset + j)
        ∙ rw e (ground arith)

    pub bytes_from-written : bytes_from os s' ino offset (length buf) ≡ buf
    bytes_from-written = bytes_from-eq s' ino offset buf byte_at-written

    pub last_error-stored :
        (n : ℕ) → n ≤ length buf → last_error os s' ino offset n success ≡ success
    last_error-stored zero h = refl
    last_error-stored (suc n) h =
        ap round_error (v.stored (offset + n) (omega arith) (omega arith)).1

    pub read-written :
        (any : List ℕ) (w : World os.State)
        → IsReliable os.berkeley
        → length buf ≤ max_transfer
        → w.base ≡ s'
        → dbfs_readwrite os ino any (length buf) offset true w
          ≡ returns (record { error = success; bytes = buf; count = length buf }, w)
    read-written any w reliable m q =
        dbfs_readwrite-read os reliable ino any (length buf) offset w
          (subst (HasBlocks os) (sym q) v.whole) m
        ∙ λ k. returns (
          record {
            error =
                (ap (λ x. last_error os x ino offset (length buf) success) q
                    ∙ last_error-stored (length buf) (omega arith))
                  k;
            bytes = (ap (λ x. bytes_from os x ino offset (length buf)) q ∙ bytes_from-written) k;
            count = length buf;
          },
          w,
        )

  -- What a read sees depends on the blocks of the file only.
  module _ {s t : os.State} {ino : ℕ}
      (same : (o : ℕ) → os.get t (block ino o) ≡ os.get s (block ino o)) where
    pub bytes_from-same :
        (offset n : ℕ) → bytes_from os t ino offset n ≡ bytes_from os s ino offset n
    unfolding bytes_from byte_at
    bytes_from-same offset zero = refl
    bytes_from-same offset (suc n) =
        let first : byte_at os t ino offset ≡ byte_at os s ino offset =
          ap (λ r. byte_of r (offset % dbfs_blksize)) (same (block_start offset)) in
        cc (first, bytes_from-same (offset + 1) n)

    pub last_error-same :
        (offset n : ℕ) → last_error os t ino offset n success ≡ last_error os s ino offset n success
    last_error-same offset zero = refl
    last_error-same offset (suc n) = ap round_error (same (block_start (offset + n)))

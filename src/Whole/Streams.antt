-- ===== src/Whole/Streams.antt =====
-- The loops of stream.c keep the stored blocks whole.
use mangoo.Base.{
  ℕ, zero, suc, ◌+◌, ◌-◌, ◌≤◌, ◌<◌, ◌≡◌, refl, ◌∙◌, ◌⊎◌, inl, inr, Bool, true, false, Option, none,
  some, List, [], ◌++◌, arith, leb, Bool-cases, length, take, drop, length-take,
}
use mangoo.Types.{Reply, ok, err, DbError, not_found, Code, success, eio, db, block, dbfs_blksize}
use mangoo.System.{System, M, Run, World, pure, db_call, overwrite, ◌>>=◌, undefined_behaviour}
use mangoo.System.Laws.{IsStore, HasMemory}
use mangoo.System.Keeps.{
  Keeps, Left, Keeps-pure, Keeps-running, Keeps-gets, Keeps-db_call, Keeps-bind, Keeps-undefined,
}
use mangoo.Stream.{
  splice, block_to_write, write_round, write_loop, read_loop, size_in_block, add_size, overruns,
  dbfs_readwrite, block_start, read_round,
}
use mangoo.Stream.Content.{HasBlocks}
use mangoo.Stream.Splice.{length-splice}
use mangoo.Stream.Blocks.{max_transfer}
use mangoo.Stream.Truncate.{truncate_loop, dbfs_truncateblocks, sub_size}
use mangoo.Whole.{put_block-HasBlocks, del-HasBlocks}

pub Keeps-answer :
    {S A B : Type 0} {P : S → Type 0} (r : Reply B) {m : B → Run S A} {n : DbError → Run S A}
    → ((b : B) → Keeps P (m b))
    → ((e : DbError) → Keeps P (n e))
    → Keeps P (elim r [ ok b ↦ m b | err e ↦ n e ])
Keeps-answer (ok b) km kn = km b
Keeps-answer (err e) km kn = kn e

pub Keeps-choice :
    {S A : Type 0} {P : S → Type 0} (b : Bool) {m n : Run S A}
    → Keeps P m
    → Keeps P n
    → Keeps P (elim b [ false ↦ m | true ↦ n ])
Keeps-choice true km kn = kn
Keeps-choice false km kn = km

abbrev WholeIfAny : Option (List ℕ) → Type 0
WholeIfAny none = Unit {0}
WholeIfAny (some content) = length content ≡ dbfs_blksize

pub reply_cases :
    {A : Type 0} (r : Reply A) → ((a : A) × (r ≡ ok a)) ⊎ ((e : DbError) × (r ≡ err e))
reply_cases (ok a) = inl (a, refl)
reply_cases (err e) = inr (e, refl)

module _ (os : System) (store : IsStore os.berkeley) (memory : HasMemory os.platform) where
  module _ (ino dbk offinblk : ℕ) (bytes : List ℕ)
      (fits : offinblk + length bytes ≤ dbfs_blksize) where
    store_block :
        (content : List ℕ)
        → length content ≡ dbfs_blksize
        → Keeps
            (HasBlocks os)
            (db_call (λ s. os.put s (block ino dbk) (splice content offinblk bytes) overwrite))
    store_block content n = Keeps-db_call _ (λ s h.
        put_block-HasBlocks os store s ino dbk (splice content offinblk bytes) overwrite
          (length-splice content offinblk bytes (omega arith) ∙ n) h)

    write_found :
        (found : Option (List ℕ))
        → WholeIfAny found
        → Keeps (HasBlocks os) (elim found [
          | none ↦ pure false
          | some content ↦ elim (overruns offinblk (length bytes)) [
            | true ↦ undefined_behaviour
            | false ↦ (do
              stored ←
                  db_call (λ s. os.put s (block ino dbk) (splice content offinblk bytes) overwrite)
              elim stored [ ok _ ↦ pure true | err e ↦ pure false ])
          ]
        ])
    write_found none n = Keeps-pure false
    write_found (some content) n =
        Keeps-choice (overruns offinblk (length bytes))
          (Keeps-bind (store_block content n)
            (λ r. Keeps-answer r (λ _. Keeps-pure true) (λ _. Keeps-pure false)))
          Keeps-undefined

    write_err :
        (e : DbError) (w : World os.State)
        → os.get w.base (block ino dbk) ≡ err e
        → HasBlocks os w.base
        → Left (HasBlocks os) (write_round os ino dbk offinblk bytes w)
    unfolding write_round block_to_write
    write_err not_found w g h = rw g (elim (Bool-cases (os.malloc dbfs_blksize)) [
      | inl has ↦
          rw has (
            (write_found (some (os.fresh_block ino dbk)) (memory.length-fresh_block ino dbk)).at w
              h)
      | inr full ↦ rw full tt
    ])
    write_err e w g h = rw g h

    write_round-Keeps : Keeps (HasBlocks os) (write_round os ino dbk offinblk bytes)
    unfolding write_round block_to_write
    write_round-Keeps = record {
      at = λ w h. elim (reply_cases (os.get w.base (block ino dbk))) [
        | inl (content, g) ↦ rw g ((write_found (some content) (h.whole ino dbk content g)).at w h)
        | inr (e, g) ↦ write_err e w g h
      ];
    }

  round_fits :
      (offinblk n : ℕ) (buf : List ℕ)
      → offinblk < dbfs_blksize
      → suc n ≤ max_transfer
      → offinblk + length (take (size_in_block offinblk (suc n)) buf) ≤ dbfs_blksize
  unfolding size_in_block add_size
  round_fits offinblk n buf inside m =
      ground (arith, length-take (size_in_block offinblk (suc n)) buf)

  write_loop-Keeps :
      (fuel ino : ℕ) (buf : List ℕ) (offset dbk size : ℕ)
      → offset - dbk < dbfs_blksize
      → size ≤ max_transfer
      → Keeps (HasBlocks os) (write_loop os fuel ino buf offset dbk size)
  unfolding write_loop
  write_loop-Keeps zero ino buf offset dbk zero inside m = Keeps-pure _
  write_loop-Keeps (suc fuel) ino buf offset dbk zero inside m = Keeps-pure _
  write_loop-Keeps zero ino buf offset dbk (suc size) inside m = Keeps-running
  write_loop-Keeps (suc fuel) ino buf offset dbk (suc size) inside m =
      let part = size_in_block (offset - dbk) (suc size) in
      Keeps-bind
        (write_round-Keeps ino dbk (offset - dbk) (take part buf)
          (round_fits (offset - dbk) size buf inside m))
        λ continues. Keeps-choice continues (Keeps-pure _) (
          Keeps-bind
            (write_loop-Keeps fuel ino (drop part buf) (offset + part) (offset + part)
              (suc size - part) (omega arith) (omega arith))
            (λ rest. Keeps-pure _))

  read_loop-Keeps :
      (fuel ino offset dbk size : ℕ) (error : Code)
      → Keeps (HasBlocks os) (read_loop os fuel ino offset dbk size error)
  unfolding read_loop
  read_loop-Keeps zero ino offset dbk zero error = Keeps-pure _
  read_loop-Keeps (suc fuel) ino offset dbk zero error =
      Keeps-pure (record { error = error; bytes = []; count = 0 })
  read_loop-Keeps zero ino offset dbk (suc size) error = Keeps-running
  read_loop-Keeps (suc fuel) ino offset dbk (suc size) error =
      let part = size_in_block (offset - dbk) (suc size) in
      Keeps-bind (Keeps-gets (λ (w : World os.State). os.get w.base (block ino dbk))) (λ reply.
        Keeps-choice ((read_round os reply (offset - dbk) part).2)
          (Keeps-pure
            (record { error = (read_round os reply (offset - dbk) part).0; bytes = []; count = 0 }))
          (Keeps-choice (overruns (offset - dbk) part)
            (Keeps-bind
              (read_loop-Keeps fuel ino (offset + part) (offset + part) (suc size - part)
                ((read_round os reply (offset - dbk) part).0))
              (λ rest. Keeps-pure (record {
                error = rest.error;
                bytes = (read_round os reply (offset - dbk) part).1 ++ rest.bytes;
                count = part + rest.count;
              })))
            Keeps-undefined))

  pub dbfs_readwrite_reads-Keeps :
      (ino : ℕ) (buf : List ℕ) (size offset : ℕ)
      → Keeps (HasBlocks os) (dbfs_readwrite os ino buf size offset true)
  unfolding dbfs_readwrite block_start
  dbfs_readwrite_reads-Keeps ino buf size offset =
      read_loop-Keeps size ino offset (block_start offset) size success

  pub dbfs_readwrite-Keeps :
      (ino : ℕ) (buf : List ℕ) (size offset : ℕ) (r : Bool)
      → size ≤ max_transfer
      → Keeps (HasBlocks os) (dbfs_readwrite os ino buf size offset r)
  unfolding dbfs_readwrite block_start
  dbfs_readwrite-Keeps ino buf size offset true m =
      read_loop-Keeps size ino offset (block_start offset) size success
  dbfs_readwrite-Keeps ino buf size offset false m =
      write_loop-Keeps size ino buf offset (block_start offset) size (omega arith) m

  after_del-Keeps :
      (e : DbError) {next : M os Code}
      → Keeps (HasBlocks os) next
      → Keeps (HasBlocks os) (elim e [ not_found ↦ next | _ ↦ pure eio ])
  after_del-Keeps not_found k = k
  after_del-Keeps _ k = Keeps-pure eio

  truncate_loop-Keeps :
      (fuel ino offset dbk size : ℕ) (error : Code)
      → Keeps (HasBlocks os) (truncate_loop os fuel ino offset dbk size error)
  unfolding truncate_loop
  truncate_loop-Keeps zero ino offset dbk size error = Keeps-running
  truncate_loop-Keeps (suc fuel) ino offset dbk size error =
      let part = size_in_block (offset - dbk) size in
      Keeps-choice (leb size 0) (Keeps-pure error) (
        Keeps-bind
          (Keeps-db_call (λ (s : os.State). os.del s (block ino dbk))
            (λ s. del-HasBlocks os store s (block ino dbk)))
          λ reply.
            Keeps-answer reply
              (λ _.
                truncate_loop-Keeps fuel ino (offset + part) (offset + part) (size - part) success)
              λ e. after_del-Keeps e (
                truncate_loop-Keeps fuel ino (offset + part) (offset + part) (size - part)
                  (db not_found)))

  pub dbfs_truncateblocks-Keeps :
      (fuel ino offset end : ℕ) → Keeps (HasBlocks os) (dbfs_truncateblocks os fuel ino offset end)
  unfolding dbfs_truncateblocks
  dbfs_truncateblocks-Keeps fuel ino offset end =
      truncate_loop-Keeps fuel ino offset (block_start offset) (sub_size end offset) success

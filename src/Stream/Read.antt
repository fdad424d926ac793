-- ===== src/Stream/Read.antt =====
-- Reads: the loop of dbfs_readwrite copies the content of the file.
use mathlib.Core.Path.{subst}
use mangoo.Base.{
  ℕ, zero, suc, ◌+◌, ◌-◌, ◌%◌, ◌≤◌, ◌≡◌, refl, sym, ap, ◌∙◌, ◌⊎◌, inl, inr, true, false, List, ◌++◌,
  arith,
}
use mangoo.Types.{Reply, ok, err, not_found, Code, success, db, block, dbfs_blksize}
use mangoo.System.{System, World, returns}
use mangoo.System.Laws.{IsReliable}
use mangoo.Stream.{
  dbfs_readwrite, block_start, read_round, size_in_block, Transfer, read_loop, overruns,
}
use mangoo.Stream.Blocks.{IsRound, size_in_block-IsRound, overruns-fits, max_transfer}
use mangoo.Stream.Content.{
  bytes_from-add, HasBlocks, bytes_from, bytes_from-stored, bytes_from-missing,
}

-- The int that one round leaves.
abbrev pub round_error : {A : Type 0} → Reply A → Code
round_error (ok a) = success
round_error (err e) = db e

-- The int of a whole read: that of the round over the last byte's block.
abbrev pub last_error : (os : System) → os.State → ℕ → ℕ → ℕ → Code → Code
last_error os s ino offset zero error = error
last_error os s ino offset (suc n) error =
    round_error (os.get s (block ino (block_start (offset + n))))

module _ (os : System) (reliable : IsReliable os.berkeley) where
  -- One round copies its part of the content.
  read_round_lem :
      (s : os.State)
      → HasBlocks os s
      → (ino base i part : ℕ) → base % dbfs_blksize ≡ 0
      → i + part ≤ dbfs_blksize
      → read_round os (os.get s (block ino base)) i part
        ≡ (round_error (os.get s (block ino base)), bytes_from os s ino (base + i) part, true)
  unfolding read_round
  read_round_lem s h ino base i part a b = elim (reliable.get_answers s (block ino base)) [
    | inl (content, e) ↦
        rw (e, read_round)
          (ap (λ l. (success, l, true))
            (bytes_from-stored os s ino base content i part a e (h.whole ino base content e) b))
    | inr e ↦
        rw (e, read_round)
          (ap (λ l. (db not_found, l, true))
            (bytes_from-missing os s ino base not_found i part a e b))
  ]

  abbrev read_all : os.State → ℕ → ℕ → ℕ → Code → Transfer
  read_all s ino offset size error = record {
    error = last_error os s ino offset size error;
    bytes = bytes_from os s ino offset size;
    count = size;
  }

  -- The rest of a transfer behind a round starts at a block, or is empty.
  read_rest :
      (fuel ino offset part rest : ℕ) (error : Code) (w : World os.State)
      → (rest ≡ 0) ⊎ (block_start (offset + part) ≡ offset + part)
      → read_loop os fuel ino (offset + part) (block_start (offset + part)) rest error w
        ≡ returns (read_all w.base ino (offset + part) rest error, w)
      → read_loop os fuel ino (offset + part) (offset + part) rest error w
        ≡ returns (read_all w.base ino (offset + part) rest error, w)
  unfolding read_loop bytes_from
  read_rest fuel ino offset part zero error w c h = refl
  read_rest fuel ino offset part (suc r) error w (inl c) h = absurd (omega arith)
  read_rest fuel ino offset part (suc r) error w (inr c) h =
      subst
        (λ b.
          read_loop os fuel ino (offset + part) b (suc r) error w
          ≡ returns (read_all w.base ino (offset + part) (suc r) error, w))
        c h

  -- One round of the loop, and the rest of it.
  read_loop-suc :
      (fuel ino offset dbk n : ℕ) (error error' : Code) (bytes : List ℕ) (t : Transfer)
      (w : World os.State)
      → let i = offset - dbk in
        let part = size_in_block i (suc n) in
        overruns i part ≡ false
        → read_round os (os.get w.base (block ino dbk)) i part ≡ (error', bytes, true)
        → read_loop os fuel ino (offset + part) (offset + part) (suc n - part) error' w
          ≡ returns (t, w)
        → read_loop os (suc fuel) ino offset dbk (suc n) error w
          ≡ returns
              (record { error = t.error; bytes = bytes ++ t.bytes; count = part + t.count }, w)
  unfolding read_loop
  read_loop-suc fuel ino offset dbk n error error' bytes t w f c d = cc (c, f, d)

  same_block :
      (offset i n part : ℕ)
      → IsRound offset i n (suc part)
      → block_start (offset + part) ≡ block_start offset
  same_block offset i n part r =
      let a = r.aligned in let b = r.inside in let c = r.fits in unfold block_start in omega arith

  -- The int of the whole is that of the rest, or of the round if nothing is left.
  last_error-round :
      (s : os.State) (ino offset i size part rest : ℕ) (error : Code)
      → IsRound offset i size part
      → part + rest ≡ size
      → last_error os s ino
          (offset + part)
          rest
          (round_error (os.get s (block ino (block_start offset))))
        ≡ last_error os s ino offset size error
  last_error-round s ino offset i size zero rest error r e = absurd (omega (arith, r.moves))
  last_error-round s ino offset i zero (suc part) rest error r e = absurd (omega arith)
  last_error-round s ino offset i (suc size) (suc part) zero error r e =
      let f : part ≡ size = omega arith in
      ap (λ b. round_error (os.get s (block ino b)))
        (sym (same_block offset i (suc size) part r) ∙ ap (λ (p : ℕ). block_start (offset + p)) f)
  last_error-round s ino offset i (suc size) (suc part) (suc rest) error r e =
      let f : offset + suc part + rest ≡ offset + size = omega arith in
      ap (λ (p : ℕ). round_error (os.get s (block ino (block_start p)))) f

  abbrev joined : os.State → ℕ → ℕ → ℕ → ℕ → Transfer
  joined s ino offset size part = record {
    error =
        last_error os s ino (offset + part) (size - part)
          (round_error (os.get s (block ino (block_start offset))));
    bytes = bytes_from os s ino offset part ++ bytes_from os s ino (offset + part) (size - part);
    count = part + (size - part);
  }

  read_all-round :
      (s : os.State) (ino offset i size part : ℕ) (error : Code)
      → IsRound offset i size part
      → joined s ino offset size part ≡ read_all s ino offset size error
  read_all-round s ino offset i size part error r =
      let e : part + (size - part) ≡ size = omega (arith, r.bounded) in
      let f : bytes_from os s ino offset part ++ bytes_from os s ino (offset + part) (size - part)
          ≡ bytes_from os s ino offset size =
        sym (bytes_from-add os s ino offset part (size - part))
        ∙ ap (λ (n : ℕ). bytes_from os s ino offset n) e in
      λ k. record {
        error = last_error-round s ino offset i size part (size - part) error r e k;
        bytes = f k;
        count = e k;
      }

  read_loop_lem :
      (fuel ino offset size : ℕ) (error : Code) (w : World os.State)
      → HasBlocks os w.base
      → size ≤ fuel
      → size ≤ max_transfer
      → read_loop os fuel ino offset (block_start offset) size error w
        ≡ returns (read_all w.base ino offset size error, w)
  unfolding read_loop bytes_from
  read_loop_lem fuel ino offset zero error w h f m = refl
  read_loop_lem zero ino offset (suc n) error w h f m = absurd (omega arith)
  read_loop_lem (suc fuel) ino offset (suc n) error w h f m =
      let i = offset - block_start offset in
      let part = size_in_block i (suc n) in
      let r : IsRound offset i (suc n) part = size_in_block-IsRound offset n m in
      let s = w.base in
      let first = round_error (os.get s (block ino (block_start offset))) in
      let c : (suc n - part ≡ 0) ⊎ (block_start (offset + part) ≡ offset + part) = elim (r.ends) [
        | inl e ↦ inl (omega arith)
        | inr e ↦ inr e
      ] in
      let rest = read_rest fuel ino offset part (suc n - part) first w c (
        read_loop_lem fuel ino (offset + part) (suc n - part) first w h (omega (arith, r.moves))
          (omega arith)) in
      read_loop-suc fuel ino offset (block_start offset) n error first _ _ w
        (overruns-fits i part r.fits)
        (rw (r.inside) at (read_round_lem s h ino (block_start offset) i part r.aligned r.fits))
        rest
      ∙ ap (λ t. returns (t, w)) (read_all-round s ino offset i (suc n) part error r)

  -- A read of any size up to 2^63, where every stored block is whole and the database does not
  -- fail, returns, leaves the store as it is, and copies exactly the bytes of the file from the
  -- offset on, zeros where no block is stored; the count is the whole size. The int is 0 if the
  -- block of the last byte is stored, and DB_NOTFOUND if it is not.
  pub dbfs_readwrite-read :
      (ino : ℕ) (buf : List ℕ) (size offset : ℕ) (w : World os.State)
      → HasBlocks os w.base
      → size ≤ max_transfer
      → dbfs_readwrite os ino buf size offset true w
        ≡ returns (
          record {
            error = last_error os w.base ino offset size success;
            bytes = bytes_from os w.base ino offset size;
            count = size;
          },
          w,
        )
  unfolding dbfs_readwrite
  dbfs_readwrite-read ino buf size offset w h m =
      read_loop_lem size ino offset size success w h (omega arith) m

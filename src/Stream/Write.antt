-- ===== src/Stream/Write.antt =====
-- Writes: what the loop of dbfs_readwrite does to the content of the file.
use mathlib.Core.Path.{subst, subst₂}
use native.Mathlib.Decide.{ℕ_discrete}
use mangoo.Base.{
  ℕ, zero, suc, ◌+◌, ◌-◌, ◌%◌, ◌≤◌, ◌≡◌, refl, sym, ap, ◌∙◌, ◌≢◌, ◌⊎◌, inl, inr, true, false, List,
  [], ◌∷◌, arith, if◌then◌else◌, length, get_or, take, drop, length-take, length-drop,
  take-append-drop,
}
use mangoo.Types.{Key, ok, block, dbfs_blksize, success}
use mangoo.System.{System, World, returns, overwrite}
use mangoo.System.Laws.{IsReliable, IsStore, HasMemory}
use mangoo.Stream.{
  dbfs_readwrite, write_loop, size_in_block, block_start, write_round, block_to_write, splice,
  Transfer, overruns,
}
use mangoo.Stream.Blocks.{IsRound, size_in_block-IsRound, max_transfer}
use mangoo.Stream.Splice.{in_range-shift, in_range_other, in_range, get_or-splice, length-splice}
use mangoo.Stream.Content.{HasBlocks}
use mangoo.Stream.Written.{
  block_or, block_cases, block_offset, found_block, found_byte, IsStored, IsWritten, round_state,
  IsWritten-nil, IsWritten-append,
}

module _ (os : System) where
  abbrev pub all_written : ℕ → Transfer
  all_written size = record { error = success; bytes = []; count = size }

  write_loop-suc :
      (fuel ino offset dbk n i part m : ℕ) (buf : List ℕ) (w w' w'' : World os.State)
      → offset - dbk ≡ i
      → size_in_block i (suc n) ≡ part
      → write_round os ino dbk i (take part buf) w ≡ returns (true, w')
      → write_loop os fuel ino (drop part buf) (offset + part) (offset + part) (suc n - part) w'
        ≡ returns (all_written m, w'')
      → write_loop os (suc fuel) ino buf offset dbk (suc n) w
        ≡ returns (all_written (part + m), w'')
  unfolding write_loop
  write_loop-suc fuel ino offset dbk n i part m buf w w' w'' a b c d = ground arith

  module _ (store : IsStore os.berkeley) (reliable : IsReliable os.berkeley)
      (memory : HasMemory os.platform) where
    write_round_lem :
        (ino base i : ℕ) (bytes : List ℕ) (w : World os.State)
        → i + length bytes ≤ dbfs_blksize
        → write_round os ino base i bytes w
          ≡ returns (true, record w { base = round_state os w.base ino base i bytes })
    unfolding write_round block_to_write overruns
    write_round_lem ino base i bytes w f = ground (
      arith,
      reliable.get_answers w.base (block ino base),
      memory.malloc_succeeds dbfs_blksize,
      reliable.put_overwrite w.base (block ino base)
          (splice (found_block os w.base ino base) i bytes),
    )

    module _ (s : os.State) (whole : HasBlocks os s) (ino base i : ℕ) (bytes : List ℕ)
        (aligned : base % dbfs_blksize ≡ 0) (fits : i + length bytes ≤ dbfs_blksize) where
      abbrev content : List ℕ
      content = found_block os s ino base

      abbrev after : os.State
      after = round_state os s ino base i bytes

      length-found_block : length content ≡ dbfs_blksize
      length-found_block = elim (reliable.get_answers s (block ino base)) [
        | inl (c, e) ↦ ap length (ap (block_or _) e) ∙ whole.whole ino base c e
        | inr e ↦ ap length (ap (block_or _) e) ∙ memory.length-fresh_block ino base
      ]

      get-after : os.get after (block ino base) ≡ ok (splice content i bytes)
      get-after =
          store.get-put_self s (block ino base) (splice content i bytes) overwrite
            (reliable.put_overwrite s (block ino base) (splice content i bytes))

      get-after_ne : (k : Key) → block ino base ≢ k → os.get after k ≡ os.get s k
      get-after_ne k n = store.get-put_ne s (block ino base) k (splice content i bytes) overwrite n

      -- A place of the block, counted in the block and in the file.
      byte_inside :
          (p : ℕ)
          → block_start p ≡ base
          → found_byte os after ino p ≡ (
              if in_range (base + i) (length bytes) p
              then get_or bytes (p - (base + i)) 0
              else found_byte os s ino p)
      unfolding found_byte
      byte_inside p e =
          let f : p ≡ base + p % dbfs_blksize = (unfold block_start in omega arith) in
          let j = p % dbfs_blksize in
          let at_start : found_block os after ino (block_start p) ≡ splice content i bytes =
            ap (λ b. found_block os after ino b) e ∙ ap (block_or _) get-after in
          let before : found_block os s ino (block_start p) ≡ content =
            ap (λ b. found_block os s ino b) e in
          ap (λ l. get_or l j 0) at_start
          ∙ get_or-splice content i bytes (omega (arith, length-found_block)) j
          ∙ in_range-shift base i (length bytes) j p bytes (get_or content j 0) f
          ∙ ap
              (λ l.
                if in_range (base + i) (length bytes) p
                then get_or bytes (p - (base + i)) 0
                else get_or l j 0)
              (sym before)

      byte_outside :
          (p : ℕ)
          → block_start p ≢ base
          → found_byte os after ino p ≡ (
              if in_range (base + i) (length bytes) p
              then get_or bytes (p - (base + i)) 0
              else found_byte os s ino p)
      unfolding found_byte
      byte_outside p n =
          let e : found_block os after ino (block_start p) ≡ found_block os s ino (block_start p) =
            ap (block_or _)
              (get-after_ne (block ino (block_start p)) (λ q. n (sym (block_offset q)))) in
          ap (λ l. get_or l (p % dbfs_blksize) 0) e
          ∙ rw (in_range_other base i (length bytes) p aligned fits n)

      after-HasBlocks : HasBlocks os after
      after-HasBlocks = record {
        whole = λ ino' base' c e. elim (block_cases ino base ino' base') [
          | inr n ↦ whole.whole ino' base' c (sym (get-after_ne (block ino' base') n) ∙ e)
          | inl q ↦
              let ei : ino' ≡ ino = cc q in
              let eb : base' ≡ base = cc q in
              let f = sym get-after ∙ subst₂ (λ x y. os.get after (block x y) ≡ ok c) ei eb e in
              let g : splice content i bytes ≡ c = cc f in
              ap length (sym g)
              ∙ length-splice content i bytes (omega (arith, length-found_block))
              ∙ length-found_block
        ];
      }

      round-IsWritten : 1 ≤ length bytes → IsWritten os s after ino (base + i) bytes
      round-IsWritten moves = record {
        bytes = λ p. elim (ℕ_discrete (block_start p) base) [
          | yes e ↦ byte_inside p e
          | no n ↦ byte_outside p n
        ];
        stored = λ p a b.
            let e : base ≡ block_start p = (unfold block_start in omega arith) in
            subst (λ x. IsStored os after (block ino x)) e (splice content i bytes, get-after);
        kept = λ x st. elim (ℕ_discrete base x) [
          | yes e ↦
              subst (λ y. IsStored os after (block ino y)) e (splice content i bytes, get-after)
          | no n ↦ (st.0, get-after_ne (block ino x) (λ q. n (block_offset q)) ∙ st.1)
        ];
        frame = λ k miss. get-after_ne k (λ q. miss base (omega arith) (omega arith) (sym q));
        whole = after-HasBlocks;
      }

    abbrev WriteRuns : ℕ → ℕ → List ℕ → ℕ → ℕ → ℕ → World os.State → Type 0
    WriteRuns fuel ino buf offset dbk size w =
        (s : os.State) × (write_loop os fuel ino buf offset dbk size w
          ≡ returns (all_written size, record w { base = s }))
        × IsWritten os w.base s ino offset buf

    -- The rest of a transfer behind a round starts at a block, or is empty.
    write_rest :
        (fuel ino : ℕ) (buf : List ℕ) (offset rest : ℕ) (w : World os.State)
        → (rest ≡ 0) ⊎ (block_start offset ≡ offset)
        → WriteRuns fuel ino buf offset (block_start offset) rest w
        → WriteRuns fuel ino buf offset offset rest w
    unfolding write_loop
    write_rest fuel ino buf offset zero w c h = h
    write_rest fuel ino buf offset (suc r) w (inl c) h = absurd (omega arith)
    write_rest fuel ino buf offset (suc r) w (inr c) h =
        subst (λ b. WriteRuns fuel ino buf offset b (suc r) w) c h

    write_loop_lem :
        (fuel ino : ℕ) (buf : List ℕ) (offset size : ℕ) (w : World os.State)
        → HasBlocks os w.base
        → length buf ≡ size
        → size ≤ fuel
        → size ≤ max_transfer
        → WriteRuns fuel ino buf offset (block_start offset) size w
    unfolding write_loop
    write_loop_lem fuel ino [] offset zero w h l f m =
        (w.base, refl, IsWritten-nil os w.base ino offset h)
    write_loop_lem fuel ino (x ∷ xs) offset zero w h l f m = absurd (omega arith)
    write_loop_lem zero ino buf offset (suc n) w h l f m = absurd (omega arith)
    write_loop_lem (suc fuel) ino buf offset (suc n) w h l f m =
        let i = offset - block_start offset in
        let part = size_in_block i (suc n) in
        let r : IsRound offset i (suc n) part = size_in_block-IsRound offset n m in
        let base = block_start offset in
        let l1 : length (take part buf) ≡ part = omega (arith, length-take part buf, r.bounded) in
        let s1 = round_state os w.base ino base i (take part buf) in
        let v : IsWritten os w.base s1 ino offset (take part buf) =
          subst (λ o. IsWritten os w.base s1 ino o (take part buf)) r.inside
            (round-IsWritten w.base h ino base i (take part buf) r.aligned (omega (arith, r.fits))
              (omega (arith, r.moves))) in
        let c : (suc n - part ≡ 0) ⊎ (block_start (offset + part) ≡ offset + part) = elim (r.ends) [
          | inl e ↦ inl (omega arith)
          | inr e ↦ inr e
        ] in
        let w1 : World os.State = record w { base = s1 } in
        let (s2, run, u) = write_rest fuel ino (drop part buf) (offset + part) (suc n - part) w1 c (
          write_loop_lem fuel ino (drop part buf) (offset + part) (suc n - part) w1 v.whole
            (omega (arith, length-drop part buf)) (omega (arith, r.moves)) (omega arith)) in
        let e : part + (suc n - part) ≡ suc n = omega (arith, r.bounded) in
        let both = IsWritten-append os (take part buf) (drop part buf) v (
          subst (λ (o : ℕ). IsWritten os s1 s2 ino o (drop part buf))
            (ap (λ (k : ℕ). offset + k) (sym l1)) u) in
        (
          s2,
          write_loop-suc fuel ino offset base n i part (suc n - part) buf w w1
                (record w { base = s2 }) refl refl
                (write_round_lem ino base i (take part buf) w (omega (arith, r.fits))) run
              ∙ ap (λ (k : ℕ). returns (all_written k, record w { base = s2 })) e,
          subst (λ b. IsWritten os w.base s2 ino offset b) (take-append-drop part buf) both,
        )

    -- A write of any size below 2^63 returns 0 and counts every byte, if the machine does not fail.
    -- Afterwards the bytes of the range are those of the buffer, each in a stored block; every other
    -- byte of a block that the write reached is as the write found it, that is as it was stored,
    -- or, where the block is new, as malloc left it; and no other record has changed.
    pub dbfs_readwrite-write :
        (ino : ℕ) (buf : List ℕ) (offset : ℕ) (w : World os.State)
        → HasBlocks os w.base
        → length buf ≤ max_transfer
        → (s : os.State) × (dbfs_readwrite os ino buf (length buf) offset false w
            ≡ returns (all_written (length buf), record w { base = s }))
          × IsWritten os w.base s ino offset buf
    unfolding dbfs_readwrite
    dbfs_readwrite-write ino buf offset w h m =
        write_loop_lem (length buf) ino buf offset (length buf) w h refl (omega arith) m

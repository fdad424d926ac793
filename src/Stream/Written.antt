-- ===== src/Stream/Written.antt =====
-- What it is for a state to be another one with a range of a file written: its bytes, the blocks
-- stored, and all else as before.
use native.Mathlib.Decide.{ℕ_discrete, dec_lt}
use mangoo.Base.{
  ℕ, ◌+◌, ◌-◌, ◌%◌, ◌≤◌, ◌<◌, ◌≡◌, refl, ap, ◌∙◌, ◌≢◌, ◌⊎◌, inl, inr, List, [], ◌++◌, arith,
  if◌then◌else◌, length, get_or, length-append,
}
use mangoo.Types.{Key, ok, err, block, dbfs_blksize, Value, Reply}
use mangoo.System.{System, overwrite}
use mangoo.Stream.{block_start, splice}
use mangoo.Stream.Splice.{in_range-append, in_range}
use mangoo.Stream.Content.{HasBlocks}

abbrev pub block_or : List ℕ → Reply (List ℕ) → List ℕ
block_or fresh (ok content) = content
block_or fresh (err e) = fresh

pub block_offset : {ino a b : ℕ} → block ino a ≡ block ino b → a ≡ b
block_offset q = cc

pub block_cases :
    (ino base ino' base' : ℕ)
    → (block ino base ≡ block ino' base') ⊎ (block ino base ≢ block ino' base')
block_cases ino base ino' base' = elim (ℕ_discrete ino ino') [
  | no n ↦ inr (λ q. n (cc q))
  | yes e ↦ elim (ℕ_discrete base base') [ no n ↦ inr (λ q. n (cc q)) | yes f ↦ inl (cc (e, f)) ]
]

module _ (os : System) where
  -- The block that a write finds: the stored one, or the fresh memory that it would start from.
  abbrev pub found_block : os.State → ℕ → ℕ → List ℕ
  found_block s ino base = block_or (os.fresh_block ino base) (os.get s (block ino base))

  unfoldable pub found_byte : os.State → ℕ → ℕ → ℕ
  found_byte s ino p = get_or (found_block s ino (block_start p)) (p % dbfs_blksize) 0

  abbrev pub IsStored : os.State → Key → Type 0
  IsStored s k = (v : Value k) × (os.get s k ≡ ok v)

  -- Whether a block key is one that a transfer of n bytes at the offset reaches.
  abbrev pub Misses : Key → ℕ → ℕ → ℕ → Type 0
  Misses k ino offset n =
      (base : ℕ) → base < offset + n → offset < base + dbfs_blksize → k ≢ block ino base

  -- What a write of buf at the offset does to the records.
  pub record IsWritten (s s' : os.State) (ino offset : ℕ) (buf : List ℕ) : Type 0 where
    pub bytes :
        (p : ℕ)
        → found_byte s' ino p ≡ (
            if in_range offset (length buf) p
            then get_or buf (p - offset) 0
            else found_byte s ino p)
    pub stored :
        (p : ℕ) → offset ≤ p → p < offset + length buf → IsStored s' (block ino (block_start p))
    pub kept : (base : ℕ) → IsStored s (block ino base) → IsStored s' (block ino base)
    pub frame : (k : Key) → Misses k ino offset (length buf) → os.get s' k ≡ os.get s k
    pub whole : HasBlocks os s'

  -- The state after a round: the block that was found, with the bytes copied into it.
  abbrev pub round_state : os.State → ℕ → ℕ → ℕ → List ℕ → os.State
  round_state s ino base i bytes =
      (os.put s (block ino base) (splice (found_block s ino base) i bytes) overwrite).1

  pub IsWritten-nil : (s : os.State) (ino offset : ℕ) → HasBlocks os s → IsWritten s s ino offset []
  IsWritten-nil s ino offset h = record {
    bytes = λ p. ground arith;
    stored = λ p a b. absurd (omega arith);
    kept = λ b st. st;
    frame = λ k miss. refl;
    whole = h;
  }

  -- One write behind another is the write of both pieces.
  pub IsWritten-append :
      {s t u : os.State} {ino offset : ℕ} (xs ys : List ℕ)
      → IsWritten s t ino offset xs
      → IsWritten t u ino (offset + length xs) ys
      → IsWritten s u ino offset (xs ++ ys)
  IsWritten-append {s} {t} {u} {ino} {offset} xs ys v w = record {
    bytes = λ p.
        w.bytes p
        ∙ ap
            (λ a.
              if in_range (offset + length xs) (length ys) p
              then get_or ys (p - (offset + length xs)) 0
              else a)
            (v.bytes p)
        ∙ in_range-append offset xs ys p (found_byte s ino p);
    stored = λ p a b. elim (dec_lt p (offset + length xs)) [
      | yes lt ↦ w.kept (block_start p) (v.stored p a lt)
      | no ge ↦ w.stored p (omega arith) (omega (arith, length-append xs ys))
    ];
    kept = λ b st. w.kept b (v.kept b st);
    frame = λ k miss.
        w.frame k (λ b x y. miss b (omega (arith, length-append xs ys)) (omega arith))
        ∙ v.frame k (λ b x y. miss b (omega (arith, length-append xs ys)) y);
    whole = w.whole;
  }

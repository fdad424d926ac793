-- ===== src/Stream/Content.antt =====
-- The abstract content of a file: the byte at every offset, 0 where no block is stored.
use native.Mathlib.Nat.{zero-add}
use mangoo.Base.{
  ℕ, zero, suc, ◌+◌, ◌%◌, ◌≤◌, ◌<◌, ◌≡◌, refl, ap, List, [], ◌∷◌, ◌++◌, arith, length, get_or, take,
  drop, replicate, take-drop_step,
}
use mangoo.Types.{Reply, DbError, ok, err, block, dbfs_blksize}
use mangoo.System.{System}
use mangoo.Stream.{block_start}

abbrev pub byte_of : Reply (List ℕ) → ℕ → ℕ
byte_of (ok content) i = get_or content i 0
byte_of (err e) i = 0

module _ (os : System) where
  unfoldable pub byte_at : os.State → ℕ → ℕ → ℕ
  unfolding block_start
  byte_at s ino p = byte_of (os.get s (block ino (block_start p))) (p % dbfs_blksize)

  unfoldable pub bytes_from : os.State → ℕ → ℕ → ℕ → List ℕ
  unfolding byte_at
  bytes_from s ino offset zero = []
  bytes_from s ino offset (suc n) = byte_at s ino offset ∷ bytes_from s ino (offset + 1) n

  -- Every stored block is whole.
  pub record HasBlocks (s : os.State) : Type 0 where
    pub whole :
        (ino offset : ℕ) (content : List ℕ)
        → os.get s (block ino offset) ≡ ok content
        → length content ≡ dbfs_blksize

  pub bytes_from-add :
      (s : os.State) (ino offset a b : ℕ)
      → bytes_from s ino offset (a + b)
        ≡ bytes_from s ino offset a ++ bytes_from s ino (offset + a) b
  unfolding bytes_from
  bytes_from-add s ino offset zero b = let e : offset + 0 ≡ offset = omega arith in rw (zero-add, e)
  bytes_from-add s ino offset (suc a) b =
      let e : suc a + b ≡ suc (a + b) = omega arith in
      let f : offset + suc a ≡ offset + 1 + a = omega arith in
      rw (e, f) (ap (λ l. byte_at s ino offset ∷ l) (bytes_from-add s ino (offset + 1) a b))

  pub length-bytes_from : (s : os.State) (ino offset n : ℕ) → length (bytes_from s ino offset n) ≡ n
  unfolding bytes_from
  length-bytes_from s ino offset zero = refl
  length-bytes_from s ino offset (suc n) = ap suc (length-bytes_from s ino (offset + 1) n)

  -- Inside one block the bytes are those of what is stored under its key.
  pub byte_at-block :
      (s : os.State) (ino base i : ℕ)
      → base % dbfs_blksize ≡ 0
      → i < dbfs_blksize
      → byte_at s ino (base + i) ≡ byte_of (os.get s (block ino base)) i
  unfolding byte_at
  byte_at-block s ino base i h k =
      let e : block_start (base + i) ≡ base = (unfold block_start in omega arith) in
      let f : (base + i) % dbfs_blksize ≡ i = omega arith in rw (e, f)

  pub bytes_from-stored :
      (s : os.State) (ino base : ℕ) (content : List ℕ) (i n : ℕ)
      → base % dbfs_blksize ≡ 0
      → os.get s (block ino base) ≡ ok content
      → length content ≡ dbfs_blksize
      → i + n ≤ dbfs_blksize
      → take n (drop i content) ≡ bytes_from s ino (base + i) n
  unfolding bytes_from
  bytes_from-stored s ino base content i zero h g l b = refl
  bytes_from-stored s ino base content i (suc n) h g l b =
      let e : base + i + 1 ≡ base + suc i = omega arith in
      rw (take-drop_step n i content 0 (omega arith)) (
        rw (byte_at-block s ino base i h (omega arith), g, byte_of, e)
          (ap (λ l. get_or content i 0 ∷ l)
            (bytes_from-stored s ino base content (suc i) n h g l (omega arith))))

  pub bytes_from-missing :
      (s : os.State) (ino base : ℕ) (e : DbError) (i n : ℕ)
      → base % dbfs_blksize ≡ 0
      → os.get s (block ino base) ≡ err e
      → i + n ≤ dbfs_blksize
      → replicate n 0 ≡ bytes_from s ino (base + i) n
  unfolding bytes_from
  bytes_from-missing s ino base x i zero h g b = refl
  bytes_from-missing s ino base x i (suc n) h g b =
      let e : base + i + 1 ≡ base + suc i = omega arith in
      rw (byte_at-block s ino base i h (omega arith), g, byte_of, e)
        (ap {B = List ℕ} (λ l. 0 ∷ l) (bytes_from-missing s ino base x (suc i) n h g (omega arith)))

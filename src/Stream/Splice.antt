-- ===== src/Stream/Splice.antt =====
-- The bytes of a block after a copy into it.
use native.Mathlib.Decide.{dec_lt}
use mangoo.Base.{
  ℕ, ◌+◌, ◌-◌, ◌%◌, ◌≤◌, ◌<◌, ◌≡◌, refl, ap, ◌∙◌, ◌≢◌, Bool, false, ◌&&◌, List, ◌++◌, arith, ltb,
  leb, if◌then◌else◌, length, get_or, take, drop, length-append, length-take, length-drop,
  get_or-take, get_or-drop, get_or-append_lt, get_or-append_ge,
}
use mangoo.Types.{dbfs_blksize}
use mangoo.Stream.{splice, block_start}

pub length-splice :
    (content : List ℕ) (i : ℕ) (bytes : List ℕ)
    → i + length bytes ≤ length content
    → length (splice content i bytes) ≡ length content
unfolding splice
length-splice content i bytes h = omega (
  arith,
  length-append (take i content) (bytes ++ drop (i + length bytes) content),
  length-append bytes (drop (i + length bytes) content),
  length-take i content,
  length-drop (i + length bytes) content,
)

-- Whether j is one of the n places from i on.
abbrev pub in_range : ℕ → ℕ → ℕ → Bool
in_range i n j = leb i j && ltb j (i + n)

-- Behind the first n of a list that begins with exactly n elements.
pub skip_front :
    (xs ys : List ℕ) (n j : ℕ) → length xs ≡ n → n ≤ j → get_or (xs ++ ys) j 0 ≡ get_or ys (j - n) 0
skip_front xs ys n j e h =
    let f : j ≡ length xs + (j - n) = omega arith in
    ap (λ (k : ℕ). get_or (xs ++ ys) k 0) f ∙ get_or-append_ge (j - n) xs ys 0

module _ (content : List ℕ) (i : ℕ) (bytes : List ℕ)
    (fits : i + length bytes ≤ length content) where
  front : length (take i content) ≡ i
  front = omega (arith, length-take i content)

  get_or-splice_before : (j : ℕ) → j < i → get_or (splice content i bytes) j 0 ≡ get_or content j 0
  unfolding splice
  get_or-splice_before j h =
      get_or-append_lt j (take i content) (bytes ++ drop (i + length bytes) content) 0
        (omega (arith, front))
      ∙ get_or-take i j content 0 h

  get_or-splice_inside :
      (j : ℕ)
      → i ≤ j
      → j < i + length bytes
      → get_or (splice content i bytes) j 0 ≡ get_or bytes (j - i) 0
  unfolding splice
  get_or-splice_inside j h k =
      skip_front (take i content) (bytes ++ drop (i + length bytes) content) i j front h
      ∙ get_or-append_lt (j - i) bytes (drop (i + length bytes) content) 0 (omega arith)

  get_or-splice_behind :
      (j : ℕ) → i + length bytes ≤ j → get_or (splice content i bytes) j 0 ≡ get_or content j 0
  unfolding splice
  get_or-splice_behind j h =
      let e : i + length bytes + (j - i - length bytes) ≡ j = omega arith in
      skip_front (take i content) (bytes ++ drop (i + length bytes) content) i j front (omega arith)
      ∙ skip_front bytes (drop (i + length bytes) content) (length bytes) (j - i) refl (omega arith)
      ∙ get_or-drop (i + length bytes) (j - i - length bytes) content 0
      ∙ ap (λ (k : ℕ). get_or content k 0) e

  -- The copied bytes stand in their range, and the others are as before.
  pub get_or-splice :
      (j : ℕ)
      → get_or (splice content i bytes) j 0
        ≡ (if in_range i (length bytes) j then get_or bytes (j - i) 0 else get_or content j 0)
  get_or-splice j = elim (dec_lt j i) [
    | yes lt ↦ ground (arith, get_or-splice_before j)
    | no ge ↦ elim (dec_lt j (i + length bytes)) [
      | yes lt ↦ ground (arith, get_or-splice_inside j)
      | no out ↦ ground (arith, get_or-splice_behind j)
    ]
  ]

-- A range counted from the start of the block and from the start of the file.
pub in_range-shift :
    (base i n j p : ℕ) (bytes : List ℕ) (a : ℕ)
    → p ≡ base + j
    → (if in_range i n j then get_or bytes (j - i) 0 else a)
      ≡ (if in_range (base + i) n p then get_or bytes (p - (base + i)) 0 else a)
in_range-shift base i n j p bytes a h =
    let e : p - (base + i) ≡ j - i = omega arith in rw e (ground arith)

-- A place in another block is outside a range of this one.
pub in_range_other :
    (base i n p : ℕ)
    → base % dbfs_blksize ≡ 0
    → i + n ≤ dbfs_blksize
    → block_start p ≢ base
    → in_range (base + i) n p ≡ false
unfolding block_start
in_range_other base i n p a f h = ground arith

-- Two ranges that follow one another hold the two halves of a list.
pub in_range-append :
    (offset : ℕ) (xs ys : List ℕ) (p a : ℕ)
    → (if in_range (offset + length xs) (length ys) p
        then get_or ys (p - (offset + length xs)) 0
        else (if in_range offset (length xs) p then get_or xs (p - offset) 0 else a))
      ≡ (if in_range offset (length (xs ++ ys)) p then get_or (xs ++ ys) (p - offset) 0 else a)
in_range-append offset xs ys p a = elim (dec_lt p (offset + length xs)) [
  | yes lt ↦ ground (arith, length-append xs ys, get_or-append_lt (p - offset) xs ys 0)
  | no ge ↦
      let e : p - (offset + length xs) ≡ p - offset - length xs = omega arith in
      rw e (ground (arith, length-append xs ys, skip_front xs ys (length xs) (p - offset) refl))
]

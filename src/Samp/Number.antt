-- ===== src/Samp/Number.antt =====
-- The offset as a text: sprintf and atoi of samp/myapp.c.
use mathlib.Core.List.{append_assoc}
use native.Mathlib.Nat.{one-le-pow}
use mangoo.Base.{
  ℕ, zero, suc, ◌+◌, ◌-◌, ◌*◌, ◌/◌, ◌%◌, ◌^◌, ◌≤◌, ◌<◌, ◌≡◌, refl, sym, ap, ◌∙◌, ◌⊎◌, inl, inr,
  true, Option, some, [], ◌∷◌, ◌++◌, arith, ltb, Bool-cases, length, length-append,
}
use mangoo.Types.{Text}
use mangoo.System.{System, World, undefined}
use mangoo.Api.Store.{MangooStore}
use mangoo.Samp.Scan.{decimal, digits, is_digit, skip_spaces, positive, atoi, print_offset}
use mangoo.Samp.Shell.{leave_shell, save_offset}

less_or_not : (n m : ℕ) → (n < m) ⊎ (m ≤ n)
less_or_not n m = elim (Bool-cases (ltb n m)) [
  | inl less ↦ inl (ground (arith, less))
  | inr other ↦ inr (ground (arith, other))
]

decimal_small : (fuel n : ℕ) → n < 10 → decimal (suc fuel) n ≡ (b'0' + n) ∷ []
unfolding decimal
decimal_small fuel n h = ground arith

decimal_large :
    (fuel n : ℕ) → 10 ≤ n → decimal (suc fuel) n ≡ decimal fuel (n / 10) ++ (b'0' + n % 10) ∷ []
unfolding decimal
decimal_large fuel n h = ground arith

-- One digit.
digits_step : (n d : ℕ) (s : Text) → d < 10 → digits n ((b'0' + d) ∷ s) ≡ digits (n * 10 + d) s
unfolding digits
digits_step n d s h =
    let digit : is_digit (b'0' + d) ≡ true = ground arith in
    let value : b'0' + d - b'0' ≡ d = omega arith in rw digit (rw value)

digits-decimal :
    (fuel n : ℕ) (s : Text) → n < 10 ^ fuel → 0 < fuel → digits 0 (decimal fuel n ++ s) ≡ digits n s
digits-decimal zero n s h p = absurd (omega arith)
digits-decimal (suc zero) n s h p =
    let small : n < 10 = omega arith in
    rw (decimal_small zero n small) (digits_step 0 n s small ∙ ap (λ k. digits k s) (omega arith))
digits-decimal (suc (suc fuel)) n s h p = elim (less_or_not n 10) [
  | inl small ↦
      rw (decimal_small (suc fuel) n small)
        (digits_step 0 n s small ∙ ap (λ k. digits k s) (omega arith))
  | inr large ↦
      let below : n / 10 < 10 ^ suc fuel = omega arith in
      let value : n / 10 * 10 + n % 10 ≡ n = omega arith in
      rw (decimal_large (suc fuel) n large) (
        rw (append_assoc (decimal (suc fuel) (n / 10)) ((b'0' + n % 10) ∷ []) s) (
          rw (digits-decimal (suc fuel) (n / 10) ((b'0' + n % 10) ∷ s) below (omega arith))
            (digits_step (n / 10) (n % 10) s (omega arith) ∙ ap (λ k. digits k s) value)))
]

-- A number of k digits or more.
length-decimal : (fuel k n : ℕ) → 10 ^ k ≤ n → k < fuel → k < length (decimal fuel n)
length-decimal zero k n h f = absurd (omega arith)
length-decimal (suc fuel) zero n h f = elim (less_or_not n 10) [
  | inl small ↦ rw (decimal_small fuel n small) (omega arith)
  | inr large ↦
      rw (decimal_large fuel n large)
        (rw (length-append (decimal fuel (n / 10)) ((b'0' + n % 10) ∷ [])) (omega arith))
]
length-decimal (suc fuel) (suc k) n h f =
    let one : 1 ≤ 10 ^ k = one-le-pow k 10 (omega arith) in
    let large : 10 ≤ n = omega arith in
    let rest : k < length (decimal fuel (n / 10)) =
      length-decimal fuel k (n / 10) (omega arith) (omega arith) in
    rw (decimal_large fuel n large)
      (rw (length-append (decimal fuel (n / 10)) ((b'0' + n % 10) ∷ [])) (omega arith))

decimal-zero : (n : ℕ) → decimal zero n ≡ []
unfolding decimal
decimal-zero n = refl

-- A number of at most k digits.
length-decimal_few : (fuel k n : ℕ) → n < 10 ^ suc k → length (decimal fuel n) ≤ suc k
length-decimal_few zero k n h = rw (decimal-zero n) (omega arith)
length-decimal_few (suc fuel) zero n h =
    let small : n < 10 = omega arith in rw (decimal_small fuel n small) (omega arith)
length-decimal_few (suc fuel) (suc k) n h = elim (less_or_not n 10) [
  | inl small ↦ rw (decimal_small fuel n small) (omega arith)
  | inr large ↦
      let rest : length (decimal fuel (n / 10)) ≤ suc k =
        length-decimal_few fuel k (n / 10) (omega arith) in
      rw (decimal_large fuel n large)
        (rw (length-append (decimal fuel (n / 10)) ((b'0' + n % 10) ∷ [])) (omega arith))
]

digits_end : (n : ℕ) (s : Text) → digits n (0 ∷ s) ≡ some n
unfolding digits
digits_end n s = refl

positive_lem : (n : ℕ) → n < 2 ^ 31 → positive (some n) ≡ some n
unfolding positive
positive_lem n h = ground arith

decimal_nothing : (n : ℕ) (s : Text) → decimal zero n ++ s ≡ s
unfolding decimal
decimal_nothing n s = refl

-- The first digit.
decimal_first :
    (fuel n : ℕ) → (d : ℕ) × (cs : Text) × (d < 10) × (decimal (suc fuel) n ≡ (b'0' + d) ∷ cs)
decimal_first zero n = elim (less_or_not n 10) [
  | inl small ↦ (n, [], small, decimal_small zero n small)
  | inr large ↦ (n % 10, [], omega arith, decimal_large zero n large ∙ decimal_nothing (n / 10) _)
]
decimal_first (suc fuel) n = elim (less_or_not n 10) [
  | inl small ↦ (n, [], small, decimal_small (suc fuel) n small)
  | inr large ↦
      let (d, cs, few, e) = decimal_first fuel (n / 10) in
      (
        d,
        cs ++ (b'0' + n % 10) ∷ [],
        few,
        decimal_large (suc fuel) n large ∙ ap (λ t. t ++ (b'0' + n % 10) ∷ []) e,
      )
]

atoi_digit :
    (d : ℕ) (s : Text) → d < 10 → atoi ((b'0' + d) ∷ s) ≡ positive (digits 0 ((b'0' + d) ∷ s))
unfolding atoi skip_spaces
atoi_digit d s h = ground (arith)

-- An offset of fewer than 31 bits is printed, and its text and a NUL are read back as the same
-- number, whatever bytes follow.
pub atoi-print_offset :
    (offset : ℕ) (rest : Text)
    → offset < 2 ^ 31
    → atoi (print_offset offset ++ 0 ∷ rest) ≡ some offset
unfolding print_offset
atoi-print_offset offset rest h =
    let unsigned : ltb offset (2 ^ 63) ≡ true = ground arith in
    let (d, cs, few, first) = decimal_first 19 offset in
    let small : offset < 10 ^ 20 = omega arith in
    let value : digits 0 (decimal 20 offset ++ 0 ∷ rest) ≡ some offset =
      digits-decimal 20 offset (0 ∷ rest) small (omega arith) ∙ digits_end offset rest in
    rw unsigned (
      ap (λ t. atoi (t ++ 0 ∷ rest)) first
      ∙ atoi_digit d (cs ++ 0 ∷ rest) few
      ∙ ap (λ t. positive (digits 0 (t ++ 0 ∷ rest))) (sym first)
      ∙ ap positive value
      ∙ positive_lem offset h)

-- The text of an offset below 10^9, and its NUL, fit into newoff.
pub length-print_offset : (offset : ℕ) → offset < 10 ^ 9 → length (print_offset offset) < 10
unfolding print_offset
length-print_offset offset h =
    let unsigned : ltb offset (2 ^ 63) ≡ true = ground arith in
    let few : length (decimal 20 offset) ≤ 9 = length-decimal_few 20 8 offset h in
    rw unsigned (omega arith)

module _ (os : System) (ms : Option (MangooStore os)) where
  -- Leaving the shell with an offset from 10^9 on and below 2^63 is undefined behaviour, whatever the
  -- store: the text of the offset overflows its buffer.
  pub leave_shell_overflows :
      (rounds offset : ℕ) (w : World os.State)
      → 10 ^ 9 ≤ offset
      → offset < 2 ^ 63
      → leave_shell os ms rounds offset w ≡ undefined
  unfolding leave_shell save_offset print_offset
  leave_shell_overflows rounds offset w h m =
      let long : 9 < length (decimal 20 offset) = length-decimal 20 9 offset h (omega arith) in
      ground (arith)

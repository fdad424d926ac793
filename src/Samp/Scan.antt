-- ===== src/Samp/Scan.antt =====
-- What samp/myapp.c uses of stdio and stdlib: scanf of a line, sscanf of three words, atoi, and
-- sprintf of an off_t. A text has no NUL of its own except where bytes are read into a buffer.
use mangoo.Base.{
  ℕ, zero, suc, ◌+◌, ◌-◌, ◌*◌, ◌/◌, ◌%◌, ◌^◌, Bool, ◌&&◌, ◌||◌, Option, none, some, [], ◌∷◌, ◌++◌,
  ltb, leb, ◌==◌, if◌then◌else◌,
}
use mangoo.Types.{Text}

-- isspace in the C locale
abbrev pub is_space : ℕ → Bool
is_space c = (c == b' ') || (leb 9 c && leb c 13)

abbrev pub is_newline : ℕ → Bool
is_newline c = c == 10

abbrev pub is_nul : ℕ → Bool
is_nul c = c == 0

abbrev pub is_digit : ℕ → Bool
is_digit c = leb b'0' c && leb c b'9'

-- The bytes up to the first one of a kind, and those from it on.
unfoldable pub until : (ℕ → Bool) → Text → Text
until stop [] = []
until stop (c ∷ cs) = let rest = until stop cs in if stop c then [] else c ∷ rest

unfoldable pub from : (ℕ → Bool) → Text → Text
from stop [] = []
from stop (c ∷ cs) = let rest = from stop cs in if stop c then c ∷ cs else rest

unfoldable pub skip_spaces : Text → Text
skip_spaces [] = []
skip_spaces (c ∷ cs) = let rest = skip_spaces cs in if is_space c then rest else c ∷ cs

-- scanf("%[^\n]%*c"): a line and what follows its newline. A line without a byte does not match, and
-- nothing is consumed; the same holds at the end of the input.
unfoldable pub scan_line : Text → Option (Text × Text)
unfolding until from
scan_line stdin = elim (until is_newline stdin) [
  | [] ↦ none
  | c ∷ cs ↦ some (c ∷ cs, elim (from is_newline stdin) [ [] ↦ [] | newline ∷ rest ↦ rest ])
]

-- %s: a word and what follows it.
unfoldable pub scan_word : Text → Option (Text × Text)
unfolding until from skip_spaces
scan_word text = elim (skip_spaces text) [
  | [] ↦ none
  | c ∷ cs ↦ some (until is_space (c ∷ cs), from is_space (c ∷ cs))
]

-- tok1, tok2 and tok3; one that was never read is not initialised.
pub record Tokens : Type 0 where
  pub tok1 : Option Text
  pub tok2 : Option Text
  pub tok3 : Option Text

-- sscanf(input, "%s%s%s", tok1, tok2, tok3): words that are missing leave the tokens as they are.
unfoldable pub scan_words : Text → Tokens → Tokens
unfolding scan_word
scan_words text tokens = elim (scan_word text) [
  | none ↦ tokens
  | some (first, text') ↦ elim (scan_word text') [
    | none ↦ record tokens { tok1 = some first }
    | some (second, text'') ↦ elim (scan_word text'') [
      | none ↦ record tokens { tok1 = some first; tok2 = some second }
      | some (third, _) ↦ record { tok1 = some first; tok2 = some second; tok3 = some third }
    ]
  ]
]

-- The number that digits continue, up to the first byte that is none. Bytes that end before it are
-- not terminated.
unfoldable pub digits : ℕ → Text → Option ℕ
digits n [] = none
digits n (c ∷ cs) =
    let rest = digits (n * 10 + (c - b'0')) cs in if is_digit c then rest else some n

-- An int as an off_t of 64 bits; numbers that no int holds are undefined.
unfoldable pub positive : Option ℕ → Option ℕ
positive none = none
positive (some n) = if ltb n (2 ^ 31) then some n else none

unfoldable pub negative : Option ℕ → Option ℕ
negative none = none
negative (some n) = if leb n (2 ^ 31) then some ((2 ^ 64 - n) % 2 ^ 64) else none

unfoldable pub atoi : Text → Option ℕ
unfolding skip_spaces digits positive negative
atoi bytes = elim (skip_spaces bytes) [
  | [] ↦ none
  | c ∷ cs ↦
      if c == b'-'
      then negative (digits 0 cs)
      else if c == b'+'
      then positive (digits 0 cs)
      else positive (digits 0 (c ∷ cs))
]

-- The decimal digits of a number, with fuel for as many.
unfoldable pub decimal : ℕ → ℕ → Text
decimal zero n = []
decimal (suc fuel) n =
    let rest = decimal fuel (n / 10) in
    if ltb n 10 then (b'0' + n) ∷ [] else rest ++ (b'0' + n % 10) ∷ []

-- sprintf("%jd") of an off_t, whose 64 bits have at most 20 digits.
unfoldable pub print_offset : ℕ → Text
unfolding decimal
print_offset offset =
    if ltb offset (2 ^ 63) then decimal 20 offset else b'-' ∷ decimal 20 (2 ^ 64 - offset)

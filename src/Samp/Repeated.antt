-- ===== src/Samp/Repeated.antt =====
-- A line that samp/myapp.c takes once more, since the next one is empty or missing.
use mangoo.Base.{ℕ, ◌≡◌, inl, inr, true, none, some, arith, Option-cases}
use mangoo.Types.{Text}
use mangoo.Samp.Scan.{Tokens, until, is_nul, scan_line, scan_word, scan_words}
use mangoo.Samp.Shell.{Shell, command, fit_tokens, read_line, read_tokens, next_command}

-- The same words once more.
pub scan_words_twice :
    (text : Text) (t : Tokens) → scan_words text (scan_words text t) ≡ scan_words text t
unfolding scan_words
scan_words_twice text t = elim (Option-cases (scan_word text)) [
  | inl a ↦ ground (arith, a)
  | inr ((first, text'), a) ↦ elim (Option-cases (scan_word text')) [
    | inl b ↦ ground (arith, a, b)
    | inr ((second, text''), b) ↦ elim (Option-cases (scan_word text'')) [
      | inl c ↦ ground (arith, a, b, c)
      | inr ((third, rest), c) ↦ ground (arith, a, b, c)
    ]
  ]
]

-- The next line is empty or missing, and the last one gives the tokens once more.
pub record Repeats (line : Text) (t : Tokens) (sh : Shell) : Type 0 where
  pub blank : scan_line sh.stdin ≡ none
  pub kept : sh.input ≡ some line
  pub same : scan_words (until is_nul line) sh.tokens ≡ t

pub Repeats-next :
    (line : Text) (t : Tokens) (sh : Shell)
    → Repeats line t sh
    → Repeats line t (record sh { tokens = t })
Repeats-next line t sh h = record {
  blank = h.blank;
  kept = h.kept;
  same = rw (h.same) at (scan_words_twice (until is_nul line) sh.tokens);
}

pub Repeats-offset :
    (line : Text) (t : Tokens) (sh : Shell) (n : ℕ)
    → Repeats line t sh
    → Repeats line t (record sh { offset = n })
Repeats-offset line t sh n h = record { blank = h.blank; kept = h.kept; same = h.same }

read_line-blank : (sh : Shell) → scan_line sh.stdin ≡ none → read_line sh ≡ some sh
unfolding read_line
read_line-blank sh e = ground (arith, e)

read_tokens_lem :
    (line : Text) (t : Tokens) (sh : Shell)
    → Repeats line t sh
    → fit_tokens t ≡ true
    → read_tokens sh ≡ some (record sh { tokens = t })
unfolding read_tokens
read_tokens_lem line t sh h fit = rw (h.kept) (rw (h.same) (rw fit))

-- The same command once more.
pub next_command-Repeats :
    (line word : Text) (t : Tokens) (sh : Shell)
    → Repeats line t sh
    → fit_tokens t ≡ true
    → t.tok1 ≡ some word
    → next_command sh ≡ some (command word, record sh { tokens = t })
unfolding next_command
next_command-Repeats line word t sh h fit first =
    ground (arith, read_line-blank sh h.blank, read_tokens_lem line t sh h fit, first)

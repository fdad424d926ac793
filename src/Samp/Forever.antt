-- ===== src/Samp/Forever.antt =====
-- What samp/myapp.c does when it meets an empty line, or the end of its input.
use mangoo.Base.{ℕ, zero, suc, ◌≡◌, refl, ◌∙◌, ◌≢◌, true, Option, none, some, arith}
use mangoo.Types.{Text}
use mangoo.System.{Run, still_running, ◌>>=◌, System}
use mangoo.Api.Store.{MangooStore}
use mangoo.Samp.Scan.{Tokens, until, is_nul, scan_line, scan_words}
use mangoo.Samp.Shell.{
  Shell, Command, cmd_exit, cmd_write, cmd_read, cmd_getattr, cmd_mkdir, cmd_other, command,
  fit_tokens, next_command, run_command, shell,
}
use mangoo.Samp.Repeated.{Repeats, Repeats-next, Repeats-offset, next_command-Repeats}

-- A run that is made again and again, each time with what the last one has returned: it does not
-- end by itself.
unfoldable pub again : {S : Type 0} → ℕ → (ℕ → Run S ℕ) → ℕ → Run S ℕ
again zero run n = still_running
again (suc fuel) run n = do next ← run n; again fuel run next

module _ (os : System) (ms : Option (MangooStore os)) (rounds : ℕ) where
  shell-next :
      (fuel : ℕ) (cmd : Command) (sh sh' : Shell)
      → next_command sh ≡ some (cmd, sh')
      → cmd ≢ cmd_exit
      → shell os ms (suc fuel) rounds sh ≡ (
          run_command os ms rounds cmd sh'.tokens sh'.offset >>= λ n.
          shell os ms fuel rounds (record sh' { offset = n }))
  unfolding shell
  shell-next fuel cmd_exit sh sh' e n = absurd (n refl)
  shell-next fuel cmd_write sh sh' e n = ground (arith, e)
  shell-next fuel cmd_read sh sh' e n = ground (arith, e)
  shell-next fuel cmd_getattr sh sh' e n = ground (arith, e)
  shell-next fuel cmd_mkdir sh sh' e n = ground (arith, e)
  shell-next fuel cmd_other sh sh' e n = ground (arith, e)

  module _ (line word : Text) (t : Tokens) (fit : fit_tokens t ≡ true) (first : t.tok1 ≡ some word)
      (other : command word ≢ cmd_exit) where
    shell-Repeats :
        (fuel : ℕ) (sh : Shell)
        → Repeats line t sh
        → shell os ms fuel rounds sh
          ≡ again fuel (run_command os ms rounds (command word) t) sh.offset
    unfolding shell again
    shell-Repeats zero sh h = refl
    shell-Repeats (suc fuel) sh h =
        shell-next fuel (command word) sh (record sh { tokens = t })
          (next_command-Repeats line word t sh h fit first) other
        ∙ λ i. run_command os ms rounds (command word) t sh.offset >>= λ n.
            shell-Repeats fuel (record sh { tokens = t; offset = n })
              (Repeats-offset line t (record sh { tokens = t }) n (Repeats-next line t sh h)) i

  -- In any state of the shell where the next line is empty or the input is at its end, and where the
  -- line that was read last gives a command other than exit and tokens that fit: what the shell does
  -- from there, for any number of rounds, is that command with those tokens again and again, each
  -- time at the offset that the last time has left, and nothing else.
  pub shell-again :
      (fuel : ℕ) (sh : Shell) (line word : Text)
      → scan_line sh.stdin ≡ none
      → sh.input ≡ some line
      → fit_tokens (scan_words (until is_nul line) sh.tokens) ≡ true
      → (scan_words (until is_nul line) sh.tokens).tok1 ≡ some word
      → command word ≢ cmd_exit
      → shell os ms fuel rounds sh
        ≡ again fuel
            (run_command os ms rounds (command word) (scan_words (until is_nul line) sh.tokens))
            sh.offset
  shell-again fuel sh line word blank kept fit first other =
      shell-Repeats line word (scan_words (until is_nul line) sh.tokens) fit first other fuel sh
        (record { blank = blank; kept = kept; same = refl })

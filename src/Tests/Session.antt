-- ===== src/Tests/Session.antt =====
-- The theorems on the shell of samp/myapp.c at concrete inputs.
use mangoo.Base.{◌≡◌, refl, ap, true, none, some, List, [], ◌∷◌, ◌++◌, arith}
use mangoo.Types.{Entry, DentryData, zero_dentry, mangoo_data, dentry, ok, Text}
use mangoo.System.{World, returns, exits, undefined}
use mangoo.Compare.{strcmp}
use mangoo.Dir.{same_text}
use mangoo.Stream.Content.{HasBlocks}
use mangoo.Api.Store.{dbfs_store}
use mangoo.Samp.Scan.{
  Tokens, print_offset, scan_line, scan_word, scan_words, until, from, skip_spaces, is_nul,
}
use mangoo.Samp.Shell.{
  Shell, shell, run_command, getdata, leave_shell, save_offset, newoffset, command, cmd_mkdir,
  fit_tokens, fits_token,
}
use mangoo.Samp.Number.{leave_shell_overflows}
use mangoo.Samp.Forever.{again, shell-again}
use mangoo.Samp.Session.{getdata-leave_shell}
use mangoo.Tests.Memory.{lookup}
use mangoo.Tests.Systems.{
  desk, in_memory-IsStore, in_memory-IsReliable, in_memory-IsOpenable, machine-HasMemory,
}

-- A file of three bytes for the offset, none of them written.
abbrev offset_file : DentryData
offset_file = record zero_dentry { ddd_type = mangoo_data; ddd_ino = 7; ddd_size = 3 }

abbrev volume : World (List Entry)
volume = record {
  base = (dentry newoffset, offset_file) ∷ [];
  last_inode = 8;
  mem = record { handles = 0; keys = 0; locators = 0; cursors = 0 };
}

newoffset_found : lookup volume.base (dentry newoffset) ≡ ok offset_file
unfolding lookup strcmp
newoffset_found = refl

volume-HasBlocks : HasBlocks desk volume.base
unfolding lookup
volume-HasBlocks = record { whole = λ ino offset c e. absurd (cc) }

-- "1234", with its NUL, is longer than the file.
getdata-leave_shell_example :
    (u v : World (List Entry)) × (leave_shell desk (some (dbfs_store desk)) 1 1234 volume ≡ exits 0)
    × (save_offset desk (some (dbfs_store desk)) 1 1234 volume ≡ returns (tt, u))
    × (getdata desk (some (dbfs_store desk)) newoffset u ≡ returns (1234, v))
unfolding print_offset
getdata-leave_shell_example =
    getdata-leave_shell desk in_memory-IsStore in_memory-IsReliable in_memory-IsOpenable
      machine-HasMemory (record { env_created = refl; home_opened = refl }) 0 1234 offset_file
      volume newoffset_found volume-HasBlocks (omega arith) (omega arith)

leave_shell_overflows_example :
    leave_shell desk (some (dbfs_store desk)) 1 1000000000 volume ≡ undefined
leave_shell_overflows_example =
    leave_shell_overflows desk (some (dbfs_store desk)) 1 1000000000 volume (omega arith)
      (omega arith)

-- "mkdir /d", followed by an empty line and a line that is never read
abbrev word_mkdir : Text
word_mkdir = b'm' ∷ b'k' ∷ b'd' ∷ b'i' ∷ b'r' ∷ []

abbrev dir_d : Text
dir_d = b'/' ∷ b'd' ∷ []

abbrev line_mkdir : Text
line_mkdir = word_mkdir ++ b' ' ∷ dir_d

abbrev no_tokens : Tokens
no_tokens = record { tok1 = none; tok2 = none; tok3 = none }

abbrev words_mkdir : Tokens
words_mkdir = record { tok1 = some word_mkdir; tok2 = some dir_d; tok3 = none }

abbrev in_session : Shell
in_session = record {
  stdin = 10 ∷ b'e' ∷ b'x' ∷ b'i' ∷ b't' ∷ 10 ∷ [];
  input = some line_mkdir;
  tokens = no_tokens;
  offset = 12;
}

blank_next : scan_line in_session.stdin ≡ none
unfolding scan_line until
blank_next = refl

words_scanned : scan_words (until is_nul line_mkdir) no_tokens ≡ words_mkdir
unfolding scan_words scan_word until from skip_spaces
words_scanned = refl

words_fit : fit_tokens words_mkdir ≡ true
unfolding fit_tokens fits_token
words_fit = refl

command-mkdir : command word_mkdir ≡ cmd_mkdir
unfolding command same_text strcmp
command-mkdir = refl

shell-again_example :
    shell desk (some (dbfs_store desk)) 5 2 in_session
    ≡ again 5
        (run_command desk
          (some (dbfs_store desk))
          2
          (command word_mkdir)
          (scan_words (until is_nul line_mkdir) no_tokens))
        12
shell-again_example =
    shell-again desk (some (dbfs_store desk)) 2 5 in_session line_mkdir word_mkdir blank_next refl
      (rw words_scanned words_fit) (ap (λ t. t.tok1) words_scanned)
      (λ same. absurd (cc (command-mkdir, same)))

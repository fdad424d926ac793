-- ===== src/Samp/Shell.antt =====
-- The sample program samp/myapp.c: a shell that writes and reads files of a store, at an offset that
-- it keeps from one run to the next in the file "/.newoffset". The messages are left out, and
-- DB_ENV->close, which has no effect on the state of the model.
use mangoo.Base.{
  ℕ, zero, suc, ◌+◌, ◌%◌, ◌^◌, Bool, true, ◌&&◌, Option, none, some, [], ◌∷◌, ◌++◌, ltb,
  if◌then◌else◌, length,
}
use mangoo.Types.{
  Text, Reply, ok, err, Code, success, Handle, mangoo_data, mangoo_container,
  mangoo_stream_interface, mangoo_attr_interface,
}
use mangoo.System.{System, M, pure, exit, still_running, undefined_behaviour, ◌>>=◌, ◌>>◌}
use mangoo.Dir.{same_text}
use mangoo.Stream.{Transfer}
use mangoo.Api.Store.{
  MangooStore, dbfs_scheme, mangoo_initstore, mangoo_closestore, mangoo_open, mangoo_create,
  mangoo_close,
}
use mangoo.Api.Stream.{mstream_read, mstream_write}
use mangoo.Fuse.{Answer, minus, Stat, env_open, with_open, read_stat}
use mangoo.Samp.{dbfs_vol}
use mangoo.Samp.Scan.{Tokens, until, is_nul, scan_line, scan_words, atoi, print_offset}

-- "/.newoffset"
abbrev pub newoffset : Text
newoffset = b'/' ∷ b'.' ∷ b'n' ∷ b'e' ∷ b'w' ∷ b'o' ∷ b'f' ∷ b'f' ∷ b's' ∷ b'e' ∷ b't' ∷ []

-- What main keeps from one line to the next: the input that is left, input[100], the tokens and
-- offset.
pub record Shell : Type 0 where
  pub stdin : Text
  pub input : Option Text
  pub tokens : Tokens
  pub offset : ℕ

pub data Command : Type 0 where
  cmd_write cmd_read cmd_exit cmd_getattr cmd_mkdir cmd_other : Command

-- The comparisons of tok1, in their order; "help" and what is not known only print.
unfoldable pub command : Text → Command
unfolding same_text
command tok1 =
    if same_text tok1 (b'w' ∷ b'r' ∷ b'i' ∷ b't' ∷ b'e' ∷ [])
    then cmd_write
    else if same_text tok1 (b'r' ∷ b'e' ∷ b'a' ∷ b'd' ∷ [])
    then cmd_read
    else if same_text tok1 (b'e' ∷ b'x' ∷ b'i' ∷ b't' ∷ [])
    then cmd_exit
    else if same_text tok1 (b'g' ∷ b'e' ∷ b't' ∷ b'a' ∷ b't' ∷ b't' ∷ b'r' ∷ [])
    then cmd_getattr
    else if same_text tok1 (b'm' ∷ b'k' ∷ b'd' ∷ b'i' ∷ b'r' ∷ [])
    then cmd_mkdir
    else cmd_other

-- A token and its NUL have 20 bytes.
unfoldable pub fits_token : Option Text → Bool
fits_token none = true
fits_token (some word) = ltb (length word) 20

unfoldable pub fit_tokens : Tokens → Bool
unfolding fits_token
fit_tokens t = fits_token t.tok1 && fits_token t.tok2 && fits_token t.tok3

-- scanf into input[100]; none where it overflows.
unfoldable pub read_line : Shell → Option Shell
unfolding scan_line
read_line sh = elim (scan_line sh.stdin) [
  | none ↦ some sh
  | some (line, rest) ↦
      if ltb (length line) 100 then some (record sh { stdin = rest; input = some line }) else none
]

-- sscanf of input into the tokens; none where input is not initialised or a token overflows.
unfoldable pub read_tokens : Shell → Option Shell
unfolding scan_words until fit_tokens
read_tokens sh = elim (sh.input) [
  | none ↦ none
  | some line ↦
      let t = scan_words (until is_nul line) sh.tokens in
      if fit_tokens t then some (record sh { tokens = t }) else none
]

-- One round of the loop of main, up to the command and its tokens.
unfoldable pub next_command : Shell → Option (Command × Shell)
unfolding read_line read_tokens command
next_command sh = elim (read_line sh) [
  | none ↦ none
  | some sh' ↦ elim (read_tokens sh') [
    | none ↦ none
    | some sh'' ↦ elim (sh''.tokens.tok1) [ none ↦ none | some tok1 ↦ some (command tok1, sh'') ]
  ]
]

-- Whether a NUL is among the bytes, so that a string ends in them.
unfoldable pub is_terminated : Text → Bool
unfolding until
is_terminated bytes = ltb (length (until is_nul bytes)) (length bytes)

module _ (os : System) where
  -- stat and mkdir of "/tmp/TXNAPP"
  unfoldable pub env_dir_create : Reply (Unit {0}) → Reply (Unit {0}) → M os (Unit {0})
  env_dir_create (ok _) mkdir = pure tt
  env_dir_create (err e) (ok _) = pure tt
  env_dir_create (err e) (err f) = exit 1

  -- What sampwrite does with the handle: the text and its NUL are written, and the offset moves by
  -- the text, unsigned.
  unfoldable pub write_text : Handle → Text → ℕ → M os ℕ
  unfolding env_open mstream_write mangoo_close
  write_text handle buf offset = do
    env_open os
    (error, sz, handle') ← mstream_write os handle (buf ++ 0 ∷ []) (length buf + 1) offset
    closed ← mangoo_close os (some handle')
    pure (elim error [ success ↦ (offset + length buf) % 2 ^ 64 | e ↦ offset ])

  -- The whole file, read into buffer[30].
  unfoldable pub read_buffer : Handle → M os Transfer
  unfolding env_open mstream_read
  read_buffer handle = do
    env_open os
    done ← mstream_read os handle handle.attr_ddd.ddd_size 0
    if ltb 30 (length done.bytes) then undefined_behaviour else pure done

  -- puts of the buffer, after a read that has not failed.
  unfoldable pub put_buffer : Transfer → M os (Unit {0})
  unfolding is_terminated
  put_buffer done = elim (done.error) [
    | success ↦ if is_terminated done.bytes then pure tt else undefined_behaviour
    | e ↦ pure tt
  ]

  -- atoi of the buffer, after a read that has not failed.
  unfoldable pub number_in : Transfer → M os ℕ
  unfolding atoi
  number_in done = elim (done.error) [
    | success ↦ elim (atoi done.bytes) [ none ↦ undefined_behaviour | some n ↦ pure n ]
    | e ↦ pure 0
  ]

  module _ (ms : Option (MangooStore os)) where
    -- With fuel for the jumps to `back`. The result is *offset.
    unfoldable pub sampwrite : ℕ → Text → Text → ℕ → M os ℕ
    unfolding mangoo_open mangoo_create write_text
    sampwrite zero path buf offset = still_running
    sampwrite (suc rounds) path buf offset = do
      (error, handle) ← mangoo_open os ms path mangoo_stream_interface
      elim error [
        | success ↦ elim handle [ none ↦ undefined_behaviour | some mh ↦ write_text mh buf offset ]
        | e ↦ (do
          error' ← mangoo_create os ms path 0x81B6 mangoo_data
          elim error' [ success ↦ sampwrite rounds path buf offset | e' ↦ pure offset ])
      ]

    unfoldable pub sampread : Text → M os (Unit {0})
    unfolding with_open read_buffer put_buffer mangoo_close
    sampread path =
        with_open os ms path mangoo_stream_interface (λ e. tt)
          λ mh. (do
            done ← read_buffer mh
            put_buffer done
            closed ← mangoo_close os (some mh)
            pure tt)

    unfoldable pub getdata : Text → M os ℕ
    unfolding with_open read_buffer number_in mangoo_close
    getdata path =
        with_open os ms path mangoo_stream_interface (λ e. 0)
          λ mh. (do
            done ← read_buffer mh
            offset ← number_in done
            closed ← mangoo_close os (some mh)
            pure offset)

    unfoldable pub makedir : Text → M os Code
    unfolding mangoo_create
    makedir path = mangoo_create os ms path 0x8180 mangoo_container

    unfoldable pub getattr : Text → M os (Answer × Option Stat)
    unfolding with_open read_stat
    getattr path = with_open os ms path mangoo_attr_interface (λ e. (minus e, none)) (read_stat os)

    -- A token that is used before it was read is undefined.
    unfoldable pub with_token : {A : Type 0} → Option Text → (Text → M os A) → M os A
    with_token none f = undefined_behaviour
    with_token (some word) f = f word

    -- What the exit command does before it ends the process: the offset is printed into newoff[10]
    -- and written at the start of its file, and the store is closed.
    unfoldable pub save_offset : ℕ → ℕ → M os (Unit {0})
    unfolding print_offset sampwrite mangoo_closestore
    save_offset rounds offset =
        let newoff = print_offset offset in
        if ltb (length newoff) 10
        then (do
          off2 ← sampwrite rounds newoffset newoff 0
          elim ms [
            | none ↦ undefined_behaviour
            | some store ↦ (do closed ← mangoo_closestore os store; pure tt)
          ])
        else undefined_behaviour

    unfoldable pub leave_shell : ℕ → ℕ → M os ℕ
    unfolding save_offset
    leave_shell rounds offset = do save_offset rounds offset; exit 0

    -- A command other than exit; the result is offset.
    unfoldable pub run_command : ℕ → Command → Tokens → ℕ → M os ℕ
    unfolding with_token sampwrite sampread getattr makedir
    run_command rounds cmd_write t offset =
        with_token t.tok3 λ path. with_token t.tok2 λ buf. sampwrite rounds path buf offset
    run_command rounds cmd_read t offset = with_token t.tok2 λ path. (do sampread path; pure offset)
    run_command rounds cmd_getattr t offset =
        with_token t.tok2 λ path. (do st ← getattr path; pure offset)
    run_command rounds cmd_mkdir t offset =
        with_token t.tok2 λ path. (do error ← makedir path; pure offset)
    run_command rounds cmd_exit t offset = pure offset
    run_command rounds cmd_other t offset = pure offset

    -- The loop of main, with fuel for its lines and for the jumps of each sampwrite.
    unfoldable pub shell : ℕ → ℕ → Shell → M os ℕ
    unfolding next_command run_command leave_shell
    shell zero rounds sh = still_running
    shell (suc fuel) rounds sh = elim (next_command sh) [
      | none ↦ undefined_behaviour
      | some (cmd, sh') ↦ elim cmd [
        | cmd_exit ↦ leave_shell rounds sh'.offset
        | other ↦ (do
          offset ← run_command rounds other sh'.tokens sh'.offset
          shell fuel rounds (record sh' { offset = offset }))
      ]
    ]

  unfoldable pub main : ℕ → ℕ → Reply (Unit {0}) → Reply (Unit {0}) → Text → M os ℕ
  unfolding mangoo_initstore env_dir_create getdata shell
  main fuel rounds stat mkdir stdin = do
    (error, ms) ← mangoo_initstore os dbfs_scheme dbfs_vol
    env_dir_create stat mkdir
    offset ← getdata ms newoffset
    shell ms fuel rounds (record {
      stdin = stdin;
      input = none;
      tokens = record { tok1 = none; tok2 = none; tok3 = none };
      offset = offset;
    })

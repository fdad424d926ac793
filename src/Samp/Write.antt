-- ===== src/Samp/Write.antt =====
-- The sample programs samp/sampwrite.c and samp/writenew.c, which write three texts into "/newfile",
-- or create the file where it is missing. The messages are left out.
use mangoo.Base.{ℕ, ◌+◌, ◌%◌, ◌^◌, Option, none, some, [], ◌∷◌, ◌++◌, length}
use mangoo.Types.{
  Text, Reply, ok, err, success, Handle, mangoo_data, mangoo_container, mangoo_stream_interface,
  mangoo_attr_interface,
}
use mangoo.System.{System, M, pure, exit, undefined_behaviour, ◌>>=◌, ◌>>◌}
use mangoo.Api.Store.{
  MangooStore, dbfs_scheme, mangoo_initstore, mangoo_closestore, mangoo_open, mangoo_create,
  mangoo_close,
}
use mangoo.Api.Stream.{mstream_write}
use mangoo.Api.Attr.{mattr_gettype}
use mangoo.Fuse.{env_open}
use mangoo.Samp.{newfile, dbfs_vol}

-- "\nhello", "hello1" and "hello2\n"
abbrev pub buf : Text
buf = 10 ∷ b'h' ∷ b'e' ∷ b'l' ∷ b'l' ∷ b'o' ∷ []

abbrev pub buf1 : Text
buf1 = b'h' ∷ b'e' ∷ b'l' ∷ b'l' ∷ b'o' ∷ b'1' ∷ []

abbrev pub buf2 : Text
buf2 = b'h' ∷ b'e' ∷ b'l' ∷ b'l' ∷ b'o' ∷ b'2' ∷ 10 ∷ []

-- "/a/TXNAPP"
abbrev pub mypath : Text
mypath = b'/' ∷ b'a' ∷ b'/' ∷ b'T' ∷ b'X' ∷ b'N' ∷ b'A' ∷ b'P' ∷ b'P' ∷ []

module _ (os : System) where
  -- A text and its NUL; offset moves by the text if it was written.
  unfoldable pub write_next : Handle → Text → ℕ → M os (Handle × ℕ)
  unfolding mstream_write
  write_next handle text offset = do
    (error, sz, handle') ← mstream_write os handle (text ++ 0 ∷ []) (length text + 1) offset
    pure (handle', elim error [ success ↦ (offset + length text) % 2 ^ 64 | e ↦ offset ])

  unfoldable pub write_texts : Handle → M os (Unit {0})
  unfolding write_next mangoo_close
  write_texts handle = do
    (handle1, offset1) ← write_next handle buf 0
    (handle2, offset2) ← write_next handle1 buf1 offset1
    (handle3, offset3) ← write_next handle2 buf2 offset2
    closed ← mangoo_close os (some handle3)
    pure tt

  -- The file is opened and written, or created with the mode.
  unfoldable pub write_or_create :
      Option (MangooStore os) → ℕ → (Handle → M os (Unit {0})) → M os (Unit {0})
  unfolding mangoo_open mangoo_create
  write_or_create ms mode write = do
    (error, handle) ← mangoo_open os ms newfile mangoo_stream_interface
    elim error [
      | success ↦ elim handle [ none ↦ undefined_behaviour | some mh ↦ write mh ]
      | e ↦ (do error' ← mangoo_create os ms newfile mode mangoo_data; pure tt)
    ]

  -- The store is closed also when it has not been opened, through NULL.
  unfoldable pub close_store : Option (MangooStore os) → M os ℕ
  unfolding mangoo_closestore
  close_store none = undefined_behaviour
  close_store (some store) = do closed ← mangoo_closestore os store; pure 0

  -- main of sampwrite.c
  unfoldable pub write_file : M os ℕ
  unfolding mangoo_initstore write_or_create env_open write_texts close_store
  write_file = do
    (error, ms) ← mangoo_initstore os dbfs_scheme dbfs_vol
    write_or_create ms 0x81B4 (λ handle. (do env_open os; write_texts handle))
    close_store ms

  -- The end of writenew.c's env_dir_create: the handle is closed if the type was read.
  unfoldable pub print_type : Option Handle → M os (Unit {0})
  unfolding mattr_gettype mangoo_close
  print_type none = undefined_behaviour
  print_type (some handle) = do
    (error, mt) ← mattr_gettype os handle
    elim error [ success ↦ (do closed ← mangoo_close os (some handle); pure tt) | e ↦ pure tt ]

  unfoldable pub make_env_dir : Option (MangooStore os) → M os (Unit {0})
  unfolding mangoo_open mangoo_create print_type
  make_env_dir ms = do
    (error, handle) ← mangoo_open os ms mypath mangoo_attr_interface
    elim error [
      | success ↦ print_type handle
      | e ↦ (do
        error' ← mangoo_create os ms mypath 0o700 mangoo_container
        elim error' [
          | success ↦ (do
            (error'', handle') ← mangoo_open os ms mypath mangoo_attr_interface
            elim error'' [ success ↦ print_type handle' | e'' ↦ exit 1 ])
          | e' ↦ exit 1
        ])
    ]

  -- writenew.c's own env_open, whose DB_ENV->open is in a directory of its own: what it answers is
  -- an argument.
  unfoldable pub open_own_env : Reply (Unit {0}) → M os (Unit {0})
  open_own_env opened = elim (os.env_create) [
    | err e ↦ exit 1
    | ok _ ↦ elim opened [ err e ↦ exit 1 | ok _ ↦ pure tt ]
  ]

  -- main of writenew.c
  unfoldable pub writenew : Reply (Unit {0}) → M os ℕ
  unfolding mangoo_initstore make_env_dir open_own_env write_or_create write_texts close_store
  writenew opened = do
    (error, ms) ← mangoo_initstore os dbfs_scheme dbfs_vol
    make_env_dir ms
    open_own_env opened
    write_or_create ms 0x100664 write_texts
    close_store ms

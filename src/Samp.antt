-- ===== src/Samp.antt =====
-- The sample programs: samp/sampread.c, which prints a file through a buffer of 30 bytes, and in
-- the children samp/myapp.c, samp/sampwrite.c and samp/writenew.c.
pub mod Buffer
pub mod Scan
pub mod Shell
pub mod Write
pub mod Number
pub mod Repeated
pub mod Forever
pub mod Session
use mangoo.Base.{ℕ, Option, none, some, [], ◌∷◌, ltb, if◌then◌else◌, length}
use mangoo.Types.{Text, Code, success, Handle, mangoo_stream_interface}
use mangoo.System.{System, M, pure, undefined_behaviour, ◌>>=◌, ◌>>◌}
use mangoo.Api.Store.{dbfs_scheme, mangoo_initstore, mangoo_closestore, mangoo_open, mangoo_close}
use mangoo.Api.Stream.{mstream_read}
use mangoo.Fuse.{env_open}

-- "/newfile"
abbrev pub newfile : Text
newfile = b'/' ∷ b'n' ∷ b'e' ∷ b'w' ∷ b'f' ∷ b'i' ∷ b'l' ∷ b'e' ∷ []

-- "/tmp/dbfs_vol"
abbrev pub dbfs_vol : Text
dbfs_vol =
    b'/' ∷ b't' ∷ b'm' ∷ b'p' ∷ b'/' ∷ b'd' ∷ b'b' ∷ b'f' ∷ b's' ∷ b'_' ∷ b'v' ∷ b'o' ∷ b'l' ∷ []

module _ (os : System) where
  -- The whole file is read into buffer, and more than its 30 bytes are written past its end.
  unfoldable pub read_whole : Handle → M os (Unit {0})
  unfolding env_open mstream_read mangoo_close
  read_whole handle = do
    env_open os
    done ← mstream_read os handle handle.attr_ddd.ddd_size 0
    if ltb 30 (length done.bytes)
        then undefined_behaviour
        else (do mangoo_close os (some handle); pure tt)

  unfoldable pub read_opened : Code → Option Handle → M os (Unit {0})
  unfolding read_whole
  read_opened success none = undefined_behaviour
  read_opened success (some handle) = read_whole handle
  read_opened error handle = pure tt

  -- The store is closed also when it has not been opened, through NULL.
  unfoldable pub sampread : M os ℕ
  unfolding mangoo_initstore mangoo_open read_opened mangoo_closestore
  sampread = do
    (error, ms) ← mangoo_initstore os dbfs_scheme dbfs_vol
    (error', handle) ← mangoo_open os ms newfile mangoo_stream_interface
    read_opened error' handle
    elim ms [
      | none ↦ undefined_behaviour
      | some store ↦ (do closed ← mangoo_closestore os store; pure 0)
    ]

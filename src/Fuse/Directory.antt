-- ===== src/Fuse/Directory.antt =====
-- The directory handlers of apps/fuse/mangoofuse.c: mf_filler, mf_opendir, mf_readdir, mf_releasedir.
-- The caller's fuse_fill_dir_t is a callback over its buffer: whether the buffer is full, and the
-- buffer.
use mangoo.Base.{ℕ, ◌+◌, Bool, true, false, Option, none, some, [], ◌∷◌, leb, ◌==◌, if◌then◌else◌}
use mangoo.Types.{
  Text, Code, success, enomem, enobufs, Handle, MangooTypes, mangoo_container, mangoo_data,
  mangoo_directory_interface,
}
use mangoo.System.{System, M, pure, ◌>>=◌, ◌>>◌}
use mangoo.Api.Store.{MangooStore, mangoo_close}
use mangoo.Api.Stream.{mdir_read}
use mangoo.Fuse.{Answer, minus, s_ifreg, s_ifdir, with_open}

-- filler(buf, name, &stbuf, off), of which stbuf has its st_mode set
abbrev pub FillDir : Type 0 → Type 0
FillDir B = B → Text → ℕ → ℕ → Bool × B

pub record MfDir (B : Type 0) : Type 0 where
  pub handle : Handle
  pub cur_off : ℕ
  pub starting_off : ℕ
  pub saved_name : Option Text
  pub saved_off : ℕ
  pub saved_type : MangooTypes
  pub buf : B

-- sizeof(struct mf_dir)
abbrev pub mf_dir_size : ℕ
mf_dir_size = 64

abbrev pub dot : Text
dot = b'.' ∷ []

abbrev pub dot_dot : Text
dot_dot = b'.' ∷ b'.' ∷ []

unfoldable pub file_mode : MangooTypes → ℕ
file_mode type =
    if type == mangoo_data then s_ifreg else if type == mangoo_container then s_ifdir else 0

module _ {B : Type 0} (filler : FillDir B) where
  -- The filler's answer: a full buffer saves the name for the next call.
  unfoldable pub take_answer : MfDir B → Text → MangooTypes → Bool × B → Code × MfDir B
  take_answer dir name type (true, buf) = (
    enobufs,
    record dir { saved_name = some name; saved_off = dir.cur_off; saved_type = type; buf = buf },
  )
  take_answer dir name type (false, buf) =
      (success, record dir { cur_off = dir.cur_off + 1; buf = buf })

  unfoldable pub mf_filler : MfDir B → Text → MangooTypes → Code × MfDir B
  unfolding file_mode take_answer
  mf_filler dir name type =
      if leb dir.starting_off dir.cur_off
      then take_answer dir name type (filler dir.buf name (file_mode type) dir.cur_off)
      else (success, record dir { cur_off = dir.cur_off + 1 })

  -- "." and ".." at offset 0.
  unfoldable pub fill_dots : MfDir B → MfDir B
  fill_dots dir =
      (mf_filler (mf_filler (record dir { starting_off = 0 }) dot mangoo_container).1 dot_dot
        mangoo_container).1

  -- What mf_readdir does before it reads: the two dots from offset 0, the saved name from its own.
  unfoldable pub resume : MfDir B → ℕ → MfDir B × ℕ
  unfolding fill_dots
  resume dir offset = if offset == 0 then (fill_dots dir, 2) else (elim (dir.saved_name) [
    | none ↦ (dir, offset)
    | some name ↦
        if dir.saved_off == offset
        then (record (mf_filler dir name dir.saved_type).1 { saved_name = none }, offset + 1)
        else (record dir { saved_name = none }, offset)
  ])

module _ (os : System) where
  -- buf is what the buffer of the first mf_readdir will replace. The structure is not freed after
  -- an error.
  unfoldable pub mf_opendir :
      {B : Type 0} → Option (MangooStore os) → B → Text → M os (Answer × Option (MfDir B))
  unfolding with_open
  mf_opendir ms buf path =
      if os.malloc mf_dir_size
      then with_open os ms path mangoo_directory_interface (λ e. (minus e, none))
          (λ mh. pure (
            minus success,
            some (record {
              handle = mh;
              cur_off = 0;
              starting_off = 0;
              saved_name = none;
              saved_off = 0;
              saved_type = 0;
              buf = buf;
            }),
          ))
      else pure (minus enomem, none)

  unfoldable pub mf_readdir :
      {B : Type 0} → ℕ → FillDir B → B → ℕ → MfDir B → M os (Answer × MfDir B)
  unfolding resume
  mf_readdir fuel filler buf offset dir = do
    let (dir', offset') = resume filler (record dir { buf = buf }) offset
    (error, handle, dir'') ←
        mdir_read os dir'.handle fuel (mf_filler filler) (record dir' { starting_off = offset' })
    pure (elim error [ enobufs ↦ minus success | e ↦ minus e ], record dir'' { handle = handle })

  unfoldable pub mf_releasedir : {B : Type 0} → MfDir B → M os Answer
  unfolding mangoo_close
  mf_releasedir dir = do mangoo_close os (some dir.handle); pure (minus success)

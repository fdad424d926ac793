-- ===== src/Fuse.antt =====
-- The FUSE file system over a store: apps/fuse/mangoofuse.c, and env_open of lang/c/lib/mangoo.c.
-- The global `ms` is an argument. A handler returns an int: minus an error, or a count of bytes.
pub mod Directory
pub mod Fill
pub mod Pages
pub mod FirstPage
pub mod ReadPages
pub mod LostName
pub mod Attributes
pub mod Data
pub mod Start
pub mod NewStore
pub mod NewFile
pub mod Changes
use Prim.Native.Nat.{bit_or}
use mangoo.Base.{ℕ, ◌%◌, ◌^◌, Option, none, some, List, [], ◌==◌, if◌then◌else◌}
use mangoo.Types.{
  Text, ok, err, Code, success, einval, Handle, MangooTypes, mangoo_container, mangoo_data,
  mangoo_stream_interface, mangoo_attr_interface,
}
use mangoo.System.{System, M, pure, exit, undefined_behaviour, ◌>>=◌, ◌>>◌}
use mangoo.Api.Store.{MangooStore, mangoo_open, mangoo_create, mangoo_delete, mangoo_close}
use mangoo.Api.Stream.{mstream_read, mstream_write}
use mangoo.Api.Attr.{
  mattr_getuid, mattr_getgid, mattr_getmtime, mattr_getatime, mattr_getsize, mattr_getmode,
  mattr_gettype, mattr_setmtime, mattr_setatime, mattr_setsize, mattr_chmod, mattr_chown,
}

-- `minus success` is 0; a count is cut to the 32 bits of an int.
pub data Answer : Type 0 where
  minus : Code → Answer
  counted : ℕ → Answer

abbrev pub s_ifreg : ℕ
s_ifreg = 0o100000

abbrev pub s_ifdir : ℕ
s_ifdir = 0o040000

-- The fields of struct stat that mf_getattr sets.
pub record Stat : Type 0 where
  pub st_uid : ℕ
  pub st_gid : ℕ
  pub st_mtime : ℕ
  pub st_ctime : ℕ
  pub st_atime : ℕ
  pub st_size : ℕ
  pub st_mode : ℕ
  pub st_nlink : ℕ

module _ (os : System) where
  -- After an error of DB_ENV->open the handle is closed and then used once more.
  unfoldable pub env_open : M os (Unit {0})
  env_open = elim (os.env_create) [
    | err e ↦ exit 1
    | ok _ ↦ elim (os.env_open_home) [ err e ↦ undefined_behaviour | ok _ ↦ pure tt ]
  ]

  -- The cleanup under errout2: the handle is closed and -error returned.
  unfoldable pub close_with : {A : Type 0} → Handle → Code → (Code → A) → M os A
  unfolding mangoo_close
  close_with handle error fail = do mangoo_close os (some handle); pure (fail error)

  -- `if ((error = get(handle, &field))) goto errout2;`
  unfoldable pub get_field :
      {A : Type 0} → Handle → (Code → A) → M os (Code × Option ℕ) → (ℕ → M os A) → M os A
  unfolding close_with
  get_field handle fail get k = do
    (error, value) ← get
    elim error [
      | success ↦ elim value [ none ↦ undefined_behaviour | some v ↦ k v ]
      | e ↦ close_with handle e fail
    ]

  unfoldable pub close_stat : Handle → Stat → M os (Answer × Option Stat)
  unfolding mangoo_close
  close_stat handle st = do
    error ← mangoo_close os (some handle)
    elim error [ success ↦ pure (minus success, some st) | e ↦ pure (minus e, none) ]

  -- The switch on the type, and the close.
  unfoldable pub finish_stat : Handle → Stat → MangooTypes → M os (Answer × Option Stat)
  unfolding close_with close_stat
  finish_stat handle st mt =
      if mt == mangoo_data
      then close_stat handle (record st { st_nlink = 1; st_mode = bit_or st.st_mode s_ifreg })
      else if mt == mangoo_container
      then close_stat handle (record st { st_nlink = 2; st_mode = bit_or st.st_mode s_ifdir })
      else close_with handle einval (λ e. (minus e, none))

  unfoldable pub read_stat : Handle → M os (Answer × Option Stat)
  unfolding get_field finish_stat mattr_getuid mattr_getgid mattr_getmtime mattr_getatime
      mattr_getsize mattr_getmode mattr_gettype
  read_stat handle =
      let fail = λ (e : Code). let r : Answer × Option Stat = (minus e, none) in r in
      get_field handle fail (mattr_getuid os handle) λ uid.
        get_field handle fail (mattr_getgid os handle) λ gid.
          get_field handle fail (mattr_getmtime os handle) λ mtime.
            get_field handle fail (mattr_getatime os handle) λ atime.
              get_field handle fail (mattr_getsize os handle) λ size.
                get_field handle fail (mattr_getmode os handle) λ mode.
                  get_field handle fail (mattr_gettype os handle) λ mt.
                    finish_stat handle
                      (record {
                        st_uid = uid;
                        st_gid = gid;
                        st_mtime = mtime;
                        st_ctime = mtime;
                        st_atime = atime;
                        st_size = size;
                        st_mode = mode;
                        st_nlink = 0;
                      })
                      mt

  module _ (ms : Option (MangooStore os)) where
    -- mangoo_open of a path, with what is done with the handle.
    unfoldable pub with_open : {A : Type 0} → Text → ℕ → (Code → A) → (Handle → M os A) → M os A
    unfolding mangoo_open
    with_open path mi fail f = do
      (error, handle) ← mangoo_open os ms path mi
      elim error [
        | success ↦ elim handle [ none ↦ undefined_behaviour | some mh ↦ f mh ]
        | e ↦ pure (fail e)
      ]

    unfoldable pub mf_getattr : Text → M os (Answer × Option Stat)
    unfolding with_open read_stat
    mf_getattr path = with_open path mangoo_attr_interface (λ e. (minus e, none)) read_stat

    -- The result of the change decides only whether the handle is closed; 0 is returned.
    unfoldable pub change_attr : Text → (Handle → M os (Code × Handle)) → M os Answer
    unfolding with_open mangoo_close
    change_attr path change = with_open path mangoo_attr_interface minus λ mh. (do
      (error, handle) ← change mh
      elim error [
        | success ↦ pure (minus success)
        | e ↦ (do mangoo_close os (some handle); pure (minus success))
      ])

    unfoldable pub mf_chmod : Text → ℕ → M os Answer
    unfolding change_attr mattr_chmod
    mf_chmod path mode = change_attr path (λ mh. mattr_chmod os mh mode)

    unfoldable pub mf_chown : Text → ℕ → ℕ → M os Answer
    unfolding change_attr mattr_chown
    mf_chown path newuid newgid = change_attr path (λ mh. mattr_chown os mh newuid newgid)

    unfoldable pub mf_utime : Text → ℕ → ℕ → M os Answer
    unfolding with_open mattr_setmtime mattr_setatime mangoo_close close_with
    mf_utime path modtime actime = with_open path mangoo_attr_interface minus λ mh. (do
      (error, handle) ← mattr_setmtime os mh modtime
      elim error [
        | success ↦ (do
          (error', handle') ← mattr_setatime os handle actime
          elim error' [
            | success ↦ (do closed ← mangoo_close os (some handle'); pure (minus closed))
            | e ↦ close_with handle' e minus
          ])
        | e ↦ close_with handle e minus
      ])

    -- The int and fi->fh, which is 0 (none) after an error.
    unfoldable pub mf_open : Text → M os (Answer × Option Handle)
    unfolding with_open
    mf_open path =
        with_open path mangoo_stream_interface (λ e. (minus e, none))
          (λ mh. pure (minus success, some mh))

    unfoldable pub mf_create : Text → ℕ → M os (Answer × Option Handle)
    unfolding mangoo_create mf_open
    mf_create path mode = do
      error ← mangoo_create os ms path mode mangoo_data
      elim error [ success ↦ mf_open path | e ↦ pure (minus e, none) ]

    unfoldable pub mf_mkdir : Text → ℕ → M os Answer
    unfolding mangoo_create
    mf_mkdir path mode = do
      error ← mangoo_create os ms path mode mangoo_container
      pure (minus error)

    unfoldable pub mf_truncate : ℕ → Text → ℕ → M os Answer
    unfolding with_open mattr_setsize mangoo_close
    mf_truncate fuel path offset = with_open path mangoo_attr_interface minus λ mh. (do
      (error, handle) ← mattr_setsize os fuel mh offset
      mangoo_close os (some handle)
      pure (minus error))

    unfoldable pub mf_remove : ℕ → Text → M os Answer
    unfolding mangoo_delete
    mf_remove fuel path = do error ← mangoo_delete os ms fuel path; pure (minus error)

  -- The int and the bytes put into buf.
  unfoldable pub mf_read : Option Handle → ℕ → ℕ → M os (Answer × List ℕ)
  unfolding env_open mstream_read
  mf_read fh size offset = do
    env_open
    elim fh [
      | none ↦ pure (minus einval, [])
      | some handle ↦ (do
        done ← mstream_read os handle size offset
        elim (done.error) [
          | success ↦ pure (counted (done.count % 2 ^ 32), done.bytes)
          | e ↦ pure (minus e, done.bytes)
        ])
    ]

  -- The int and fi->fh, whose handle the write changes.
  unfoldable pub mf_write : Option Handle → List ℕ → ℕ → ℕ → M os (Answer × Option Handle)
  unfolding env_open mstream_write
  mf_write fh buf size offset = do
    env_open
    elim fh [
      | none ↦ pure (minus einval, none)
      | some handle ↦ (do
        (error, count, handle') ← mstream_write os handle buf size offset
        elim error [
          | success ↦ pure (counted (count % 2 ^ 32), some handle')
          | e ↦ pure (minus e, some handle')
        ])
    ]

  unfoldable pub mf_release : Option Handle → M os Answer
  unfolding mangoo_close
  mf_release none = pure (minus einval)
  mf_release (some handle) = do error ← mangoo_close os (some handle); pure (minus error)

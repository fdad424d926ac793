-- ===== src/Api/Attr.antt =====
-- The functions of lang/c/lib/mangoo.c on attributes: EINVAL without a table, ENOSYS without the
-- function, and otherwise the call. A getter that fails leaves its result unset, none.
use mangoo.Base.{ℕ, Option, none, some}
use mangoo.Types.{Code, einval, enosys, Handle}
use mangoo.System.{System, M, pure, ◌>>=◌}
use mangoo.Api.{MangooAttrOperations, Getter, Setter, as_attr}

module _ (os : System) where
  -- The two tests that every function makes before its call.
  unfoldable pub attr_call {ℓ} :
      {A : Type ℓ} {B : Type 0}
      → Handle
      → (MangooAttrOperations os → Option A)
      → (Code → B)
      → (A → M os B)
      → M os B
  unfolding as_attr
  attr_call mh field fail f = do
    maop ← as_attr os mh.mh_fvector
    elim maop [
      | none ↦ pure (fail einval)
      | some ops ↦ elim (field ops) [ none ↦ pure (fail enosys) | some op ↦ f op ]
    ]

  unfoldable pub get_attr : Handle → (MangooAttrOperations os → Getter os) → M os (Code × Option ℕ)
  unfolding attr_call
  get_attr mh field =
      attr_call mh field (λ e. (e, none))
        (λ op. do (error, value) ← op mh; pure (error, some value))

  unfoldable pub set_attr :
      Handle → (MangooAttrOperations os → Setter os) → ℕ → M os (Code × Handle)
  unfolding attr_call
  set_attr mh field value = attr_call mh field (λ e. (e, mh)) (λ op. op mh value)

  unfoldable pub mattr_gettype : Handle → M os (Code × Option ℕ)
  unfolding get_attr
  mattr_gettype mh = get_attr mh (λ ops. ops.mao_gettype)

  unfoldable pub mattr_getsize : Handle → M os (Code × Option ℕ)
  unfolding get_attr
  mattr_getsize mh = get_attr mh (λ ops. ops.mao_getsize)

  unfoldable pub mattr_getmtime : Handle → M os (Code × Option ℕ)
  unfolding get_attr
  mattr_getmtime mh = get_attr mh (λ ops. ops.mao_getmtime)

  unfoldable pub mattr_getatime : Handle → M os (Code × Option ℕ)
  unfolding get_attr
  mattr_getatime mh = get_attr mh (λ ops. ops.mao_getatime)

  unfoldable pub mattr_getmode : Handle → M os (Code × Option ℕ)
  unfolding get_attr
  mattr_getmode mh = get_attr mh (λ ops. ops.mao_getmode)

  unfoldable pub mattr_getuid : Handle → M os (Code × Option ℕ)
  unfolding get_attr
  mattr_getuid mh = get_attr mh (λ ops. ops.mao_getuid)

  unfoldable pub mattr_getgid : Handle → M os (Code × Option ℕ)
  unfolding get_attr
  mattr_getgid mh = get_attr mh (λ ops. ops.mao_getgid)

  unfoldable pub mattr_setmtime : Handle → ℕ → M os (Code × Handle)
  unfolding set_attr
  mattr_setmtime mh mtime = set_attr mh (λ ops. ops.mao_setmtime) mtime

  unfoldable pub mattr_setatime : Handle → ℕ → M os (Code × Handle)
  unfolding set_attr
  mattr_setatime mh atime = set_attr mh (λ ops. ops.mao_setatime) atime

  unfoldable pub mattr_setmode : Handle → ℕ → M os (Code × Handle)
  unfolding set_attr
  mattr_setmode mh mode = set_attr mh (λ ops. ops.mao_setmode) mode

  unfoldable pub mattr_chmod : Handle → ℕ → M os (Code × Handle)
  unfolding set_attr
  mattr_chmod mh mode = set_attr mh (λ ops. ops.mao_chmod) mode

  unfoldable pub mattr_setuid : Handle → ℕ → M os (Code × Handle)
  unfolding set_attr
  mattr_setuid mh uid = set_attr mh (λ ops. ops.mao_setuid) uid

  unfoldable pub mattr_setgid : Handle → ℕ → M os (Code × Handle)
  unfolding set_attr
  mattr_setgid mh gid = set_attr mh (λ ops. ops.mao_setgid) gid

  unfoldable pub mattr_setsize : ℕ → Handle → ℕ → M os (Code × Handle)
  unfolding attr_call
  mattr_setsize fuel mh size =
      attr_call mh (λ ops. ops.mao_setsize) (λ e. (e, mh)) (λ op. op fuel mh size)

  unfoldable pub mattr_chown : Handle → ℕ → ℕ → M os (Code × Handle)
  unfolding attr_call
  mattr_chown mh newuid newgid =
      attr_call mh (λ ops. ops.mao_chown) (λ e. (e, mh)) (λ op. op mh newuid newgid)

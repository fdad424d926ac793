-- ===== src/Api/Stream.antt =====
-- The functions of lang/c/lib/mangoo.c on streams and directories.
use mangoo.Base.{ℕ, none, some, List, []}
use mangoo.Types.{Code, einval, enosys, Handle}
use mangoo.System.{System, M, pure, ◌>>=◌}
use mangoo.Stream.{Transfer}
use mangoo.Dir.Read.{Filler, Listing}
use mangoo.Api.{as_stream, as_directory}

module _ (os : System) where
  unfoldable pub mstream_read : Handle → ℕ → ℕ → M os Transfer
  unfolding as_stream
  mstream_read mh size offset = do
    msop ← as_stream os mh.mh_fvector
    elim msop [
      | none ↦ pure (record { error = einval; bytes = []; count = size })
      | some ops ↦ elim (ops.mso_read) [
        | none ↦ pure (record { error = enosys; bytes = []; count = size })
        | some op ↦ op mh size offset
      ]
    ]

  unfoldable pub mstream_write : Handle → List ℕ → ℕ → ℕ → M os (Code × ℕ × Handle)
  unfolding as_stream
  mstream_write mh buf size offset = do
    msop ← as_stream os mh.mh_fvector
    elim msop [
      | none ↦ pure (einval, size, mh)
      | some ops ↦ elim (ops.mso_write) [
        | none ↦ pure (enosys, size, mh)
        | some op ↦ op mh buf size offset
      ]
    ]

  unfoldable pub mdir_read : {F : Type 0} → Handle → ℕ → Filler F → F → M os (Listing F)
  unfolding as_directory
  mdir_read {F} mh fuel filler fhandle = do
    msop ← as_directory os F mh.mh_fvector
    elim msop [
      | none ↦ pure (einval, mh, fhandle)
      | some ops ↦ elim (ops.mdo_read) [
        | none ↦ pure (enosys, mh, fhandle)
        | some op ↦ op filler fuel mh fhandle
      ]
    ]

-- ===== src/Api/Store.antt =====
-- The functions of lang/c/lib/mangoo.c on stores, and mangoo_close.
use mangoo.Base.{ℕ, Option, none, some, [], ◌∷◌, ◌==◌, if◌then◌else◌}
use mangoo.Types.{
  Text, Code, success, enoent, einval, enosys, Handle, MangooTypes, MangooInterfaces,
  mangoo_stream_interface, mangoo_directory_interface, mangoo_attr_interface,
}
use mangoo.System.{System, M, pure, undefined_behaviour, ◌>>=◌}
use mangoo.Dir.{same_text}
use mangoo.Api.{MangooOperations, dbfs_msops, as_stream, as_directory, as_attr}

-- struct mangoo_store, and the pointer to one: none is NULL.
pub record MangooStore (os : System) : Type 0 where
  pub ms_ops : Option (MangooOperations os)

-- "dbfs"
abbrev pub dbfs_scheme : Text
dbfs_scheme = b'd' ∷ b'b' ∷ b'f' ∷ b's' ∷ []

module _ (os : System) where
  -- The store that is handed out through mspp.
  unfoldable pub dbfs_store : MangooStore os
  dbfs_store = record { ms_ops = some (dbfs_msops os) }

  -- A function of the store's table; a call of a pointer that is NULL is undefined.
  unfoldable pub call {ℓ} : {A : Type ℓ} {B : Type 0} → Option A → (A → M os B) → M os B
  call none f = undefined_behaviour
  call (some a) f = f a

  unfoldable pub mangoo_initstore : Text → Text → M os (Code × Option (MangooStore os))
  unfolding same_text dbfs_msops dbfs_store call
  mangoo_initstore scheme rl =
      if same_text scheme dbfs_scheme
      then (do
        error ← call ((dbfs_msops os).mo_initstore) (λ f. f rl)
        elim error [ success ↦ pure (success, some dbfs_store) | e ↦ pure (e, none) ])
      else pure (enoent, none)

  unfoldable pub mangoo_closestore : MangooStore os → M os Code
  unfolding call
  mangoo_closestore ms = call ms.ms_ops (λ ops. call ops.mo_closestore (λ f. f))

  -- The guards that mangoo_open, mangoo_create and mangoo_delete begin with.
  unfoldable pub through {ℓ} :
      {A : Type ℓ} {B : Type 0}
      → Option (MangooStore os)
      → (MangooOperations os → Option A)
      → (Code → B)
      → (A → M os B)
      → M os B
  through none field fail f = pure (fail einval)
  through (some ms) field fail f = elim (ms.ms_ops) [
    | none ↦ pure (fail einval)
    | some ops ↦ elim (field ops) [ none ↦ pure (fail enosys) | some op ↦ f op ]
  ]

  unfoldable pub mangoo_open :
      Option (MangooStore os) → Text → MangooInterfaces → M os (Code × Option Handle)
  unfolding through
  mangoo_open ms locator mi = through ms (λ ops. ops.mo_open) (λ e. (e, none)) (λ op. op locator mi)

  unfoldable pub mangoo_create : Option (MangooStore os) → Text → ℕ → MangooTypes → M os Code
  unfolding through
  mangoo_create ms locator mode mt =
      through ms (λ ops. ops.mo_create) (λ e. e) (λ op. op locator mode mt)

  unfoldable pub mangoo_delete : Option (MangooStore os) → ℕ → Text → M os Code
  unfolding through
  mangoo_delete ms fuel locator = through ms (λ ops. ops.mo_delete) (λ e. e) (λ op. op fuel locator)

  -- The close function of the interface's table; neither pointer is tested.
  unfoldable pub mangoo_close : Option Handle → M os Code
  unfolding as_stream as_directory as_attr call
  mangoo_close none = pure einval
  mangoo_close (some mh) =
      if mh.mh_interface == mangoo_stream_interface
      then (do
        table ← as_stream os mh.mh_fvector
        call table (λ ops. call ops.mso_close (λ f. f mh)))
      else if mh.mh_interface == mangoo_directory_interface
      then (do
        table ← as_directory os (Unit {0}) mh.mh_fvector
        call table (λ ops. call ops.mdo_close (λ f. f mh)))
      else if mh.mh_interface == mangoo_attr_interface
      then (do table ← as_attr os mh.mh_fvector; call table (λ ops. call ops.mao_close (λ f. f mh)))
      else pure einval

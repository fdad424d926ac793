-- ===== src/Api.antt =====
-- The tables of functions of lang/c/include/mangoostore.h and the dbfs store's instances of them.
-- A field is none where the table's initialiser leaves the pointer NULL.
pub mod Store
pub mod Stream
pub mod Mounting
pub mod Attr
use mangoo.Base.{ℕ, Option, none, some, List}
use mangoo.Types.{
  Text, Code, Handle, MangooTypes, MangooInterfaces, Fvector, null_vector, dbfs_stream_vector,
  dbfs_directory_vector, dbfs_attr_vector,
}
use mangoo.System.{System, M, pure, undefined_behaviour}
use mangoo.Stream.{Transfer}
use mangoo.Stream.Interface.{dbfs_close as dbfs_stream_close, dbfs_read, dbfs_write}
use mangoo.Attr.Interface.{
  dbfs_close as dbfs_attr_close, dbfs_gettype, dbfs_getsize, dbfs_setsize, dbfs_getmtime,
  dbfs_setmtime, dbfs_getatime, dbfs_setatime, dbfs_getmode, dbfs_getuid, dbfs_getgid, dbfs_chmod,
  dbfs_chown,
}
use mangoo.Dir.{dbfs_closedir}
use mangoo.Dir.Read.{Filler, Listing, dbfs_readdir}
use mangoo.Dbfs.{dbfs_initstore, dbfs_closestore, dbfs_open, dbfs_create, dbfs_delete}

-- Deleting takes the fuel of the loop that it runs.
pub record MangooOperations (os : System) : Type 0 where
  pub mo_initstore : Option (Text → M os Code)
  pub mo_closestore : Option (M os Code)
  pub mo_open : Option (Text → MangooInterfaces → M os (Code × Option Handle))
  pub mo_create : Option (Text → ℕ → MangooTypes → M os Code)
  pub mo_delete : Option (ℕ → Text → M os Code)

pub record MangooStreamOperations (os : System) : Type 0 where
  pub mso_read : Option (Handle → ℕ → ℕ → M os Transfer)
  pub mso_write : Option (Handle → List ℕ → ℕ → ℕ → M os (Code × ℕ × Handle))
  pub mso_close : Option (Handle → M os Code)

pub record MangooDirectoryOperations (os : System) (F : Type 0) : Type 0 where
  pub mdo_read : Option (Filler F → ℕ → Handle → F → M os (Listing F))
  pub mdo_close : Option (Handle → M os Code)

-- A getter returns the int and the value, a setter the int and the handle.
abbrev pub Getter : System → Type 0
Getter os = Option (Handle → M os (Code × ℕ))

abbrev pub Setter : System → Type 0
Setter os = Option (Handle → ℕ → M os (Code × Handle))

pub record MangooAttrOperations (os : System) : Type 0 where
  pub mao_gettype : Getter os
  pub mao_getsize : Getter os
  pub mao_setsize : Option (ℕ → Handle → ℕ → M os (Code × Handle))
  pub mao_getmtime : Getter os
  pub mao_setmtime : Setter os
  pub mao_getatime : Getter os
  pub mao_setatime : Setter os
  pub mao_getmode : Getter os
  pub mao_setmode : Setter os
  pub mao_chmod : Setter os
  pub mao_getuid : Getter os
  pub mao_setuid : Setter os
  pub mao_getgid : Getter os
  pub mao_setgid : Setter os
  pub mao_chown : Option (Handle → ℕ → ℕ → M os (Code × Handle))
  pub mao_close : Option (Handle → M os Code)

module _ (os : System) where
  unfoldable pub dbfs_msops : MangooOperations os
  dbfs_msops = record {
    mo_initstore = some (dbfs_initstore os);
    mo_closestore = some (dbfs_closestore os);
    mo_open = some (dbfs_open os);
    mo_create = some (dbfs_create os);
    mo_delete = some (dbfs_delete os);
  }

  unfoldable pub dbfs_stream_ops : MangooStreamOperations os
  dbfs_stream_ops = record {
    mso_read = some (dbfs_read os);
    mso_write = some (dbfs_write os);
    mso_close = some (dbfs_stream_close os);
  }

  unfoldable pub dbfs_directory_ops : (F : Type 0) → MangooDirectoryOperations os F
  dbfs_directory_ops F = record {
    mdo_read = some (dbfs_readdir os);
    mdo_close = some (dbfs_closedir os);
  }

  unfoldable pub dbfs_attr_ops : MangooAttrOperations os
  dbfs_attr_ops = record {
    mao_gettype = some (dbfs_gettype os);
    mao_getsize = some (dbfs_getsize os);
    mao_setsize = some (dbfs_setsize os);
    mao_getmtime = some (dbfs_getmtime os);
    mao_setmtime = some (dbfs_setmtime os);
    mao_getatime = some (dbfs_getatime os);
    mao_setatime = some (dbfs_setatime os);
    mao_getmode = some (dbfs_getmode os);
    mao_setmode = none;
    mao_chmod = some (dbfs_chmod os);
    mao_getuid = some (dbfs_getuid os);
    mao_setuid = none;
    mao_getgid = some (dbfs_getgid os);
    mao_setgid = none;
    mao_chown = some (dbfs_chown os);
    mao_close = some (dbfs_attr_close os);
  }

  -- The casts of mh_fvector to a table. A handle of another interface has a table of another
  -- layout behind the pointer, and calling through it is undefined.
  unfoldable pub as_stream : Fvector → M os (Option (MangooStreamOperations os))
  unfolding dbfs_stream_ops
  as_stream null_vector = pure none
  as_stream dbfs_stream_vector = pure (some dbfs_stream_ops)
  as_stream _ = undefined_behaviour

  unfoldable pub as_directory :
      (F : Type 0) → Fvector → M os (Option (MangooDirectoryOperations os F))
  unfolding dbfs_directory_ops
  as_directory F null_vector = pure none
  as_directory F dbfs_directory_vector = pure (some (dbfs_directory_ops F))
  as_directory F _ = undefined_behaviour

  unfoldable pub as_attr : Fvector → M os (Option (MangooAttrOperations os))
  unfolding dbfs_attr_ops
  as_attr null_vector = pure none
  as_attr dbfs_attr_vector = pure (some dbfs_attr_ops)
  as_attr _ = undefined_behaviour

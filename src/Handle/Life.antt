-- ===== src/Handle/Life.antt =====
-- The life of a handle: what is allocated for it, and what is freed.
use mangoo.Base.{ℕ, ◌+◌, ◌≡◌, some, arith, length}
use mangoo.Types.{Text, dentry, holds, Handle, dbfs_ddk_size}
use mangoo.System.{System, World, Memory, returns}
use mangoo.System.Laws.{HasMemory}
use mangoo.Handle.{blank, dbfs_createhandle}

-- A handle as dbfs_createhandle makes it.
abbrev pub fresh_handle : Text → Handle
fresh_handle path = record blank {
  locator = some path;
  attr_ddk = holds (dentry path);
  ddk_size = dbfs_ddk_size path;
}

-- One more handle with its key and its locator, and some more cursors.
abbrev pub plus_handle : Memory → ℕ → Memory
plus_handle m n = record {
  handles = m.handles + 1;
  keys = m.keys + 1;
  locators = m.locators + 1;
  cursors = m.cursors + n;
}

-- The world after a handle has been made, and after a cursor has been opened.
abbrev pub leaked : {S : Type 0} → World S → World S
leaked w = record w { mem = plus_handle w.mem 0 }

abbrev pub one_cursor : {S : Type 0} → World S → World S
one_cursor w = record w { mem = record w.mem { cursors = w.mem.cursors + 1 } }

module _ (os : System) where
  pub dbfs_createhandle_lem :
      (path : Text) (w : World os.State)
      → HasMemory os.platform
      → dbfs_createhandle os path w
        ≡ returns (some (fresh_handle path), record w { mem = plus_handle w.mem 0 })
  unfolding dbfs_createhandle dbfs_ddk_size
  dbfs_createhandle_lem path w memory = ground (
    arith,
    memory.malloc_succeeds 104,
    memory.malloc_succeeds (4 + length path + 1),
    memory.malloc_succeeds (length path + 1),
  )

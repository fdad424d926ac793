-- ===== src/Dbfs/Session.antt =====
-- The inode numbers over a mount, a sequence of calls of dbfs_create, and the next mount.
use mangoo.Base.{ℕ, ◌+◌, ◌^◌, ◌≤◌, ◌<◌, ◌≡◌, refl, ◌∙◌, List, [], ◌∷◌, arith, length}
use mangoo.Types.{Text, ok, success, fsinfo, dentry, FsinfoData, MangooTypes}
use mangoo.System.{System, M, World, returns, pure, ◌>>◌}
use mangoo.System.Laws.{IsReliable, IsStore, IsOpenable, HasMemory}
use mangoo.Dbfs.{dbfs_create, dbfs_initstore}
use mangoo.Dbfs.Create.{fsinfo_ne}
use mangoo.Dbfs.Mount.{mounted, next_range, dbfs_initstore_lem, get-mounted, get-mounted_self}
use mangoo.Dbfs.Inodes.{IsNumbered, IsNumbered-same, dbfs_create-IsNumbered}

-- The arguments of a call of dbfs_create.
abbrev pub Creation : Type 0
Creation = Text × ℕ × MangooTypes

module _ (os : System) where
  -- Calls of dbfs_create one after the other, whatever each returns.
  unfoldable pub create_all : List Creation → M os (Unit {0})
  create_all [] = pure tt
  create_all ((path, mode, mt) ∷ rest) = do dbfs_create os path mode mt; create_all rest

module _ (os : System) (store : IsStore os.berkeley) (reliable : IsReliable os.berkeley)
    (memory : HasMemory os.platform) where
  create_all-IsNumbered :
      (files : List Creation) (w : World os.State)
      → w.last_inode + length files < 2 ^ 64
      → IsNumbered os w.base w.last_inode
      → (w' : World os.State) × (create_all os files w ≡ returns (tt, w'))
        × IsNumbered os w'.base w'.last_inode
        × (w'.last_inode ≡ w.last_inode + length files)
        × (os.get w'.base fsinfo ≡ os.get w.base fsinfo)
  unfolding create_all
  create_all-IsNumbered [] w bound h = (w, refl, h, omega arith, refl)
  create_all-IsNumbered ((path, mode, mt) ∷ rest) w bound h =
      let (c, u, run, _, numbered, counter, kept) =
        dbfs_create-IsNumbered os store reliable memory path mode mt w (omega arith) h in
      let (v, runs, numbered', counter', kept') =
        create_all-IsNumbered rest u (omega arith) numbered in
      (v, rw run runs, numbered', omega arith, kept' ∙ kept)

  module _ (openable : IsOpenable os.berkeley) where
    mounted-IsNumbered :
        (w : World os.State) (dfd : FsinfoData) (n : ℕ)
        → n ≤ dfd.dfd_lastino
        → IsNumbered os w.base n
        → IsNumbered os (mounted os store reliable openable memory w dfd).base dfd.dfd_lastino
    mounted-IsNumbered w dfd n le h =
        IsNumbered-same os w.base (mounted os store reliable openable memory w dfd).base n
          dfd.dfd_lastino
          (λ p. get-mounted os store reliable openable memory w dfd (dentry p) (fsinfo_ne p)) le h

    -- A store whose files, other than the root, have distinct numbers below the stored counter is
    -- mounted, then dbfs_create is called up to 1000 times, and the store is mounted once more: on
    -- a machine that does not fail all of it returns, and the numbers are again distinct and below
    -- the counter of the second mount. The stored counter must be so small that it does not wrap.
    pub dbfs_initstore-IsNumbered :
        (rl : Text) (files : List Creation) (w : World os.State) (dfd : FsinfoData)
        → os.get w.base fsinfo ≡ ok dfd
        → IsNumbered os w.base dfd.dfd_lastino
        → length files ≤ 1000
        → dfd.dfd_lastino + 1000 < 2 ^ 64
        → (t u v : World os.State) × (dbfs_initstore os rl w ≡ returns (success, t))
          × (create_all os files t ≡ returns (tt, u))
          × (dbfs_initstore os rl u ≡ returns (success, v))
          × IsNumbered os v.base v.last_inode
    dbfs_initstore-IsNumbered rl files w dfd g h few bound =
        let t = mounted os store reliable openable memory w dfd in
        let (u, run, numbered, counter, kept) =
          create_all-IsNumbered files t (omega arith)
            (mounted-IsNumbered w dfd dfd.dfd_lastino (omega arith) h) in
        let range : os.get u.base fsinfo ≡ ok (next_range dfd) =
          kept ∙ get-mounted_self os store reliable openable memory w dfd in
        (
          t,
          u,
          mounted os store reliable openable memory u (next_range dfd),
          dbfs_initstore_lem os store reliable openable memory rl w dfd g,
          run,
          dbfs_initstore_lem os store reliable openable memory rl u (next_range dfd) range,
          mounted-IsNumbered u (next_range dfd) u.last_inode (omega arith) numbered,
        )

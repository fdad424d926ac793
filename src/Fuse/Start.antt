-- ===== src/Fuse/Start.antt =====
-- main of apps/fuse/mangoofuse.c: the store of the URL, and what is handed to fuse_main, which is a
-- parameter here with the handlers that it calls.
use mangoo.Base.{
  ℕ, ◌≡◌, refl, ap, ◌∙◌, ◌≢◌, false, Option, none, some, List, [], ◌∷◌, ◌++◌, arith, ◌==◌,
  if◌then◌else◌,
}
use mangoo.Types.{Text, FsinfoData, success, ok, fsinfo}
use mangoo.System.{
  and_then, Outcome, undefined, exits, running, System, M, World, pure, returns,
  undefined_behaviour, ◌>>=◌, ◌>>◌,
}
use mangoo.System.Laws.{IsStore, IsReliable, IsOpenable, HasMemory}
use mangoo.Compare.Order.{strcmp_eq}
use mangoo.Dir.{same_text}
use mangoo.Api.Mounting.{mangoo_initstore_lem, mangoo_closestore_lem}
use mangoo.Api.Store.{MangooStore, mangoo_initstore, mangoo_closestore, dbfs_scheme, dbfs_store}
use mangoo.Dbfs.Mount.{mounted}

abbrev pub colon : ℕ
colon = b':'

-- strstr(url, ":"), as the texts before the first colon and behind it.
unfoldable pub split_url : Text → Option (Text × Text)
split_url [] = none
split_url (c ∷ cs) =
    let rest = split_url cs in
    if c == colon
    then some ([], cs)
    else elim rest [ none ↦ none | some (scheme, rl) ↦ some (c ∷ scheme, rl) ]

module _ (os : System) where
  -- fuse_main(argc, argv, &mf_ops, NULL): the handlers work on `ms`.
  abbrev pub FuseMain : Type 0
  FuseMain = Option (MangooStore os) → List Text → M os ℕ

  -- What is done with the two parts of the URL.
  unfoldable pub serve : FuseMain → Text → Text → List Text → M os ℕ
  unfolding mangoo_initstore mangoo_closestore
  serve fuse_main scheme rl args = do
    (error, ms) ← mangoo_initstore os scheme rl
    elim error [
      | success ↦ elim ms [
        | none ↦ undefined_behaviour
        | some store ↦ (do
          status ← fuse_main (some store) args
          mangoo_closestore os store
          pure status)
      ]
      | e ↦ pure 1
    ]

  -- The test for the colon.
  unfoldable pub start : FuseMain → List Text → Option (Text × Text) → M os ℕ
  unfolding serve
  start fuse_main args none = pure 1
  start fuse_main args (some (scheme, rl)) = serve fuse_main scheme rl args

  -- argv[1] is read before the number of arguments is tested. The program's name takes the place of
  -- the URL in what is passed on.
  unfoldable pub main : FuseMain → List Text → M os ℕ
  unfolding start split_url
  main fuse_main [] = undefined_behaviour
  main fuse_main (progname ∷ []) = pure 1
  main fuse_main (progname ∷ url ∷ []) = pure 1
  main fuse_main (progname ∷ url ∷ mountpoint ∷ rest) =
      start fuse_main (progname ∷ mountpoint ∷ rest) (split_url url)

split_url-append :
    (scheme rl : Text)
    → split_url scheme ≡ none
    → split_url (scheme ++ (colon ∷ rl)) ≡ some (scheme, rl)
unfolding split_url
split_url-append [] rl h = refl
split_url-append (c ∷ scheme) rl h = ground (arith, split_url-append scheme rl)

module _ (os : System) (fuse_main : FuseMain os) where
  same_text_ne : (a b : Text) → a ≢ b → same_text a b ≡ false
  unfolding same_text
  same_text_ne a b n = ground (arith, strcmp_eq a b)

  main-split_url :
      (progname url mountpoint : Text) (rest : List Text) (u : Option (Text × Text))
      → split_url url ≡ u
      → main os fuse_main (progname ∷ url ∷ mountpoint ∷ rest)
        ≡ start os fuse_main (progname ∷ mountpoint ∷ rest) u
  unfolding main
  main-split_url progname url mountpoint rest u e =
      ap (start os fuse_main (progname ∷ mountpoint ∷ rest)) e

  start_unknown :
      (args : List Text) (scheme rl : Text) (w : World os.State)
      → scheme ≢ dbfs_scheme
      → start os fuse_main args (some (scheme, rl)) w ≡ returns (1, w)
  unfolding start serve mangoo_initstore
  start_unknown args scheme rl w n = rw (same_text_ne scheme dbfs_scheme n)

  -- The program ends with the status 1, does nothing, and calls fuse_main not at all: without a URL
  -- or a mount point, with any URL that has no colon, "dbfs" too, and with a URL whose text before
  -- the first colon is not "dbfs".
  pub main_refuses :
      (progname url mountpoint plain scheme rl : Text) (rest : List Text) (w : World os.State)
      → split_url plain ≡ none
      → split_url scheme ≡ none
      → scheme ≢ dbfs_scheme
      → (main os fuse_main (progname ∷ []) w ≡ returns (1, w))
        × (main os fuse_main (progname ∷ url ∷ []) w ≡ returns (1, w))
        × (main os fuse_main (progname ∷ plain ∷ mountpoint ∷ rest) w ≡ returns (1, w))
        × (main os fuse_main (progname ∷ (scheme ++ (colon ∷ rl)) ∷ mountpoint ∷ rest) w
            ≡ returns (1, w))
  unfolding main start
  main_refuses progname url mountpoint plain scheme rl rest w no_colon first n = (
    refl,
    refl,
    ap (λ m. m w) (main-split_url progname plain mountpoint rest none no_colon),
    ap (λ m. m w)
          (main-split_url progname (scheme ++ (colon ∷ rl)) mountpoint rest (some (scheme, rl))
            (split_url-append scheme rl first))
        ∙ start_unknown (progname ∷ mountpoint ∷ rest) scheme rl w n,
  )

  module _ (store : IsStore os.berkeley) (reliable : IsReliable os.berkeley)
      (openable : IsOpenable os.berkeley) (memory : HasMemory os.platform) where
    close_after :
        (r : Outcome (ℕ × World os.State))
        → and_then r (λ status. mangoo_closestore os (dbfs_store os) >> pure status) ≡ r
    close_after (returns (status, v)) = rw (mangoo_closestore_lem os openable v)
    close_after undefined = refl
    close_after (exits status) = refl
    close_after running = refl

    serve_lem :
        (rl : Text) (args : List Text) (w : World os.State) (dfd : FsinfoData)
        → os.get w.base fsinfo ≡ ok dfd
        → serve os fuse_main dbfs_scheme rl args w
          ≡ fuse_main (some (dbfs_store os)) args (mounted os store reliable openable memory w dfd)
    unfolding serve
    serve_lem rl args w dfd g =
        rw (mangoo_initstore_lem os store reliable openable memory rl w dfd g) (
          close_after (
            fuse_main (some (dbfs_store os)) args
              (mounted os store reliable openable memory w dfd)))

    -- With the URL dbfs:file, whatever other colons the file's name has, the program mounts the
    -- store of the file and then does what fuse_main does in the mounted store with the arguments
    -- behind the URL: it ends with the same status in the same world, or does not return either.
    -- The database file holds a store, and the machine does not fail.
    pub main_lem :
        (progname rl mountpoint : Text) (rest : List Text) (w : World os.State) (dfd : FsinfoData)
        → os.get w.base fsinfo ≡ ok dfd
        → main os fuse_main (progname ∷ (dbfs_scheme ++ (colon ∷ rl)) ∷ mountpoint ∷ rest) w
          ≡ fuse_main
              (some (dbfs_store os))
              (progname ∷ mountpoint ∷ rest)
              (mounted os store reliable openable memory w dfd)
    unfolding start
    main_lem progname rl mountpoint rest w dfd g =
        ap (λ m. m w)
          (main-split_url progname (dbfs_scheme ++ (colon ∷ rl)) mountpoint rest
            (some (dbfs_scheme, rl)) (split_url-append dbfs_scheme rl (unfold split_url in refl)))
        ∙ serve_lem rl (progname ∷ mountpoint ∷ rest) w dfd g

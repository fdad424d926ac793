-- ===== src/Dir/Read.antt =====
-- dbfs_readdir of stores/dbfs/dir.c. The filler is a callback over a state of its own; the fuel
-- counts the rounds of the loop.
use mangoo.Base.{
  ℕ, zero, suc, Bool, true, false, ◌&&◌, not, none, some, [], ◌∷◌, ltb, if◌then◌else◌, drop,
}
use mangoo.Types.{
  Text, Entry, ok, err, not_found, Code, success, eio, dentry, key_size, Handle, MangooTypes, holds,
  dangling,
}
use mangoo.System.{System, M, pure, undefined_behaviour, still_running, ◌>>=◌}
use mangoo.Attr.{buffer_path}
use mangoo.Dir.{is_prefix, has_slash, entry_name, is_root, fetched, cursor_get_next}

-- filler(finfo, name, type)
abbrev pub Filler : Type 0 → Type 0
Filler F = F → Text → MangooTypes → Code × F

-- What a round decides about a path: leave the loop, go on, or hand a name to the filler.
pub data Visit : Type 0 where
  leave skip : Visit
  emit : Text → Visit

-- A name that is empty, or that has a slash in it, is passed over.
unfoldable pub visit_name : Text → Visit
unfolding has_slash
visit_name [] = skip
visit_name (c ∷ cs) = if has_slash (c ∷ cs) then skip else emit (c ∷ cs)

unfoldable pub visit : Text → Bool → Text → Visit
unfolding has_slash is_prefix entry_name visit_name
visit locator true entry =
    if has_slash (drop 1 entry) then skip else visit_name (entry_name locator entry)
visit locator false entry =
    if is_prefix locator entry then visit_name (entry_name locator entry) else leave

unfoldable pub visit_entry : Text → Bool → Entry → Visit
unfolding visit
visit_entry locator isroot (dentry path, ddd) = visit locator isroot path
visit_entry locator isroot (k, value) = leave

-- The key DBT: where its buffer is still the handle's, and how many bytes it has.
pub record Search : Type 0 where
  pub dh : Handle
  pub aliased : Bool
  pub room : ℕ
  pub size : ℕ

-- The int, the handle and the callback's state.
abbrev pub Listing : Type 0 → Type 0
Listing F = Code × Handle × F

module _ (os : System) where
  -- A DB_NEXT that succeeds: the cursor and the attributes move, and the buffer is filled, after a
  -- realloc if the key is longer than it.
  unfoldable pub take_entry : Search → Entry → Search
  unfolding fetched key_size
  take_entry s entry =
      let size = key_size (entry.0) in
      let stays = if ltb s.room size then not (os.realloc_moves s.room size) else true in
      record {
        dh = record s.dh {
          dbc = some (some (entry.0));
          attr_ddk = if s.aliased && stays then holds (entry.0) else dangling;
          attr_ddd = fetched s.dh.attr_ddd entry;
        };
        aliased = s.aliased && stays;
        room = if ltb s.room size then size else s.room;
        size = size;
      }

  -- dh->ddk_size = key.size
  unfoldable pub leave_search : {F : Type 0} → Search → Code → F → Listing F
  leave_search s error finfo = (error, record s.dh { ddk_size = s.size }, finfo)

  module _ {F : Type 0} (filler : Filler F) where
    unfoldable pub readdir_loop : ℕ → Text → Bool → Search → F → M os (Listing F)
    unfolding cursor_get_next visit_entry take_entry leave_search
    readdir_loop zero locator isroot s finfo = still_running
    readdir_loop (suc fuel) locator isroot s finfo = do
      reply ← cursor_get_next os s.dh
      elim reply [
        | err e ↦ pure (leave_search s (elim e [ not_found ↦ success | _ ↦ eio ]) finfo)
        | ok entry ↦
            let s' = take_entry s entry in
            elim (visit_entry locator isroot entry) [
              | leave ↦ pure (leave_search s' success finfo)
              | skip ↦ readdir_loop fuel locator isroot s' finfo
              | emit name ↦
                  let (error, finfo') = filler finfo name (s'.dh.attr_ddd.ddd_type) in
                  elim error [
                    | success ↦ readdir_loop fuel locator isroot s' finfo'
                    | e ↦ pure (leave_search s' e finfo')
                  ]
            ]
      ]

    unfoldable pub dbfs_readdir : ℕ → Handle → F → M os (Listing F)
    unfolding buffer_path is_root readdir_loop
    dbfs_readdir fuel dh finfo = do
      path ← buffer_path os dh.attr_ddk
      elim (dh.locator) [
        | none ↦ undefined_behaviour
        | some locator ↦
            readdir_loop fuel locator (is_root path)
              (record { dh = dh; aliased = true; room = dh.ddk_size; size = dh.ddk_size }) finfo
      ]

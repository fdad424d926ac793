-- ===== src/Tests/Systems.antt =====
-- The database in memory as a system, with its laws, and a few states of it.
use mathlib.Core.Path.{subst}
use mangoo.Base.{
  ℕ, ◌≡◌, refl, sym, ◌∙◌, ◌≢◌, inl, inr, true, false, List, ◌∷◌, replicate, length-replicate,
}
use mangoo.Types.{Key, Value, Entry, ok, err, DbError, not_found, key_exist}
use mangoo.System.{BerkeleyDb, Platform, System, PutFlag, overwrite, no_overwrite}
use mangoo.System.Laws.{HasMemory, IsStore, IsReliable, IsOrdered, IsOpenable}
use mangoo.Compare.Order.{key_cases}
use mangoo.Tests.Memory.{
  lookup, put, del, without, lookup_cases, lookup-cons_self, lookup-cons_ne, lookup-without_self,
  lookup-without_ne,
}
use mangoo.Tests.Memory.Cursor.{next, next_stored, next_nearest, next_end, next_answers}

abbrev pub in_memory : BerkeleyDb
in_memory = record {
  State = List Entry;
  db_create = ok tt;
  set_bt_compare = λ s. ok tt;
  open_db = λ name s. ok tt;
  close_db = λ s. ok tt;
  env_create = ok tt;
  env_open_home = ok tt;
  get = lookup;
  put = put;
  del = del;
  cursor = λ s. ok tt;
  cursor_set = lookup;
  cursor_next = next;
}

-- Fresh memory holds 0xaa; realloc never moves a block.
abbrev pub machine : Platform
machine = record {
  malloc = λ size. true;
  realloc_moves = λ old new. false;
  fresh_block = λ ino offset. replicate 4096 0xaa;
  time = 1700000000;
  geteuid = 1000;
  getegid = 1000;
}

abbrev pub desk : System
desk = record { berkeley = in_memory; platform = machine }

put_no_overwrite :
    (s : List Entry) (k : Key) (v : Value k)
    → lookup s k ≡ err not_found
    → put s k v no_overwrite ≡ (ok tt, (k, v) ∷ s)
unfolding put
put_no_overwrite s k v h = rw (h, put)

put_refused :
    (s : List Entry) (k : Key) (u v : Value k)
    → lookup s k ≡ ok u
    → put s k v no_overwrite ≡ (err key_exist, s)
unfolding put
put_refused s k u v h = rw (h, put)

put_self :
    (s : List Entry) (k : Key) (v : Value k) (f : PutFlag)
    → (put s k v f).0 ≡ ok tt
    → lookup ((put s k v f).1) k ≡ ok v
unfolding put
put_self s k v overwrite h = lookup-cons_self k v s
put_self s k v no_overwrite h = elim (lookup_cases s k) [
  | inl (u, e) ↦ absurd (cc)
  | inr e ↦ rw (put_no_overwrite s k v e) (lookup-cons_self k v s)
]

put_ne :
    (s : List Entry) (k j : Key) (v : Value k) (f : PutFlag)
    → k ≢ j
    → lookup ((put s k v f).1) j ≡ lookup s j
unfolding put
put_ne s k j v overwrite n = lookup-cons_ne k j v s n
put_ne s k j v no_overwrite n = elim (lookup_cases s k) [
  | inl (u, e) ↦ rw (put_refused s k u v e)
  | inr e ↦ rw (put_no_overwrite s k v e) (lookup-cons_ne k j v s n)
]

put_failed :
    (s : List Entry) (k j : Key) (v : Value k) (f : PutFlag) (x : DbError)
    → (put s k v f).0 ≡ err x
    → lookup ((put s k v f).1) j ≡ lookup s j
unfolding put
put_failed s k j v overwrite x h = cc
put_failed s k j v no_overwrite x h = elim (lookup_cases s k) [
  | inl (u, e) ↦ rw (put_refused s k u v e)
  | inr e ↦ absurd (cc)
]

del_failed :
    (s : List Entry) (k j : Key) (e : DbError)
    → (del s k).0 ≡ err e
    → lookup ((del s k).1) j ≡ lookup s j
unfolding del
del_failed s k j e h = elim (lookup_cases s k) [
  | inl (u, f) ↦ absurd (cc (rw (f, del) at h))
  | inr f ↦ elim (key_cases k j) [
    | inl same ↦
        subst (λ i. lookup (without k s) i ≡ lookup s i) same (lookup-without_self k s ∙ sym f)
    | inr other ↦ lookup-without_ne k j s other
  ]
]

pub in_memory-IsStore : IsStore in_memory
unfolding put del
in_memory-IsStore = record {
  get-put_self = λ s k v f h. put_self s k v f h;
  get-put_ne = λ s k j v f n. put_ne s k j v f n;
  get-put_failed = λ s k j v f e h. put_failed s k j v f e h;
  put_exists = λ s k u v h. rw (put_refused s k u v h);
  get-del_self = λ s k h. lookup-without_self k s;
  get-del_failed = λ s k j e h. del_failed s k j e h;
  get-del_ne = λ s k j n. lookup-without_ne k j s n;
}

del_found : (s : List Entry) (k : Key) (v : Value k) → lookup s k ≡ ok v → (del s k).0 ≡ ok tt
unfolding del
del_found s k v h = rw (h, del)

del_missing : (s : List Entry) (k : Key) → lookup s k ≡ err not_found → (del s k).0 ≡ err not_found
unfolding del
del_missing s k h = rw (h, del)

pub in_memory-IsReliable : IsReliable in_memory
unfolding put
in_memory-IsReliable = record {
  get_answers = lookup_cases;
  put_overwrite = λ s k v. refl;
  put_absent = λ s k v h. rw (put_no_overwrite s k v h);
  del_present = λ s k v h. del_found s k v h;
  del_absent = λ s k h. del_missing s k h;
}

pub in_memory-IsOpenable : IsOpenable in_memory
in_memory-IsOpenable = record {
  db_created = refl;
  bt_compare_set = λ s. refl;
  db_opened = λ name s. refl;
  db_closed = λ s. refl;
}

pub in_memory-IsOrdered : IsOrdered in_memory
in_memory-IsOrdered = record {
  cursor_opens = λ s. refl;
  cursor_set_get = λ s k. refl;
  next_stored = next_stored;
  next_nearest = next_nearest;
  next_end = next_end;
  next_answers = next_answers;
}

pub machine-HasMemory : HasMemory machine
machine-HasMemory = record {
  malloc_succeeds = λ size. refl;
  length-fresh_block = λ ino offset. length-replicate {A = ℕ} 4096 0xaa;
}

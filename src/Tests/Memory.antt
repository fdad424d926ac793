-- ===== src/Tests/Memory.antt =====
-- A database in memory that meets the laws: a list of records, the latest first.
pub mod Cursor
use mathlib.Core.Path.{subst}
use mangoo.Base.{
  Ordering, ◌≡◌, refl, sym, ◌∙◌, ◌≢◌, ◌⊎◌, inl, inr, Bool, true, false, ◌&&◌, Option, none, some,
  List, [], ◌∷◌, arith, ◌==◌, if◌then◌else◌,
}
use mangoo.Types.{Key, fsinfo, dentry, block, Value, Entry, Reply, ok, err, not_found, key_exist}
use mangoo.System.{PutFlag, overwrite, no_overwrite}
use mangoo.Compare.{strcmp, dbfs_bt_compare}
use mangoo.Compare.Order.{key_cases, strcmp_refl, strcmp_eq, dbfs_bt_compare_eq_iff}

abbrev is_eq : Ordering → Bool
is_eq Ordering.eq = true
is_eq _ = false

-- The value under j, seen as the value under k if these are the same key.
unfoldable pub pick : (j k : Key) → Value j → Option (Value k)
pick fsinfo fsinfo v = some v
pick (dentry p) (dentry q) v = if is_eq (strcmp p q) then some v else none
pick (block i o) (block j p) v = if i == j && o == p then some v else none
pick _ _ v = none

unfoldable pub lookup : List Entry → (k : Key) → Reply (Value k)
unfolding pick
lookup [] k = err not_found
lookup ((j, v) ∷ l) k = elim (pick j k v) [ some u ↦ ok u | none ↦ lookup l k ]

unfoldable pub without : Key → List Entry → List Entry
unfolding dbfs_bt_compare
without k [] = []
without k ((j, v) ∷ l) = elim (dbfs_bt_compare j k) [
  | Ordering.eq ↦ without k l
  | _ ↦ (j, v) ∷ without k l
]

pub pick_self : (k : Key) (v : Value k) → pick k k v ≡ some v
unfolding pick
pick_self fsinfo v = refl
pick_self (dentry p) v = rw (strcmp_refl p)
pick_self (block i o) v = ground arith

pub pick_ne : (j k : Key) (v : Value j) → j ≢ k → pick j k v ≡ none
unfolding pick
pick_ne fsinfo fsinfo v h = absurd (h refl)
pick_ne (dentry p) (dentry q) v h = ground (arith, strcmp_eq p q)
pick_ne (block i o) (block j p) v h = ground arith
pick_ne _ _ v h = refl

pub lookup-cons_self : (k : Key) (v : Value k) (l : List Entry) → lookup ((k, v) ∷ l) k ≡ ok v
unfolding lookup
lookup-cons_self k v l = rw (pick_self k v, lookup)

pub lookup-cons_ne :
    (j k : Key) (v : Value j) (l : List Entry) → j ≢ k → lookup ((j, v) ∷ l) k ≡ lookup l k
unfolding lookup
lookup-cons_ne j k v l h = rw (pick_ne j k v h, lookup)

pub lookup-without_self : (k : Key) (l : List Entry) → lookup (without k l) k ≡ err not_found
unfolding lookup without
lookup-without_self k [] = refl
lookup-without_self k ((j, v) ∷ l) = elim (key_cases j k) [
  | inl e ↦ rw ((dbfs_bt_compare_eq_iff j k).1 e, without) (lookup-without_self k l)
  | inr n ↦ ground (
    arith,
    lookup-without_self k l,
    (dbfs_bt_compare_eq_iff j k).0,
    lookup-cons_ne j k v (without k l) n,
  )
]

pub lookup-without_ne : (k j : Key) (l : List Entry) → k ≢ j → lookup (without k l) j ≡ lookup l j
unfolding lookup without
lookup-without_ne k j [] h = refl
lookup-without_ne k j ((i, v) ∷ l) h = elim (key_cases i k) [
  | inl e ↦
      rw ((dbfs_bt_compare_eq_iff i k).1 e, without)
        (lookup-without_ne k j l h ∙ sym (lookup-cons_ne i j v l (λ p. h (sym e ∙ p))))
  | inr n ↦ ground (arith, lookup-without_ne k j l h, (dbfs_bt_compare_eq_iff i k).0)
]

unfoldable pub put : List Entry → (k : Key) → Value k → PutFlag → Reply (Unit {0}) × List Entry
unfolding lookup
put s k v overwrite = (ok tt, (k, v) ∷ s)
put s k v no_overwrite = elim (lookup s k) [
  | ok _ ↦ (err key_exist, s)
  | err _ ↦ (ok tt, (k, v) ∷ s)
]

unfoldable pub del : List Entry → Key → Reply (Unit {0}) × List Entry
unfolding lookup without
del s k = (elim (lookup s k) [ ok _ ↦ ok tt | err e ↦ err e ], without k s)

pub lookup_cases :
    (s : List Entry) (k : Key)
    → ((v : Value k) × (lookup s k ≡ ok v)) ⊎ (lookup s k ≡ err not_found)
unfolding lookup
lookup_cases [] k = inr refl
lookup_cases ((j, v) ∷ l) k = elim (key_cases j k) [
  | inl e ↦
      inl
        (subst (λ t. (u : Value t) × (lookup ((j, v) ∷ l) t ≡ ok u)) e (v, lookup-cons_self j v l))
  | inr n ↦ rw (lookup-cons_ne j k v l n) (lookup_cases l k)
]

-- ===== src/Compare/Order.antt =====
-- dbfs_bt_compare is a strict total order in which only equal keys compare as equal.
use mangoo.Base.{Ordering, ◌≡◌, refl, ap, ◌≢◌, ◌↔◌, ◌⊎◌, inl, inr, [], ◌∷◌, arith}
use mangoo.Types.{Text, Key, fsinfo, dentry, block}
use mangoo.Compare.{strcmp, dbfs_bt_compare}

-- The sign of a comparison with the operands exchanged.
abbrev pub opposite : Ordering → Ordering
opposite Ordering.lt = Ordering.gt
opposite Ordering.eq = Ordering.eq
opposite Ordering.gt = Ordering.lt

pub strcmp_refl : (a : Text) → strcmp a a ≡ Ordering.eq
unfolding strcmp
strcmp_refl [] = refl
strcmp_refl (x ∷ xs) = ground (arith, strcmp_refl xs)

pub strcmp_eq : (a b : Text) → strcmp a b ≡ Ordering.eq → a ≡ b
unfolding strcmp
strcmp_eq [] [] h = refl
strcmp_eq [] (y ∷ ys) h = cc
strcmp_eq (x ∷ xs) [] h = cc
strcmp_eq (x ∷ xs) (y ∷ ys) h = ground (arith, strcmp_eq xs ys)

pub strcmp-opposite : (a b : Text) → strcmp b a ≡ opposite (strcmp a b)
unfolding strcmp
strcmp-opposite [] [] = refl
strcmp-opposite [] (y ∷ ys) = refl
strcmp-opposite (x ∷ xs) [] = refl
strcmp-opposite (x ∷ xs) (y ∷ ys) = ground (arith, strcmp-opposite xs ys)

pub strcmp_trans :
    (a b c : Text) → strcmp a b ≡ Ordering.lt → strcmp b c ≡ Ordering.lt → strcmp a c ≡ Ordering.lt
unfolding strcmp
strcmp_trans [] [] c h k = cc
strcmp_trans [] (y ∷ ys) [] h k = cc
strcmp_trans [] (y ∷ ys) (z ∷ zs) h k = refl
strcmp_trans (x ∷ xs) [] c h k = cc
strcmp_trans (x ∷ xs) (y ∷ ys) [] h k = cc
strcmp_trans (x ∷ xs) (y ∷ ys) (z ∷ zs) h k = ground (arith, strcmp_trans xs ys zs)

-- Two keys compare as equal exactly if they are the same key.
pub dbfs_bt_compare_eq_iff : (j k : Key) → (dbfs_bt_compare j k ≡ Ordering.eq) ↔ (j ≡ k)
unfolding dbfs_bt_compare
dbfs_bt_compare_eq_iff fsinfo fsinfo = (λ _. refl, λ _. refl)
dbfs_bt_compare_eq_iff (dentry p) (dentry q) =
    (λ h. ap dentry (strcmp_eq p q h), λ e. cc (e, strcmp_refl p))
dbfs_bt_compare_eq_iff (block i o) (block j p) = ground arith
dbfs_bt_compare_eq_iff _ _ = ground arith

-- Exchanging the keys turns the sign round.
pub dbfs_bt_compare-opposite : (j k : Key) → dbfs_bt_compare k j ≡ opposite (dbfs_bt_compare j k)
unfolding dbfs_bt_compare
dbfs_bt_compare-opposite fsinfo fsinfo = refl
dbfs_bt_compare-opposite (dentry p) (dentry q) = strcmp-opposite p q
dbfs_bt_compare-opposite (block i o) (block j p) = ground arith
dbfs_bt_compare-opposite _ _ = ground arith

-- A comparison of two keys is 0 exactly if they are the same key, and exchanging them turns its sign
-- round.
pub dbfs_bt_compare_total :
    (j k : Key)
    → ((dbfs_bt_compare j k ≡ Ordering.eq) ↔ (j ≡ k))
      × (dbfs_bt_compare k j ≡ opposite (dbfs_bt_compare j k))
dbfs_bt_compare_total j k = (dbfs_bt_compare_eq_iff j k, dbfs_bt_compare-opposite j k)

-- A key before a second one that is before a third is before the third.
pub dbfs_bt_compare_trans :
    (i j k : Key)
    → dbfs_bt_compare i j ≡ Ordering.lt
    → dbfs_bt_compare j k ≡ Ordering.lt
    → dbfs_bt_compare i k ≡ Ordering.lt
unfolding dbfs_bt_compare
dbfs_bt_compare_trans (dentry p) (dentry q) (dentry r) h k = strcmp_trans p q r h k
dbfs_bt_compare_trans (block i o) (block j p) (block k q) g h = ground arith
dbfs_bt_compare_trans _ _ _ g h = ground arith

-- Two texts are equal or not.
pub text_cases : (a b : Text) → (a ≡ b) ⊎ (a ≢ b)
text_cases a b =
    elim (strcmp a b) as (λ o. strcmp a b ≡ o → (a ≡ b) ⊎ (a ≢ b)) [
      | Ordering.eq ↦ λ e. inl (strcmp_eq a b e)
      | Ordering.lt ↦ λ e. inr (λ p. cc (e, p, strcmp_refl a))
      | Ordering.gt ↦ λ e. inr (λ p. cc (e, p, strcmp_refl a))
    ]
      refl

-- Two keys are equal or not.
pub key_cases : (j k : Key) → (j ≡ k) ⊎ (j ≢ k)
key_cases j k =
    elim (dbfs_bt_compare j k) as (λ o. dbfs_bt_compare j k ≡ o → (j ≡ k) ⊎ (j ≢ k)) [
      | Ordering.eq ↦ λ e. inl ((dbfs_bt_compare_eq_iff j k).0 e)
      | Ordering.lt ↦ λ e. inr (λ p. cc ((dbfs_bt_compare_eq_iff j k).1 p))
      | Ordering.gt ↦ λ e. inr (λ p. cc ((dbfs_bt_compare_eq_iff j k).1 p))
    ]
      refl

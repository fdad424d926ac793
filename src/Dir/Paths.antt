-- ===== src/Dir/Paths.antt =====
-- Paths, prefixes and the order: what the tests of dir.c say about byte strings.
use mangoo.Base.{ℕ, Ordering, ◌≡◌, refl, ◌≢◌, true, false, [], ◌∷◌, ◌++◌, arith, length, drop}
use mangoo.Types.{Text, slash}
use mangoo.Compare.{strcmp}
use mangoo.Compare.Order.{strcmp_refl, strcmp_eq}
use mangoo.Dir.{same_text, is_root, is_prefix}

pub same_text_refl : (a : Text) → same_text a a ≡ true
unfolding same_text
same_text_refl a = rw (strcmp_refl a, same_text)

pub is_root-ne : (path : Text) → path ≢ slash ∷ [] → is_root path ≡ false
unfolding is_root same_text
is_root-ne path h = ground (arith, strcmp_eq path (slash ∷ []))

pub is_prefix-append : (p xs : Text) → is_prefix p (p ++ xs) ≡ true
unfolding is_prefix
is_prefix-append [] xs = refl
is_prefix-append (c ∷ p) xs = ground (arith, is_prefix-append p xs)

-- A prefix is followed by the rest.
pub is_prefix-drop : (p text : Text) → is_prefix p text ≡ true → text ≡ p ++ drop (length p) text
unfolding is_prefix
is_prefix-drop [] text h = refl
is_prefix-drop (c ∷ p) [] h = cc
is_prefix-drop (c ∷ p) (d ∷ text) h = ground (arith, is_prefix-drop p text)

pub drop-append : (p xs : Text) → drop (length p) (p ++ xs) ≡ xs
drop-append [] xs = refl
drop-append (c ∷ p) xs = drop-append p xs

-- What stands between a path and a longer one in the order begins with the path.
pub strcmp-between :
    (p xs q : Text)
    → strcmp p q ≡ Ordering.lt
    → strcmp q (p ++ xs) ≢ Ordering.gt
    → is_prefix p q ≡ true
unfolding strcmp is_prefix
strcmp-between [] xs q h k = refl
strcmp-between (c ∷ p) xs [] h k = cc
strcmp-between (c ∷ p) xs (d ∷ q) h k = ground (arith, strcmp-between p xs q)

pub strcmp-longer : (p : Text) (x : ℕ) (xs : Text) → strcmp p (p ++ x ∷ xs) ≡ Ordering.lt
unfolding strcmp
strcmp-longer [] x xs = refl
strcmp-longer (c ∷ p) x xs = ground (arith, strcmp-longer p x xs)

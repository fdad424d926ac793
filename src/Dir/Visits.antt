-- ===== src/Dir/Visits.antt =====
-- What dbfs_readdir decides about a path of which the shape is known.
use mangoo.Base.{
  ℕ, ◌≡◌, refl, ◌≢◌, ◌⊎◌, inl, inr, true, false, [], ◌∷◌, ◌++◌, arith, ◌==◌, Bool-cases, drop,
}
use mangoo.Types.{slash, Text}
use mangoo.Dir.{skip_slashes, is_root, is_prefix, has_slash, entry_name}
use mangoo.Dir.Paths.{same_text_refl, is_prefix-append, is_root-ne}
use mangoo.Dir.Read.{emit, leave, visit, visit_name}
use mangoo.Dir.Children.{visit_name_emit, visit_name_emitted, visit_name-ne-leave}

-- A longer path than the locator, with a name behind the slashes.
pub visit_child :
    (locator : Text) (rest name : Text)
    → entry_name locator (locator ++ rest) ≡ name
    → name ≢ []
    → has_slash name ≡ false
    → visit locator false (locator ++ rest) ≡ emit name
unfolding visit
visit_child locator rest name e n s =
    rw (is_prefix-append locator rest) (rw e (visit_name_emit name n s))

pub visit-ne-leave : (locator q : Text) → is_prefix locator q ≡ true → visit locator false q ≢ leave
unfolding visit
visit-ne-leave locator q p e = visit_name-ne-leave (entry_name locator q) (rw p at e)

-- What a name that is not at the root's is emitted for.
pub visit_emitted :
    (locator q name : Text)
    → visit locator false q ≡ emit name
    → (is_prefix locator q ≡ true)
      × (entry_name locator q ≡ name)
      × (name ≢ [])
      × (has_slash name ≡ false)
unfolding visit
visit_emitted locator q name v = elim (Bool-cases (is_prefix locator q)) [
  | inl p ↦
      let (e, n, h) = visit_name_emitted (entry_name locator q) name (rw p at v) in (p, e, n, h)
  | inr p ↦ absurd (cc (rw p at v))
]

has_slash_head : (x : ℕ) (xs : Text) → has_slash (x ∷ xs) ≡ false → (x == slash) ≡ false
unfolding has_slash
has_slash_head x xs h = ground arith

pub visit_at_root :
    (x : ℕ) (xs : Text)
    → has_slash (x ∷ xs) ≡ false
    → visit (slash ∷ []) true (slash ∷ x ∷ xs) ≡ emit (x ∷ xs)
unfolding visit visit_name entry_name skip_slashes
visit_at_root x xs h = rw h (ground (arith, has_slash_head x xs h))

pub visit_root-ne-leave : (locator q : Text) → visit locator true q ≢ leave
unfolding visit
visit_root-ne-leave locator q e = elim (Bool-cases (has_slash (drop 1 q))) [
  | inl h ↦ absurd (cc (rw h at e))
  | inr h ↦ visit_name-ne-leave (entry_name locator q) (rw h at e)
]

pub is_root_refl : is_root (slash ∷ []) ≡ true
unfolding is_root
is_root_refl = same_text_refl (slash ∷ [])

is_prefix-root : (p : Text) → is_prefix p (slash ∷ []) ≡ true → (p ≡ []) ⊎ (p ≡ slash ∷ [])
unfolding is_prefix
is_prefix-root [] h = inl refl
is_prefix-root (x ∷ []) h = ground arith
is_prefix-root (x ∷ y ∷ p) h = ground arith

-- A path below another directory than the root is not the root.
pub is_root-emitted :
    (locator q name : Text)
    → locator ≢ []
    → locator ≢ slash ∷ []
    → visit locator false q ≡ emit name
    → is_root q ≡ false
is_root-emitted locator q name n m v = is_root-ne q (λ e.
    elim (is_prefix-root locator (rw e at ((visit_emitted locator q name v).0))) [
      | inl empty ↦ n empty
      | inr same ↦ m same
    ])

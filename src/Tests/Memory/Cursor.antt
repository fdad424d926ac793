-- ===== src/Tests/Memory/Cursor.antt =====
-- Cursors of the database in memory: DB_NEXT takes the least key behind the position.
use mathlib.Core.Path.{subst}
use mangoo.Base.{
  Ordering, ◌≡◌, refl, sym, ap, ◌∙◌, ◌≢◌, ◌⊎◌, inl, inr, Bool, true, false, Option, none, some,
  List, [], ◌∷◌, arith, if◌then◌else◌, Bool-cases, Option-cases,
}
use mangoo.Types.{Key, Value, Entry, Reply, ok, err, not_found}
use mangoo.Compare.{dbfs_bt_compare}
use mangoo.Compare.Order.{
  dbfs_bt_compare_eq_iff, dbfs_bt_compare-opposite, dbfs_bt_compare_trans, key_cases,
}
use mangoo.Tests.Memory.{lookup, lookup-cons_self, lookup-cons_ne}

abbrev pub before : Key → Key → Bool
before j k = elim (dbfs_bt_compare j k) [ Ordering.lt ↦ true | _ ↦ false ]

abbrev pub behind : Option Key → Key → Bool
behind none j = true
behind (some k) j = before k j

lesser : Key → Option Key → Key
lesser j none = j
lesser j (some b) = if before j b then j else b

least_behind : Option Key → List Entry → Option Key
unfolding lesser
least_behind pos [] = none
least_behind pos ((j, v) ∷ l) =
    if behind pos j then some (lesser j (least_behind pos l)) else least_behind pos l

abbrev fetch : List Entry → Option Key → Reply Entry
fetch s none = err not_found
fetch s (some j) = elim (lookup s j) [ ok v ↦ ok (j, v) | err e ↦ err e ]

unfoldable pub next : List Entry → Option Key → Reply Entry
unfolding least_behind lookup
next s pos = fetch s (least_behind pos s)

before_total : (j b : Key) → before j b ≡ false → (b ≡ j) ⊎ (before b j ≡ true)
before_total j b h = ground (arith, (dbfs_bt_compare_eq_iff b j).0, dbfs_bt_compare-opposite j b)

before_trans : (i j k : Key) → before i j ≡ true → before j k ≡ true → before i k ≡ true
before_trans i j k g h = ground (arith, dbfs_bt_compare_trans i j k)

abbrev Stored : List Entry → Key → Type 0
Stored s j = (v : Value j) × (lookup s j ≡ ok v)

Stored-head : (i j : Key) (v : Value i) (l : List Entry) → i ≡ j → Stored ((i, v) ∷ l) j
Stored-head i j v l e = subst (Stored ((i, v) ∷ l)) e (v, lookup-cons_self i v l)

Stored-tail : (i j : Key) (v : Value i) (l : List Entry) → Stored l j → Stored ((i, v) ∷ l) j
Stored-tail i j v l (u, h) = elim (key_cases i j) [
  | inl e ↦ Stored-head i j v l e
  | inr n ↦ (u, lookup-cons_ne i j v l n ∙ h)
]

lesser_cases :
    (j : Key) (o : Option Key)
    → (lesser j o ≡ j) ⊎ ((b : Key) × (o ≡ some b) × (lesser j o ≡ b) × (before j b ≡ false))
unfolding lesser
lesser_cases j none = inl refl
lesser_cases j (some b) = elim (Bool-cases (before j b)) [
  | inl e ↦ inl (rw e)
  | inr e ↦ inr (b, refl, rw e, e)
]

-- The least key is behind the position and is a key of the list.
least_behind-Stored :
    (pos : Option Key) (s : List Entry) (j : Key)
    → least_behind pos s ≡ some j
    → (behind pos j ≡ true) × Stored s j
unfolding least_behind
least_behind-Stored pos [] j h = cc
least_behind-Stored pos ((i, v) ∷ l) j h = elim (Bool-cases (behind pos i)) [
  | inr e ↦
      let (b, st) = least_behind-Stored pos l j (rw (e, least_behind) at h) in
      (b, Stored-tail i j v l st)
  | inl e ↦
      let h' : some (lesser i (least_behind pos l)) ≡ some j = rw (e, least_behind) at h in
      elim (lesser_cases i (least_behind pos l)) [
        | inl m ↦
            let q : i ≡ j = cc (m, h') in
            (subst (λ k. behind pos k ≡ true) q e, Stored-head i j v l q)
        | inr (b, o, m, _) ↦
            let q : b ≡ j = cc (m, h') in
            let (f, st) = least_behind-Stored pos l j (o ∙ ap some q) in (f, Stored-tail i j v l st)
      ]
]

-- A record behind the position is the least one or comes after it.
abbrev Nearest : Option Key → List Entry → Key → Type 0
Nearest pos s k = (j : Key) × (least_behind pos s ≡ some j) × ((k ≡ j) ⊎ (before j k ≡ true))

module _ (pos : Option Key) (k : Key) (here : behind pos k ≡ true) where
  -- Adding a record to a list that has its nearest one.
  Nearest-add :
      (i : Key) (v : Value i) (l : List Entry) → Nearest pos l k → Nearest pos ((i, v) ∷ l) k
  unfolding least_behind lesser
  Nearest-add i v l (j, e, c) = elim (Bool-cases (behind pos i)) [
    | inr f ↦ (j, rw (f, least_behind) e, c)
    | inl f ↦ elim (Bool-cases (before i j)) [
      | inl g ↦ (
        i,
        rw (f, least_behind) (rw (e, lesser) (rw g)),
        elim c [ inl p ↦ inr (rw p g) | inr b ↦ inr (before_trans i j k g b) ],
      )
      | inr g ↦ (j, rw (f, least_behind) (rw (e, lesser) (rw g)), c)
    ]
  ]

  -- The record itself at the head.
  Nearest-head : (v : Value k) (l : List Entry) → Nearest pos ((k, v) ∷ l) k
  unfolding least_behind lesser
  Nearest-head v l = elim (Option-cases (least_behind pos l)) [
    | inl e ↦ (k, rw (here, least_behind) (rw (e, lesser)), inl refl)
    | inr (b, e) ↦ elim (Bool-cases (before k b)) [
      | inl g ↦ (k, rw (here, least_behind) (rw (e, lesser) (rw g)), inl refl)
      | inr g ↦ (
        b,
        rw (here, least_behind) (rw (e, lesser) (rw g)),
        elim (before_total k b g) [ inl p ↦ inl (sym p) | inr q ↦ inr q ],
      )
    ]
  ]

  nearest : (s : List Entry) (u : Value k) → lookup s k ≡ ok u → Nearest pos s k
  unfolding lookup
  nearest [] u h = cc
  nearest ((i, v) ∷ l) u h = elim (key_cases i k) [
    | inl e ↦
        subst (λ t. (w : Value t) → Nearest pos ((t, w) ∷ l) k) (sym e) (λ w. Nearest-head w l) v
    | inr n ↦ Nearest-add i v l (nearest l u (sym (lookup-cons_ne i k v l n) ∙ h))
  ]

before-lt : (j k : Key) → before j k ≡ true → dbfs_bt_compare j k ≡ Ordering.lt
before-lt j k h = ground arith

lt-before : (j k : Key) → dbfs_bt_compare j k ≡ Ordering.lt → before j k ≡ true
lt-before j k h = rw (h, before)

-- What `next` answers when the least key is known.
next_lem :
    (s : List Entry) (pos : Option Key) (j : Key) (v : Value j)
    → least_behind pos s ≡ some j
    → lookup s j ≡ ok v
    → next s pos ≡ ok (j, v)
unfolding next
next_lem s pos j v p q = rw (p, fetch) (rw (q, fetch))

next-none :
    (s : List Entry) (pos : Option Key) → least_behind pos s ≡ none → next s pos ≡ err not_found
unfolding next
next-none s pos p = rw (p, fetch)

-- The laws of a cursor, for a position on a key.
pub next_stored :
    (s : List Entry) (k : Key) (e : Entry)
    → next s (some k) ≡ ok e
    → (lookup s (e.0) ≡ ok (e.1)) × (dbfs_bt_compare k (e.0) ≡ Ordering.lt)
next_stored s k e h = elim (Option-cases (least_behind (some k) s)) [
  | inl n ↦ absurd (cc (next-none s (some k) n))
  | inr (j, p) ↦
      let (b, st) = least_behind-Stored (some k) s j p in
      let q : ◌≡◌ {A = Entry} (j, st.0) e = cc (next_lem s (some k) j st.0 p st.1) in
      subst (λ (x : Entry). (lookup s (x.0) ≡ ok (x.1)) × (dbfs_bt_compare k (x.0) ≡ Ordering.lt)) q
        (st.1, before-lt k j b)
]

pub next_nearest :
    (s : List Entry) (k j : Key) (e : Entry) (v : Value j)
    → next s (some k) ≡ ok e
    → lookup s j ≡ ok v
    → dbfs_bt_compare k j ≡ Ordering.lt
    → (j ≡ e.0) ⊎ (dbfs_bt_compare (e.0) j ≡ Ordering.lt)
next_nearest s k j e v h st b =
    let (i, p, c) = nearest (some k) j (lt-before k j b) s v st in
    let (_, w) = least_behind-Stored (some k) s i p in
    let q : ◌≡◌ {A = Entry} (i, w.0) e = cc (next_lem s (some k) i w.0 p w.1) in
    subst (λ (x : Entry). (j ≡ x.0) ⊎ (dbfs_bt_compare (x.0) j ≡ Ordering.lt)) q
      (elim c [ inl r ↦ inl r | inr g ↦ inr (before-lt i j g) ])

pub next_end :
    (s : List Entry) (k j : Key) (v : Value j)
    → next s (some k) ≡ err not_found
    → lookup s j ≡ ok v
    → dbfs_bt_compare k j ≢ Ordering.lt
next_end s k j v h st b =
    let (i, p, c) = nearest (some k) j (lt-before k j b) s v st in
    let (_, w) = least_behind-Stored (some k) s i p in cc (next_lem s (some k) i w.0 p w.1)

pub next_answers :
    (s : List Entry) (k : Key)
    → ((e : Entry) × (next s (some k) ≡ ok e)) ⊎ (next s (some k) ≡ err not_found)
next_answers s k = elim (Option-cases (least_behind (some k) s)) [
  | inl n ↦ inr (next-none s (some k) n)
  | inr (j, p) ↦
      let (_, w) = least_behind-Stored (some k) s j p in
      inl ((j, w.0), next_lem s (some k) j w.0 p w.1)
]

-- ===== src/Fuse/Fill.antt =====
-- mf_filler over a buffer that takes a number of names.
use mathlib.Core.List.{append-nil, append_assoc}
use native.Mathlib.Nat.{add-zero}
use mangoo.Base.{
  ℕ, suc, ◌+◌, ◌≤◌, ◌<◌, ◌≡◌, sym, ap, ◌∙◌, true, false, some, List, [], ◌∷◌, ◌++◌, arith, ltb, leb,
  if◌then◌else◌, length, length-append,
}
use mangoo.Types.{Text, MangooTypes, success, enobufs, Code}
use mangoo.Dir.Listing.{Named, offer, offer_accepted, offer_refused}
use mangoo.Dir.Paging.{left_over, left_over_accepted, left_over_refused}
use mangoo.Fuse.Directory.{FillDir, MfDir, file_mode, mf_filler}

-- A name as the caller gets it: with the mode of its type, and its offset.
abbrev pub Item : Type 0
Item = Text × ℕ × ℕ

-- The caller's buffer: it takes `room` names.
unfoldable pub fits : ℕ → FillDir (List Item)
fits room buf name mode off =
    if ltb (length buf) room then (false, buf ++ (name, mode, off) ∷ []) else (true, buf)

-- Names with their offsets, from one on.
unfoldable pub numbered : ℕ → List Named → List Item
unfolding file_mode
numbered off [] = []
numbered off ((name, type) ∷ rest) = (name, file_mode type, off) ∷ numbered (suc off) rest

pub numbered-append :
    (off : ℕ) (xs ys : List Named)
    → numbered off (xs ++ ys) ≡ numbered off xs ++ numbered (off + length xs) ys
unfolding numbered
numbered-append off [] ys = rw add-zero
numbered-append off ((name, type) ∷ xs) ys =
    let e : suc off + length xs ≡ off + suc (length xs) = omega arith in
    rw (numbered-append (suc off) xs ys, e)

module _ (room : ℕ) where
  -- The structure after a name has been taken, and after one has been refused.
  abbrev pub taken : MfDir (List Item) → List Named → MfDir (List Item)
  taken dir names = record dir {
    cur_off = dir.cur_off + length names;
    buf = dir.buf ++ numbered dir.cur_off names;
  }

  abbrev pub refused : MfDir (List Item) → Text → MangooTypes → MfDir (List Item)
  refused dir name type = record dir {
    saved_name = some name;
    saved_off = dir.cur_off;
    saved_type = type;
  }

  pub mf_filler_takes :
      (dir : MfDir (List Item)) (name : Text) (type : MangooTypes)
      → dir.starting_off ≤ dir.cur_off
      → length dir.buf < room
      → mf_filler (fits room) dir name type ≡ (success, taken dir ((name, type) ∷ []))
  unfolding mf_filler fits numbered
  mf_filler_takes dir name type start space =
      let on : leb dir.starting_off dir.cur_off ≡ true = ground arith in
      let short : ltb (length dir.buf) room ≡ true = ground arith in rw (on, short)

  pub mf_filler_refuses :
      (dir : MfDir (List Item)) (name : Text) (type : MangooTypes)
      → dir.starting_off ≤ dir.cur_off
      → room ≤ length dir.buf
      → mf_filler (fits room) dir name type ≡ (enobufs, refused dir name type)
  unfolding mf_filler fits
  mf_filler_refuses dir name type start space = ground arith

  taken-nil : (dir : MfDir (List Item)) → taken dir [] ≡ dir
  unfolding numbered
  taken-nil dir = rw (add-zero, append-nil)

  -- Names taken after a first one.
  taken-cons :
      (dir : MfDir (List Item)) (name : Text) (type : MangooTypes) (rest : List Named)
      → taken (taken dir ((name, type) ∷ [])) rest ≡ taken dir ((name, type) ∷ rest)
  unfolding numbered
  taken-cons dir name type rest =
      let next : dir.cur_off + 1 ≡ suc dir.cur_off = omega arith in
      let off : dir.cur_off + 1 + length rest ≡ dir.cur_off + suc (length rest) = omega arith in
      let item : Item = (name, file_mode type, dir.cur_off) in
      let items : (dir.buf ++ (item ∷ [])) ++ numbered (dir.cur_off + 1) rest
          ≡ dir.buf ++ (item ∷ numbered (suc dir.cur_off) rest) =
        append_assoc dir.buf (item ∷ []) (numbered (dir.cur_off + 1) rest)
        ∙ ap (λ k. dir.buf ++ (item ∷ numbered k rest)) next in
      λ i. record dir { cur_off = off i; buf = items i }

  length-taken :
      (dir : MfDir (List Item)) (name : Text) (type : MangooTypes)
      → length (taken dir ((name, type) ∷ [])).buf ≡ length dir.buf + 1
  unfolding numbered
  length-taken dir name type = length-append dir.buf ((name, file_mode type, dir.cur_off) ∷ [])

  pub offer_fits :
      (names : List Named) (dir : MfDir (List Item))
      → dir.starting_off ≤ dir.cur_off
      → length dir.buf + length names ≤ room
      → offer (mf_filler (fits room)) names dir ≡ (success, taken dir names)
  offer_fits [] dir start space = unfold offer in ap (λ d. (success, d)) (sym (taken-nil dir))
  offer_fits ((name, type) ∷ names) dir start space =
      let filler = mf_filler (fits room) in
      let first = mf_filler_takes dir name type start (omega arith) in
      offer_accepted filler name type names dir (ap (λ r. r.0) first)
      ∙ ap (λ r. offer filler names (r.1)) first
      ∙ offer_fits names (taken dir ((name, type) ∷ [])) (omega arith)
          (omega (arith, length-taken dir name type))
      ∙ ap (λ d. (success, d)) (taken-cons dir name type names)

  pub offer_full :
      (front : List Named) (name : Text) (type : MangooTypes) (rest : List Named)
      (dir : MfDir (List Item))
      → dir.starting_off ≤ dir.cur_off
      → length dir.buf + length front ≡ room
      → (offer (mf_filler (fits room)) (front ++ (name, type) ∷ rest) dir
          ≡ (enobufs, refused (taken dir front) name type))
        × (left_over (mf_filler (fits room)) (front ++ (name, type) ∷ rest) dir ≡ rest)
  offer_full [] name type rest dir start space =
      let filler = mf_filler (fits room) in
      let last = mf_filler_refuses dir name type start (omega arith) in
      let refusal : (filler dir name type).0 ≡ enobufs = ap (λ r. r.0) last in
      (
        offer_refused filler name type rest dir enobufs refusal (λ e. cc e)
            ∙ ap (λ (r : Code × MfDir (List Item)). (enobufs, r.1)) last
            ∙ ap (λ d. (enobufs, refused d name type)) (sym (taken-nil dir)),
        left_over_refused filler name type rest dir enobufs refusal (λ e. cc e),
      )
  offer_full ((name', type') ∷ front) name type rest dir start space =
      let filler = mf_filler (fits room) in
      let more = front ++ (name, type) ∷ rest in
      let first = mf_filler_takes dir name' type' start (omega arith) in
      let (offered, left) =
        offer_full front name type rest (taken dir ((name', type') ∷ [])) (omega arith)
          (omega (arith, length-taken dir name' type')) in
      (
        offer_accepted filler name' type' more dir (ap (λ r. r.0) first)
            ∙ ap (λ r. offer filler more (r.1)) first
            ∙ offered
            ∙ ap (λ d. (enobufs, refused d name type)) (taken-cons dir name' type' front),
        left_over_accepted filler name' type' more dir (ap (λ r. r.0) first)
            ∙ ap (λ r. left_over filler more (r.1)) first
            ∙ left,
      )

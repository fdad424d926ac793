-- ===== src/Whole.antt =====
-- The invariant that every stored block has the length of a block: what a call of the database
-- does to it.
pub mod Streams
pub mod Operations
pub mod Files
pub mod Reach
use mathlib.Core.Path.{subst}
use mangoo.Base.{ℕ, ◌≡◌, refl, sym, ◌∙◌, ◌≢◌, ◌⊎◌, inl, inr, List, length}
use mangoo.Types.{Key, Value, Reply, ok, err, DbError, not_found, block, dbfs_blksize}
use mangoo.System.{System, PutFlag}
use mangoo.System.Laws.{IsStore}
use mangoo.Compare.Order.{key_cases}
use mangoo.Stream.Content.{HasBlocks}

answer_cases : (r : Reply (Unit {0})) → (r ≡ ok tt) ⊎ ((e : DbError) × (r ≡ err e))
answer_cases (ok tt) = inl refl
answer_cases (err e) = inr (e, refl)

abbrev block_ino : Key → ℕ
block_ino (block ino offset) = ino
block_ino k = 0

abbrev block_offset : Key → ℕ
block_offset (block ino offset) = offset
block_offset k = 0

length_answer :
    (r : Reply (List ℕ)) (v c : List ℕ)
    → r ≡ ok v
    → r ≡ ok c
    → length v ≡ dbfs_blksize
    → length c ≡ dbfs_blksize
length_answer r v c a b n = let same : v ≡ c = cc in rw (← same) n

module _ (os : System) (store : IsStore os.berkeley) where
  pub put-HasBlocks :
      (s : os.State) (k : Key) (v : Value k) (f : PutFlag)
      → ((ino offset : ℕ) → k ≢ block ino offset)
      → HasBlocks os s
      → HasBlocks os ((os.put s k v f).1)
  put-HasBlocks s k v f n h = record {
    whole = λ ino offset c g.
        h.whole ino offset c (sym (store.get-put_ne s k (block ino offset) v f (n ino offset)) ∙ g);
  }

  pub put_block-HasBlocks :
      (s : os.State) (ino offset : ℕ) (v : List ℕ) (f : PutFlag)
      → length v ≡ dbfs_blksize
      → HasBlocks os s
      → HasBlocks os ((os.put s (block ino offset) v f).1)
  put_block-HasBlocks s ino offset v f n h = record {
    whole = λ i o c g. elim (answer_cases (os.put s (block ino offset) v f).0) [
      | inl stored ↦ elim (key_cases (block ino offset) (block i o)) [
        | inl same ↦
            length_answer (os.get (os.put s (block ino offset) v f).1 (block i o)) v c
              (subst
                (λ (k : Key).
                  os.get (os.put s (block ino offset) v f).1 (block (block_ino k) (block_offset k))
                  ≡ ok v)
                same (store.get-put_self s (block ino offset) v f stored))
              g n
        | inr other ↦
            h.whole i o c (sym (store.get-put_ne s (block ino offset) (block i o) v f other) ∙ g)
      ]
      | inr (e, failed) ↦
          h.whole i o c
            (sym (store.get-put_failed s (block ino offset) (block i o) v f e failed) ∙ g)
    ];
  }

  pub del-HasBlocks : (s : os.State) (k : Key) → HasBlocks os s → HasBlocks os ((os.del s k).1)
  del-HasBlocks s k h = record {
    whole = λ i o c g. elim (answer_cases (os.del s k).0) [
      | inl gone ↦ elim (key_cases k (block i o)) [
        | inl same ↦ absurd (
            cc (
              subst (λ j. os.get (os.del s k).1 j ≡ err not_found) same
                  (store.get-del_self s k gone),
              g,
            ))
        | inr other ↦ h.whole i o c (sym (store.get-del_ne s k (block i o) other) ∙ g)
      ]
      | inr (e, failed) ↦ h.whole i o c (sym (store.get-del_failed s k (block i o) e failed) ∙ g)
    ];
  }

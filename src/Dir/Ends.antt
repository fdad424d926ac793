-- ===== src/Dir/Ends.antt =====
-- Listings that leave a handle whose key buffer is gone.
use mangoo.Base.{◌≡◌}
use mangoo.Types.{Text, ok, err, Reply, DbError, Code, success, dangling}
use mangoo.System.{
  Run, pure, still_running, and_then, ◌>>=◌, World, Outcome, returns, undefined, exits, running,
}
use mangoo.Dir.Read.{Listing, Visit, leave, skip, emit}

-- What is known of the handle when the listing has returned.
abbrev pub Dangles : {S F : Type 0} → Outcome (Listing F × World S) → Type 0
Dangles (returns (l, w)) = l.1.attr_ddk ≡ dangling
Dangles undefined = Unit {0}
Dangles (exits status) = Unit {0}
Dangles running = Unit {0}

pub record Ends {S F : Type 0} (m : Run S (Listing F)) : Type 0 where
  pub at : (w : World S) → Dangles (m w)

module _ {S F : Type 0} where
  pub Ends-running : Ends {S = S} {F = F} still_running
  Ends-running = record { at = λ w. tt }

  pub Ends-pure : (l : Listing F) → l.1.attr_ddk ≡ dangling → Ends {S = S} (pure l)
  Ends-pure l e = record { at = λ w. e }

  Dangles-then :
      {A : Type 0} (r : Outcome (A × World S)) (k : A → Run S (Listing F))
      → ((a : A) → Ends (k a))
      → Dangles (and_then r k)
  Dangles-then (returns (a, w)) k h = (h a).at w
  Dangles-then undefined k h = tt
  Dangles-then (exits status) k h = tt
  Dangles-then running k h = tt

  pub Ends-bind :
      {A : Type 0} (m : Run S A) {k : A → Run S (Listing F)}
      → ((a : A) → Ends (k a))
      → Ends (m >>= k)
  Ends-bind m {k} h = record { at = λ w. Dangles-then (m w) k h }

  pub Ends-answer :
      {B : Type 0} (r : Reply B) {m : B → Run S (Listing F)} {n : DbError → Run S (Listing F)}
      → ((b : B) → Ends (m b))
      → ((e : DbError) → Ends (n e))
      → Ends (elim r [ ok b ↦ m b | err e ↦ n e ])
  Ends-answer (ok b) km kn = km b
  Ends-answer (err e) km kn = kn e

  pub Ends-visit :
      (v : Visit) {l s : Run S (Listing F)} {n : Text → Run S (Listing F)}
      → Ends l
      → Ends s
      → ((t : Text) → Ends (n t))
      → Ends (elim v [ leave ↦ l | skip ↦ s | emit name ↦ n name ])
  Ends-visit leave kl ks kn = kl
  Ends-visit skip kl ks kn = ks
  Ends-visit (emit name) kl ks kn = kn name

  pub Ends-success :
      (c : Code) {m : Run S (Listing F)} {n : Code → Run S (Listing F)}
      → Ends m
      → ((e : Code) → Ends (n e))
      → Ends (elim c [ success ↦ m | e ↦ n e ])
  Ends-success success km kn = km
  Ends-success e km kn = kn e

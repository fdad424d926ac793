-- ===== src/System/Keeps.antt =====
-- Invariants of the database under runs, with one rule for each way to build a run.
use mathlib.Core.Path.{subst}
use mangoo.Base.{◌≡◌, Bool, true, false, if◌then◌else◌}
use mangoo.System.{
  and_then, World, Memory, Outcome, returns, undefined, exits, running, Run, pure,
  undefined_behaviour, still_running, gets, db_call, modify_mem, ◌>>=◌, ◌>>◌,
}

-- What is known of the database when a run has returned.
abbrev pub Left : {S A : Type 0} → (S → Type 0) → Outcome (A × World S) → Type 0
Left P (returns r) = P (r.1.base)
Left P undefined = Unit {0}
Left P (exits status) = Unit {0}
Left P running = Unit {0}

-- `m` keeps `P` of the database, whatever it returns.
pub record Keeps {S A : Type 0} (P : S → Type 0) (m : Run S A) : Type 0 where
  pub at : (w : World S) → P w.base → Left P (m w)

module _ {S A : Type 0} {P : S → Type 0} where
  pub Keeps-pure : (a : A) → Keeps P (pure a)
  Keeps-pure a = record { at = λ w h. h }

  pub Keeps-undefined : Keeps P (undefined_behaviour {A = A})
  Keeps-undefined = record { at = λ w h. tt }

  pub Keeps-running : Keeps P (still_running {A = A})
  Keeps-running = record { at = λ w h. tt }

  pub Keeps-gets : (f : World S → A) → Keeps P (gets f)
  Keeps-gets f = record { at = λ w h. h }

  pub Keeps-db_call : (f : S → A × S) → ((s : S) → P s → P ((f s).1)) → Keeps P (db_call f)
  Keeps-db_call f kept = record { at = λ w h. kept w.base h }

  pub Keeps-if : (b : Bool) {m n : Run S A} → Keeps P m → Keeps P n → Keeps P (if b then m else n)
  Keeps-if true km kn = km
  Keeps-if false km kn = kn

-- What a run that keeps `P` has left when it returned.
pub Keeps-returns :
    {S A : Type 0} {P : S → Type 0} {m : Run S A}
    → Keeps P m
    → (w : World S) {r : A} {w' : World S} → m w ≡ returns (r, w')
    → P w.base
    → P w'.base
Keeps-returns {P} km w e h = subst (Left P) e (km.at w h)

pub Keeps-modify_mem :
    {S : Type 0} {P : S → Type 0} (f : Memory → Memory) → Keeps P (modify_mem {S = S} f)
Keeps-modify_mem f = record { at = λ w h. h }

module _ {S A B : Type 0} {P : S → Type 0} where
  Left-bind :
      (r : Outcome (A × World S)) (k : A → Run S B)
      → Left P r
      → ((a : A) → Keeps P (k a))
      → Left P (and_then r k)
  Left-bind (returns r) k h kk = (kk (r.0)).at (r.1) h
  Left-bind undefined k h kk = tt
  Left-bind (exits status) k h kk = tt
  Left-bind running k h kk = tt

  pub Keeps-bind :
      {m : Run S A} {k : A → Run S B} → Keeps P m → ((a : A) → Keeps P (k a)) → Keeps P (m >>= k)
  Keeps-bind {m} {k} km kk = record { at = λ w h. Left-bind (m w) k (km.at w h) kk }

  pub Keeps-then : {m : Run S A} {n : Run S B} → Keeps P m → Keeps P n → Keeps P (m >> n)
  Keeps-then {m} {n} km kn = record { at = λ w h. Left-bind (m w) (λ _. n) (km.at w h) (λ _. kn) }

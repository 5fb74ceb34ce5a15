-- ===== src/Js/Trace.antt =====
-- Invariants of the recorded calls, one rule for each way to build a computation; and what a
-- successful sequence has done.
use blockchain_tutorial.Prelude.{◌≡◌, refl, Bool, true, false, List, if◌then◌else◌}
use blockchain_tutorial.Js.{
  Outcome, ok, throw, pending, Exec, pure, raise, lift, catch, settle, continue, ◌>>=◌,
}

-- `m` keeps `P` of the record, however it ends.
pub record Keeps {C E A : Type 0} (P : List C → Type 0) (m : Exec C E A) : Type 0 where
  pub at : (t : List C) → P t → P (m t).1

module _ {C E A : Type 0} {P : List C → Type 0} where
  pub Keeps-pure : (a : A) → Keeps {E = E} P (pure a)
  Keeps-pure a = record { at = λ t h. h }

  pub Keeps-raise : (e : E) → Keeps {A = A} P (raise e)
  Keeps-raise e = record { at = λ t h. h }

  pub Keeps-lift : (o : Outcome E A) → Keeps P (lift o)
  Keeps-lift o = record { at = λ t h. h }

  settle-keeps :
      (o : Outcome E A) (t : List C) (h : E → Exec C E A)
      → P t
      → ((e : E) → Keeps P (h e))
      → P (settle o t h).1
  settle-keeps (ok a) t h p k = p
  settle-keeps (throw e) t h p k = (k e).at t p
  settle-keeps pending t h p k = p

  pub Keeps-catch :
      (m : Exec C E A) (h : E → Exec C E A)
      → Keeps P m
      → ((e : E) → Keeps P (h e))
      → Keeps P (catch m h)
  Keeps-catch m h km kh = record { at = λ t p. settle-keeps (m t).0 (m t).1 h (km.at t p) kh }

module _ {C E A : Type 0} {P : List C → Type 0} where
  -- A test: each branch keeps the predicate where its side of the test holds.
  pub Keeps-if :
      (test : Bool) (yes_part no_part : Exec C E A)
      → (test ≡ true → Keeps P yes_part)
      → (test ≡ false → Keeps P no_part)
      → Keeps P (if test then yes_part else no_part)
  Keeps-if false yes_part no_part when_true when_false = when_false refl
  Keeps-if true yes_part no_part when_true when_false = when_true refl

module _ {C E A B : Type 0} {P : List C → Type 0} where
  continue-keeps :
      (o : Outcome E A) (t : List C) (f : A → Exec C E B)
      → P t
      → ((a : A) → Keeps P (f a))
      → P (continue o t f).1
  continue-keeps (ok a) t f p k = (k a).at t p
  continue-keeps (throw e) t f p k = p
  continue-keeps pending t f p k = p

  pub Keeps-bind :
      (m : Exec C E A) (f : A → Exec C E B)
      → Keeps P m
      → ((a : A) → Keeps P (f a))
      → Keeps P (m >>= f)
  Keeps-bind m f km kf = record { at = λ t p. continue-keeps (m t).0 (m t).1 f (km.at t p) kf }

module _ {C E A B : Type 0} where
  -- A successful sequence has a successful first part, and goes on from it.
  pub continue-ok :
      (o : Outcome E A) (t : List C) (f : A → Exec C E B) {r : Outcome E B × List C} {b : B}
      → continue o t f ≡ r
      → r.0 ≡ ok b
      → (a : A) × (o ≡ ok a) × (f a t ≡ r)
  continue-ok (ok a) t f h e = (a, refl, h)
  continue-ok (throw x) t f h e = cc
  continue-ok pending t f h e = cc

pub ruleset keeps_rules = (Keeps-pure, Keeps-raise, Keeps-lift, Keeps-if, Keeps-catch, Keeps-bind)

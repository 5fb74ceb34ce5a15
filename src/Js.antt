-- ===== src/Js.antt =====
-- What the programs use of JavaScript: exceptions, promises that may stay pending, truth values,
-- and the recorded calls of a program to its environment.
pub mod Decimal
pub mod Int
pub mod Json
pub mod Number
pub mod Trace
pub mod Uri
use blockchain_tutorial.Prelude.{Bool, false, not, Option, none, some, String, List, str_eq}
use Prim.Native.String.{◌++◌}

-- A thrown value. `error m` is `new Error(m)`; `thrown s` is any other value that has a
-- `toString()`, by what that gives. (`null` and `undefined` are taken not to be thrown.)
pub data Exception : Type 0 where
  error type_error thrown : String → Exception

-- `exception.toString()`
unfoldable pub to_text : Exception → String
to_text (error m) = "Error: " ++ m
to_text (type_error m) = "TypeError: " ++ m
to_text (thrown s) = s

-- How an awaited computation ends; `pending` is a promise that never settles.
pub data Outcome (E A : Type 0) : Type 0 where
  ok : A → Outcome E A
  throw : E → Outcome E A
  pending : Outcome E A

-- A computation that records what it asks of its environment, the latest request first.
abbrev pub Exec : Type 0 → Type 0 → Type 0 → Type 0
Exec C E A = List C → Outcome E A × List C

module _ {C E A : Type 0} where
  abbrev pub pure : A → Exec C E A
  pure a t = (ok a, t)

  abbrev pub raise : E → Exec C E A
  raise e t = (throw e, t)

  abbrev pub lift : Outcome E A → Exec C E A
  lift r t = (r, t)

  abbrev pub settle : Outcome E A → List C → (E → Exec C E A) → Outcome E A × List C
  settle (ok a) t h = (ok a, t)
  settle (throw e) t h = h e t
  settle pending t h = (pending, t)

  -- `try { m } catch (e) { h(e) }`
  abbrev pub catch : Exec C E A → (E → Exec C E A) → Exec C E A
  catch m h t = settle (m t).0 (m t).1 h

module _ {C E A B : Type 0} where
  abbrev pub continue : Outcome E A → List C → (A → Exec C E B) → Outcome E B × List C
  continue (ok a) t f = f a t
  continue (throw e) t f = (throw e, t)
  continue pending t f = (pending, t)

  infixl 5 ◌>>=◌ ◌>>◌
  abbrev pub ◌>>=◌ : Exec C E A → (A → Exec C E B) → Exec C E B
  ◌>>=◌ m f t = continue (m t).0 (m t).1 f

  abbrev pub ◌>>◌ : Exec C E A → Exec C E B → Exec C E B
  m >> k = m >>= λ _. k

-- `!!s` for a value that is a string, `undefined` or `null`
abbrev pub is_truthy : Option String → Bool
is_truthy none = false
is_truthy (some s) = not (str_eq s "")

-- ===== src/Chaincode.antt =====
-- The chaincode of the balance transfer sample
-- (超级账本教程/项目/balance-transfer/artifacts/src/github.com/example_cc/node/example_cc.js).
-- The shim's `stub` is a parameter: what it answers to a read, and whether it accepts a write.
pub mod Ledger
pub mod Moves
pub mod Dispatch
pub mod Supply
mod Tests
use blockchain_tutorial.Prelude.{
  Bool, true, not, ◌||◌, Option, none, some, List, [], ◌∷◌, String, ◌==◌, ◌&&◌, ℕ, false,
  if◌then◌else◌,
}
use blockchain_tutorial.Js.{
  Outcome, ok, throw, pending, Exec, pure, raise, lift, catch, ◌>>=◌, ◌>>◌,
}
use blockchain_tutorial.Js.Number.{
  Text, Number, nan, int, codes, parse_int, to_string, add_number, sub_number,
}

-- A thrown value: `message m` is `new Error(m)`, `no_state a` the error of `query` for the holder
-- `a`, `shim_error` what a call of the stub rejects with.
pub data Fault : Type 0 where
  message : String → Fault
  no_state : Text → Fault
  type_error : Fault
  shim_error : String → Fault

pub data Write : Type 0 where
  put_state : Text → Text → Write
  delete_state : Text → Write

pub record Stub : Type 0 where
  pub get_state : Text → Outcome Fault (Option Text)
  pub accepts : Write → Outcome Fault Unit

abbrev pub Action : Type 0 → Type 0
Action = Exec Write Fault

-- The results of `shim.success` and `shim.error`; `unknown_method fcn` is
-- `shim.error('no method of name:' + fcn + ' found')`.
pub data Response : Type 0 where
  success : Response
  success_bytes : Text → Response
  success_of : Response → Response
  failure : String → Response
  unknown_method : Text → Response
  failure_of : Fault → Response

abbrev record_write : Outcome Fault Unit → Write → List Write → Outcome Fault Unit × List Write
record_write (ok _) w t = (ok tt, w ∷ t)
record_write (throw e) w t = (throw e, t)
record_write pending w t = (pending, t)

abbrev pub text_eq : Text → Text → Bool
text_eq [] [] = true
text_eq (a ∷ s) (b ∷ t) = a == b && text_eq s t
text_eq _ _ = false

abbrev pub is_empty : Text → Bool
is_empty [] = true
is_empty (_ ∷ _) = false

-- `typeof n === 'number'` for a result of `parseInt`
abbrev pub is_number_type : Number → Bool
is_number_type nan = true
is_number_type (int _) = true

module _ (stub : Stub) where
  abbrev write : Write → Action Unit
  write w t = record_write (stub.accepts w) w t

  abbrev require : Option Text → String → Action Text
  require none m = raise (message m)
  require (some v) m = pure v

  -- `Init`, on the parameters of the proposal
  pub init : List Text → Action Response
  init (a ∷ aval ∷ b ∷ bval ∷ []) =
      if not (is_number_type (parse_int aval)) || not (is_number_type (parse_int bval))
      then pure (failure "Expecting integer value for asset holding")
      else catch
          (do
            write (put_state a aval)
            catch (do write (put_state b bval); pure success) (λ e. pure (failure_of e)))
          (λ e. pure (failure_of e))
  init _ = pure (failure "Incorrect number of arguments. Expecting 4")

  pub move : List Text → Action Unit
  move (a ∷ b ∷ x ∷ []) =
      if is_empty a || is_empty b then raise (message "asset holding must not be empty") else do
        found_a ← lift (stub.get_state a)
        bytes_a ← require found_a "Failed to get state of asset holder A"
        found_b ← lift (stub.get_state b)
        bytes_b ← require found_b "Failed to get state of asset holder B"
        let amount = parse_int x
        if not (is_number_type amount)
            then raise (message "Expecting integer value for amount to be transaferred")
            else do
              write (put_state a (to_string (sub_number (parse_int bytes_a) amount)))
              write (put_state b (to_string (add_number (parse_int bytes_b) amount)))
  move _ = raise (message "Incorrect number of arguments. Expecting 3")

  pub delete : List Text → Action Unit
  delete (a ∷ []) = write (delete_state a)
  delete _ = raise (message "Incorrect number of arguments. Expecting 1")

  abbrev query_result : Text → Option Text → Action Text
  query_result a none = raise (no_state a)
  query_result a (some v) = pure v

  pub query : List Text → Action Text
  query (a ∷ []) = do found ← lift (stub.get_state a); query_result a found
  query _ = raise (message "Incorrect number of arguments. Expecting name of the person to query")

-- What `this[fcn]` can be: a method of the class, or one that every object inherits.
pub data Method : Type 0 where
  init_method invoke_method move_method : Method
  delete_method query_method constructor_method : Method
  inherited : Text → Method

-- The members of `Object.prototype`; all but `toString` throw when called on `undefined`.
abbrev inherited_names : List Text
inherited_names =
    codes "toString"
    ∷ codes "toLocaleString"
    ∷ codes "valueOf"
    ∷ codes "hasOwnProperty"
    ∷ codes "isPrototypeOf"
    ∷ codes "propertyIsEnumerable"
    ∷ codes "__proto__"
    ∷ codes "__defineGetter__"
    ∷ codes "__defineSetter__"
    ∷ codes "__lookupGetter__"
    ∷ codes "__lookupSetter__"
    ∷ []

abbrev pub contains : Text → List Text → Bool
contains k [] = false
contains k (n ∷ ns) = text_eq k n || contains k ns

pub find_method : Text → Option Method
find_method k =
    if text_eq k (codes "Init")
    then some init_method
    else if text_eq k (codes "Invoke")
    then some invoke_method
    else if text_eq k (codes "move")
    then some move_method
    else if text_eq k (codes "delete")
    then some delete_method
    else if text_eq k (codes "query")
    then some query_method
    else if text_eq k (codes "constructor")
    then some constructor_method
    else if contains k inherited_names
    then some (inherited k)
    else none

module _ (stub : Stub) where
  -- `shim.success(await method(stub, params))`; the method is called with no `this`
  pub call_method : Method → List Text → Action Response
  call_method init_method ps = do r ← init stub ps; pure (success_of r)
  call_method invoke_method ps = raise type_error
  call_method move_method ps = do move stub ps; pure success
  call_method delete_method ps = do delete stub ps; pure success
  call_method query_method ps = do v ← query stub ps; pure (success_bytes v)
  call_method constructor_method ps = raise type_error
  call_method (inherited k) ps =
      if text_eq k (codes "toString")
      then pure (success_bytes (codes "[object Undefined]"))
      else raise type_error

  abbrev dispatch : Text → Option Method → List Text → Action Response
  dispatch fcn none ps = pure (unknown_method fcn)
  dispatch fcn (some m) ps = catch (call_method m ps) (λ e. pure (failure_of e))

  -- `Invoke`
  pub invoke : Text → List Text → Action Response
  invoke fcn ps = dispatch fcn (find_method fcn) ps

-- ===== src/Cars.antt =====
-- The scripts of the car project (超级账本教程/项目/汽车项目). The Fabric client SDK is a
-- parameter: the calls that the scripts make, and what each is answered.
pub mod Users
pub mod Query
pub mod Invoke
mod Tests
use blockchain_tutorial.Prelude.{ℕ, Bool, true, false, Option, none, some, List, ◌∷◌, String}
use Prim.Native.String.{◌++◌}
use blockchain_tutorial.Js.{Exception, Outcome, Exec, error, pure, raise}

-- A user of the store, by whether `isEnrolled()` holds.
pub record User : Type 0 where
  pub is_enrolled : Bool

-- What happens to the listener on the event hub, and the orderer's answer by its `status`.
pub data Occurrence : Type 0 where
  timer : Occurrence
  committed : String → Occurrence
  fault : Exception → Occurrence
  answered : String → Occurrence
  refused : Exception → Occurrence

-- A result of a query for one peer: an error object, or the payload as text.
pub data Payload : Type 0 where
  error_of : Exception → Payload
  bytes : String → Payload

pub data Call : Type 0 where
  -- `newDefaultKeyValueStore` and the settings that follow it
  open_store : Call
  get_user_context : String → Call
  -- the identity and its secret
  enroll : String → String → Call
  register : String → Call
  -- the name and the enrollment
  create_user : String → String → Call
  set_user_context : User → Call
  new_transaction : Call
  -- the transaction's id; the answer is `response.status` of each response, where it has one
  send_proposal : String → Call
  send_transaction : String → List (Option ℕ) → Call
  await_all : Call
  query_all_cars : Call

abbrev pub Answer : Call → Type 0
Answer open_store = Unit
Answer (get_user_context _) = Option User
Answer (enroll _ _) = String
Answer (register _) = String
Answer (create_user _ _) = User
Answer (set_user_context _) = Unit
Answer new_transaction = String
Answer (send_proposal _) = Option (List (Option ℕ))
Answer (send_transaction _ _) = Unit
Answer await_all = List Occurrence
Answer query_all_cars = Option (List Payload)

pub record Sdk : Type 0 where
  pub answer : List Call → (c : Call) → Outcome Exception (Answer c)

abbrev pub Action : Type 0 → Type 0
Action = Exec Call Exception

abbrev pub call : Sdk → (c : Call) → Action (Answer c)
call sdk c t = (sdk.answer t c, c ∷ t)

-- `user_from_store && user_from_store.isEnrolled()`
abbrev pub is_enrolled : Option User → Bool
is_enrolled none = false
is_enrolled (some u) = u.is_enrolled

-- The user of the scripts.
abbrev pub member : String
member = "zuoyuan"

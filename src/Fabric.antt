-- ===== src/Fabric.antt =====
-- The Fabric client SDK as the balance transfer application uses it: the calls that the
-- application makes, what each is answered, and the SDK itself as a parameter that may answer by
-- everything asked before. The application's own modules are the children.
pub mod Client
pub mod Endorsement
pub mod Hubs
pub mod Submission
pub mod Calls
pub mod Channels
pub mod Queries
pub mod Demo
mod Tests
use blockchain_tutorial.Prelude.{ℕ, Bool, Option, List, ◌∷◌, String}
use blockchain_tutorial.Js.{Exception, Outcome, Exec}
use blockchain_tutorial.Js.Number.{Number}

pub record User : Type 0 where
  pub is_enrolled : Bool
  pub secret : Option String

-- One endorsing peer's answer: `response.status`, where there is a `response`, and whether there
-- is an `endorsement`.
pub record ProposalResponse : Type 0 where
  pub status : Option ℕ
  pub endorsed : Bool

-- The arguments of the requests, by the fields that the application sets. `none` is `undefined`.
pub record Proposal : Type 0 where
  pub targets : Option (List String)
  pub chaincode_id : String
  pub fcn : Option String
  pub args : List String
  pub chain_id : String
  pub tx_id : String

pub record Instantiation : Type 0 where
  pub targets : Option (List String)
  pub chaincode_id : String
  pub chaincode_type : Option String
  pub chaincode_version : String
  pub fcn : Option String
  pub args : List String
  pub tx_id : String

pub record Package : Type 0 where
  pub targets : List String
  pub chaincode_id : String
  pub chaincode_path : String
  pub chaincode_version : String
  pub chaincode_type : String

pub record ConfigRequest : Type 0 where
  pub config : String
  pub signatures : List String
  pub name : String
  pub tx_id : String

-- What happens at an event hub, and when the orderer answers.
pub data HubEvent : Type 0 where
  timer : HubEvent
  committed : String → HubEvent
  fault : Exception → HubEvent

pub data Occurrence : Type 0 where
  at_hub : ℕ → HubEvent → Occurrence
  answered : Option String → Occurrence
  refused : Exception → Occurrence

pub record ChaincodeInfo : Type 0 where
  pub name : String
  pub version : String
  pub path : String

pub data Call : Type 0 where
  load_network load_org : Option String → Call
  init_stores : Call
  get_user_context : String → Call
  set_user_context : String → String → Call
  get_authority : Call
  -- the affiliation is the organization's name in lower case with `.department1`
  register : String → String → Call
  get_channel : Option String → Call
  new_transaction : Bool → Call
  get_genesis_block : String → Call
  join_channel : List String → String → String → Call
  send_proposal : Proposal → Call
  send_instantiate : Instantiation → Call
  install : Package → Call
  get_hubs : Call
  send_transaction : String → List ProposalResponse → Call
  update_channel create_channel : ConfigRequest → Call
  read_file extract_config sign_config : String → Call
  await_all : Call
  query_chaincode : Option String → String → Option String → List String → Call
  query_block : Number → Call
  query_transaction query_block_by_hash : String → Option String → Call
  query_info query_installed query_instantiated query_channels : Option String → Call

abbrev pub Answer : Call → Type 0
Answer (load_network _) = Unit
Answer (load_org _) = Unit
Answer init_stores = Unit
Answer (get_user_context _) = Option User
Answer (set_user_context _ _) = Option User
Answer get_authority = Unit
Answer (register _ _) = String
Answer (get_channel _) = Bool
Answer (new_transaction _) = String
Answer (get_genesis_block _) = String
Answer (join_channel _ _ _) = List ProposalResponse
Answer (send_proposal _) = Option (List ProposalResponse)
Answer (send_instantiate _) = Option (List ProposalResponse)
Answer (install _) = Option (List ProposalResponse)
Answer get_hubs = List String
Answer (send_transaction _ _) = Unit
Answer (update_channel _) = Unit
Answer (create_channel _) = Option String
Answer (read_file _) = String
Answer (extract_config _) = String
Answer (sign_config _) = String
Answer await_all = List Occurrence
Answer (query_chaincode _ _ _ _) = Option (List String)
Answer (query_block _) = Option String
Answer (query_transaction _ _) = Option String
Answer (query_block_by_hash _ _) = Option String
Answer (query_info _) = Option String
Answer (query_installed _) = Option (List ChaincodeInfo)
Answer (query_instantiated _) = Option (List ChaincodeInfo)
Answer (query_channels _) = Option (List String)

pub record Sdk : Type 0 where
  -- `hfc.getConfigSetting` at a name of a text, and at `admins`
  pub setting : String → Option String
  pub admins : Option (List (String × String))
  pub answer : List Call → (c : Call) → Outcome Exception (Answer c)

abbrev pub Action : Type 0 → Type 0
Action = Exec Call Exception

-- A call is recorded and answered by the SDK, which has seen the calls before it.
abbrev pub call : Sdk → (c : Call) → Action (Answer c)
call sdk c t = (sdk.answer t c, c ∷ t)

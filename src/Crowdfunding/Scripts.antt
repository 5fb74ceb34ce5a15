-- ===== src/Crowdfunding/Scripts.antt =====
-- 以太坊教程/众筹应用/src/scripts: compile.js, deploy.js and sampleProjects.js. The file system, the
-- compiler and the chain are a parameter; what the scripts ask is recorded. The name of a file is
-- relative to the directory that the script resolves it in.
pub mod Compiled
mod Tests
use blockchain_tutorial.Prelude.{
  ℕ, Option, none, some, List, [], ◌∷◌, ◌++◌, String, ◌==◌, if◌then◌else◌,
}
use blockchain_tutorial.Js.{Exception, error, Outcome, ok, Exec, pure, raise, lift, ◌>>=◌, ◌>>◌}
use blockchain_tutorial.Js.Number.{Text, codes}
use blockchain_tutorial.Crowdfunding.Page.{first}
use blockchain_tutorial.Crowdfunding.Page.Loading.{along}

-- What `solc.compile` returns. `errors` is `none` where it is no array; a contract is printed as JSON.
pub record CompileResult : Type 0 where
  pub errors : Option (List String)
  pub contracts : List (Text × Text)

-- The file of a compiled contract.
pub record Artifact : Type 0 where
  pub interface : Text
  pub bytecode : Text

pub data Event : Type 0 where
  -- `removeSync` and `ensureDirSync` of the directory of compiled contracts
  remove_compiled ensure_compiled : Event
  read_contracts : Event
  read_source : (file : Text) → Event
  compile : (source : Text) → Event
  output_json : (file json : Text) → Event
  -- `require` of a compiled contract, and of address.json
  require_compiled : (file : Text) → Event
  require_address : Event
  get_accounts : Event
  send_deployment : (interface code : Text) (from : Option String) (gas : ℕ) → Event
  write_address : (address : String) → Event
  exit : Event
  send_new_project :
      (interface : Text) (address : String) (description min_invest max_invest goal : Text)
      (from : Option String)
      → Event

-- The reply to a deployment is the address of the new contract.
abbrev pub Reply : Event → Type 0
Reply read_contracts = List Text
Reply (read_source _) = Text
Reply (compile _) = CompileResult
Reply (require_compiled _) = Artifact
Reply require_address = String
Reply get_accounts = List String
Reply (send_deployment _ _ _ _) = String
Reply _ = Unit

-- The answers; `JSON.parse` of an interface, which is given back as its text; and
-- `web3.utils.toWei(v, 'ether')`.
pub record Machine : Type 0 where
  pub answer : List Event → (c : Event) → Outcome Exception (Reply c)
  pub parse : Text → Outcome Exception Text
  pub to_wei : Text → Outcome Exception Text

abbrev pub Action : Type 0 → Type 0
Action = Exec Event Exception

abbrev pub ask : Machine → (c : Event) → Action (Reply c)
ask w c t = (w.answer t c, c ∷ t)

-- `name.replace(/^:/, '')`, where 58 is the code of a colon
abbrev pub contract_name : Text → Text
contract_name [] = []
contract_name (c ∷ s) = if c == 58 then s else c ∷ s

abbrev pub file_of : Text → Text
file_of name = contract_name name ++ codes ".json"

-- The test of `compileResult.errors`.
abbrev pub check_errors : Option (List String) → Action Unit
check_errors none = pure tt
check_errors (some []) = pure tt
check_errors (some (e ∷ es)) = raise (error e)

-- A project of sampleProjects.js.
pub record Sample : Type 0 where
  pub description : Text
  pub min_invest : Text
  pub max_invest : Text
  pub goal : Text

module _ (w : Machine) where
  -- The loop over the contracts of a result.
  abbrev pub save_contracts : List (Text × Text) → Action Unit
  save_contracts [] = pure tt
  save_contracts ((name, json) ∷ cs) = ask w (output_json (file_of name) json) >> save_contracts cs

  -- The loop over the files.
  abbrev pub compile_files : List Text → Action Unit
  compile_files [] = pure tt
  compile_files (file ∷ files) = do
    source ← ask w (read_source file)
    result ← ask w (compile source)
    check_errors result.errors
    save_contracts result.contracts
    compile_files files

  -- compile.js
  unfoldable pub compile_contracts : Action Unit
  compile_contracts = do
    ask w remove_compiled
    ask w ensure_compiled
    files ← ask w read_contracts
    compile_files files

  -- deploy.js
  unfoldable pub deploy : Action Unit
  deploy = do
    compiled ← ask w (require_compiled (codes "ProjectList.json"))
    accounts ← ask w get_accounts
    interface ← lift (w.parse compiled.interface)
    address ←
        ask w (send_deployment interface (codes "0x" ++ compiled.bytecode) (first accounts) 5000000)
    ask w (write_address address)
    ask w exit

  abbrev pub sample : (description min_invest max_invest goal : Text) → Action Sample
  sample description min_invest max_invest goal = do
    min ← lift (w.to_wei min_invest)
    max ← lift (w.to_wei max_invest)
    sum ← lift (w.to_wei goal)
    pure (record { description = description; min_invest = min; max_invest = max; goal = sum })

  abbrev pub create_all :
      (interface : Text) (address : String) (owner : Option String)
      → List Sample
      → Action (List Unit)
  create_all interface address owner [] = pure []
  create_all interface address owner (p ∷ ps) =
      along
        (ask w
          (send_new_project interface address p.description p.min_invest p.max_invest p.goal owner))
        (create_all interface address owner ps)

  -- sampleProjects.js
  unfoldable pub sample_projects : Action Unit
  sample_projects = do
    compiled ← ask w (require_compiled (codes "ProjectList.json"))
    address ← ask w require_address
    interface ← lift (w.parse compiled.interface)
    tutorial ← sample (codes "Ethereum DApp Tutorial") (codes "0.01") (codes "0.1") (codes "1")
    video ← sample (codes "Ethereum Video Tutorial") (codes "0.1") (codes "1") (codes "5")
    accounts ← ask w get_accounts
    create_all interface address (first accounts) (tutorial ∷ video ∷ [])
    pure tt

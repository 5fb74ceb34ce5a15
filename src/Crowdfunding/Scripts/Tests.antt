-- ===== src/Crowdfunding/Scripts/Tests.antt =====
-- The scripts of the crowdfunding application on a small disk.
use blockchain_tutorial.Prelude.{◌≡◌, refl, none, some, List, [], ◌∷◌, length, ◌==◌, if◌then◌else◌}
use blockchain_tutorial.Js.{Exception, error, Outcome, ok, throw}
use blockchain_tutorial.Js.Number.{Text, codes}
use blockchain_tutorial.Crowdfunding.Scripts.{
  CompileResult, Event, Reply, remove_compiled, ensure_compiled, read_contracts, read_source,
  compile, output_json, require_compiled, require_address, get_accounts, send_deployment,
  write_address, exit, send_new_project, Machine, compile_contracts, deploy, sample_projects,
}
use blockchain_tutorial.Crowdfunding.Scripts.Compiled.{
  written, outcome, first_error, contracts_before, Serves, compile_keeps,
}

abbrev files : List Text
files = codes "Car.sol" ∷ codes "Project.sol" ∷ []

-- Two files, of which the compiler refuses the second.
abbrev sources : Text → Text
sources f = if length f == 7 then codes "car" else codes "broken"

abbrev results : Text → CompileResult
results s =
    if length s == 3
    then record { errors = none; contracts = (codes ":Car", codes "{}") ∷ [] }
    else record { errors = some ("expected ;" ∷ []); contracts = [] }

abbrev reply : (c : Event) → Outcome Exception (Reply c)
reply remove_compiled = ok tt
reply ensure_compiled = ok tt
reply read_contracts = ok files
reply (read_source f) = ok (sources f)
reply (compile s) = ok (results s)
reply (output_json f json) = ok tt
reply (require_compiled f) = ok (record { interface = codes "[]"; bytecode = codes "60" })
reply require_address = ok "0x7"
reply get_accounts = ok ("0x1" ∷ "0x2" ∷ [])
reply (send_deployment i d a g) = ok "0x7"
reply (write_address a) = ok tt
reply exit = ok tt
reply (send_new_project i a d l u g o) = ok tt

abbrev machine : Machine
machine = record { answer = λ t c. reply c; parse = ok; to_wei = ok }

served : Serves machine files sources results
served = record {
  removed = λ t. refl;
  ensured = λ t. refl;
  listed = λ t. refl;
  read = λ t f. refl;
  compiled = λ t s. refl;
  output = λ t f json. refl;
}

compile_keeps_example :
    ((compile_contracts machine []).0 ≡ outcome (first_error (λ f. results (sources f)) files))
    × (written (compile_contracts machine []).1 ≡ contracts_before (λ f. results (sources f)) files)
compile_keeps_example = compile_keeps machine files sources results served []

car_kept :
    ((compile_contracts machine []).0 ≡ throw (error "expected ;"))
    × (written (compile_contracts machine []).1 ≡ (codes "Car.json", codes "{}") ∷ [])
unfolding compile_contracts
car_kept = (refl, refl)

address_written :
    (deploy machine []).1
    ≡ exit
      ∷ write_address "0x7"
      ∷ send_deployment (codes "[]") (codes "0x60") (some "0x1") 5000000
      ∷ get_accounts
      ∷ require_compiled (codes "ProjectList.json")
      ∷ []
unfolding deploy
address_written = refl

two_sent :
    (sample_projects machine []).1
    ≡ send_new_project
        (codes "[]")
        "0x7"
        (codes "Ethereum Video Tutorial")
        (codes "0.1")
        (codes "1")
        (codes "5")
        (some "0x1")
      ∷ send_new_project
          (codes "[]")
          "0x7"
          (codes "Ethereum DApp Tutorial")
          (codes "0.01")
          (codes "0.1")
          (codes "1")
          (some "0x1")
      ∷ get_accounts
      ∷ require_address
      ∷ require_compiled (codes "ProjectList.json")
      ∷ []
unfolding sample_projects
two_sent = refl

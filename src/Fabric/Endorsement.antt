-- ===== src/Fabric/Endorsement.antt =====
-- The check of the endorsing peers' answers in invokeChaincode, instantiateChaincode and
-- installChaincode (balance-transfer/app).
use blockchain_tutorial.Prelude.{
  ◌≡◌, Bool, true, false, ◌&&◌, Option, none, some, List, [], ◌∷◌, ◌==◌, arith, All, if◌then◌else◌,
}
use blockchain_tutorial.Js.{type_error, pure, raise}
use blockchain_tutorial.Fabric.{ProposalResponse, Action}

-- `r.response && r.response.status === 200`
abbrev pub is_good : ProposalResponse → Bool
is_good r = elim r.status [ none ↦ false | some s ↦ s == 200 ]

-- The loop `all_good = all_good & one_good`.
pub all_good_from : Bool → List ProposalResponse → Bool
all_good_from acc [] = acc
all_good_from acc (r ∷ rs) = all_good_from (acc && is_good r) rs

-- `for (var i in proposalResponses)` makes no round where there are no responses.
unfoldable pub all_good : Option (List ProposalResponse) → Bool
unfolding all_good_from
all_good none = true
all_good (some rs) = all_good_from true rs

abbrev pub responses : Option (List ProposalResponse) → List ProposalResponse
responses none = []
responses (some rs) = rs

-- The log line of the good case reads `proposalResponses[0].endorsement.signature`.
abbrev pub log_first : Option (List ProposalResponse) → Action Unit
log_first none = raise (type_error "Cannot read property '0' of undefined")
log_first (some []) = raise (type_error "Cannot read property 'response' of undefined")
log_first (some (r ∷ _)) =
    if r.endorsed
    then pure tt
    else raise (type_error "Cannot read property 'signature' of undefined")

-- The loop of `installChaincode`: at the first bad response the log call itself throws, since an
-- array has no `toJSON`.
unfoldable pub check_installed : List ProposalResponse → Action Unit
check_installed [] = pure tt
check_installed (r ∷ rs) =
    let rest = check_installed rs in
    if is_good r then rest else raise (type_error "proposalResponses.toJSON is not a function")

abbrev pub IsGood : ProposalResponse → Type 0
IsGood r = is_good r ≡ true

all_good_from-All :
    (acc : Bool) (rs : List ProposalResponse)
    → all_good_from acc rs ≡ true
    → (acc ≡ true) × All IsGood rs
unfolding all_good_from
all_good_from-All acc [] h = (h, tt)
all_good_from-All acc (r ∷ rs) h = ground (arith, all_good_from-All (acc && is_good r) rs)

pub all_good-All :
    (o : Option (List ProposalResponse)) → all_good o ≡ true → All IsGood (responses o)
unfolding all_good
all_good-All none h = tt
all_good-All (some rs) h = (all_good_from-All true rs h).1

-- ===== src/Server/Tests.antt =====
-- The theorems about the server at a few requests.
use blockchain_tutorial.Prelude.{
  ◌≡◌, ◌⊎◌, refl, true, false, Option, some, none, [], ◌∷◌, String, All,
}
use blockchain_tutorial.Js.{ok}
use blockchain_tutorial.Fabric.Demo.{sdk}
use blockchain_tutorial.Fabric.Submission.Safety.{OnlyEndorsed}
use blockchain_tutorial.Server.{
  Identity, anonymous, Platform, authenticate, mentions_users, is_present, post_instantiate,
  post_invoke, Request,
}
use blockchain_tutorial.Server.Endpoints.{handle}
use blockchain_tutorial.Server.Access.{authenticate_sound}
use blockchain_tutorial.Server.Validation.{missing_field_asks_nothing}
use blockchain_tutorial.Server.Safety.{handle-OnlyEndorsed, IsSwapped, instantiate_swaps}

abbrev alice : Identity
alice = record { username = some "alice"; orgname = some "Org1" }

abbrev check_token : Option String → Option Identity
check_token none = none
check_token (some s) = some alice

abbrev platform : Platform
platform = record {
  verify = check_token;
  sign = λ username org. "token";
  parse_json = λ s. ok (s ∷ []);
}

-- The identity of a query is lost where the URL mentions the users.
authenticate_sound_example :
    ((mentions_users "/channels?next=/users" ≡ false)
      × (check_token (some "token") ≡ some anonymous))
    ⊎ ((mentions_users "/channels?next=/users" ≡ true)
        × (anonymous ≡ anonymous)
        × (◌≡◌ {A = String} "/channels" "/users"
            ⊎ (is_present (check_token (some "token")) ≡ true)))
unfolding authenticate
authenticate_sound_example =
    authenticate_sound platform "/channels" "/channels?next=/users" (some "token") anonymous refl

abbrev invocation : Request
invocation = post_invoke "mychannel" "mycc" none (some "move") (some ("a" ∷ "b" ∷ "10" ∷ []))

handle-OnlyEndorsed_example : OnlyEndorsed (handle platform sdk alice invocation []).1
handle-OnlyEndorsed_example = handle-OnlyEndorsed platform sdk alice invocation [] tt

abbrev no_function : Request
no_function = post_invoke "mychannel" "mycc" none none (some [])

missing_field_asks_nothing_example : (handle platform sdk alice no_function []).1 ≡ []
unfolding handle
missing_field_asks_nothing_example =
    missing_field_asks_nothing platform sdk alice no_function "'fcn'" []
      (handle platform sdk alice no_function []).1 refl

instantiate_swaps_example :
    All
      (IsSwapped (some "node") (some "init"))
      (handle platform sdk alice
        (post_instantiate "mychannel" none
          (some "mycc")
          (some "v0")
          (some "node")
          (some "init")
          (some ("a" ∷ [])))
        []).1
instantiate_swaps_example =
    instantiate_swaps platform sdk alice "mychannel" none (some "mycc") (some "v0") (some "node")
      (some "init") (some ("a" ∷ [])) [] tt

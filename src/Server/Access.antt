-- ===== src/Server/Access.antt =====
-- Who is admitted to an endpoint.
use blockchain_tutorial.Prelude.{
  ◌≡◌, ◌⊎◌, true, false, Option, some, String, arith, str_eq, Bool-cases, eq_iff,
}
use blockchain_tutorial.Server.{
  Identity, anonymous, Platform, admitted, authenticate, mentions_users, is_present,
}

-- Whoever is admitted at a URL in which `/users` does not occur is the identity of a token that
-- the token library has verified. At a URL in which it occurs, whoever is admitted is anonymous,
-- and has either such a token or asks for the path `/users` itself.
pub authenticate_sound :
    (pf : Platform) (path url : String) (token : Option String) (i : Identity)
    → authenticate pf path url token ≡ admitted i
    → ((mentions_users url ≡ false) × (pf.verify token ≡ some i))
      ⊎ ((mentions_users url ≡ true)
          × (i ≡ anonymous)
          × ((path ≡ "/users") ⊎ (is_present (pf.verify token) ≡ true)))
unfolding authenticate
authenticate_sound pf path url token i h = ground (
  arith,
  eq_iff path "/users",
  Bool-cases (mentions_users url),
  Bool-cases (str_eq path "/users"),
)

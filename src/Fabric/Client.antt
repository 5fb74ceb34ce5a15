-- ===== src/Fabric/Client.antt =====
-- balance-transfer/app/helper.js
pub mod Registered
use blockchain_tutorial.Prelude.{
  Bool, not, Option, none, some, List, [], ◌∷◌, String, if◌then◌else◌,
}
use Prim.Native.String.{◌++◌}
use blockchain_tutorial.Js.{error, type_error, to_text, pure, raise, catch, ◌>>=◌, ◌>>◌, is_truthy}
use blockchain_tutorial.Fabric.{
  User, Sdk, Action, call, load_network, load_org, init_stores, get_user_context, set_user_context,
  get_authority, register, get_channel,
}

-- A value in a string concatenation.
abbrev pub shown : Option String → String
shown none = "undefined"
shown (some s) = s

abbrev pub check_user : String → Option User → Action Unit
check_user name none = raise (error ("User was not found : " ++ name))
check_user name (some u) = pure tt

module _ (sdk : Sdk) where
  abbrev pub check_username : Option String → Action Unit
  check_username none = pure tt
  check_username (some name) =
      if is_truthy (some name)
      then (do user ← call sdk (get_user_context name); check_user name user)
      else pure tt

  -- `getClientForOrg`
  unfoldable pub get_client_for_org : Option String → Option String → Action Unit
  get_client_for_org userorg username = do
    call sdk (load_network (sdk.setting ("network" ++ "-connection-profile-path")))
    call sdk (load_org (sdk.setting (shown userorg ++ "-connection-profile-path")))
    call sdk init_stores
    check_username username

  abbrev pub check_channel : Option String → Bool → Action Unit
  check_channel channel found =
      if not found
      then raise
          (error ("Channel " ++ shown channel ++ " was not defined in the connection profile"))
      else pure tt

  -- The opening of the operations on a channel: the client, its channel, and the check of it.
  unfoldable pub open_channel : Option String → Option String → Option String → Action Unit
  unfolding get_client_for_org
  open_channel org username channel = do
    get_client_for_org org username
    found ← call sdk (get_channel channel)
    check_channel channel found

-- The three values that `getRegisteredUser` can return: an object, a text, `undefined`.
pub data Registration : Type 0 where
  registered : Option String → String → Registration
  failed : String → Registration
  nothing : Registration

abbrev pub is_enrolled : Option User → Bool
is_enrolled none = Bool.false
is_enrolled (some u) = u.is_enrolled

module _ (sdk : Sdk) where
  -- `admins[0]`
  abbrev pub first_admin : Option (List (String × String)) → Action (String × String)
  first_admin none = raise (type_error "Cannot read property '0' of undefined")
  first_admin (some []) = raise (type_error "Cannot read property 'username' of undefined")
  first_admin (some (a ∷ _)) = pure a

  -- The registration of a user that is not enrolled yet.
  unfoldable pub enroll : String → String → Action (Option User)
  enroll username org = do
    admin ← first_admin sdk.admins
    call sdk (set_user_context admin.0 admin.1)
    call sdk get_authority
    secret ← call sdk (register username org)
    call sdk (set_user_context username secret)

  -- `user.isEnrolled` without a call is a function, which is true.
  abbrev pub report : String → Bool → Option User → Action Registration
  report username is_json none = raise (error "User was not enrolled ")
  report username is_json (some u) =
      if is_json
      then pure (registered u.secret (username ++ " enrolled Successfully"))
      else pure nothing

  -- `getRegisteredUser`
  unfoldable pub get_registered_user : String → String → Bool → Action Registration
  unfolding get_client_for_org enroll
  get_registered_user username org is_json =
      catch
        (do
          get_client_for_org sdk (some org) none
          found ← call sdk (get_user_context username)
          user ← if is_enrolled found then pure found else enroll username org
          report username is_json user)
        (λ e. pure (failed ("failed " ++ to_text e)))

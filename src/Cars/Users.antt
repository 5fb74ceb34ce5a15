-- ===== src/Cars/Users.antt =====
-- 汽车项目/enrollAdmin.js and 汽车项目/registerUser.js: each script's chain of promises, to the last
-- line that it prints.
pub mod Registered
use text.Mathlib.Text.{find?}
use blockchain_tutorial.Prelude.{Bool, true, false, Option, none, some, String, if◌then◌else◌}
use blockchain_tutorial.Js.{Exception, error, to_text, pure, raise, catch, ◌>>=◌, ◌>>◌}
use blockchain_tutorial.Cars.{
  User, Sdk, Action, call, open_store, get_user_context, enroll, register, create_user,
  set_user_context, is_enrolled, member,
}

-- The last line of a script: success, or the error, for `registerUser.js` with the hint on
-- authorization or without it.
pub data Report : Type 0 where
  ready : Report
  failed : String → Bool → Report

-- `err.toString().indexOf('Authorization') > -1`
abbrev pub mentions_authorization : String → Bool
mentions_authorization s = elim (find? s "Authorization") [ none ↦ false | some _ ↦ true ]

module _ (sdk : Sdk) where
  -- The branch that enrolls the administrator: any error becomes a new one.
  unfoldable pub enroll_new_admin : Action User
  enroll_new_admin =
      catch
        (do
          enrollment ← call sdk (enroll "admin" "adminpw")
          user ← call sdk (create_user "admin" enrollment)
          call sdk (set_user_context user)
          pure user)
        (λ e. raise (error "Failed to enroll admin"))

  abbrev pub admin_of : Option User → Action User
  admin_of none = enroll_new_admin
  admin_of (some u) = if u.is_enrolled then pure u else enroll_new_admin

  unfoldable pub enroll_admin : Action Report
  unfolding enroll_new_admin
  enroll_admin =
      catch
        (do
          call sdk open_store
          found ← call sdk (get_user_context "admin")
          admin ← admin_of found
          pure ready)
        (λ e. pure (failed (to_text e) false))

  abbrev pub need_enrolled : String → Option User → Action Unit
  need_enrolled message found = if is_enrolled found then pure tt else raise (error message)

  -- The chain before its `catch`.
  unfoldable pub try_register : Action Report
  try_register = do
    call sdk open_store
    found ← call sdk (get_user_context "admin")
    need_enrolled "Failed to get admin.... run enrollAdmin.js" found
    secret ← call sdk (register member)
    enrollment ← call sdk (enroll member secret)
    user ← call sdk (create_user member enrollment)
    call sdk (set_user_context user)
    pure ready

  unfoldable pub register_user : Action Report
  unfolding try_register
  register_user =
      catch try_register (λ e. pure (failed (to_text e) (mentions_authorization (to_text e))))

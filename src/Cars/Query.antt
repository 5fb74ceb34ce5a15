-- ===== src/Cars/Query.antt =====
-- 汽车项目/query.js
use blockchain_tutorial.Prelude.{Option, none, some, List, [], ◌∷◌, String}
use blockchain_tutorial.Js.{Exception, to_text, pure, catch, ◌>>=◌, ◌>>◌}
use blockchain_tutorial.Cars.{
  Sdk, Action, call, open_store, get_user_context, query_all_cars, Payload, error_of, bytes, member,
}
use blockchain_tutorial.Cars.Users.{need_enrolled}

-- The last line that the script prints.
pub data Report : Type 0 where
  response : String → Report
  query_error : Exception → Report
  no_payloads : Report
  failed : String → Report

-- `query_responses && query_responses.length == 1`
abbrev pub read_payloads : Option (List Payload) → Report
read_payloads none = no_payloads
read_payloads (some []) = no_payloads
read_payloads (some (error_of e ∷ [])) = query_error e
read_payloads (some (bytes s ∷ [])) = response s
read_payloads (some (p ∷ q ∷ ps)) = no_payloads

unfoldable pub query_cars : Sdk → Action Report
query_cars sdk =
    catch
      (do
        call sdk open_store
        found ← call sdk (get_user_context member)
        need_enrolled sdk "获取用户zuoyuan失败.... 运行registerUser.js" found
        payloads ← call sdk query_all_cars
        pure (read_payloads payloads))
      (λ e. pure (failed (to_text e)))

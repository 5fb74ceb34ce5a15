-- ===== src/Crowdfunding/Page/Sends.antt =====
-- What the two buttons of a payment send and show.
use blockchain_tutorial.Prelude.{
  ℕ, ◌≡◌, ◌⊎◌, inl, inr, refl, Bool, true, false, not, Option, none, some, List, [], ◌∷◌, String,
  arith, All, eq_iff,
}
use blockchain_tutorial.Crowdfunding.Page.Rules.{
  show-Keeps, ask-Keeps, Keeps-finally, guarded-Keeps,
}
use blockchain_tutorial.Js.Number.{Text}
use blockchain_tutorial.Crowdfunding.Page.Forms.{
  Units, ProjectProps, text_of, guarded, tried, contribute, create, request, contribution_tests,
  project_tests, payment_tests, convert_and_create, convert_and_request, contribute_project,
  create_project, create_payment_submitted,
}
use blockchain_tutorial.Js.{Exception, lift, ◌>>=◌, Outcome, ok, throw, pending}
use blockchain_tutorial.Js.Trace.{Keeps, Keeps-lift, Keeps-if, Keeps-bind, Keeps-catch}
use blockchain_tutorial.Crowdfunding.Page.{
  Event, get_accounts, send_payment, send_new_payment, alert, reload, set_voting, set_paying,
  set_loading, set_error, open_project, Wallet, Action, ask, show, first, message_of, finish,
  is_owner, vote_clicked, pay_clicked,
}

-- A transaction for a payment comes from the owner.
abbrev pub FromOwner : String → Event → Type 0
FromOwner owner (send_payment _ sender) = sender ≡ some owner
FromOwner owner (send_new_payment _ _ _ sender) = sender ≡ some owner
FromOwner owner _ = Unit

owner_known : (a : Option String) (owner : String) → is_owner a owner ≡ true → a ≡ some owner
owner_known none owner h = cc
owner_known (some a) owner h = ground (arith, eq_iff a owner)

pay_clicked-FromOwner :
    (w : Wallet) (owner : String) (index : ℕ)
    → Keeps (All (FromOwner owner)) (pay_clicked w owner index)
unfolding pay_clicked
pay_clicked-FromOwner w owner index =
    let P = FromOwner owner in
    Keeps-finally (All P) _ _
      (Keeps-catch _ (λ e. show (alert (message_of e)))
        (Keeps-bind (show (set_paying (some index))) _ (show-Keeps P (set_paying (some index)) tt)
          λ _. Keeps-bind (ask w get_accounts) _ (ask-Keeps w P get_accounts tt) λ accounts.
            Keeps-if (not (is_owner (first accounts) owner)) _ _
              (λ _. show-Keeps P (alert "只有项目方才能划转资金!") tt)
              (λ own.
                Keeps-bind (ask w (send_payment index (first accounts))) _
                  (ask-Keeps w P (send_payment index (first accounts))
                    (owner_known (first accounts) owner (ground arith)))
                  λ _.
                    Keeps-bind (show (alert "资金划转成功!")) _ (show-Keeps P (alert "资金划转成功!") tt)
                      λ _. show-Keeps P reload tt))
        (λ e. show-Keeps P (alert (message_of e)) tt))
      (show-Keeps P (set_paying none) tt)

request-FromOwner :
    (w : Wallet) (u : Units) (owner : String) (description wei receiver : Text)
    → Keeps (All (FromOwner owner)) (request w u owner description wei receiver)
request-FromOwner w u owner description wei receiver =
    let P = FromOwner owner in
    Keeps-bind (show (set_loading true)) _ (show-Keeps P (set_loading true) tt) λ _.
      Keeps-bind (ask w get_accounts) _ (ask-Keeps w P get_accounts tt) λ accounts.
        Keeps-if (not (is_owner (first accounts) owner)) _ _
          (λ _. show-Keeps P (alert "只有项目方才能创建资金支出请求") tt)
          (λ own.
            Keeps-bind (ask w (send_new_payment description wei receiver (first accounts))) _
              (ask-Keeps w P (send_new_payment description wei receiver (first accounts))
                (owner_known (first accounts) owner (ground arith)))
              λ _.
                Keeps-bind (show (set_error "资金支出请求创建成功")) _
                  (show-Keeps P (set_error "资金支出请求创建成功") tt) λ _. show-Keeps P open_project tt)

create_payment-FromOwner :
    (w : Wallet) (u : Units) (owner : String) (description amount : Text) (receiver : Option Text)
    → Keeps (All (FromOwner owner)) (create_payment_submitted w u owner description amount receiver)
unfolding create_payment_submitted
create_payment-FromOwner w u owner description amount receiver =
    let P = FromOwner owner in
    guarded-Keeps P (payment_tests w u description amount receiver)
      (convert_and_request w u owner description amount (text_of receiver)) (λ m. tt)
      (Keeps-bind (lift (u.to_wei amount)) _ (Keeps-lift (u.to_wei amount)) λ wei.
        Keeps-finally (All P) _ (show (set_loading false))
          (Keeps-catch (request w u owner description wei (text_of receiver))
            (λ e. show (set_error (message_of e)))
            (request-FromOwner w u owner description wei (text_of receiver))
            (λ e. show-Keeps P (set_error (message_of e)) tt))
          (show-Keeps P (set_loading false) tt))

-- Whatever the wallet answers, the button for a payment and the form for a new payment send no
-- transaction for it but one of the project's owner, where none was sent before.
pub payment_FromOwner :
    (w : Wallet) (u : Units) (owner : String) (index : ℕ) (description amount : Text)
    (receiver : Option Text) (t : List Event)
    → All (FromOwner owner) t
    → All (FromOwner owner) (pay_clicked w owner index t).1
      × All (FromOwner owner) (create_payment_submitted w u owner description amount receiver t).1
payment_FromOwner w u owner index description amount receiver t h = (
  (pay_clicked-FromOwner w owner index).at t h,
  (create_payment-FromOwner w u owner description amount receiver).at t h,
)

finish-last :
    (o : Outcome Exception Unit) (t : List Event) (c : Event)
    → ((finish o t (show c)).0 ≡ pending) ⊎ ((u : List Event) × ((finish o t (show c)).1 ≡ c ∷ u))
finish-last (ok a) t c = inr (t, refl)
finish-last (throw e) t c = inr (t, refl)
finish-last pending t c = inl refl

-- How a form ends that started with the record `t`: it waits for ever, it has taken its progress
-- sign away, it has only shown a message, or the text of an amount has thrown before all that.
pub data IsOver (t : List Event) (r : Outcome Exception Unit × List Event) : Type 0 where
  waits : r.0 ≡ pending → IsOver t r
  finished : (u : List Event) → r.1 ≡ set_loading false ∷ u → IsOver t r
  refused : (m : String) → r.1 ≡ set_error m ∷ t → IsOver t r
  failed : (e : Exception) → r ≡ (throw e, t) → IsOver t r

guarded-IsOver :
    (tests : List (Bool × String)) (rest : Action Unit) (t : List Event)
    → IsOver t (rest t)
    → IsOver t (guarded tests rest t)
guarded-IsOver [] rest t h = h
guarded-IsOver ((true, m) ∷ tests) rest t h = refused m refl
guarded-IsOver ((false, m) ∷ tests) rest t h = guarded-IsOver tests rest t h

lift-IsOver :
    (o : Outcome Exception Text) (f : Text → Action Unit) (t : List Event)
    → ((a : Text) → IsOver t (f a t))
    → IsOver t ((lift o >>= f) t)
lift-IsOver (ok a) f t h = h a
lift-IsOver (throw e) f t h = failed e refl
lift-IsOver pending f t h = waits refl

finish-IsOver :
    (o : Outcome Exception Unit) (s t : List Event)
    → IsOver t (finish o s (show (set_loading false)))
finish-IsOver (ok a) s t = finished s refl
finish-IsOver (throw e) s t = finished s refl
finish-IsOver pending s t = waits refl

tried-IsOver : (body : Action Unit) (t : List Event) → IsOver t (tried body t)
tried-IsOver body t = finish-IsOver _ _ t

create-IsOver :
    (w : Wallet) (u : Units) (description low high goal : Text) (t : List Event)
    → IsOver t (convert_and_create w u description low high goal t)
create-IsOver w u description low high goal t =
    lift-IsOver (u.to_wei low)
      (λ a. do
        b ← lift (u.to_wei high)
        c ← lift (u.to_wei goal)
        tried (create w u description a b c))
      t
      λ a.
        lift-IsOver (u.to_wei high)
          (λ b. do c ← lift (u.to_wei goal); tried (create w u description a b c)) t
          λ b.
            lift-IsOver (u.to_wei goal) (λ c. tried (create w u description a b c)) t
              λ c. tried-IsOver (create w u description a b c) t

request-IsOver :
    (w : Wallet) (u : Units) (owner : String) (description amount receiver : Text) (t : List Event)
    → IsOver t (convert_and_request w u owner description amount receiver t)
request-IsOver w u owner description amount receiver t =
    lift-IsOver (u.to_wei amount) (λ a. tried (request w u owner description a receiver)) t
      λ a. tried-IsOver (request w u owner description a receiver) t

-- Whatever the wallet answers or throws, each of the two buttons ends by taking its progress sign
-- away, unless it waits for ever for the wallet; and each of the three forms does so as well,
-- unless it has done nothing but show a message, or web3 throws on the text of an amount before
-- the sign is shown.
pub progress_ends :
    (w : Wallet) (u : Units) (p : ProjectProps) (index : ℕ) (description amount : Text)
    (input min_invest max_invest goal receiver : Option Text) (t : List Event)
    → (((vote_clicked w index t).0 ≡ pending)
        ⊎ ((s : List Event) × ((vote_clicked w index t).1 ≡ set_voting none ∷ s)))
      × (((pay_clicked w p.owner index t).0 ≡ pending)
          ⊎ ((s : List Event) × ((pay_clicked w p.owner index t).1 ≡ set_paying none ∷ s)))
      × IsOver t (contribute_project w u p input t)
      × IsOver t (create_project w u description min_invest max_invest goal t)
      × IsOver t (create_payment_submitted w u p.owner description amount receiver t)
unfolding vote_clicked pay_clicked contribute_project create_project create_payment_submitted
progress_ends w u p index description amount input min_invest max_invest goal receiver t = (
  finish-last _ _ (set_voting none),
  finish-last _ _ (set_paying none),
  guarded-IsOver (contribution_tests w u p input) _ t
      (tried-IsOver (contribute w u (text_of input)) t),
  guarded-IsOver (project_tests w u description min_invest max_invest goal) _ t
      (create-IsOver w u description (text_of min_invest) (text_of max_invest) (text_of goal) t),
  guarded-IsOver (payment_tests w u description amount receiver) _ t
      (request-IsOver w u p.owner description amount (text_of receiver) t),
)

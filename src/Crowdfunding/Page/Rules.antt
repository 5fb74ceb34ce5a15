-- ===== src/Crowdfunding/Page/Rules.antt =====
-- What a predicate on the events of a page must satisfy so that the parts of a handler keep it.
use blockchain_tutorial.Prelude.{Bool, List, [], ◌∷◌, String, All}
use blockchain_tutorial.Crowdfunding.Page.Forms.{guarded}
use blockchain_tutorial.Js.{Exception, Outcome, ok, throw, pending}
use blockchain_tutorial.Js.Trace.{Keeps, Keeps-if}
use blockchain_tutorial.Crowdfunding.Page.{
  Event, set_error, Wallet, Action, ask, show, finish, finally,
}

pub show-Keeps : (P : Event → Type 0) (c : Event) → P c → Keeps (All P) (show c)
show-Keeps P c h = record { at = λ t p. (h, p) }

pub ask-Keeps : (w : Wallet) (P : Event → Type 0) (c : Event) → P c → Keeps (All P) (ask w c)
ask-Keeps w P c h = record { at = λ t p. (h, p) }

finish-keeps :
    (P : List Event → Type 0) (o : Outcome Exception Unit) (t : List Event) (last : Action Unit)
    → P t
    → Keeps P last
    → P (finish o t last).1
finish-keeps P (ok a) t last p k = k.at t p
finish-keeps P (throw e) t last p k = k.at t p
finish-keeps P pending t last p k = p

pub Keeps-finally :
    (P : List Event → Type 0) (m last : Action Unit)
    → Keeps P m
    → Keeps P last
    → Keeps P (finally m last)
Keeps-finally P m last km kl = record {
  at = λ t p. finish-keeps P (m t).0 (m t).1 last (km.at t p) kl;
}

pub guarded-Keeps :
    (P : Event → Type 0) (tests : List (Bool × String)) (rest : Action Unit)
    → ((m : String) → P (set_error m))
    → Keeps (All P) rest
    → Keeps (All P) (guarded tests rest)
guarded-Keeps P [] rest h k = k
guarded-Keeps P ((test, m) ∷ tests) rest h k =
    Keeps-if test (show (set_error m)) (guarded tests rest) (λ _. show-Keeps P (set_error m) (h m))
      (λ _. guarded-Keeps P tests rest h k)

-- ===== src/Crowdfunding/Scripts/Compiled.antt =====
-- scripts/compile.js: what is in the directory of compiled contracts after it.
use mathlib.Core.List.{append_assoc, append-nil}
use blockchain_tutorial.Prelude.{
  ◌≡◌, refl, sym, ap, ◌∙◌, Option, none, some, List, [], ◌∷◌, ◌++◌, String,
}
use blockchain_tutorial.Js.{Exception, error, Outcome, ok, throw, ◌>>◌}
use blockchain_tutorial.Js.Number.{Text}
use blockchain_tutorial.Crowdfunding.Scripts.{
  CompileResult, Event, remove_compiled, ensure_compiled, read_contracts, read_source, compile,
  output_json, Machine, Action, file_of, check_errors, save_contracts, compile_files,
  compile_contracts,
}

-- The files of the directory, in the order of the writes.
abbrev pub written : List Event → List (Text × Text)
written [] = []
written (remove_compiled ∷ t) = []
written (output_json file json ∷ t) = written t ++ (file, json) ∷ []
written (_ ∷ t) = written t

abbrev named : List (Text × Text) → List (Text × Text)
named [] = []
named ((name, json) ∷ cs) = (file_of name, json) ∷ named cs

-- The first of the errors of a file, or what comes later.
abbrev first_of : Option (List String) → Option String → Option String
first_of none later = later
first_of (some []) later = later
first_of (some (e ∷ es)) later = some e

abbrev kept : Option (List String) → List (Text × Text) → List (Text × Text)
kept none cs = cs
kept (some []) cs = cs
kept (some (e ∷ es)) cs = []

abbrev pub outcome : Option String → Outcome Exception Unit
outcome none = ok tt
outcome (some e) = throw (error e)

module _ (results : Text → CompileResult) where
  -- The first error that the compiler finds in the files.
  abbrev pub first_error : List Text → Option String
  first_error [] = none
  first_error (f ∷ fs) = first_of (results f).errors (first_error fs)

  -- The files of the contracts of the files that come before it.
  abbrev pub contracts_before : List Text → List (Text × Text)
  contracts_before [] = []
  contracts_before (f ∷ fs) =
      kept (results f).errors (named (results f).contracts ++ contracts_before fs)

-- The disk has these sources, the compiler these results, and the disk can be written.
pub record Serves (w : Machine) (files : List Text) (sources : Text → Text)
    (results : Text → CompileResult) : Type 0 where
  pub removed : (t : List Event) → w.answer t remove_compiled ≡ ok tt
  pub ensured : (t : List Event) → w.answer t ensure_compiled ≡ ok tt
  pub listed : (t : List Event) → w.answer t read_contracts ≡ ok files
  pub read : (t : List Event) (f : Text) → w.answer t (read_source f) ≡ ok (sources f)
  pub compiled : (t : List Event) (s : Text) → w.answer t (compile s) ≡ ok (results s)
  pub output : (t : List Event) (f json : Text) → w.answer t (output_json f json) ≡ ok tt

abbrev Leaves : Action Unit → List Event → Option String → List (Text × Text) → Type 0
Leaves m t e out = ((m t).0 ≡ outcome e) × (written (m t).1 ≡ out)

module _ (w : Machine) (files : List Text) (sources : Text → Text) (results : Text → CompileResult)
    (served : Serves w files sources results) where
  saved :
      (cs : List (Text × Text)) (rest : Action Unit) (t : List Event) (e : Option String)
      (out : List (Text × Text))
      → ((u : List Event) → written u ≡ written t ++ named cs → Leaves rest u e out)
      → Leaves (save_contracts w cs >> rest) t e out
  saved [] rest t e out h = h t (sym (append-nil (written t)))
  saved ((name, json) ∷ cs) rest t e out h =
      let next =
        saved cs rest (output_json (file_of name) json ∷ t) e out
          (λ u p. h u (p ∙ append_assoc (written t) ((file_of name, json) ∷ []) (named cs))) in
      rw (served.output t (file_of name) json) next

  checked :
      (es : Option (List String)) (cs : List (Text × Text)) (rest : Action Unit) (t : List Event)
      (e : Option String) (out : List (Text × Text))
      → ((u : List Event)
          → written u ≡ written t ++ named cs
          → Leaves rest u e (written t ++ (named cs ++ out)))
      → Leaves
          (check_errors es >> (save_contracts w cs >> rest))
          t
          (first_of es e)
          (written t ++ kept es (named cs ++ out))
  checked none cs rest t e out h = saved cs rest t e _ h
  checked (some []) cs rest t e out h = saved cs rest t e _ h
  checked (some (e' ∷ es)) cs rest t e out h = (refl, sym (append-nil (written t)))

  files-Leaves :
      (fs : List Text) (t : List Event)
      → let found = λ (f : Text). results (sources f) in
        Leaves
          (compile_files w fs)
          t
          (first_error found fs)
          (written t ++ contracts_before found fs)
  files-Leaves [] t = (refl, sym (append-nil (written t)))
  files-Leaves (f ∷ fs) t =
      let found = λ (g : Text). results (sources g) in
      let r = results (sources f) in
      let next =
        checked r.errors r.contracts (compile_files w fs) (compile (sources f) ∷ read_source f ∷ t)
          (first_error found fs) (contracts_before found fs)
          (λ u p. (
            (files-Leaves fs u).0,
            (files-Leaves fs u).1
                ∙ ap (λ l. l ++ contracts_before found fs) p
                ∙ append_assoc (written t) (named r.contracts) (contracts_before found fs),
          )) in
      rw (served.read t f) (rw (served.compiled (read_source f ∷ t) (sources f)) next)

  -- compile.js, where the disk and the compiler work: it ends well if the compiler finds no error in
  -- any file, and otherwise throws the first error of the first file that has one. In either case
  -- the directory of compiled contracts holds what was written in this run: the contracts of the
  -- files before that one, in the order of the files, under their names without the colon.
  pub compile_keeps :
      (t : List Event)
      → let found = λ (f : Text). results (sources f) in
        ((compile_contracts w t).0 ≡ outcome (first_error found files))
        × (written (compile_contracts w t).1 ≡ contracts_before found files)
  unfolding compile_contracts
  compile_keeps t =
      let next = files-Leaves files (read_contracts ∷ ensure_compiled ∷ remove_compiled ∷ t) in
      rw (served.removed t) (
        rw (served.ensured (remove_compiled ∷ t))
          (rw (served.listed (ensure_compiled ∷ remove_compiled ∷ t)) next))

-- ===== src/App/Application/Dispatch.antt =====
-- What the words of the command line run.
use sprintframework.Common.{none, some, List, [], ◌∷◌, ◌≡◌, arith}
use sprintframework.Common.{
  bytes_eq, Bytes, codes, Result, ok, Result-cases, inl, inr, ◌∙◌, ap, ◌↔◌,
}
use sprintframework.Common.Dict
use sprintframework.Common.Dict.{Dict}
use sprintframework.App.Application.{
  ran, panicked, slice_out_of_range, run, dispatch, preprocess_args,
}

module _ {E C : Type 0} (parse : List Bytes → Result E (List Bytes)) (commands : Dict Bytes C) where
  dispatch-ran :
      (words : List Bytes) {inst : C} {rest : List Bytes}
      → dispatch {E = E} commands words ≡ ran inst rest
      → (cmd : Bytes) × (words ≡ cmd ∷ rest) × (Dict.lookup cmd commands ≡ some inst)
  unfolding dispatch
  dispatch-ran [] h = absurd (ground arith)
  dispatch-ran (cmd ∷ words) h = (cmd, ground arith, ground arith)

  run-ran :
      (args : List Bytes) {inst : C} {rest : List Bytes}
      → run none parse commands args ≡ ran inst rest
      → (cmd : Bytes) × (parse (preprocess_args args) ≡ ok (cmd ∷ rest))
        × (Dict.lookup cmd commands ≡ some inst)
  unfolding run
  run-ran args h = elim (Result-cases (parse (preprocess_args args))) [
    | inl (words, e) ↦
        let (cmd, e', found) = dispatch-ran words (rw (e, run) at h) in (cmd, e ∙ ap ok e', found)
    | inr (x, e) ↦ absurd (ground arith)
  ]

  -- A command runs with the arguments `rest` exactly if the flags leave the command's name and
  -- then `rest`.
  pub run-ran_iff :
      (args : List Bytes) (inst : C) (rest : List Bytes)
      → (run none parse commands args ≡ ran inst rest) ↔ (
          (cmd : Bytes) × (parse (preprocess_args args) ≡ ok (cmd ∷ rest))
          × (Dict.lookup cmd commands ≡ some inst))
  unfolding run
  run-ran_iff args inst rest = (λ h. run-ran args h, λ (cmd, e, found). ground arith)

  -- With a command named `default` and no word behind the flags, `Run` never gets to that
  -- command: the slice `args[1:]` of no arguments panics.
  pub run_default_panics :
      (args : List Bytes) {inst : C}
      → parse (preprocess_args args) ≡ ok []
      → Dict.lookup (codes "default") commands ≡ some inst
      → run none parse commands args ≡ panicked slice_out_of_range
  unfolding run
  run_default_panics args h e = ground arith

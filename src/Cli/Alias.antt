-- ===== src/Cli/Alias.antt =====
-- `send` and the commands of the same names.
use ocpp_cli.Prelude.{
  ◌≡◌, ℤ, refl, inl, inr, String, false, none, some, List, ◌∷◌, All, str_eq, str_eq_iff, Bool-cases,
}
use ocpp_cli.Prelude.Int.{string_eq}
use ocpp_cli.Prelude.Maps.{get, get-All}
use ocpp_cli.Station.{Simulator}
use ocpp_cli.Errors.{got}
use ocpp_cli.Cli.{Host}
use ocpp_cli.Cli.Stream.{Received}
use ocpp_cli.Cli.App.{
  Handler, send_operations, find_command, asks_help, send, send_named, run, run_named,
  run_normalised,
}

not_name_of :
    (name word : String) (handler : Handler)
    → get name send_operations ≡ some handler
    → get word send_operations ≡ none
    → str_eq name word ≡ false
not_name_of name word handler known unknown = elim (Bool-cases (str_eq name word)) [
  | inl same ↦ cc (rw ((str_eq_iff name word).0 same) at known)
  | inr differs ↦ differs
]

-- No operation is called like a request for help.
operation-not_help :
    (name : String) (handler : Handler)
    → get name send_operations ≡ some handler
    → asks_help name ≡ false
unfolding get
operation-not_help name handler known =
    rw
      (
        not_name_of name "help" handler known refl,
        not_name_of name "--help" handler known refl,
        not_name_of name "-h" handler known refl,
      )
      refl

-- The two switches send every operation to the same function.
operation-command :
    (simulate : Simulator → ℤ → Received) (name : String) (handler : Handler)
    → get name send_operations ≡ some handler
    → find_command simulate name ≡ some handler
unfolding find_command get
operation-command simulate name handler known =
    get-All (λ entry. find_command simulate entry.0 ≡ some entry.1) name handler send_operations
      same known
  where
    same : All (λ entry. find_command simulate entry.0 ≡ some entry.1) send_operations
    same = (
      refl,
      (
        refl,
        (
          refl,
          (
            refl,
            (refl, (refl, (refl, (refl, (refl, (refl, (refl, (refl, (refl, (refl, (tt))))))))))),
          ),
        ),
      ),
    )

-- Where the flags are already in place, so that the normalisation of global flags changes nothing,
-- an operation that `send` names is the command of the same name: same effects, same exit code.
pub run-send :
    (h : Host) (simulate : Simulator → ℤ → Received) (name : String) (args : List String)
    (handler : Handler)
    → get name send_operations ≡ some handler
    → h.normalise_global_flags (name ∷ args) ≡ got (name ∷ args)
    → h.normalise_global_flags ("send" ∷ name ∷ args) ≡ got ("send" ∷ name ∷ args)
    → run h simulate ("send" ∷ name ∷ args) ≡ run h simulate (name ∷ args)
unfolding run run_normalised run_named find_command send send_named
run-send h simulate name args handler known plain_args send_args =
    let no_help = operation-not_help name handler known in
    rw
      (
        send_args,
        plain_args,
        run_normalised,
        run_named,
        send,
        send_named,
        no_help,
        known,
        operation-command simulate name handler known,
      )
      refl

-- ===== src/Cli/Safety.antt =====
-- The guards of the two transaction commands, and how a rejection is reported.
use ocpp_cli.Prelude.{◌≡◌, refl, subst, String, Bool, true, false, List, any, arith}
use ocpp_cli.Errors.{Outcome, got, lost}
use ocpp_cli.Cli.{Host, Given, Mode, dry_run, execute, Effect, created, connecting, sent, Command}
use ocpp_cli.Cli.Flags.{parse_flags, or_default, as_config_failure}
use ocpp_cli.Cli.Render.{Snapshot, render_snapshot}
use ocpp_cli.Cli.Connection.{after}
use ocpp_cli.Cli.Meter.{
  start_plan, stop_plan, start_transaction, stop_transaction, resolve_mode, guarded_command,
}

-- The station is used.
abbrev pub uses_station : Effect → Bool
uses_station (created client) = true
uses_station connecting = true
uses_station (sent call) = true
uses_station _ = false

pub record Offline (command : Command) : Type 0 where
  pub offline : any uses_station command.1 ≡ false

after-Offline :
    {A : Type 0} (o : Outcome A) (run : A → Command)
    → ((a : A) → o ≡ got a → Offline (run a))
    → Offline (after o run)
after-Offline (got a) run h = h a refl
after-Offline (lost e) run h = record { offline = refl }

preview-Offline :
    (h : Host) (mode : Mode) (format : String) (shown : Snapshot) (real : Command)
    → mode ≡ dry_run
    → Offline (guarded_command h mode format shown real)
unfolding guarded_command render_snapshot
preview-Offline h dry_run format shown real q = record { offline = ground arith }
preview-Offline h execute format shown real q = cc

-- What the safety library's resolution of `--yes` and `--dry-run` gives, if it gives a mode.
abbrev pub IsDry : Outcome Mode → Type 0
IsDry (got mode) = mode ≡ dry_run
IsDry (lost e) = Unit

as_config_failure-IsDry : (h : Host) (o : Outcome Mode) → IsDry o → IsDry (as_config_failure h o)
unfolding as_config_failure
as_config_failure-IsDry h (got mode) d = d
as_config_failure-IsDry h (lost e) d = tt

resolve_mode-IsDry :
    (h : Host) (g : Given)
    → ((dry : Bool) → IsDry (h.resolve_mode false dry))
    → or_default (g.bools "yes") false ≡ false
    → IsDry (resolve_mode h g)
unfolding resolve_mode
resolve_mode-IsDry h g safe no_yes =
    as_config_failure-IsDry h _ (rw no_yes (safe (or_default (g.bools "dry-run") false)))

module _ (h : Host) (args : List String)
    (safe : (dry : Bool) → IsDry (h.resolve_mode false dry)) where
  start-Offline :
      ((g : Given)
        → parse_flags h "start-transaction" args ≡ got g
        → or_default (g.bools "yes") false ≡ false)
      → Offline (start_transaction h args)
  unfolding start_transaction
  start-Offline unconfirmed = after-Offline (parse_flags h "start-transaction" args) _ λ g parsed.
      after-Offline (start_plan h g) _ λ plan _. after-Offline (resolve_mode h g) _ λ mode resolved.
        preview-Offline h mode plan.format _ _
          (subst IsDry resolved (resolve_mode-IsDry h g safe (unconfirmed g parsed)))

  stop-Offline :
      ((g : Given)
        → parse_flags h "stop-transaction" args ≡ got g
        → or_default (g.bools "yes") false ≡ false)
      → Offline (stop_transaction h args)
  unfolding stop_transaction
  stop-Offline unconfirmed = after-Offline (parse_flags h "stop-transaction" args) _ λ g parsed.
      after-Offline (stop_plan h g) _ λ plan _. after-Offline (resolve_mode h g) _ λ mode resolved.
        preview-Offline h mode plan.format _ _
          (subst IsDry resolved (resolve_mode-IsDry h g safe (unconfirmed g parsed)))

-- Where the safety library never lets a request without `--yes` through, neither transaction command
-- makes a station, connects or sends anything unless `--yes` is given.
pub transactions-Offline :
    (h : Host) (start_args stop_args : List String)
    → ((dry : Bool) → IsDry (h.resolve_mode false dry))
    → ((g : Given)
        → parse_flags h "start-transaction" start_args ≡ got g
        → or_default (g.bools "yes") false ≡ false)
    → ((g : Given)
        → parse_flags h "stop-transaction" stop_args ≡ got g
        → or_default (g.bools "yes") false ≡ false)
    → Offline (start_transaction h start_args) × Offline (stop_transaction h stop_args)
transactions-Offline h start_args stop_args safe no_start no_stop =
    (start-Offline h start_args safe no_start, stop-Offline h stop_args safe no_stop)

-- ===== src/Cli/Checks.antt =====
-- internal/cli/commands_config.go.
use ocpp_cli.Prelude.{String, true, none, some, List, [], ◌∷◌, ◌++◌}
use ocpp_cli.Config.{ClientConfig}
use ocpp_cli.Errors.{Outcome, ◌>>=◌}
use ocpp_cli.Client.Setup.{Client}
use ocpp_cli.Cli.{Host, Value, text, flag, Command, cancelled, closed}
use ocpp_cli.Cli.Flags.{parse_flags, resolve_common}
use ocpp_cli.Cli.Render.{Snapshot, key_value_snapshot, render_snapshot}
use ocpp_cli.Cli.Connection.{after, between, opening, connected, new_station}

unfoldable pub check_plan : Host → String → List String → Outcome (ClientConfig × String)
unfolding parse_flags resolve_common
check_plan h name args = do g ← parse_flags h name args; resolve_common h g

unfoldable pub validate_config : Host → List String → Command
unfolding check_plan render_snapshot key_value_snapshot
validate_config h args = after (check_plan h "validate-config" args) λ plan.
    let (cfg, format) = plan in
    render_snapshot h format (
      key_value_snapshot
        (Value.fields (
          ("valid", flag true)
          ∷ ("protocol", text "ocpp1.6")
          ∷ ("central_system_url", text cfg.central_system_url)
          ∷ ("charge_point_id", text cfg.charge_point_id)
          ∷ ("format", text format)
          ∷ []))
        (("VALID", "true")
          ∷ ("PROTOCOL", "ocpp1.6")
          ∷ ("CENTRAL_SYSTEM_URL", cfg.central_system_url)
          ∷ ("CHARGE_POINT_ID", cfg.charge_point_id)
          ∷ ("FORMAT", format)
          ∷ []))

unfoldable pub connection_snapshot : ClientConfig → Snapshot
unfolding key_value_snapshot
connection_snapshot cfg =
    key_value_snapshot
      (Value.fields (
        ("connected", flag true)
        ∷ ("protocol", text "ocpp1.6")
        ∷ ("central_system_url", text cfg.central_system_url)
        ∷ ("charge_point_id", text cfg.charge_point_id)
        ∷ []))
      (("CONNECTED", "true")
        ∷ ("PROTOCOL", "ocpp1.6")
        ∷ ("CENTRAL_SYSTEM_URL", cfg.central_system_url)
        ∷ ("CHARGE_POINT_ID", cfg.charge_point_id)
        ∷ [])

-- The connection is closed before the result is rendered, and in both cases in the same order.
unfoldable pub probe : Host → Client → Command → Command
unfolding opening connected
probe h client body =
    let effects = opening client ++ (cancelled ∷ closed ∷ []) in
    elim (connected h client) [ some e ↦ (some e, effects) | none ↦ between effects body [] ]

unfoldable pub test_connection : Host → List String → Command
unfolding check_plan new_station probe render_snapshot connection_snapshot
test_connection h args = after (check_plan h "test-connection" args) λ plan.
    let (cfg, format) = plan in
    after (new_station h cfg)
      λ client. probe h client (render_snapshot h format (connection_snapshot cfg))

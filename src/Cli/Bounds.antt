-- ===== src/Cli/Bounds.antt =====
-- What a transaction that a command sends satisfies.
use ocpp_cli.Prelude.{
  ℤ, ◌≡◌, ◌≤◌, true, false, Option, none, some, List, [], ◌∷◌, str_eq, is_pos, any, arith,
}
use ocpp_cli.Startup.{is_negative}
use ocpp_cli.Text.{byte_length}
use ocpp_cli.Config.Validate.{IsValid}
use ocpp_cli.Errors.{got}
use ocpp_cli.Client.Types.{StartTransactionRequest}
use ocpp_cli.Cli.{Host, Given}
use ocpp_cli.Cli.Config.{resolve_common-IsValid}
use ocpp_cli.Cli.Flags.{resolve_common, snapshot_formats}
use ocpp_cli.Cli.Station.{Plan}
use ocpp_cli.Cli.Meter.{start_plan}

abbrev listed : Option ℤ → List ℤ
listed none = []
listed (some n) = n ∷ []

-- The limits of OCPP 1.6 and of the command's own help.
pub record IsPermitted (h : Host) (plan : Plan StartTransactionRequest) : Type 0 where
  pub connector_positive : is_pos (plan.request).connector_id ≡ true
  pub tag_given : str_eq (plan.request).id_tag "" ≡ false
  pub tag_short : byte_length (plan.request).id_tag ≤ 20
  pub meter_known : is_negative (plan.request).meter_start ≡ false
  pub reservation_known : any is_negative (listed (plan.request).reservation_id) ≡ false
  pub valid : IsValid h.parsers plan.cfg
  pub format_known : any (str_eq plan.format) snapshot_formats ≡ true

start_plan-common :
    (h : Host) (g : Given) (plan : Plan StartTransactionRequest)
    → start_plan h g ≡ got plan
    → resolve_common h g ≡ got (plan.cfg, plan.format)
unfolding start_plan
start_plan-common h g plan q = ground arith

-- A start of a transaction that is sent or shown keeps the limits of OCPP 1.6: a connector from 1
-- on, a tag of 1 to 20 bytes, a meter value and a reservation number that are not negative. Its
-- configuration is valid, and its output format is one that a snapshot can be rendered in.
pub start_plan-IsPermitted :
    (h : Host) (g : Given) (plan : Plan StartTransactionRequest)
    → start_plan h g ≡ got plan
    → IsPermitted h plan
unfolding start_plan
start_plan-IsPermitted h g plan q = record {
  connector_positive = ground arith;
  tag_given = ground arith;
  tag_short = ground arith;
  meter_known = ground arith;
  reservation_known = ground arith;
  valid = resolve_common-IsValid h g plan.cfg plan.format (start_plan-common h g plan q);
  format_known = ground arith;
}

-- ===== src/Configuration.antt =====
-- simulator_handlers.go: `OnChangeConfiguration`, `OnGetConfiguration`, `OnClearCache` and
-- `OnDataTransfer`; simulator.go: `addConfiguration`.
pub mod Laws
use Prim.Native.String.{compare}
use Prim.Native.Nat.{Ordering}
use ocpp_cli.Prelude.{
  ℤ, String, Bool, true, false, Option, none, some, List, [], ◌∷◌, ◌++◌, map, sort, if◌then◌else◌,
}
use ocpp_cli.Prelude.Int.{string_eq}
use ocpp_cli.Prelude.Maps.{Map, get, put}
use ocpp_cli.Ocpp.{Word, Action, Piece, lit, inbound}
use ocpp_cli.Station.{Simulator, ConfigurationKey, Env}
use ocpp_cli.Station.Emit.{emit}

unfoldable pub add_configuration : String → String → Bool → Simulator → Simulator
add_configuration key value readonly s = record s {
  configuration =
      put key (record { key = key; readonly = readonly; value = some value }) s.configuration;
}

-- The write of an accepted change.
unfoldable pub write_configuration : String → String → ConfigurationKey → Simulator → Simulator
write_configuration key value current s = record s {
  configuration = put key (record current { value = some value }) s.configuration;
}

unfoldable pub on_change_configuration : Env → String → String → Simulator → Simulator × Word
unfolding write_configuration emit
on_change_configuration env key value s = elim (get key s.configuration) [
  | none ↦ (
    emit env inbound Action.change_configuration Word.not_supported none (lit key ∷ []) s,
    Word.not_supported,
  )
  | some current ↦
      if current.readonly
      then (
        emit env inbound Action.change_configuration Word.rejected none (lit key ∷ []) s,
        Word.rejected,
      )
      else (
        emit env inbound Action.change_configuration Word.accepted none
            (lit key ∷ lit "=" ∷ lit value ∷ []) (write_configuration key value current s),
        Word.accepted,
      )
]

-- `sort.Strings` compares bytes, which orders UTF-8 as its code points.
abbrev pub string_le : String → String → Bool
string_le a b = elim (compare a b) [ Ordering.gt ↦ false | _ ↦ true ]

abbrev pub name_of : String × ConfigurationKey → String
name_of e = e.0

unfoldable pub requested_keys : List String → Simulator → List String
requested_keys [] s = map name_of s.configuration
requested_keys (k ∷ ks) s = k ∷ ks

-- The known keys' entries and the unknown keys.
unfoldable pub partition_keys :
    Map String ConfigurationKey → List String → List ConfigurationKey × List String
partition_keys m [] = ([], [])
partition_keys m (key ∷ keys) =
    let rest = partition_keys m keys in
    elim (get key m) [ some value ↦ (value ∷ rest.0, rest.1) | none ↦ (rest.0, key ∷ rest.1) ]

-- `strings.Join(keys, ",")`
unfoldable pub join_keys : List String → List Piece
join_keys [] = []
join_keys (key ∷ []) = lit key ∷ []
join_keys (key ∷ next ∷ keys) = lit key ∷ lit "," ∷ join_keys (next ∷ keys)

unfoldable pub on_get_configuration :
    Env → List String → Simulator → Simulator × (List ConfigurationKey × List String)
unfolding requested_keys partition_keys join_keys emit
on_get_configuration env requested s =
    let keys = sort string_le (requested_keys requested s) in
    (
      emit env inbound Action.get_configuration Word.accepted none (join_keys keys) s,
      partition_keys s.configuration keys,
    )

unfoldable pub on_clear_cache : Env → Simulator → Simulator × Word
unfolding emit
on_clear_cache env s = (emit env inbound Action.clear_cache Word.accepted none [] s, Word.accepted)

-- The reply carries the request's data back.
unfoldable pub on_data_transfer :
    Env → String → String → Option String → Simulator → Simulator × Word × Option String
unfolding emit
on_data_transfer env vendor_id message_id payload s = (
  emit env inbound Action.data_transfer Word.accepted none
      (lit vendor_id ∷ lit ":" ∷ lit message_id ∷ []) s,
  Word.accepted,
  payload,
)

-- ===== src/LocalAuth.antt =====
-- simulator_optional_profiles.go: `OnGetLocalListVersion` and `OnSendLocalList`.
pub mod Laws
use ocpp_cli.Prelude.{
  ℤ, pos, ℕ, String, Bool, true, false, Option, none, some, List, [], ◌∷◌, ◌++◌, length, any,
  str_eq, leb_ℤ, if◌then◌else◌,
}
use ocpp_cli.Prelude.Int.{string_eq}
use ocpp_cli.Prelude.Maps.{Map, get, put, remove}
use ocpp_cli.Ocpp.{Word, Action, Piece, lit, num, inbound}
use ocpp_cli.Station.{Simulator, IdTagInfo, Env}
use ocpp_cli.Station.Emit.{emit}

pub data UpdateType : Type 0 where
  full differential : UpdateType

pub record AuthorizationData : Type 0 where
  pub id_tag : String
  pub id_tag_info : Option IdTagInfo

pub record SendLocalListRequest : Type 0 where
  pub list_version : ℤ
  pub update_type : UpdateType
  pub local_authorization_list : List AuthorizationData

unfoldable pub on_get_local_list_version : Env → Simulator → Simulator × ℤ
unfolding emit
on_get_local_list_version env s = (
  emit env inbound Action.get_local_list_version Word.accepted none
      (num s.local_auth_list_version ∷ []) s,
  s.local_auth_list_version,
)

-- The loop over the entries with the tags seen so far.
unfoldable pub has_duplicate : List String → List AuthorizationData → Bool
has_duplicate seen [] = false
has_duplicate seen (entry ∷ entries) =
    let rest = has_duplicate (entry.id_tag ∷ seen) entries in
    if any (str_eq entry.id_tag) seen then true else rest

unfoldable pub apply_entry : AuthorizationData → Map String IdTagInfo → Map String IdTagInfo
apply_entry entry m = elim entry.id_tag_info [
  | none ↦ remove entry.id_tag m
  | some info ↦ put entry.id_tag info m
]

unfoldable pub apply_entries : List AuthorizationData → Map String IdTagInfo → Map String IdTagInfo
unfolding apply_entry
apply_entries [] m = m
apply_entries (entry ∷ entries) m = apply_entries entries (apply_entry entry m)

unfoldable pub start_of : UpdateType → Map String IdTagInfo → Map String IdTagInfo
start_of full m = []
start_of differential m = m

-- The locked part.
unfoldable pub update_local_list : SendLocalListRequest → Simulator → Simulator × Word
unfolding has_duplicate apply_entries start_of
update_local_list request s =
    if leb_ℤ request.list_version s.local_auth_list_version
    then (s, Word.version_mismatch)
    else if has_duplicate [] request.local_authorization_list
    then (s, Word.failed)
    else (
      record s {
        local_auth_list =
            apply_entries request.local_authorization_list
              (start_of request.update_type s.local_auth_list);
        local_auth_list_version = request.list_version;
      },
      Word.accepted,
    )

abbrev pub update_word : UpdateType → String
update_word full = "Full"
update_word differential = "Differential"

unfoldable pub on_send_local_list : Env → SendLocalListRequest → Simulator → Simulator × Word
unfolding update_local_list emit
on_send_local_list env request s =
    let (s', status) = update_local_list request s in
    let detail =
      lit "version="
      ∷ num request.list_version
      ∷ lit " type="
      ∷ lit (update_word request.update_type)
      ∷ lit " entries="
      ∷ num (pos (length s'.local_auth_list))
      ∷ [] in
    (emit env inbound Action.send_local_list status none detail s', status)

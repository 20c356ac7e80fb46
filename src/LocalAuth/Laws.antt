-- ===== src/LocalAuth/Laws.antt =====
-- What `OnSendLocalList` guarantees.
use ocpp_cli.Prelude.{
  ℤ, ◌≡◌, ◌≢◌, refl, ◌∙◌, ap, inl, inr, ◌⊎◌, String, true, false, Option, none, some, List, [], ◌∷◌,
  any, arith, str_eq, str_eq_iff, leb_ℤ, ltb_ℤ, Bool-cases, Option-cases, if◌then◌else◌,
}
use ocpp_cli.Prelude.Int.{string_eq}
use ocpp_cli.Prelude.Maps.{Map, get, get-put, get-remove}
use ocpp_cli.Ocpp.{Word}
use ocpp_cli.Station.{Simulator, IdTagInfo}
use ocpp_cli.LocalAuth.{
  UpdateType, full, differential, AuthorizationData, SendLocalListRequest, has_duplicate,
  apply_entry, apply_entries, start_of, update_local_list,
}

-- What a list of entries says of a tag: nothing, or what its entry says.
unfoldable pub entry_for : String → List AuthorizationData → Option (Option IdTagInfo)
entry_for tag [] = none
entry_for tag (entry ∷ entries) =
    if str_eq entry.id_tag tag then some entry.id_tag_info else entry_for tag entries

abbrev pub or_old : Option (Option IdTagInfo) → Option IdTagInfo → Option IdTagInfo
or_old none old = old
or_old (some info) old = info

get-apply_entry :
    (tag : String) (entry : AuthorizationData) (m : Map String IdTagInfo)
    → get tag (apply_entry entry m)
      ≡ (if str_eq entry.id_tag tag then entry.id_tag_info else get tag m)
unfolding apply_entry
get-apply_entry tag entry m = elim (Option-cases entry.id_tag_info) [
  | inl nothing ↦ ground (arith, get-remove entry.id_tag tag m)
  | inr (info, e) ↦ ground (arith, get-put entry.id_tag tag info m)
]

seen-entry_for :
    (seen : List String) (entries : List AuthorizationData) (tag : String)
    → has_duplicate seen entries ≡ false
    → any (str_eq tag) seen ≡ true
    → entry_for tag entries ≡ none
unfolding has_duplicate entry_for
seen-entry_for seen [] tag h k = refl
seen-entry_for seen (entry ∷ entries) tag h k =
    ground (arith, str_eq_iff entry.id_tag tag, seen-entry_for (entry.id_tag ∷ seen) entries tag)

tag_seen : (tag : String) (seen : List String) → any (str_eq tag) (tag ∷ seen) ≡ true
tag_seen tag seen = ground (arith, str_eq_iff tag tag)

get-apply_entries :
    (tag : String) (seen : List String) (entries : List AuthorizationData)
    (m : Map String IdTagInfo)
    → has_duplicate seen entries ≡ false
    → get tag (apply_entries entries m) ≡ or_old (entry_for tag entries) (get tag m)
unfolding apply_entries entry_for has_duplicate
get-apply_entries tag seen [] m h = refl
get-apply_entries tag seen (entry ∷ entries) m h =
    let ih =
      get-apply_entries tag (entry.id_tag ∷ seen) entries (apply_entry entry m) (ground arith) in
    ground (
      arith,
      ih,
      get-apply_entry tag entry m,
      str_eq_iff entry.id_tag tag,
      seen-entry_for (entry.id_tag ∷ seen) entries tag,
      tag_seen tag seen,
    )

-- What the list says of a tag before the entries are applied.
abbrev pub base_of : UpdateType → Option IdTagInfo → Option IdTagInfo
base_of full old = none
base_of differential old = old

base-start_of :
    (kind : UpdateType) (tag : String) (m : Map String IdTagInfo)
    → get tag (start_of kind m) ≡ base_of kind (get tag m)
unfolding start_of get
base-start_of full tag m = refl
base-start_of differential tag m = refl

-- An update is refused and changes nothing; or it is accepted, and then the list has the request's
-- version, which is later than the old one, and says of each tag what the request says of it, else
-- what the old list said in a differential update, and nothing in a full one.
pub update_local_list_lem :
    (request : SendLocalListRequest) (s : Simulator)
    → let (s', status) = update_local_list request s in
      ((status ≢ Word.accepted) × (s' ≡ s))
      ⊎ ((status ≡ Word.accepted)
          × (ltb_ℤ s.local_auth_list_version s'.local_auth_list_version ≡ true)
          × (s'.local_auth_list_version ≡ request.list_version)
          × ((tag : String)
              → get tag s'.local_auth_list
                ≡ or_old
                    (entry_for tag request.local_authorization_list)
                    (base_of request.update_type (get tag s.local_auth_list))))
unfolding update_local_list
update_local_list_lem request s =
    elim (Bool-cases (leb_ℤ request.list_version s.local_auth_list_version)) [
      | inl stale ↦ rw stale (inl (λ e. cc, refl))
      | inr fresh ↦ elim (Bool-cases (has_duplicate [] request.local_authorization_list)) [
        | inl twice ↦ rw (fresh, twice) (inl (λ e. cc, refl))
        | inr once ↦
            rw (fresh, once)
              (inr (
                refl,
                later request.list_version s.local_auth_list_version fresh,
                refl,
                λ tag.
                    get-apply_entries tag [] request.local_authorization_list
                      (start_of request.update_type s.local_auth_list) once
                    ∙ ap (or_old (entry_for tag request.local_authorization_list))
                        (base-start_of request.update_type tag s.local_auth_list),
              ))
      ]
    ]
  where
    later : (a b : ℤ) → leb_ℤ a b ≡ false → ltb_ℤ b a ≡ true
    later a b h = ground arith

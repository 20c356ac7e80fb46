-- ===== src/Configuration/Laws.antt =====
-- What the configuration handlers guarantee.
use mathlib.Core.List.{Perm, perm_middle}
use mathlib.Core.List.Perm
use ocpp_cli.Prelude.{
  Bool, false, ap, ◌∙◌, ◌++◌, map, insert_sorted, Bool-cases, if◌then◌else◌, ◌≡◌, refl, inl, inr,
  String, true, none, some, List, [], ◌∷◌, All, sort, arith, str_eq_iff, Option-cases,
}
use ocpp_cli.Prelude.Int.{string_eq}
use ocpp_cli.Prelude.Maps.{Map, get, get-put}
use ocpp_cli.Ocpp.{Word}
use ocpp_cli.Station.{Simulator, ConfigurationKey, Env}
use ocpp_cli.Configuration.{
  name_of, on_change_configuration, string_le, requested_keys, partition_keys, on_get_configuration,
}

-- A key marked read-only keeps its entry under every request to change any key.
pub on_change_configuration-readonly :
    (env : Env) (key value : String) (s : Simulator) (j : String) (current : ConfigurationKey)
    → get j s.configuration ≡ some current
    → current.readonly ≡ true
    → get j (on_change_configuration env key value s).0.configuration ≡ some current
unfolding on_change_configuration
on_change_configuration-readonly env key value s j current e ro =
    elim (Option-cases (get key s.configuration)) [
      | inl missing ↦ rw (missing, on_change_configuration) (ground arith)
      | inr (c, found) ↦
          rw (found, on_change_configuration)
            (ground (
              arith,
              get-put key j (record c { value = some value }) s.configuration,
              str_eq_iff key j,
            ))
    ]

abbrev pub Change : Type 0
Change = String × String

unfoldable pub change_all : List (Env × Change) → Simulator → Simulator
change_all [] s = s
change_all ((env, (key, value)) ∷ changes) s =
    change_all changes (on_change_configuration env key value s).0

-- No sequence of `ChangeConfiguration` requests changes a read-only key, whatever the clock and the
-- connection are at each of them.
pub change_all-readonly :
    (changes : List (Env × Change)) (s : Simulator) (j : String) (current : ConfigurationKey)
    → get j s.configuration ≡ some current
    → current.readonly ≡ true
    → get j (change_all changes s).configuration ≡ some current
unfolding change_all
change_all-readonly [] s j current e ro = e
change_all-readonly ((env, (key, value)) ∷ changes) s j current e ro =
    change_all-readonly changes _ j current
      (on_change_configuration-readonly env key value s j current e ro) ro

-- What an accepted request has written.
written :
    (env : Env) (key value : String) (s : Simulator)
    → (on_change_configuration env key value s).1 ≡ Word.accepted
    → (c : ConfigurationKey) × (get key s.configuration ≡ some c)
      × (get key (on_change_configuration env key value s).0.configuration
          ≡ some (record c { value = some value }))
unfolding on_change_configuration
written env key value s h = elim (Option-cases (get key s.configuration)) [
  | inl missing ↦ absurd (never (rw (missing, on_change_configuration) at h))
  | inr (c, found) ↦ (
    c,
    found,
    rw (found, on_change_configuration)
        (ground (
          arith,
          rw (found, on_change_configuration) at h,
          get-put key key (record c { value = some value }) s.configuration,
          str_eq_iff key key,
        )),
  )
]
  where
    never : Word.not_supported ≡ Word.accepted → ⊥
    never q = cc

one_key : (key : String) (s : Simulator) → sort string_le (requested_keys (key ∷ []) s) ≡ key ∷ []
unfolding sort requested_keys
one_key key s = refl

-- An accepted change is read back by the next request for that key, with the new value and the
-- entry's old mark; no key is reported unknown.
pub on_get_configuration-change :
    (env later : Env) (key value : String) (s : Simulator)
    → (on_change_configuration env key value s).1 ≡ Word.accepted
    → (c : ConfigurationKey) × (get key s.configuration ≡ some c)
      × ((on_get_configuration later (key ∷ []) (on_change_configuration env key value s).0).1
          ≡ ((record c { value = some value }) ∷ [], []))
unfolding on_get_configuration
on_get_configuration-change env later key value s h =
    let (c, found, stored) = written env key value s h in
    (c, found, rw one_key (rw (stored, partition_keys) refl))

abbrev pub asks_all : List String → Bool
asks_all [] = true
asks_all (x ∷ xs) = false

-- An answer to the keys asked for: the entries of those that the map has, and the others.
abbrev pub Answers :
    Map String ConfigurationKey → List String → List ConfigurationKey → List String → Type 0
Answers m keys known unknown =
    (found : List String) × Perm keys (found ++ unknown)
    × (map (λ key. get key m) found ≡ map some known)
    × All (λ key. get key m ≡ none) unknown

partition_keys-Answers :
    (m : Map String ConfigurationKey) (keys : List String)
    → Answers m keys (partition_keys m keys).0 (partition_keys m keys).1
unfolding partition_keys
partition_keys-Answers m [] = ([], Perm.refl [], refl, tt)
partition_keys-Answers m (key ∷ keys) =
    let (found, all, entries, missing) = partition_keys-Answers m keys in
    elim (Option-cases (get key m)) [
      | inl unknown ↦
          rw (unknown, partition_keys)
            (
              found,
              Perm.trans (Perm.cons key all)
                  (Perm.symm (perm_middle found (partition_keys m keys).1)),
              entries,
              (unknown, missing),
            )
      | inr (c, known) ↦
          rw (known, partition_keys)
            (
              key ∷ found,
              Perm.cons key all,
              ap (◌∷◌ (get key m)) entries ∙ ap (λ o. o ∷ map some (partition_keys m keys).0) known,
              missing,
            )
    ]

insert_sorted-perm : (a : String) (xs : List String) → Perm (a ∷ xs) (insert_sorted string_le a xs)
unfolding insert_sorted
insert_sorted-perm a [] = Perm.refl (a ∷ [])
insert_sorted-perm a (x ∷ xs) = elim (Bool-cases (string_le a x)) [
  | inl before ↦ rw (before, insert_sorted) (Perm.refl (a ∷ x ∷ xs))
  | inr after ↦
      rw (after, insert_sorted)
        (Perm.trans (Perm.swap x a xs) (Perm.cons x (insert_sorted-perm a xs)))
]

sort-perm : (xs : List String) → Perm xs (sort string_le xs)
unfolding sort
sort-perm [] = Perm.refl []
sort-perm (x ∷ xs) =
    Perm.trans (Perm.cons x (sort-perm xs)) (insert_sorted-perm x (sort string_le xs))

-- `OnGetConfiguration` answers every key asked for exactly once: its entry of the map, which is the
-- one of that very key, or the key as unknown, where the map has none. Without any key asked for,
-- these are the keys of the map.
pub on_get_configuration-Answers :
    (env : Env) (requested : List String) (s : Simulator)
    → let (known, unknown) = (on_get_configuration env requested s).1 in
      Answers s.configuration
        (if asks_all requested then map name_of s.configuration else requested)
        known
        unknown
unfolding on_get_configuration requested_keys
on_get_configuration-Answers env [] s =
    let keys = map name_of s.configuration in
    let (found, all, entries, missing) =
      partition_keys-Answers s.configuration (sort string_le keys) in
    (found, Perm.trans (sort-perm keys) all, entries, missing)
on_get_configuration-Answers env (k ∷ ks) s =
    let (found, all, entries, missing) =
      partition_keys-Answers s.configuration (sort string_le (k ∷ ks)) in
    (found, Perm.trans (sort-perm (k ∷ ks)) all, entries, missing)

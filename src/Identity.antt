-- ===== src/Identity.antt =====
-- The team registry of src/identity.py. A row's missing `canonical_id` or `display_name` ends the
-- construction in a KeyError, `malformed`. A dict is the list of its entries, newest first.
pub mod Entries
pub mod Built
pub mod Candidates
pub mod Resolved
mod Tests
use lol_predictor.Prelude.{
  ℕ, String, Bool, true, false, ◌&&◌, Option, none, some, List, [], ◌∷◌, ◌++◌, map, length, keep,
  Result, ok, fail, ◌>>=◌, ◌==◌, if◌then◌else◌, Unicode, codes, strip, single_blanks, text_eq,
  truthy, present, is_in,
}
use lol_predictor.Approval.{is_text}

pub data IdentityError : Type 0 where
  unavailable bad_schema duplicate_canonical duplicate_provider : IdentityError
  ambiguous unknown malformed : IdentityError

pub record CanonicalTeam : Type 0 where
  pub canonical_id : String
  pub display_name : String
  pub oracle_ids : List String
  pub pandascore_ids : List String
  pub names : List String

pub record TeamRow : Type 0 where
  pub canonical_id : Option String
  pub display_name : Option String
  pub oracle_ids : List String
  pub pandascore_ids : List String
  pub names : List String

pub record RegistryRecord : Type 0 where
  pub schema_version : Option String
  pub registry_version : String
  -- `none`: not a list
  pub teams : Option (List TeamRow)

pub data RegistryFile : Type 0 where
  no_file : RegistryFile
  registry : RegistryRecord → RegistryFile

pub record ProviderEntry : Type 0 where
  pub provider : String
  pub value : String
  pub team : CanonicalTeam

pub record NameEntry : Type 0 where
  pub key : List ℕ
  pub team : CanonicalTeam

pub record IdentityRegistry : Type 0 where
  pub version : String
  pub by_canonical : List CanonicalTeam
  pub by_provider : List ProviderEntry
  pub by_name : List NameEntry

unfoldable pub find_canonical : String → List CanonicalTeam → Option CanonicalTeam
find_canonical id [] = none
find_canonical id (t ∷ ts) =
    let rest = find_canonical id ts in if t.canonical_id == id then some t else rest

abbrev pub same_entry : String → String → ProviderEntry → Bool
same_entry provider value e = e.provider == provider && e.value == value

unfoldable pub find_provider : String → String → List ProviderEntry → Option CanonicalTeam
find_provider provider value [] = none
find_provider provider value (e ∷ es) =
    let rest = find_provider provider value es in
    if same_entry provider value e then some e.team else rest

-- `CanonicalTeam(...)` of a row
abbrev pub team_of : TeamRow → Result IdentityError CanonicalTeam
team_of row = elim row.canonical_id [
  | none ↦ fail malformed
  | some id ↦ elim row.display_name [
    | none ↦ fail malformed
    | some name ↦ ok (record {
      canonical_id = id;
      display_name = name;
      oracle_ids = row.oracle_ids;
      pandascore_ids = row.pandascore_ids;
      names = row.names;
    })
  ]
]

abbrev pub add_canonical :
    CanonicalTeam → List CanonicalTeam → Result IdentityError (List CanonicalTeam)
add_canonical t ts = elim (find_canonical t.canonical_id ts) [
  | some _ ↦ fail duplicate_canonical
  | none ↦ ok (t ∷ ts)
]

abbrev pub add_id :
    String → CanonicalTeam → String → List ProviderEntry → Result IdentityError (List ProviderEntry)
add_id provider t value es = elim (find_provider provider value es) [
  | some _ ↦ fail duplicate_provider
  | none ↦ ok (record { provider = provider; value = value; team = t } ∷ es)
]

unfoldable pub add_ids :
    String
    → CanonicalTeam
    → List String
    → List ProviderEntry
    → Result IdentityError (List ProviderEntry)
unfolding find_provider
add_ids provider t [] es = ok es
add_ids provider t (v ∷ vs) es = add_id provider t v es >>= add_ids provider t vs

-- `{display_name, *names}`
abbrev pub all_names : CanonicalTeam → List String
all_names t = t.display_name ∷ t.names

-- `self._by_provider_id.get((provider, str(provider_id)))` under its `if`
unfoldable pub resolve_id : String → Option String → IdentityRegistry → Option CanonicalTeam
unfolding find_provider
resolve_id provider none reg = none
resolve_id provider (some id) reg =
    if truthy id then find_provider provider id reg.by_provider else none

module _ (u : Unicode) where
  unfoldable pub normalized_name : String → List ℕ
  unfolding single_blanks strip
  normalized_name value = single_blanks (u.casefold (strip (u.nfc (codes value))))

  abbrev pub name_entry : CanonicalTeam → String → NameEntry
  name_entry t n = record { key = normalized_name n; team = t }

  -- A name that occurs twice gives one entry in the code and two here, for the same team.
  abbrev pub name_entries : CanonicalTeam → List NameEntry
  name_entries t = map (name_entry t) (all_names t)

  -- the body of the loop over `raw["teams"]`
  unfoldable pub add_team : TeamRow → IdentityRegistry → Result IdentityError IdentityRegistry
  unfolding find_canonical add_ids normalized_name
  add_team row reg = do
    t ← team_of row
    canonical ← add_canonical t reg.by_canonical
    oracle ← add_ids "oracles_elixir" t t.oracle_ids reg.by_provider
    providers ← add_ids "pandascore" t t.pandascore_ids oracle
    ok (record {
      version = reg.version;
      by_canonical = canonical;
      by_provider = providers;
      by_name = reg.by_name ++ name_entries t;
    })

  unfoldable pub add_teams : List TeamRow → IdentityRegistry → Result IdentityError IdentityRegistry
  unfolding add_team
  add_teams [] reg = ok reg
  add_teams (row ∷ rows) reg = add_team row reg >>= add_teams rows

  -- `IdentityRegistry(path)`
  unfoldable pub identity_registry : RegistryFile → Result IdentityError IdentityRegistry
  unfolding add_teams
  identity_registry no_file = fail unavailable
  identity_registry (registry r) =
      if is_text "lol-canonical-teams/1.0" r.schema_version
      then elim r.teams [
        | none ↦ fail bad_schema
        | some rows ↦ add_teams rows (record {
          version = r.registry_version;
          by_canonical = [];
          by_provider = [];
          by_name = [];
        })
      ]
      else fail bad_schema

  -- the values of the dict `candidates`, one team for each canonical id
  unfoldable pub candidates : List ℕ → List NameEntry → List CanonicalTeam
  unfolding find_canonical
  candidates key [] = []
  candidates key (e ∷ es) =
      let rest = candidates key es in
      if text_eq e.key key
      then elim (find_canonical e.team.canonical_id rest) [ some _ ↦ rest | none ↦ e.team ∷ rest ]
      else rest

  abbrev pub only_one : List CanonicalTeam → Result IdentityError CanonicalTeam
  only_one [] = fail unknown
  only_one (t ∷ []) = ok t
  only_one (_ ∷ _ ∷ _) = fail ambiguous

  unfoldable pub resolve_name :
      Option String → IdentityRegistry → Result IdentityError CanonicalTeam
  unfolding candidates normalized_name
  resolve_name none reg = fail unknown
  resolve_name (some name) reg =
      if truthy name then only_one (candidates (normalized_name name) reg.by_name) else fail unknown

  unfoldable pub resolve :
      String → Option String → Option String → IdentityRegistry → Result IdentityError CanonicalTeam
  unfolding resolve_name resolve_id
  resolve provider id name reg = elim (resolve_id provider id reg) [
    | some t ↦ ok t
    | none ↦ resolve_name name reg
  ]

unfoldable pub get : String → IdentityRegistry → Result IdentityError CanonicalTeam
unfolding find_canonical
get id reg = elim (find_canonical id reg.by_canonical) [ some t ↦ ok t | none ↦ fail unknown ]

-- ===== src/Identity/Tests.antt =====
-- The registry of src/identity.py on a file with two teams.
use lol_predictor.Prelude.{
  String, ◌≡◌, refl, ◌↔◌, some, List, [], ◌∷◌, ok, fail, ascii, strip, single_blanks, lower,
  text_eq,
}
use lol_predictor.Identity.{
  CanonicalTeam, TeamRow, RegistryFile, registry, IdentityRegistry, identity_registry, resolve,
  duplicate_canonical,
}
use lol_predictor.Identity.Built.{IsWellFormed, BuiltFrom, identity_registry-IsWellFormed}
use lol_predictor.Identity.Resolved.{Justified, resolve_lem}

abbrev row : String → String → List String → List String → TeamRow
row id name ids names = record {
  canonical_id = some id;
  display_name = some name;
  oracle_ids = ids;
  pandascore_ids = [];
  names = names;
}

abbrev team : String → String → List String → List String → CanonicalTeam
team id name ids names = record {
  canonical_id = id;
  display_name = name;
  oracle_ids = ids;
  pandascore_ids = [];
  names = names;
}

abbrev file_of : List TeamRow → RegistryFile
file_of rows = registry (record {
  schema_version = some "lol-canonical-teams/1.0";
  registry_version = "1";
  teams = some rows;
})

abbrev file : RegistryFile
file =
    file_of
      (row "t1" "T1" ("o1" ∷ []) ("SKT" ∷ []) ∷ row "geng" "Gen.G" ("o2" ∷ []) ("Team" ∷ []) ∷ [])

abbrev t1 : CanonicalTeam
t1 = team "t1" "T1" ("o1" ∷ []) ("SKT" ∷ [])

abbrev geng : CanonicalTeam
geng = team "geng" "Gen.G" ("o2" ∷ []) ("Team" ∷ [])

abbrev built : IdentityRegistry
built = record {
  version = "1";
  by_canonical = geng ∷ t1 ∷ [];
  by_provider =
      record { provider = "oracles_elixir"; value = "o2"; team = geng }
      ∷ record { provider = "oracles_elixir"; value = "o1"; team = t1 }
      ∷ [];
  by_name =
      record { key = 116 ∷ 49 ∷ []; team = t1 }
      ∷ record { key = 115 ∷ 107 ∷ 116 ∷ []; team = t1 }
      ∷ record { key = 103 ∷ 101 ∷ 110 ∷ 46 ∷ 103 ∷ []; team = geng }
      ∷ record { key = 116 ∷ 101 ∷ 97 ∷ 109 ∷ []; team = geng }
      ∷ [];
}

builds : identity_registry ascii file ≡ ok built
unfolding identity_registry strip single_blanks lower
builds = refl

refuses_twice :
    identity_registry ascii (file_of (row "t1" "T1" [] [] ∷ row "t1" "T2" [] [] ∷ []))
    ≡ fail duplicate_canonical
unfolding identity_registry
refuses_twice = refl

resolves : resolve ascii "oracles_elixir" (some "?") (some "  skt ") built ≡ ok t1
unfolding resolve strip single_blanks lower text_eq
resolves = refl

identity_registry-IsWellFormed_example : IsWellFormed ascii built × BuiltFrom ascii file built
identity_registry-IsWellFormed_example = identity_registry-IsWellFormed ascii file builds

resolve_lem_example :
    (resolve ascii "oracles_elixir" (some "?") (some "  skt ") built ≡ ok t1)
    ↔ Justified ascii built "oracles_elixir" (some "?") (some "  skt ") t1
resolve_lem_example =
    resolve_lem ascii file built "oracles_elixir" (some "?") (some "  skt ") t1 builds

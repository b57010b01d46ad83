-- ===== src/Teams/Tests.antt =====
-- `resolve_team` of src/config.py on three seeded and two lived names.
use lol_predictor.Prelude.{
  String, ◌≡◌, refl, none, List, [], ◌∷◌, ok, fail, ascii, strip, lower, text_eq,
}
use lol_predictor.Teams.{
  SeedTeam, seeded, lived, resolve_team, identity_key, unknown_team, empty_name,
}
use lol_predictor.Teams.Sole.{Sole, resolve_team-Sole}

abbrev team : String → SeedTeam
team n = record { name = n; region = none }

abbrev teams : List SeedTeam
teams = team "Cloud9" ∷ team "T1" ∷ team "Gen.G" ∷ []

abbrev names : List String
names = "LOUD" ∷ "T1 Academy" ∷ []

-- the name of a lived team wins over a part of a seeded one
exact : resolve_team ascii teams names " loud " ≡ ok (lived "LOUD")
unfolding resolve_team strip lower text_eq
exact = refl

part : resolve_team ascii teams names "gen" ≡ ok (seeded (team "Gen.G"))
unfolding resolve_team strip lower text_eq
part = refl

two_fit : resolve_team ascii teams names "lou" ≡ fail unknown_team
unfolding resolve_team strip lower text_eq
two_fit = refl

blank : resolve_team ascii teams names "  " ≡ fail empty_name
unfolding resolve_team strip lower text_eq
blank = refl

resolve_team-Sole_example : Sole ascii teams names (identity_key ascii " loud ") (lived "LOUD")
resolve_team-Sole_example = resolve_team-Sole ascii teams names " loud " exact

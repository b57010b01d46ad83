-- ===== src/Teams.antt =====
-- `resolve_team` of src/config.py: a team by its exact name or by a part of it that only it has.
pub mod Sole
mod Tests
use lol_predictor.Prelude.{
  ℕ, String, Bool, true, false, ◌&&◌, ◌||◌, not, Option, none, some, List, [], ◌∷◌, length, keep,
  Result, ok, fail, Unicode, codes, strip, text_eq, occurs_in, is_empty, ltb, if◌then◌else◌,
}

pub data TeamError : Type 0 where
  empty_name ambiguous_team unknown_team : TeamError

-- one team of `data/teams_lol.json`
pub record SeedTeam : Type 0 where
  pub name : String
  pub region : Option String

-- the dict that is returned: a seeded team, or only the name of a team of `ratings.json`
pub data TeamRecord : Type 0 where
  seeded : SeedTeam → TeamRecord
  lived : String → TeamRecord

abbrev pub team_name : TeamRecord → String
team_name (seeded t) = t.name
team_name (lived n) = n

module _ (u : Unicode) where
  -- `_identity_key`
  unfoldable pub identity_key : String → List ℕ
  unfolding strip
  identity_key value = u.casefold (strip (u.nfc (codes value)))

  abbrev pub has_key : List ℕ → String → Bool
  has_key low n = text_eq (identity_key n) low

  abbrev pub contains : List ℕ → String → Bool
  contains low n = occurs_in low (identity_key n)

  abbrev pub no_extra : SeedTeam → List String → Bool
  no_extra t ns = elim (keep (λ n. not (has_key (identity_key t.name) n)) ns) [
    | [] ↦ true
    | _ ∷ _ ↦ false
  ]

  abbrev pub one_lived : List String → Result TeamError TeamRecord
  one_lived (n ∷ []) = ok (lived n)
  one_lived _ = fail unknown_team

  -- the part of `resolve_team` below the exact names, on the two lists of hits
  abbrev pub by_part : List SeedTeam → List String → Result TeamError TeamRecord
  by_part [] rhits = one_lived rhits
  by_part (t ∷ []) rhits = if no_extra t rhits then ok (seeded t) else fail unknown_team
  by_part (_ ∷ _ ∷ _) rhits = fail unknown_team

  abbrev pub by_name_or_part :
      List SeedTeam → List String → List SeedTeam → List String → Result TeamError TeamRecord
  by_name_or_part (t ∷ _) exact_ratings hits rhits = ok (seeded t)
  by_name_or_part [] (n ∷ _) hits rhits = ok (lived n)
  by_name_or_part [] [] hits rhits = by_part hits rhits

  unfoldable pub resolve_team : List SeedTeam → List String → String → Result TeamError TeamRecord
  unfolding identity_key
  resolve_team teams rating_names name =
      let low = identity_key name in
      let exact_teams = keep (λ t. has_key low t.name) teams in
      let exact_ratings = keep (has_key low) rating_names in
      if is_empty low
      then fail empty_name
      else if ltb 1 (length exact_teams) || ltb 1 (length exact_ratings)
      then fail ambiguous_team
      else by_name_or_part exact_teams exact_ratings (keep (λ t. contains low t.name) teams)
          (keep (contains low) rating_names)

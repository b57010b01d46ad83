-- ===== src/Ratings/Tests.antt =====
-- `update_ratings` of src/model.py in hundredths, where `10.0 ** x` is 1, so that a win is worth K/2.
use lol_predictor.Prelude.{
  ℕ, String, ◌≡◌, refl, true, none, some, List, [], ◌∷◌, ok, fail, ascii, strip, lower, text_eq,
  cents,
}
use lol_predictor.H4.Signals.{Numeric, number}
use lol_predictor.Teams.{SeedTeam}
use lol_predictor.Ratings.{
  win_probability, Elo, ratings_file, no_file, Score, Match, check_match, update_ratings, no_winner,
  bad_score,
}
use lol_predictor.Ratings.Updated.{Rerated, update_ratings-Rerated}
use lol_predictor.Ratings.Finite.{Stored, update_ratings-Stored}

abbrev team : String → SeedTeam
team n = record { name = n; region = none }

abbrev teams : List SeedTeam
teams = team "T1" ∷ team "Gen.G" ∷ []

abbrev one : ℕ → ℕ
one _ = 100

abbrev model : Elo ℕ
model = record { ratings = ("T1", 150000) ∷ ("Gen.G", 150000) ∷ []; persistable = [] }

abbrev score : ℕ → ℕ → Score
score a b = record { result_a = some a; result_b = some b; format = some "bo3" }

-- another process has rated T1 and a third team in the meantime
abbrev file : List (String × Numeric ℕ)
file = ("T1", number 160000) ∷ ("DRX", number 140000) ∷ []

abbrev rated : Elo ℕ
rated = record {
  ratings = ("T1", 162000) ∷ ("Gen.G", 148000) ∷ ("DRX", 140000) ∷ [];
  persistable = "Gen.G" ∷ "DRX" ∷ "T1" ∷ [];
}

rates :
    update_ratings one ascii teams [] true "t1" "gen.g" (score 2 1) model (ratings_file file) ≡ (
      ok rated,
      rated,
      ratings_file (("Gen.G", number 148000) ∷ ("DRX", number 140000) ∷ ("T1", number 162000) ∷ []),
    )
unfolding update_ratings win_probability strip lower text_eq
rates = refl

no_draw :
    (update_ratings one ascii teams [] true "t1" "gen.g" (score 1 1) model no_file).0
    ≡ fail no_winner
unfolding update_ratings strip lower text_eq
no_draw = refl

wrong_score :
    (update_ratings one ascii teams [] true "t1" "gen.g" (score 3 1) model no_file).0
    ≡ fail bad_score
unfolding update_ratings strip lower text_eq
wrong_score = refl

returns :
    (update_ratings one ascii teams [] true "t1" "gen.g" (score 2 1) model (ratings_file file)).0
    ≡ ok rated
unfolding update_ratings win_probability strip lower text_eq
returns = refl

update_ratings-Rerated_example :
    (g : Match ℕ) × (check_match ascii teams [] "t1" "gen.g" (score 2 1) model ≡ ok g)
    × (rs' : List (String × Numeric ℕ)) × ((update_ratings one ascii teams [] true "t1" "gen.g"
          (score 2 1)
          model
          (ratings_file file)).2
        ≡ ratings_file rs')
    × Rerated one g file rs'
update_ratings-Rerated_example =
    update_ratings-Rerated one ascii teams [] true "t1" "gen.g" (score 2 1) model file returns

update_ratings-Stored_example :
    Stored no_file (update_ratings one ascii teams [] true "t1" "gen.g" (score 2 1) model no_file)
update_ratings-Stored_example =
    update_ratings-Stored one ascii teams [] true "t1" "gen.g" (score 2 1) model no_file

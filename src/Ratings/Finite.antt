-- ===== src/Ratings/Finite.antt =====
-- The ratings file after `update_ratings` of src/model.py can always be read again.
use lol_predictor.Prelude.{
  String, ◌≡◌, refl, Bool, true, inl, inr, List, [], ◌∷◌, Result, ok, fail, Float, Bool-cases,
  Unicode, both,
}
use lol_predictor.H4.Signals.{Numeric}
use lol_predictor.Teams.{SeedTeam}
use lol_predictor.Ratings.{
  RatingError, Elo, RatingsFile, no_file, unreadable, ratings_file, Score, Match, take_rating,
  persisted, as_numbers, absorb, all_finite, check_match, apply_delta, write_ratings, after_absorb,
  rate_match, update_ratings,
}

module _ {N : Type 0} ⦃f : Float N⦄ where
  all_finite-absorb :
      (es : List (String × N)) (m : Elo N)
      → all_finite es ≡ true
      → (absorb (as_numbers es) m).0 ≡ ok tt
  unfolding absorb
  all_finite-absorb [] m h = refl
  all_finite-absorb ((n, x) ∷ es) m h =
      let (fine, rest) = both {a = f.finite x} h in
      rw fine (all_finite-absorb es (take_rating n x m) rest)

  -- How a call ends: it raised and the file is as it was, or the file holds finite ratings, which any
  -- model takes over.
  pub data Stored (file : RatingsFile N)
      : Result RatingError (Elo N) × Elo N × RatingsFile N → Type 0 where
    untouched : (e : RatingError) (m : Elo N) → Stored file (fail e, m, file)
    stored :
        (m : Elo N) (rs : List (String × Numeric N))
        → ((other : Elo N) → (absorb rs other).0 ≡ ok tt)
        → Stored file (ok m, m, ratings_file rs)

module _ {N : Type 0} ⦃f : Float N⦄ (power : N → N) where
  write_ratings-Stored :
      (writes : Bool) (m : Elo N) (file : RatingsFile N)
      → Stored file (write_ratings power writes m file)
  unfolding write_ratings
  write_ratings-Stored writes m file =
      let entries = persisted m.persistable m.ratings in
      elim (Bool-cases (all_finite entries)) [
        | inr bad ↦ rw (bad, write_ratings) (untouched _ m)
        | inl fine ↦ elim (Bool-cases writes) [
          | inr refused ↦ rw (fine, refused, write_ratings) (untouched _ m)
          | inl done ↦
              rw (fine, done, write_ratings)
                (stored m (as_numbers entries) (λ other. all_finite-absorb entries other fine))
        ]
      ]

  after_absorb-Stored :
      (writes : Bool) (g : Match N) (file : RatingsFile N)
      (x : Result RatingError (Unit {0}) × Elo N)
      → Stored file (after_absorb power writes g file x)
  after_absorb-Stored writes g file (fail e, m) = untouched e m
  after_absorb-Stored writes g file (ok tt, m) = write_ratings-Stored writes _ file

  rate_match-Stored :
      (writes : Bool) (g : Match N) (m : Elo N) (file : RatingsFile N)
      → Stored file (rate_match power writes g m file)
  unfolding rate_match
  rate_match-Stored writes g m no_file =
      write_ratings-Stored writes (apply_delta power g g.elo_a g.elo_b m) no_file
  rate_match-Stored writes g m unreadable = untouched _ m
  rate_match-Stored writes g m (ratings_file rs) =
      after_absorb-Stored writes g (ratings_file rs) (absorb rs m)

  matched-Stored :
      (u : Unicode) (teams : List SeedTeam) (names : List String) (writes : Bool)
      (team_a team_b : String) (s : Score) (m : Elo N) (file : RatingsFile N)
      (c : Result RatingError (Match N))
      → check_match u teams names team_a team_b s m ≡ c
      → Stored file (update_ratings power u teams names writes team_a team_b s m file)
  unfolding update_ratings
  matched-Stored u teams names writes team_a team_b s m file (fail e) made =
      rw (made, update_ratings) (untouched e m)
  matched-Stored u teams names writes team_a team_b s m file (ok g) made =
      rw (made, update_ratings) (rate_match-Stored writes g m file)

  -- Whatever the arguments, the file and the disk, `update_ratings` either raises and leaves the file
  -- as it was, or leaves a file that every later call takes over without raising.
  pub update_ratings-Stored :
      (u : Unicode) (teams : List SeedTeam) (names : List String) (writes : Bool)
      (team_a team_b : String) (s : Score) (m : Elo N) (file : RatingsFile N)
      → Stored file (update_ratings power u teams names writes team_a team_b s m file)
  update_ratings-Stored u teams names writes team_a team_b s m file =
      matched-Stored u teams names writes team_a team_b s m file _ refl

-- ===== src/Ratings.antt =====
-- The Elo ratings of src/model.py: how `update_ratings` reads, changes and writes `ratings.json`.
-- A dict is an association list with one entry for each key; a float's `10.0 ** x` is `power`.
pub mod Entries
pub mod Updated
pub mod Finite
mod Tests
use lol_predictor.Prelude.{
  ℕ, String, ◌+◌, Bool, true, false, ◌&&◌, ◌||◌, not, Option, none, some, List, [], ◌∷◌, map,
  length, keep, Result, ok, fail, ◌>>=◌, ◌>>◌, require, Float, fone, fzero, ltb, leb, eqb, ◌==◌,
  if◌then◌else◌, Unicode, codes, strip, text_eq, is_in,
}
use lol_predictor.H4.Signals.{Numeric, number, not_number}
use lol_predictor.Teams.{SeedTeam, TeamRecord, team_name, resolve_team}

pub data RatingError : Type 0 where
  bad_result no_winner unknown_name no_rating same_team bad_format bad_score : RatingError
  unreadable_ratings not_finite not_a_number not_written : RatingError

pub data Format : Type 0 where
  bo1 bo3 bo5 : Format

-- `K_FACTORS`, and the maps that win a series
abbrev pub k_factor : Format → ℕ
k_factor bo1 = 32
k_factor bo3 = 40
k_factor bo5 = 48

abbrev pub required_wins : Format → ℕ
required_wins bo1 = 1
required_wins bo3 = 2
required_wins bo5 = 3

abbrev pub format_of : String → Option Format
format_of s =
    if s == "bo1"
    then some bo1
    else if s == "bo3"
    then some bo3
    else if s == "bo5"
    then some bo5
    else none

abbrev pub max_of_two : ℕ → ℕ → ℕ
max_of_two a b = if ltb a b then b else a

abbrev pub min_of_two : ℕ → ℕ → ℕ
min_of_two a b = if ltb b a then b else a

-- the format of the call, in lower case, or the one that the score suggests
unfoldable pub format_for : Option String → ℕ → ℕ → Result RatingError Format
format_for none a b = ok (if leb (a + b) 1 then bo1 else if leb (a + b) 3 then bo3 else bo5)
format_for (some s) a b = elim (format_of s) [
  | none ↦ fail bad_format
  | some f ↦
      if not (eqb (max_of_two a b) (required_wins f)) || leb (required_wins f) (min_of_two a b)
      then fail bad_score
      else ok f
]

abbrev pub add_name : String → List String → List String
add_name name names = if is_in name names then names else name ∷ names

abbrev pub only_name : List String → Result RatingError String
only_name (n ∷ []) = ok n
only_name _ = fail unknown_name

abbrev pub same_folded : Unicode → String → String → Bool
same_folded u a b = text_eq (u.casefold (strip (codes a))) (u.casefold (strip (codes b)))

pub record Elo (N : Type 0) : Type 0 where
  pub ratings : List (String × N)
  pub persistable : List String

pub data RatingsFile (N : Type 0) : Type 0 where
  no_file unreadable : RatingsFile N
  ratings_file : List (String × Numeric N) → RatingsFile N

module _ {N : Type 0} where
  unfoldable pub rating_of : String → List (String × N) → Option N
  rating_of name [] = none
  rating_of name ((n, x) ∷ rs) = let rest = rating_of name rs in if n == name then some x else rest

  -- `ratings[name] = x`
  unfoldable pub set_rating : String → N → List (String × N) → List (String × N)
  set_rating name x [] = (name, x) ∷ []
  set_rating name x ((n, y) ∷ rs) =
      let rest = set_rating name x rs in if n == name then (n, x) ∷ rs else (n, y) ∷ rest

  -- `self.ratings[name] = x`, and `name` persists
  unfoldable pub take_rating : String → N → Elo N → Elo N
  unfolding set_rating
  take_rating name x m = record {
    ratings = set_rating name x m.ratings;
    persistable = add_name name m.persistable;
  }

  -- `{n: self.ratings[n] for n in self._persistable}`; every name that persists has a rating
  unfoldable pub persisted : List String → List (String × N) → List (String × N)
  unfolding rating_of
  persisted [] rs = []
  persisted (n ∷ ns) rs =
      let rest = persisted ns rs in elim (rating_of n rs) [ some x ↦ (n, x) ∷ rest | none ↦ rest ]

  abbrev pub names_of : List (String × N) → List String
  names_of [] = []
  names_of ((n, _) ∷ rs) = n ∷ names_of rs

  abbrev pub as_numbers : List (String × N) → List (String × Numeric N)
  as_numbers [] = []
  as_numbers ((n, x) ∷ rs) = (n, number x) ∷ as_numbers rs

module _ {N : Type 0} ⦃f : Float N⦄ (power : N → N) where
  unfoldable pub win_probability : N → N → N
  win_probability elo_a elo_b =
      f.div fone (f.add fone (power (f.div (f.sub elo_b elo_a) (f.of_nat 400))))

  abbrev pub delta_of : ℕ → Bool → N → N → N
  delta_of k a_won elo_a elo_b =
      f.mul (f.of_nat k) (f.sub (if a_won then fone else fzero) (win_probability elo_a elo_b))

module _ {N : Type 0} ⦃f : Float N⦄ where
  -- the loop over the entries of the file, and the model as it leaves it, also where it raises
  unfoldable pub absorb : List (String × Numeric N) → Elo N → Result RatingError (Unit {0}) × Elo N
  unfolding take_rating
  absorb [] m = (ok tt, m)
  absorb ((n, not_number) ∷ rs) m = (fail not_a_number, m)
  absorb ((n, number x) ∷ rs) m =
      let rest = absorb rs (take_rating n x m) in if f.finite x then rest else (fail not_finite, m)

  abbrev pub all_finite : List (String × N) → Bool
  all_finite [] = true
  all_finite ((_, x) ∷ rs) = f.finite x && all_finite rs

module _ {N : Type 0} ⦃f : Float N⦄ (u : Unicode) (teams : List SeedTeam)
    (names : List String) where
  -- the name that `_elo` returns
  unfoldable pub official_rated : String → Elo N → Result RatingError String
  unfolding resolve_team rating_of
  official_rated name m = elim (resolve_team u teams names name) [
    | ok r ↦ ok (team_name r)
    | fail _ ↦ only_name (keep (λ rated. same_folded u rated name) (names_of m.ratings))
  ]

  -- `_elo`
  unfoldable pub elo_of : String → Elo N → Result RatingError (String × N)
  unfolding official_rated
  elo_of name m = do
    official ← official_rated name m
    x ← elim (rating_of official m.ratings) [ none ↦ fail no_rating | some x ↦ ok x ]
    ok (official, x)

pub record Score : Type 0 where
  -- `none`: no int, or below zero
  pub result_a : Option ℕ
  pub result_b : Option ℕ
  pub format : Option String

pub record Match (N : Type 0) : Type 0 where
  pub a : String
  pub b : String
  pub elo_a : N
  pub elo_b : N
  pub k : ℕ
  pub a_won : Bool

abbrev pub count_of : Option ℕ → Result RatingError ℕ
count_of none = fail bad_result
count_of (some n) = ok n

module _ {N : Type 0} ⦃f : Float N⦄ (u : Unicode) (teams : List SeedTeam)
    (names : List String) where
  -- `update_ratings` above the lock
  unfoldable pub check_match : String → String → Score → Elo N → Result RatingError (Match N)
  unfolding elo_of format_for
  check_match team_a team_b s m = do
    won_a ← count_of s.result_a
    won_b ← count_of s.result_b
    require (not (eqb won_a won_b)) no_winner
    first ← elo_of u teams names team_a m
    second ← elo_of u teams names team_b m
    require (not (first.0 == second.0)) same_team
    format ← format_for s.format won_a won_b
    ok (record {
      a = first.0;
      b = second.0;
      elo_a = first.1;
      elo_b = second.1;
      k = k_factor format;
      a_won = ltb won_b won_a;
    })

module _ {N : Type 0} ⦃f : Float N⦄ (power : N → N) where
  -- both new ratings, from the ratings the delta is computed of
  unfoldable pub apply_delta : Match N → N → N → Elo N → Elo N
  unfolding take_rating
  apply_delta g elo_a elo_b m =
      let delta = delta_of power g.k g.a_won elo_a elo_b in
      take_rating g.b (f.sub elo_b delta) (take_rating g.a (f.add elo_a delta) m)

  -- `_atomic_json_write`, which refuses a float that is not finite; the disk may refuse the rest
  unfoldable pub write_ratings :
      Bool → Elo N → RatingsFile N → Result RatingError (Elo N) × Elo N × RatingsFile N
  unfolding persisted
  write_ratings writes m file =
      let entries = persisted m.persistable m.ratings in
      if all_finite entries
      then (if writes
          then (ok m, m, ratings_file (as_numbers entries))
          else (fail not_written, m, file))
      else (fail not_finite, m, file)

  -- `self.ratings[a]`, which is there since `_elo` has read it
  abbrev pub rating_or : N → Option N → N
  rating_or x none = x
  rating_or x (some y) = y

  -- the locked part, after the entries of the file were taken over
  abbrev pub after_absorb :
      Bool
      → Match N
      → RatingsFile N
      → Result RatingError (Unit {0}) × Elo N
      → Result RatingError (Elo N) × Elo N × RatingsFile N
  after_absorb writes g file (fail e, m) = (fail e, m, file)
  after_absorb writes g file (ok _, m) =
      write_ratings writes
        (apply_delta g (rating_or g.elo_a (rating_of g.a m.ratings))
          (rating_or g.elo_b (rating_of g.b m.ratings)) m)
        file

  unfoldable pub rate_match :
      Bool → Match N → Elo N → RatingsFile N → Result RatingError (Elo N) × Elo N × RatingsFile N
  unfolding absorb apply_delta write_ratings
  rate_match writes g m no_file = write_ratings writes (apply_delta g g.elo_a g.elo_b m) no_file
  rate_match writes g m unreadable = (fail unreadable_ratings, m, unreadable)
  rate_match writes g m (ratings_file rs) = after_absorb writes g (ratings_file rs) (absorb rs m)

  -- `update_ratings`: what it returns or raises, the model, and the file
  unfoldable pub update_ratings :
      Unicode
      → List SeedTeam
      → List String
      → Bool
      → String
      → String
      → Score
      → Elo N
      → RatingsFile N
      → Result RatingError (Elo N) × Elo N × RatingsFile N
  unfolding check_match rate_match
  update_ratings u teams names writes team_a team_b s m file =
      elim (check_match u teams names team_a team_b s m) [
        | fail e ↦ (fail e, m, file)
        | ok g ↦ rate_match writes g m file
      ]

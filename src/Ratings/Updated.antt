-- ===== src/Ratings/Updated.antt =====
-- What `update_ratings` of src/model.py writes: a change of two ratings of the latest file.
use lol_predictor.Prelude.{
  eqb, not, >>=-ok, require-then, ok-eq, ok, fail, Result, Unicode, String, ◌≡◌, ◌≢◌, refl, subst,
  sym, ◌∙◌, inl, inr, Bool, true, Option, none, some, List, Bool-cases, Float, ◌==◌, eq_iff,
  eq_refl, is_in, if◌then◌else◌, ap,
}
use lol_predictor.Teams.{SeedTeam}
use lol_predictor.H4.Signals.{Numeric}
use lol_predictor.Ratings.{
  apply_delta, write_ratings, rating_or, after_absorb, rate_match, update_ratings, check_match,
  count_of, elo_of, official_rated, format_for, no_winner, no_rating, same_team, RatingError,
  RatingsFile, ratings_file, Score, Match, all_finite, Elo, rating_of, add_name, take_rating,
  persisted, as_numbers, absorb, delta_of,
}
use lol_predictor.Ratings.Entries.{
  entry_of, or_else, different, is_in-add_name, is_in-add_name_self, rating_of-set,
  entry_of-persisted, absorb-rating_of, absorb-is_in_new,
}

apart_of : (a b : String) → not (a == b) ≡ true → a ≢ b
apart_of a b h same = cc ((eq_iff a b).1 same, h)

found_rating :
    {N : Type 0} (o : Option N) {y : N}
    → (elim o [ none ↦ fail no_rating | some x ↦ ok x ]) ≡ ok y
    → o ≡ some y
found_rating none h = cc
found_rating (some x) h = ap some (ok-eq refl h)

module _ {N : Type 0} ⦃f : Float N⦄ (power : N → N) where
  -- The new file has the old ratings, but for the two teams of the match.
  pub record Rerated (g : Match N) (rs rs' : List (String × Numeric N)) : Type 0 where
    pub others :
        (n : String) (x : N) → n ≢ g.a → n ≢ g.b → entry_of n rs ≡ some x → entry_of n rs' ≡ some x
    pub old_a : N
    pub old_b : N
    pub is_old_a : or_else (entry_of g.a rs) (some g.elo_a) ≡ some old_a
    pub is_old_b : or_else (entry_of g.b rs) (some g.elo_b) ≡ some old_b
    pub new_a : entry_of g.a rs' ≡ some (f.add old_a (delta_of power g.k g.a_won old_a old_b))
    pub new_b : entry_of g.b rs' ≡ some (f.sub old_b (delta_of power g.k g.a_won old_a old_b))

  is_some :
      (e : Option N) (d : N) → or_else e (some d) ≡ some (rating_or power d (or_else e (some d)))
  is_some (some x) d = refl
  is_some none d = refl

  -- the rating after both changes
  rating_of-delta :
      (n : String) (g : Match N) (xa xb : N) (m : Elo N)
      → rating_of n (apply_delta power g xa xb m).ratings ≡ (
          if g.b == n
          then some (f.sub xb (delta_of power g.k g.a_won xa xb))
          else if g.a == n
          then some (f.add xa (delta_of power g.k g.a_won xa xb))
          else rating_of n m.ratings)
  unfolding apply_delta take_rating
  rating_of-delta n g xa xb m =
      let delta = delta_of power g.k g.a_won xa xb in
      let first = take_rating g.a (f.add xa delta) m in
      rating_of-set n g.b (f.sub xb delta) first.ratings
      ∙ ap (λ r. if g.b == n then some (f.sub xb delta) else r)
          (rating_of-set n g.a (f.add xa delta) m.ratings)

  is_in-delta :
      (n : String) (g : Match N) (xa xb : N) (m : Elo N)
      → is_in n m.persistable ≡ true
      → is_in n (apply_delta power g xa xb m).persistable ≡ true
  unfolding apply_delta take_rating
  is_in-delta n g xa xb m h =
      is_in-add_name n g.b (add_name g.a m.persistable) (is_in-add_name n g.a m.persistable h)

  is_in-delta_a :
      (g : Match N) (xa xb : N) (m : Elo N)
      → is_in g.a (apply_delta power g xa xb m).persistable ≡ true
  unfolding apply_delta take_rating
  is_in-delta_a g xa xb m =
      is_in-add_name g.a g.b (add_name g.a m.persistable) (is_in-add_name_self g.a m.persistable)

  is_in-delta_b :
      (g : Match N) (xa xb : N) (m : Elo N)
      → is_in g.b (apply_delta power g xa xb m).persistable ≡ true
  unfolding apply_delta take_rating
  is_in-delta_b g xa xb m = is_in-add_name_self g.b (add_name g.a m.persistable)

  -- what is written of a name after the change
  written :
      (n : String) (m : Elo N) {x : N}
      → rating_of n m.ratings ≡ some x
      → is_in n m.persistable ≡ true
      → entry_of n (as_numbers (persisted m.persistable m.ratings)) ≡ some x
  written n m h here = rw here at (entry_of-persisted n m.persistable m.ratings) ∙ h

  delta-Rerated :
      (g : Match N) (rs : List (String × Numeric N)) (m : Elo N)
      → rating_of g.a m.ratings ≡ some g.elo_a
      → rating_of g.b m.ratings ≡ some g.elo_b
      → g.a ≢ g.b
      → (absorb rs m).0 ≡ ok tt
      → (xa xb : N) → xa ≡ rating_or power g.elo_a (rating_of g.a (absorb rs m).1.ratings)
      → xb ≡ rating_or power g.elo_b (rating_of g.b (absorb rs m).1.ratings)
      → Rerated g rs (
          as_numbers (
            persisted
              (apply_delta power g xa xb (absorb rs m).1).persistable
              (apply_delta power g xa xb (absorb rs m).1).ratings))
  delta-Rerated g rs m ha hb apart taken xa xb ea eb =
      let m1 = (absorb rs m).1 in
      let m2 = apply_delta power g xa xb m1 in
      let ra = absorb-rating_of g.a rs m taken ∙ ap (or_else (entry_of g.a rs)) ha in
      let rb = absorb-rating_of g.b rs m taken ∙ ap (or_else (entry_of g.b rs)) hb in
      record {
        others = λ n x not_a not_b e.
            written n m2
              (rating_of-delta n g xa xb m1
                ∙ (rw (different g.b n (λ s. not_b (sym s)), different g.a n (λ s. not_a (sym s)))
                    (absorb-rating_of n rs m taken
                      ∙ ap (λ o. or_else o (rating_of n m.ratings)) e)))
              (is_in-delta n g xa xb m1 (absorb-is_in_new n rs m taken e));
        old_a = xa;
        old_b = xb;
        is_old_a = rw (ea, ra) (is_some (entry_of g.a rs) g.elo_a);
        is_old_b = rw (eb, rb) (is_some (entry_of g.b rs) g.elo_b);
        new_a =
            written g.a m2
              (rating_of-delta g.a g xa xb m1
                ∙ rw (different g.b g.a (λ s. apart (sym s)), eq_refl g.a) refl)
              (is_in-delta_a g xa xb m1);
        new_b =
            written g.b m2 (rating_of-delta g.b g xa xb m1 ∙ rw (eq_refl g.b) refl)
              (is_in-delta_b g xa xb m1);
      }

  Match-rated :
      (u : Unicode) (teams : List SeedTeam) (names : List String) (name : String) (m : Elo N)
      {x : String × N}
      → elo_of u teams names name m ≡ ok x
      → rating_of x.0 m.ratings ≡ some x.1
  unfolding elo_of
  Match-rated u teams names name m h =
      let (official, e1, h1) = >>=-ok (official_rated u teams names name m) _ h in
      let (y, e2, h2) =
        >>=-ok (elim (rating_of official m.ratings) [ none ↦ fail no_rating | some x ↦ ok x ]) _
          h1 in
      subst (λ x. rating_of x.0 m.ratings ≡ some x.1) (ok-eq refl h2)
        (found_rating (rating_of official m.ratings) e2)

  -- both teams of a match that is checked have ratings, and they are two
  check_match-rated :
      (u : Unicode) (teams : List SeedTeam) (names : List String) (team_a team_b : String)
      (s : Score) (m : Elo N) {g : Match N}
      → check_match u teams names team_a team_b s m ≡ ok g
      → (rating_of g.a m.ratings ≡ some g.elo_a)
        × (rating_of g.b m.ratings ≡ some g.elo_b)
        × (g.a ≢ g.b)
  unfolding check_match
  check_match-rated u teams names team_a team_b s m h =
      let (won_a, e1, h1) = >>=-ok (count_of s.result_a) _ h in
      let (won_b, e2, h2) = >>=-ok (count_of s.result_b) _ h1 in
      let (winner, h3) = require-then (not (eqb won_a won_b)) no_winner _ h2 in
      let (first, e4, h4) = >>=-ok (elo_of u teams names team_a m) _ h3 in
      let (second, e5, h5) = >>=-ok (elo_of u teams names team_b m) _ h4 in
      let (two, h6) = require-then (not (first.0 == second.0)) same_team _ h5 in
      let (format, e7, h7) = >>=-ok (format_for s.format won_a won_b) _ h6 in
      subst
        (λ g.
          (rating_of g.a m.ratings ≡ some g.elo_a)
          × (rating_of g.b m.ratings ≡ some g.elo_b)
          × (g.a ≢ g.b))
        (ok-eq refl h7)
        (
          Match-rated u teams names team_a m e4,
          Match-rated u teams names team_b m e5,
          apart_of first.0 second.0 two,
        )

  written_file :
      (writes : Bool) (m : Elo N) (file : RatingsFile N) {m' : Elo N}
      → (write_ratings power writes m file).0 ≡ ok m'
      → (write_ratings power writes m file).2
        ≡ ratings_file (as_numbers (persisted m.persistable m.ratings))
  unfolding write_ratings
  written_file writes m file h =
      elim (Bool-cases (all_finite (persisted m.persistable m.ratings))) [
        | inr bad ↦ cc (rw (bad, write_ratings) at h)
        | inl fine ↦ elim (Bool-cases writes) [
          | inr refused ↦ cc (rw (fine, refused, write_ratings) at h)
          | inl done ↦ rw (fine, done, write_ratings) refl
        ]
      ]

  absorbed-Rerated :
      (writes : Bool) (g : Match N) (rs : List (String × Numeric N)) (m : Elo N)
      (x : Result RatingError (Unit {0})) {m' : Elo N}
      → (absorb rs m).0 ≡ x
      → rating_of g.a m.ratings ≡ some g.elo_a
      → rating_of g.b m.ratings ≡ some g.elo_b
      → g.a ≢ g.b
      → (after_absorb power writes g (ratings_file rs) (x, (absorb rs m).1)).0 ≡ ok m'
      → (rs' : List (String × Numeric N)) × ((after_absorb power writes g
            (ratings_file rs)
            (x, (absorb rs m).1)).2
          ≡ ratings_file rs')
        × Rerated g rs rs'
  absorbed-Rerated writes g rs m (fail e) made ha hb apart h = cc
  absorbed-Rerated writes g rs m (ok tt) made ha hb apart h =
      let m1 = (absorb rs m).1 in
      let xa = rating_or power g.elo_a (rating_of g.a m1.ratings) in
      let xb = rating_or power g.elo_b (rating_of g.b m1.ratings) in
      (
        _,
        written_file writes (apply_delta power g xa xb m1) (ratings_file rs) h,
        delta-Rerated g rs m ha hb apart made xa xb refl refl,
      )

  matched-Rerated :
      (u : Unicode) (teams : List SeedTeam) (names : List String) (writes : Bool)
      (team_a team_b : String) (s : Score) (m : Elo N) (rs : List (String × Numeric N))
      (c : Result RatingError (Match N)) {m' : Elo N}
      → check_match u teams names team_a team_b s m ≡ c
      → (update_ratings power u teams names writes team_a team_b s m (ratings_file rs)).0 ≡ ok m'
      → (g : Match N) × (check_match u teams names team_a team_b s m ≡ ok g)
        × (rs' : List (String × Numeric N)) × ((update_ratings power u teams names writes team_a
              team_b s m
              (ratings_file rs)).2
            ≡ ratings_file rs')
        × Rerated g rs rs'
  unfolding update_ratings rate_match
  matched-Rerated u teams names writes team_a team_b s m rs (fail e) made h =
      cc (rw (made, update_ratings) at h)
  matched-Rerated u teams names writes team_a team_b s m rs (ok g) made h =
      let (ha, hb, apart) = check_match-rated u teams names team_a team_b s m made in
      let (rs', stored, rerated) =
        absorbed-Rerated writes g rs m (absorb rs m).0 refl ha hb apart
          (rw (made, update_ratings) at h) in
      (g, made, rs', rw (made, update_ratings) stored, rerated)

  -- If `update_ratings` returns over a readable ratings file, the match has two different rated teams,
  -- and the file it leaves gives every other team of the old file its old rating there, and the two
  -- teams their latest ratings, from the old file if it has them, plus and minus the delta of these.
  pub update_ratings-Rerated :
      (u : Unicode) (teams : List SeedTeam) (names : List String) (writes : Bool)
      (team_a team_b : String) (s : Score) (m : Elo N) (rs : List (String × Numeric N)) {m' : Elo N}
      → (update_ratings power u teams names writes team_a team_b s m (ratings_file rs)).0 ≡ ok m'
      → (g : Match N) × (check_match u teams names team_a team_b s m ≡ ok g)
        × (rs' : List (String × Numeric N)) × ((update_ratings power u teams names writes team_a
              team_b s m
              (ratings_file rs)).2
            ≡ ratings_file rs')
        × Rerated g rs rs'
  update_ratings-Rerated u teams names writes team_a team_b s m rs h =
      matched-Rerated u teams names writes team_a team_b s m rs _ refl h

-- ===== src/Draft/Contract.antt =====
-- What an observation that `normalize_observation` of src/draft_shadow.py returns is known to hold.
use lol_predictor.Prelude.{
  ℕ, suc, String, ◌≡◌, ◌≢◌, ◌≤◌, ◌<◌, refl, ap, true, ◌&&◌, Option, none, some, List, [], ◌∷◌, map,
  length, All, ok, >>=-ok, >>-ok, require-then, require-ok, both, Stamp, aware, naive, garbled, eqb,
  eqb_iff, leb, ltb, present, arith,
}
use lol_predictor.H4.Cohort.{distinct}
use lol_predictor.Draft.Observation.{
  time, check_player, check_players, player_key, check_roster, sequences, counts_from,
  check_complete, is_blank, check_draft,
}
use lol_predictor.Draft.Raw.{
  pre_draft, post_draft, closing, no_actions, malformed_actions, Point, Player, player, not_player,
  Roster, players, not_roster, Action, Draft, actions,
}

pub time-ok : (o : Option Stamp) {t : ℕ} → time o ≡ ok t → o ≡ some (aware t)
time-ok none h = cc
time-ok (some (aware s)) h = cc
time-ok (some (naive s)) h = cc
time-ok (some garbled) h = cc

pub leb-le : (a b : ℕ) → leb a b ≡ true → a ≤ b
leb-le a b h = ground arith

ltb-lt : (a b : ℕ) → ltb a b ≡ true → a < b
ltb-lt a b h = ground arith

-- A player with an id and a role, known at or before the time of the decision.
pub record Known (observed : ℕ) (p : Player) : Type 0 where
  pub id : Option String
  pub role : Option String
  pub known_at : ℕ
  pub is_player : p ≡ player id role (some (aware known_at))
  pub has_id : present id ≡ true
  pub has_role : present role ≡ true
  pub in_time : known_at ≤ observed

check_player-Known :
    (observed : ℕ) (p : Player) → check_player observed p ≡ ok tt → Known observed p
unfolding check_player
check_player-Known observed not_player h = cc
check_player-Known observed (player id role at) h =
    let (named, h1) = require-then (present id && present role) _ _ h in
    let (t, read, h2) = >>=-ok (time at) _ h1 in
    record {
      id = id;
      role = role;
      known_at = t;
      is_player = ap (player id role) (time-ok at read);
      has_id = (both {a = present id} named).0;
      has_role = (both {a = present id} named).1;
      in_time = leb-le t observed (require-ok (leb t observed) _ h2);
    }

check_players-All :
    (observed : ℕ) (ps : List Player) → check_players observed ps ≡ ok tt → All (Known observed) ps
unfolding check_players
check_players-All observed [] h = tt
check_players-All observed (p ∷ ps) h =
    let (first, later) = >>-ok (check_player observed p) _ h in
    (check_player-Known observed p first, check_players-All observed ps later)

-- Five players with five different ids, all of them known in time.
pub record Lineup (observed : ℕ) (roster : Option Roster) : Type 0 where
  pub starters : List Player
  pub is_list : roster ≡ some (players starters)
  pub five : length starters ≡ 5
  pub known : All (Known observed) starters
  pub different : length (distinct (map player_key starters)) ≡ 5

pub check_roster-Lineup :
    (observed : ℕ) (roster : Option Roster)
    → check_roster observed roster ≡ ok tt
    → Lineup observed roster
unfolding check_roster
check_roster-Lineup observed none h = cc
check_roster-Lineup observed (some not_roster) h = cc
check_roster-Lineup observed (some (players ps)) h =
    let (five, h1) = require-then (eqb (length ps) 5) _ _ h in
    let (known, h2) = >>-ok (check_players observed ps) _ h1 in
    let keys = length (distinct (map player_key ps)) in
    record {
      starters = ps;
      is_list = refl;
      five = (eqb_iff (length ps) 5).0 five;
      known = check_players-All observed ps known;
      different = (eqb_iff keys 5).0 (require-ok (eqb keys 5) _ h2);
    }

-- n, n + 1, ... for the items of a list
abbrev pub numbered : ℕ → List Action → List (Option ℕ)
numbered n [] = []
numbered n (_ ∷ xs) = some n ∷ numbered (suc n) xs

counts_from-numbered :
    (n : ℕ) (xs : List Action) (ms : List (Option ℕ))
    → counts_from n xs ms ≡ true
    → ms ≡ numbered n xs
unfolding counts_from
counts_from-numbered n [] [] h = refl
counts_from-numbered n [] (m ∷ ms) h = cc
counts_from-numbered n (x ∷ xs) [] h = cc
counts_from-numbered n (x ∷ xs) (none ∷ ms) h = cc
counts_from-numbered n (x ∷ xs) (some m ∷ ms) h =
    let (here, later) = both {a = eqb m n} h in
    rw ((eqb_iff m n).0 here) (ap (some n ∷◌) (counts_from-numbered (suc n) xs ms later))

-- What the draft is like at each decision point: before it begins, nothing is known of it; from its
-- end on, all its actions are known, numbered from 1 without a gap.
pub data DraftAt (observed published started : ℕ) (completed_at : Option Stamp) (draft : Draft)
    : Point → Type 0 where
  before :
      observed < started
      → is_blank draft ≡ true
      → DraftAt observed published started completed_at draft pre_draft
  after :
      (point : Point) (completed : ℕ) (xs : List Action)
      → point ≢ pre_draft
      → completed_at ≡ some (aware completed)
      → completed ≤ published
      → draft ≡ actions xs
      → xs ≢ []
      → sequences xs ≡ numbered 1 xs
      → DraftAt observed published started completed_at draft point

check_complete-numbered :
    (draft : Draft)
    → check_complete draft ≡ ok tt
    → (xs : List Action) × (draft ≡ actions xs) × (xs ≢ []) × (sequences xs ≡ numbered 1 xs)
unfolding check_complete
check_complete-numbered no_actions h = cc
check_complete-numbered malformed_actions h = cc
check_complete-numbered (actions []) h = cc
check_complete-numbered (actions (x ∷ xs)) h =
    let all = require-ok (counts_from 1 (x ∷ xs) (sequences (x ∷ xs))) _ h in
    (x ∷ xs, refl, (λ e. cc), counts_from-numbered 1 (x ∷ xs) (sequences (x ∷ xs)) all)

after_draft :
    (point : Point) (observed published started : ℕ) (completed_at : Option Stamp) (draft : Draft)
    {completed : ℕ}
    → point ≢ pre_draft
    → time completed_at ≡ ok completed
    → leb completed published ≡ true
    → check_complete draft ≡ ok tt
    → DraftAt observed published started completed_at draft point
after_draft point observed published started completed_at draft {completed = completed} later read
      early h =
    let (xs, is_list, some_of, numbers) = check_complete-numbered draft h in
    after point completed xs later (time-ok completed_at read) (leb-le completed published early)
      is_list some_of numbers

pub check_draft-DraftAt :
    (point : Point) (observed published started : ℕ) (completed_at : Option Stamp) (draft : Draft)
    → check_draft point observed published started completed_at draft ≡ ok tt
    → DraftAt observed published started completed_at draft point
unfolding check_draft
check_draft-DraftAt pre_draft observed published started completed_at draft h =
    let (early, h1) = require-then (ltb observed started) _ _ h in
    before (ltb-lt observed started early) (require-ok (is_blank draft) _ h1)
check_draft-DraftAt post_draft observed published started completed_at draft h =
    let (completed, read, h1) = >>=-ok (time completed_at) _ h in
    let (early, h2) = require-then (leb completed published) _ _ h1 in
    after_draft post_draft observed published started completed_at draft (λ e. cc) read early h2
check_draft-DraftAt closing observed published started completed_at draft h =
    let (completed, read, h1) = >>=-ok (time completed_at) _ h in
    let (early, h2) = require-then (leb completed published) _ _ h1 in
    after_draft closing observed published started completed_at draft (λ e. cc) read early h2

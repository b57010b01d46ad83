-- ===== src/Ingestion/Bounded.antt =====
-- The whole loop of `fetch` in src/data/ingestion.py: what it keeps, and its bounds.
use lol_predictor.Prelude.{ℕ, ◌≡◌, ◌≤◌, ◌+◌, false, List, [], ◌∷◌, ◌++◌, length, Float, flt, ◌-◌}
use lol_predictor.Ingestion.Store.{Naming}
use lol_predictor.Ingestion.Fetch.{Policy, Attempt, Client}
use lol_predictor.Ingestion.Sound.{Sound}
use lol_predictor.Ingestion.Attempts.{Kept}

module _ (n : Naming) {N : Type 0} ⦃f : Float N⦄ (p : Policy N) (started : N)
    (w : ℕ → Attempt N) where
  -- the delay ends within the budget, by the clock that the attempt of this number reads before it
  abbrev pub InTime : ℕ → N → Type 0
  InTime k d =
      flt p.max_execution_seconds (f.add (f.sub (w k).clock_before_sleep started) d) ≡ false

  -- The delays of consecutive attempts from this number on, the latest first.
  abbrev pub AllInTime : ℕ → List N → Type 0
  AllInTime first [] = Unit {0}
  AllInTime first (d ∷ ds) = InTime (first + length ds) d × AllInTime first ds

  -- What a number of attempts, numbered from `first` on, do to the client.
  pub record Ran (first attempts : ℕ) (c d : Client N) : Type 0 where
    pub store : Kept n c.store d.store
    pub requests : length d.requests ≤ length c.requests + attempts
    pub delays : List N
    pub slept : d.slept ≡ delays ++ c.slept
    pub in_time : AllInTime first delays
    pub between : length delays ≤ attempts - 1

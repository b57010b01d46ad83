-- ===== src/Betting/Settled.antt =====
-- What the log of src/betting.py holds after any calls of `record_bet` and `settle_bet`.
use lol_predictor.Prelude.{
  ◌>>◌, ◌∙◌, ℕ, String, ◌≡◌, ◌≤◌, ◌+◌, refl, subst, ap, inl, inr, Bool, true, false, none, some,
  List, [], ◌∷◌, ◌++◌, length, keep, All, All-append, Result, ok, fail, >>=-ok, ok-eq, Bool-cases,
  Option-cases, Float, arith, ◌==◌, eq_iff, eq_refl,
}
use lol_predictor.Approval.{ApprovalFile, BetPayload}
use lol_predictor.Betting.{GateFile, absent, malformed, gate_record, go_gate}
use lol_predictor.Betting.Paper.{
  require_go, BetError, BetRequest, Fields, text, truth, PlacedBet, field, settles_id,
  settlement_of, kelly_stake, metadata_for, row_for, new_bet, logged, record_bet, settle_bet,
  settlement_row,
}

module _ {N : Type 0} where
  -- how often the log settles the bet
  abbrev pub settlements : String → List (Fields N) → ℕ
  settlements id log = length (keep (settles_id id) log)

  -- `row["real"]` is true
  abbrev pub IsReal : Fields N → Type 0
  IsReal row = field "real" row ≡ some (truth true)

  settlements-append :
      (id : String) (log rows : List (Fields N))
      → settlements id (log ++ rows) ≡ settlements id log + settlements id rows
  settlements-append id [] rows = omega arith
  settlements-append id (r ∷ log) rows = elim (Bool-cases (settles_id id r)) [
    | inl yes_r ↦ rw yes_r (omega (arith, settlements-append id log rows))
    | inr no_r ↦ rw no_r (settlements-append id log rows)
  ]

  settlement_of-none :
      (id : String) (log : List (Fields N)) → settlement_of id log ≡ none → settlements id log ≡ 0
  unfolding settlement_of
  settlement_of-none id [] h = refl
  settlement_of-none id (r ∷ log) h = elim (Bool-cases (settles_id id r)) [
    | inl same ↦ cc (rw same at h)
    | inr other_row ↦ rw other_row (settlement_of-none id log (rw other_row at h))
  ]

  -- the settlement that is found stays the one that is found
  settlement_of-append :
      (id : String) (log rows : List (Fields N)) {s : Fields N}
      → settlement_of id log ≡ some s
      → settlement_of id (log ++ rows) ≡ some s
  unfolding settlement_of
  settlement_of-append id [] rows h = cc
  settlement_of-append id (r ∷ log) rows h = elim (Bool-cases (settles_id id r)) [
    | inl same ↦ rw same (rw same at h)
    | inr other_row ↦ rw other_row (settlement_of-append id log rows (rw other_row at h))
  ]

  settlement_of-new :
      (id : String) (log : List (Fields N)) (row : Fields N)
      → settles_id id row ≡ true
      → settlement_of id log ≡ none
      → settlement_of id (log ++ row ∷ []) ≡ some row
  unfolding settlement_of
  settlement_of-new id [] row mine h = rw mine refl
  settlement_of-new id (r ∷ log) row mine h = elim (Bool-cases (settles_id id r)) [
    | inl same ↦ cc (rw same at h)
    | inr other_row ↦ rw other_row (settlement_of-new id log row mine (rw other_row at h))
  ]

  field-append :
      (key : String) (metadata row : Fields N)
      → field key metadata ≡ none
      → field key (metadata ++ row) ≡ field key row
  unfolding field
  field-append key [] row h = refl
  field-append key ((k, v) ∷ metadata) row h = elim (Bool-cases (k == key)) [
    | inl same ↦ cc (rw same at h)
    | inr other_key ↦ rw other_key (field-append key metadata row (rw other_key at h))
  ]

  -- a row with this event settles nothing
  bet_event :
      (id : String) (row : Fields N)
      → field "event" row ≡ some (text "bet")
      → settles_id id row ≡ false
  unfolding settles_id
  bet_event id row h = rw h refl

module _ {N : Type 0} ⦃f : Float N⦄ where
  settles_id-settlement_row :
      (id : String) (b : PlacedBet N) (won : Bool)
      → settles_id id (settlement_row b won) ≡ (b.id == id)
  unfolding settles_id field
  settles_id-settlement_row id b won = refl

  one_more :
      (id : String) (b : PlacedBet N) (won : Bool) (log : List (Fields N))
      → settlements b.id log ≡ 0
      → settlements id log ≤ 1
      → settlements id (log ++ settlement_row b won ∷ []) ≤ 1
  one_more id b won log unsettled le = elim (Bool-cases (b.id == id)) [
    | inr other_bet ↦
        let none_more : settlements id (settlement_row b won ∷ []) ≡ 0 =
          rw (settles_id-settlement_row id b won ∙ other_bet) refl in
        omega (arith, settlements-append id log (settlement_row b won ∷ []), none_more)
    | inl same ↦
        let one : settlements id (settlement_row b won ∷ []) ≡ 1 =
          rw (settles_id-settlement_row id b won ∙ same) refl in
        let zero_yet : settlements id log ≡ 0 =
          subst (λ k. settlements k log ≡ 0) ((eq_iff b.id id).0 same) unsettled in
        omega (arith, settlements-append id log (settlement_row b won ∷ []), one, zero_yet)
  ]

  -- The logs that calls lead to, with any arguments, gate files, approvals, ids and outcomes, where
  -- no call of `record_bet` is given a keyword `event`, which would replace the row's own. A keyword
  -- `real` is the parameter of that name, and never metadata.
  pub data Logged : List (Fields N) → Type 0 where
    start : Logged []
    recorded :
        {log : List (Fields N)} (gate : GateFile N) (file : ApprovalFile)
        (digest : BetPayload N → String) (now : ℕ) (id : String) (r : BetRequest N)
        → field "real" r.metadata ≡ none
        → field "event" r.metadata ≡ none
        → Logged log
        → Logged (record_bet gate file digest now id r log).1
    settled :
        {log : List (Fields N)} (b : PlacedBet N) (won : Bool)
        → Logged log
        → Logged (settle_bet b won log).1

  pub record IsPaperLog (log : List (Fields N)) : Type 0 where
    pub paper : All (λ r. ¬ IsReal r) log
    pub once : (id : String) → settlements id log ≤ 1

  gate_never_opens :
      {A : Type 0} (gate : GateFile N) (k : Result BetError A) {x : A}
      → (require_go (go_gate gate) >> k) ≡ ok x
      → ⊥
  unfolding go_gate
  gate_never_opens absent k h = cc
  gate_never_opens malformed k h = cc
  gate_never_opens (gate_record g) k h = cc

  metadata_for-paper :
      (gate : GateFile N) (file : ApprovalFile) (digest : BetPayload N → String) (now : ℕ)
      (r : BetRequest N) {m : Fields N}
      → metadata_for gate file digest now r ≡ ok m
      → (r.real ≡ false) × (r.metadata ≡ m)
  unfolding metadata_for go_gate
  metadata_for-paper gate file digest now r h = elim (Bool-cases r.real) [
    | inr paper ↦ (paper, ok-eq refl (rw paper at h))
    | inl is_real ↦ absurd (gate_never_opens gate _ (rw is_real at h))
  ]

  -- The row of a bet whose metadata leaves `real` and `event` alone.
  pub record PaperRow (row : Fields N) : Type 0 where
    pub paper : field "real" row ≡ some (truth false)
    pub event : field "event" row ≡ some (text "bet")

  row_for-PaperRow :
      (id : String) (r : BetRequest N) (stake : N)
      → r.real ≡ false
      → field "real" r.metadata ≡ none
      → field "event" r.metadata ≡ none
      → PaperRow (row_for id r stake r.metadata)
  unfolding row_for
  row_for-PaperRow id r stake paper no_real no_event = record {
    paper =
        field-append "real" r.metadata _ no_real ∙ unfold field in ap (λ b. some (truth b)) paper;
    event = field-append "event" r.metadata _ no_event ∙ unfold field in refl;
  }

  -- a bet that is recorded is a paper bet
  new_bet-PaperRow :
      (gate : GateFile N) (file : ApprovalFile) (digest : BetPayload N → String) (now : ℕ)
      (id : String) (r : BetRequest N) {row : Fields N}
      → new_bet gate file digest now id r ≡ ok row
      → field "real" r.metadata ≡ none
      → field "event" r.metadata ≡ none
      → PaperRow row
  unfolding new_bet
  new_bet-PaperRow gate file digest now id r h no_real no_event =
      let (m, e1, h1) = >>=-ok (metadata_for gate file digest now r) _ h in
      let (stake, e2, h2) = >>=-ok (kelly_stake r.prob_model r.decimal_odds r.bankroll) _ h1 in
      let (paper, same) = metadata_for-paper gate file digest now r e1 in
      subst PaperRow (ap (row_for id r stake) same ∙ ok-eq refl h2)
        (row_for-PaperRow id r stake paper no_real no_event)

  logged-IsPaperLog :
      (log : List (Fields N)) (x : Result BetError (Fields N))
      → ((row : Fields N) → x ≡ ok row → PaperRow row)
      → IsPaperLog log
      → IsPaperLog (logged x log).1
  logged-IsPaperLog log (fail e) rows p = p
  logged-IsPaperLog log (ok row) rows p =
      let made = rows row refl in
      record {
        paper = All-append _ log (row ∷ []) p.paper ((λ is_real. cc (made.paper, is_real)), tt);
        once = λ id.
            let none_more : settlements id (row ∷ []) ≡ 0 = rw (bet_event id row made.event) refl in
            omega (arith, settlements-append id log (row ∷ []), p.once id, none_more);
      }

  settlement_row-paper : (b : PlacedBet N) (won : Bool) → ¬ IsReal (settlement_row b won)
  unfolding field
  settlement_row-paper b won h = cc

  settle_bet-IsPaperLog :
      (b : PlacedBet N) (won : Bool) (log : List (Fields N))
      → IsPaperLog log
      → IsPaperLog (settle_bet b won log).1
  unfolding settle_bet
  settle_bet-IsPaperLog b won log p = elim (Option-cases (settlement_of b.id log)) [
    | inr (s, old) ↦ rw (old, settle_bet) p
    | inl new ↦
        rw (new, settle_bet)
          (record {
            paper =
                All-append _ log (settlement_row b won ∷ []) p.paper
                  (settlement_row-paper b won, tt);
            once = λ id. one_more id b won log (settlement_of-none b.id log new) (p.once id);
          })
  ]

  -- After any calls of `record_bet` and `settle_bet` on an empty log, with any gate files, approvals,
  -- ids, outcomes and arguments but a metadata keyword `event`, no row of the log is of a real bet,
  -- and no id is settled twice.
  pub Logged-IsPaperLog : {log : List (Fields N)} → Logged log → IsPaperLog log
  unfolding record_bet
  Logged-IsPaperLog start = record { paper = tt; once = λ id. omega arith }
  Logged-IsPaperLog (recorded {log = log} gate file digest now id r no_real no_event before) =
      logged-IsPaperLog log (new_bet gate file digest now id r)
        (λ b made. new_bet-PaperRow gate file digest now id r made no_real no_event)
        (Logged-IsPaperLog before)
  Logged-IsPaperLog (settled {log = log} b won before) =
      settle_bet-IsPaperLog b won log (Logged-IsPaperLog before)

  settle_bet-found :
      (b : PlacedBet N) (won : Bool) (log : List (Fields N)) {s : Fields N}
      → settlement_of b.id log ≡ some s
      → settle_bet b won log ≡ (s, log)
  unfolding settle_bet
  settle_bet-found b won log old = rw (old, settle_bet) refl

  settle_bet-new :
      (b : PlacedBet N) (won : Bool) (log : List (Fields N))
      → settlement_of b.id log ≡ none
      → settle_bet b won log ≡ (settlement_row b won, log ++ settlement_row b won ∷ [])
  unfolding settle_bet
  settle_bet-new b won log new = rw (new, settle_bet) refl

  -- After a `settle_bet`, every later one of the same bet, whatever outcome it is given and whatever
  -- rows were appended in between, returns the first settlement and leaves the log as it is.
  pub settle_bet-again :
      (b : PlacedBet N) (won later : Bool) (log rows : List (Fields N))
      → settle_bet b later ((settle_bet b won log).1 ++ rows)
        ≡ ((settle_bet b won log).0, (settle_bet b won log).1 ++ rows)
  settle_bet-again b won later log rows = elim (Option-cases (settlement_of b.id log)) [
    | inr (s, old) ↦
        rw (settle_bet-found b won log old)
          (settle_bet-found b later (log ++ rows) (settlement_of-append b.id log rows old))
    | inl new ↦
        let row = settlement_row b won in
        let mine = settles_id-settlement_row b.id b won ∙ eq_refl b.id in
        let after = log ++ row ∷ [] in
        rw (settle_bet-new b won log new) (
          settle_bet-found b later (after ++ rows)
            (settlement_of-append b.id after rows (settlement_of-new b.id log row mine new)))
  ]

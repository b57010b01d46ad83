-- ===== src/Execution/Safety.antt =====
-- What the layers of `submit_order` in src/execution_polymarket.py keep out.
use lol_predictor.Prelude.{
  String, ◌≡◌, refl, ◌≢◌, ◌⊎◌, Bool, true, false, some, arith, present, Float, flt, fle, fzero,
  fone, eq_iff,
}
use lol_predictor.Approval.{
  ApprovalFile, ApprovalRecord, reads, no_path, unreadable, Approved, granted, denied, Grant,
  bet_fingerprint, require_manual_approval,
}
use lol_predictor.Approval.Bound.{Meets, require_manual_approval-Meets, is_text-eq}
use lol_predictor.Betting.{Decision, go, no_go, GateFile, absent, malformed, gate_record, go_gate}
use lol_predictor.Execution.Outcome.{Error, Outcome, returned, raised, ◌>>=◌, ◌>>◌, ensure}
use lol_predictor.Execution.Layers.{
  Order, Bet, Digests, Surroundings, well_formed, gate_outcome, is_go, approval_outcome,
  require_order_fingerprint, order_fingerprint, confirms, authorise,
}
use lol_predictor.Execution.Calls.{Desk, Draw, submit_under, submit_order, after_layers}

-- Inversion of a layer that let the call through.
ensure-true :
    (b : Bool) (e : Error) {k : Outcome (Unit {0})}
    → (ensure b e >> k) ≡ returned tt
    → (b ≡ true) × (k ≡ returned tt)
ensure-true true e h = (refl, h)
ensure-true false e h = cc

module _ {A B : Type 0} where
  >>=-returned :
      (m : Outcome A) (k : A → Outcome B) {b : B}
      → (m >>= k) ≡ returned b
      → (a : A) × (m ≡ returned a) × (k a ≡ returned b)
  >>=-returned (returned a) k h = (a, refl, h)
  >>=-returned (raised e) k h = cc

is_go-eq : (x : Decision) → is_go x ≡ true → x ≡ go
is_go-eq go h = refl
is_go-eq no_go h = cc

approval_outcome-granted :
    (a : Approved Grant) → approval_outcome a ≡ returned tt → (g : Grant) × (a ≡ granted g)
unfolding approval_outcome
approval_outcome-granted (granted g) h = (g, refl)
approval_outcome-granted (denied d) h = cc

order_fingerprint-bound :
    (file : ApprovalFile) (expected : String)
    → require_order_fingerprint file expected ≡ returned tt
    → (a : ApprovalRecord) × (file ≡ reads a) × (a.order_fingerprint ≡ some expected)
unfolding require_order_fingerprint
order_fingerprint-bound (reads a) expected h =
    (a, refl, is_text-eq expected a.order_fingerprint (ground arith))
order_fingerprint-bound no_path expected h = cc
order_fingerprint-bound unreadable expected h = cc

ensure-last : (b : Bool) (e : Error) → ensure b e ≡ returned tt → b ≡ true
ensure-last true e h = refl
ensure-last false e h = cc

module _ {N : Type 0} ⦃f : Float N⦄ where
  -- What is known of a call that got past every layer.
  pub record Cleared (d : Digests N) (w : Surroundings) (gate : Outcome Decision) (bet : Bet N)
      (o : Order N) : Type 0 where
    pub side : (o.side ≡ "BUY") ⊎ (o.side ≡ "SELL")
    pub price_above : flt fzero o.price ≡ true
    pub price_below : flt o.price fone ≡ true
    pub size : fle o.size fzero ≡ false
    pub gate_open : gate ≡ returned go
    pub real : bet.real ≡ true
    pub carries_approval : present bet.approval_id ≡ true
    -- the file approves this bet at this time, and this order
    pub grant : Grant
    pub record_read : ApprovalRecord
    pub file : w.approval ≡ reads record_read
    pub meets : Meets record_read (bet_fingerprint d.of_bet bet.payload) w.now grant
    pub record_again : ApprovalRecord
    pub file_again : w.approval_again ≡ reads record_again
    pub bound : record_again.order_fingerprint ≡ some (order_fingerprint d o)
    pub confirmed : confirms w.confirmation ≡ true

  well_formed-true :
      (o : Order N)
      → well_formed o ≡ returned tt
      → ((o.side ≡ "BUY") ⊎ (o.side ≡ "SELL"))
        × (flt fzero o.price ≡ true)
        × (flt o.price fone ≡ true)
        × (fle o.size fzero ≡ false)
  unfolding well_formed
  well_formed-true o h = ground (arith, eq_iff o.side "BUY", eq_iff o.side "SELL")

  pub authorise-Cleared :
      (d : Digests N) (w : Surroundings) (gate : Outcome Decision) (bet : Bet N) (o : Order N)
      → authorise d w gate bet o ≡ returned tt
      → Cleared d w gate bet o
  unfolding authorise
  authorise-Cleared d w gate bet o h =
      let (u1, formed, h1) = >>=-returned (well_formed o) _ h in
      let (x, decision, h2) = >>=-returned gate _ h1 in
      let (open_gate, h3) = ensure-true (is_go x) _ h2 in
      let (real, h4) = ensure-true bet.real _ h3 in
      let (carries, h5) = ensure-true (present bet.approval_id) _ h4 in
      let (u2, allowed, h6) =
        >>=-returned
          (approval_outcome
            (require_manual_approval w.approval (bet_fingerprint d.of_bet bet.payload) w.now))
          _ h5 in
      let (u3, bound, h7) =
        >>=-returned (require_order_fingerprint w.approval_again (order_fingerprint d o)) _ h6 in
      let (g, eg) = approval_outcome-granted _ allowed in
      let (a, ea, m) = require_manual_approval-Meets w.approval _ w.now g eg in
      let (b, eb, ob) = order_fingerprint-bound w.approval_again _ bound in
      let (side, above, below, size) = well_formed-true o formed in
      record {
        side = side;
        price_above = above;
        price_below = below;
        size = size;
        gate_open = rw (is_go-eq x open_gate) at decision;
        real = real;
        carries_approval = carries;
        grant = g;
        record_read = a;
        file = ea;
        meets = m;
        record_again = b;
        file_again = eb;
        bound = ob;
        confirmed = ensure-last (confirms w.confirmation) _ h7;
      }

  after_layers-through :
      (m : Outcome (Unit {0})) (bet : Bet N) (o : Order N) (w : Draw N) (d : Desk N)
      → (after_layers m bet o w d).1 ≢ d
      → m ≡ returned tt
  unfolding after_layers
  after_layers-through (returned u) bet o w d h = refl
  after_layers-through (raised e) bet o w d h = absurd (h refl)

  -- A submission that changes the ledger, or transmits, has passed every layer.
  pub submit_under-Cleared :
      (gate : Outcome Decision) (dg : Digests N) (e : Surroundings) (bet : Bet N) (o : Order N)
      (w : Draw N) (d : Desk N)
      → (submit_under gate dg e bet o w d).1 ≢ d
      → Cleared dg e gate bet o
  unfolding submit_under
  submit_under-Cleared gate dg e bet o w d h =
      authorise-Cleared dg e gate bet o
        (after_layers-through (authorise dg e gate bet o) bet o w d h)

  gate-not_go : (file : GateFile N) → gate_outcome (go_gate file) ≢ returned go
  unfolding go_gate
  gate-not_go absent h = cc
  gate-not_go malformed h = cc
  gate-not_go (gate_record g) h = cc

  after_layers-raised :
      (m : Outcome (Unit {0})) (bet : Bet N) (o : Order N) (w : Draw N) (d : Desk N)
      → m ≢ returned tt
      → (x : Error) × (after_layers m bet o w d ≡ (raised x, d))
  unfolding after_layers
  after_layers-raised (raised e) bet o w d h = (e, refl)
  after_layers-raised (returned u) bet o w d h = absurd (h refl)

  -- As `go_gate` stands, every submission raises, with the ledger and the exchange untouched.
  pub submit_order-blocked :
      (file : GateFile N) (dg : Digests N) (e : Surroundings) (bet : Bet N) (o : Order N)
      (w : Draw N) (d : Desk N)
      → (x : Error) × (submit_order file dg e bet o w d ≡ (raised x, d))
  unfolding submit_order submit_under
  submit_order-blocked file dg e bet o w d =
      after_layers-raised (authorise dg e (gate_outcome (go_gate file)) bet o) bet o w d (λ h.
        gate-not_go file (authorise-Cleared dg e (gate_outcome (go_gate file)) bet o h).gate_open)

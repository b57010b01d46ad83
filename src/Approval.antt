-- ===== src/Approval.antt =====
-- The human approval of one order, src/manual_approval.py: what an approval file must say before
-- a bet may be real. `Reads` is what `json.loads` makes of the file.
pub mod Bound
use lol_predictor.Prelude.{
  ℕ, String, Bool, true, false, ◌&&◌, ◌||◌, not, Option, none, some, eqb, leb, ltb, is_empty, codes,
  strip, Float, fround, if◌then◌else◌, ◌==◌,
}

-- What `datetime.fromisoformat` makes of a text. A time of day without a zone cannot be compared.
pub data Instant : Type 0 where
  naive : ℕ → Instant
  aware : ℕ → Instant

pub record ApprovalRecord : Type 0 where
  pub schema_version : Option ℕ
  pub status : Option String
  pub approval_id : Option String
  pub approved_by : Option String
  pub fingerprint : Option String
  pub order_fingerprint : Option String
  -- `none`: the key is missing or its text is no time
  pub approved_at : Option Instant
  pub expires_at : Option Instant

-- `no_path` is `path is None`; `unreadable`, a file that is absent or no JSON object.
pub data ApprovalFile : Type 0 where
  no_path unreadable : ApprovalFile
  reads : ApprovalRecord → ApprovalFile

pub data Denied : Type 0 where
  missing_file invalid_file not_valid not_bound : Denied

pub data Approved (A : Type 0) : Type 0 where
  granted : A → Approved A
  denied : Denied → Approved A

-- the four keys that `require_manual_approval` returns
pub record Grant : Type 0 where
  pub approval_id : String
  pub approved_by : String
  pub approved_at : ℕ
  pub expires_at : ℕ

pub record BetPayload (N : Type 0) : Type 0 where
  pub market : String
  pub selection : String
  pub prob_model : N
  pub decimal_odds : N
  pub bankroll : N

-- `bet_fingerprint`: `digest` stands for SHA-256 over the canonical JSON text.
unfoldable pub bet_fingerprint :
    {N : Type 0} ⦃f : Float N⦄ → (BetPayload N → String) → BetPayload N → String
bet_fingerprint digest p = digest (record {
  market = p.market;
  selection = p.selection;
  prob_model = fround p.prob_model 8;
  decimal_odds = fround p.decimal_odds 8;
  bankroll = fround p.bankroll 2;
})

abbrev pub is_text : String → Option String → Bool
is_text want none = false
is_text want (some s) = s == want

abbrev pub is_number : ℕ → Option ℕ → Bool
is_number want none = false
is_number want (some n) = eqb n want

-- the six conditions of the guard that come before the clock
unfoldable pub names_this_bet : ApprovalRecord → String → Bool
names_this_bet a expected =
    is_number 1 a.schema_version && is_text "APPROVED" a.status && is_text expected a.fingerprint

-- the guard's remaining conditions: typed identifiers, zones, and the validity window
unfoldable pub window : String → String → Instant → Instant → ℕ → Approved Grant
window id by (aware since) (aware until) now =
    if not (is_empty (strip (codes by))) && leb since now && ltb now until
    then granted
        (record { approval_id = id; approved_by = by; approved_at = since; expires_at = until })
    else denied not_valid
window id by _ _ now = denied not_valid

unfoldable pub identified : Option String → Option String → Instant → Instant → ℕ → Approved Grant
unfolding window
identified (some id) (some by) since until now = window id by since until now
identified _ _ since until now = denied not_valid

unfoldable pub check_record :
    ApprovalRecord → Option Instant → Option Instant → String → ℕ → Approved Grant
unfolding names_this_bet identified
check_record a (some since) (some until) expected now =
    if names_this_bet a expected
    then identified a.approval_id a.approved_by since until now
    else denied not_valid
check_record a _ _ expected now = denied invalid_file

unfoldable pub require_manual_approval : ApprovalFile → String → ℕ → Approved Grant
unfolding check_record
require_manual_approval no_path expected now = denied missing_file
require_manual_approval unreadable expected now = denied invalid_file
require_manual_approval (reads a) expected now =
    check_record a a.approved_at a.expires_at expected now

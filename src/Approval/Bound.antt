-- ===== src/Approval/Bound.antt =====
-- What a granted approval guarantees.
use lol_predictor.Prelude.{
  ℕ, String, ◌≤◌, ◌<◌, ◌≡◌, true, false, Option, none, some, arith, eq_iff, Bool-cases, inl, inr,
  eqb_iff, ap, ◌≢◌, refl,
}
use lol_predictor.Approval.{
  ApprovalRecord, ApprovalFile, no_path, unreadable, reads, Approved, granted, denied, Grant, naive,
  aware, Instant, require_manual_approval, check_record, identified, window, names_this_bet,
  is_text, is_number, not_valid, is_empty, strip, codes,
}

-- The conditions that a granted approval has met, read off its file.
pub record Meets (a : ApprovalRecord) (expected : String) (now : ℕ) (g : Grant) : Type 0 where
  pub version : a.schema_version ≡ some 1
  pub approved : a.status ≡ some "APPROVED"
  pub bound : a.fingerprint ≡ some expected
  pub id : a.approval_id ≡ some g.approval_id
  pub by : a.approved_by ≡ some g.approved_by
  pub from : a.approved_at ≡ some (aware g.approved_at)
  pub to : a.expires_at ≡ some (aware g.expires_at)
  pub named : is_empty (strip (codes g.approved_by)) ≡ false
  pub started : g.approved_at ≤ now
  pub unexpired : now < g.expires_at

pub is_text-eq : (want : String) (o : Option String) → is_text want o ≡ true → o ≡ some want
is_text-eq want (some s) h = ap some ((eq_iff s want).0 h)
is_text-eq want none h = cc

is_number-eq : (want : ℕ) (o : Option ℕ) → is_number want o ≡ true → o ≡ some want
is_number-eq want (some n) h = ap some ((eqb_iff n want).0 h)
is_number-eq want none h = cc

granted≢denied : (g : Grant) → ◌≢◌ {A = Approved Grant} (denied not_valid) (granted g)
granted≢denied g h = cc

window-Meets :
    (id by : String) (since until : Instant) (now : ℕ) {g : Grant}
    → window id by since until now ≡ granted g
    → (g.approval_id ≡ id)
      × (g.approved_by ≡ by)
      × (since ≡ aware g.approved_at)
      × (until ≡ aware g.expires_at)
      × (is_empty (strip (codes g.approved_by)) ≡ false)
      × (g.approved_at ≤ now)
      × (now < g.expires_at)
unfolding window
window-Meets id by (aware s) (aware u) now h = ground arith
window-Meets id by (aware s) (naive u) now h = cc
window-Meets id by (naive s) u now h = cc

identified-window :
    (id by : Option String) (since until : Instant) (now : ℕ) {g : Grant}
    → identified id by since until now ≡ granted g
    → (i : String) × (b : String) × (id ≡ some i)
      × (by ≡ some b)
      × (window i b since until now ≡ granted g)
unfolding identified
identified-window (some i) (some b) since until now h = (i, b, refl, refl, h)
identified-window (some i) none since until now h = cc
identified-window none by since until now h = cc

names_this_bet-eq :
    (a : ApprovalRecord) (expected : String)
    → names_this_bet a expected ≡ true
    → (a.schema_version ≡ some 1) × (a.status ≡ some "APPROVED") × (a.fingerprint ≡ some expected)
unfolding names_this_bet
names_this_bet-eq a expected h = ground (
  arith,
  is_text-eq "APPROVED" a.status,
  is_text-eq expected a.fingerprint,
  is_number-eq 1 a.schema_version,
)

check_record-Meets :
    (a : ApprovalRecord) (since until : Option Instant) (expected : String) (now : ℕ) {g : Grant}
    → a.approved_at ≡ since
    → a.expires_at ≡ until
    → check_record a since until expected now ≡ granted g
    → Meets a expected now g
unfolding check_record
check_record-Meets a none until expected now es eu h = cc
check_record-Meets a (some since) none expected now es eu h = cc
check_record-Meets a (some since) (some until) expected now {g} es eu h =
    elim (Bool-cases (names_this_bet a expected)) [
      | inr other ↦ absurd (granted≢denied g (rw other at h))
      | inl ours ↦
          let (version, approved, bound) = names_this_bet-eq a expected ours in
          let (i, b, ei, eb, ew) =
            identified-window a.approval_id a.approved_by since until now {g = g} (rw ours at h) in
          let (pi, pb, ps, pu, named, started, unexpired) =
            window-Meets i b since until now {g = g} ew in
          record {
            version = version;
            approved = approved;
            bound = bound;
            id = cc;
            by = cc;
            from = cc;
            to = cc;
            named = named;
            started = started;
            unexpired = unexpired;
          }
    ]

-- The first file read decides: a grant is given exactly for a record that meets every condition.
pub require_manual_approval-Meets :
    (file : ApprovalFile) (expected : String) (now : ℕ) (g : Grant)
    → require_manual_approval file expected now ≡ granted g
    → (a : ApprovalRecord) × (file ≡ reads a) × Meets a expected now g
unfolding require_manual_approval
require_manual_approval-Meets (reads a) expected now g h =
    (a, refl, check_record-Meets a a.approved_at a.expires_at expected now refl refl h)
require_manual_approval-Meets no_path expected now g h = cc
require_manual_approval-Meets unreadable expected now g h = cc

is_text_self : (s : String) → is_text s (some s) ≡ true
is_text_self s = (eq_iff s s).1 refl

window-granted :
    (id by : String) (since until now : ℕ)
    → is_empty (strip (codes by)) ≡ false
    → since ≤ now
    → now < until
    → window id by (aware since) (aware until) now
      ≡ granted
          (record { approval_id = id; approved_by = by; approved_at = since; expires_at = until })
unfolding window
window-granted id by since until now e s u = ground arith

-- Conversely, a record that meets the conditions is granted.
pub Meets-granted :
    (a : ApprovalRecord) (expected : String) (now : ℕ) (g : Grant)
    → Meets a expected now g
    → require_manual_approval (reads a) expected now ≡ granted g
unfolding require_manual_approval check_record identified names_this_bet
Meets-granted a expected now g m =
    rw
      (
        m.from,
        m.to,
        check_record,
        m.version,
        m.approved,
        m.bound,
        is_text_self expected,
        m.id,
        m.by,
      )
      (window-granted g.approval_id g.approved_by g.approved_at g.expires_at now m.named m.started
        m.unexpired)

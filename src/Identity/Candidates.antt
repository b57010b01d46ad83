-- ===== src/Identity/Candidates.antt =====
-- The candidates for a name in src/identity.py, one for each canonical id.
use lol_predictor.Prelude.{
  ℕ, String, ◌≡◌, refl, ap, ◌⊎◌, inl, inr, true, false, some, List, [], ◌∷◌, All, In, All-map, ok,
  ok-eq, Bool-cases, Option-cases, some-eq, Unicode, text_eq, ◌==◌, eq_iff, both,
}
use lol_predictor.Identity.{
  CanonicalTeam, NameEntry, ProviderEntry, find_canonical, find_provider, same_entry, candidates,
  only_one,
}
use lol_predictor.Identity.Entries.{find_canonical-fresh, find_canonical-cons}

pub find_provider-In :
    (p v : String) (es : List ProviderEntry) {t : CanonicalTeam}
    → find_provider p v es ≡ some t
    → (e : ProviderEntry) × In e es × (e.provider ≡ p) × (e.value ≡ v) × (e.team ≡ t)
unfolding find_provider
find_provider-In p v [] h = cc
find_provider-In p v (e ∷ es) h = elim (Bool-cases (same_entry p v e)) [
  | inl same ↦
      let (sp, sv) = both {a = e.provider == p} same in
      (e, inl refl, (eq_iff e.provider p).0 sp, (eq_iff e.value v).0 sv, some-eq (rw same at h))
  | inr other ↦
      let (d, i, dp, dv, own) = find_provider-In p v es (rw other at h) in (d, inr i, dp, dv, own)
]

-- The candidates hold one team for each canonical id among the entries with the key.
pub record Covers (key : List ℕ) (es : List NameEntry) (ts : List CanonicalTeam) : Type 0 where
  pub found :
      All
        (λ e.
          text_eq e.key key ≡ true
          → (s : CanonicalTeam) × (find_canonical e.team.canonical_id ts ≡ some s))
        es
  pub from : All (λ t. (e : NameEntry) × In e es × (e.team ≡ t) × (text_eq e.key key ≡ true)) ts

module _ (u : Unicode) where
  widened :
      (key : List ℕ) (e : NameEntry) (es : List NameEntry) (ts : List CanonicalTeam)
      → All (λ t. (d : NameEntry) × In d es × (d.team ≡ t) × (text_eq d.key key ≡ true)) ts
      → All (λ t. (d : NameEntry) × In d (e ∷ es) × (d.team ≡ t) × (text_eq d.key key ≡ true)) ts
  widened key e es [] h = tt
  widened key e es (t ∷ ts) ((d, i, own, m), h) = ((d, inr i, own, m), widened key e es ts h)

  pub candidates-Covers : (key : List ℕ) (es : List NameEntry) → Covers key es (candidates u key es)
  unfolding candidates
  candidates-Covers key [] = record { found = tt; from = tt }
  candidates-Covers key (e ∷ es) =
      let c = candidates-Covers key es in
      let rest = candidates u key es in
      elim (Bool-cases (text_eq e.key key)) [
        | inr other ↦
            rw other (record { found = (λ is. cc, c.found); from = widened key e es rest c.from })
        | inl matches ↦ elim (Option-cases (find_canonical e.team.canonical_id rest)) [
          | inr (s, old) ↦
              rw (matches, old)
                (record { found = (λ _. (s, old), c.found); from = widened key e es rest c.from })
          | inl fresh ↦
              rw (matches, fresh)
                (record {
                  found = (
                    λ _. (e.team, find_canonical-cons e.team rest),
                    All-map es
                        (λ d h m.
                          let (s, f) = h m in
                          (s, find_canonical-fresh e.team rest fresh d.team.canonical_id s f))
                        c.found,
                  );
                  from = ((e, inl refl, refl, matches), widened key e es rest c.from);
                })
        ]
      ]

  -- Where all entries with the key are of one team, it is the one candidate.
  pub candidates-one :
      (key : List ℕ) (t : CanonicalTeam) (es : List NameEntry)
      → All (λ e. text_eq e.key key ≡ true → e.team ≡ t) es
      → (candidates u key es ≡ t ∷ [])
        ⊎ ((candidates u key es ≡ []) × All (λ e. text_eq e.key key ≡ false) es)
  unfolding candidates
  candidates-one key t [] h = inr (refl, tt)
  candidates-one key t (e ∷ es) (h, hs) = elim (Bool-cases (text_eq e.key key)) [
    | inr other ↦ elim (candidates-one key t es hs) [
      | inl one ↦ inl (rw other one)
      | inr (none_yet, others) ↦ inr (rw other none_yet, (other, others))
    ]
    | inl matches ↦ elim (candidates-one key t es hs) [
      | inl one ↦ inl (rw (matches, one, h matches, find_canonical-cons t []) one)
      | inr (none_yet, others) ↦ inl (rw (matches, none_yet, h matches) (ap (t ∷◌) none_yet))
    ]
  ]

  pub only_one-ok :
      (ts : List CanonicalTeam) {t : CanonicalTeam} → only_one u ts ≡ ok t → ts ≡ t ∷ []
  only_one-ok [] h = cc
  only_one-ok (s ∷ []) h = ap (λ a. a ∷ []) (ok-eq refl h)
  only_one-ok (s ∷ r ∷ ts) h = cc

-- ===== src/Identity/Entries.antt =====
-- The dicts of src/identity.py: an insertion under a new key hides nothing.
use lol_predictor.Prelude.{
  String, ◌≡◌, refl, ap, subst, sym, none, some, List, [], ◌∷◌, All, ok, >>=-ok, ok-eq, both,
  Bool-cases, Option-cases, inl, inr, ◌==◌, eq_iff, eq_refl, ◌⊎◌, In, All-map, All-In,
}
use lol_predictor.Identity.{
  CanonicalTeam, ProviderEntry, find_canonical, find_provider, same_entry, add_canonical, add_id,
  add_ids,
}

abbrev pub KeepsTeams : List CanonicalTeam → List CanonicalTeam → Type 0
KeepsTeams ts ts' =
    (id : String) (t : CanonicalTeam)
    → find_canonical id ts ≡ some t
    → find_canonical id ts' ≡ some t

abbrev pub KeepsIds : List ProviderEntry → List ProviderEntry → Type 0
KeepsIds es es' =
    (p v : String) (t : CanonicalTeam)
    → find_provider p v es ≡ some t
    → find_provider p v es' ≡ some t

pub find_canonical-fresh :
    (t : CanonicalTeam) (ts : List CanonicalTeam)
    → find_canonical t.canonical_id ts ≡ none
    → KeepsTeams ts (t ∷ ts)
unfolding find_canonical
find_canonical-fresh t ts fresh id s found = elim (Bool-cases (t.canonical_id == id)) [
  | inr other ↦ rw other found
  | inl same ↦ let e = (eq_iff t.canonical_id id).0 same in cc (rw e at fresh)
]

pub find_canonical-cons :
    (t : CanonicalTeam) (ts : List CanonicalTeam) → find_canonical t.canonical_id (t ∷ ts) ≡ some t
unfolding find_canonical
find_canonical-cons t ts = rw (eq_refl t.canonical_id) refl

pub add_canonical-ok :
    (t : CanonicalTeam) (ts : List CanonicalTeam) {ts' : List CanonicalTeam}
    → add_canonical t ts ≡ ok ts'
    → KeepsTeams ts ts' × (ts' ≡ t ∷ ts)
add_canonical-ok t ts h = elim (Option-cases (find_canonical t.canonical_id ts)) [
  | inl fresh ↦
      let e = ok-eq (rw (fresh, add_canonical) at h) refl in
      (subst (KeepsTeams ts) (sym e) (find_canonical-fresh t ts fresh), e)
  | inr (s, taken) ↦ cc (rw (taken, add_canonical) at h)
]

find_provider-fresh :
    (e : ProviderEntry) (es : List ProviderEntry)
    → find_provider e.provider e.value es ≡ none
    → KeepsIds es (e ∷ es)
unfolding find_provider
find_provider-fresh e es fresh p v s found = elim (Bool-cases (same_entry p v e)) [
  | inr other ↦ rw other found
  | inl same ↦
      let (sp, sv) = both {a = e.provider == p} same in
      let ep = (eq_iff e.provider p).0 sp in
      let ev = (eq_iff e.value v).0 sv in cc (rw (ep, ev) at fresh)
]

-- What the entries after a call of `add_ids` hold, beside the old ones.
pub record Added (provider : String) (t : CanonicalTeam) (vs : List String)
    (es es' : List ProviderEntry) : Type 0 where
  pub kept : KeepsIds es es'
  pub found : All (λ v. find_provider provider v es' ≡ some t) vs
  pub old_or_new : All (λ e. In e es ⊎ ((e.provider ≡ provider) × (e.team ≡ t) × In e.value vs)) es'

add_id-ok :
    (provider : String) (t : CanonicalTeam) (v : String) (es : List ProviderEntry)
    {es' : List ProviderEntry}
    → add_id provider t v es ≡ ok es'
    → KeepsIds es es'
      × (find_provider provider v es' ≡ some t)
      × (es' ≡ record { provider = provider; value = v; team = t } ∷ es)
unfolding find_provider
add_id-ok provider t v es h = elim (Option-cases (find_provider provider v es)) [
  | inl fresh ↦
      let new : ProviderEntry = record { provider = provider; value = v; team = t } in
      let e = ok-eq (rw (fresh, add_id) at h) refl in
      (
        subst (KeepsIds es) (sym e) (find_provider-fresh new es fresh),
        rw e (rw (eq_refl provider, eq_refl v) refl),
        e,
      )
  | inr (s, taken) ↦ cc (rw (taken, add_id) at h)
]

origin :
    (vs : List String) {provider v : String} {t : CanonicalTeam} {es mid : List ProviderEntry}
    → mid ≡ record { provider = provider; value = v; team = t } ∷ es
    → (e : ProviderEntry) → In e mid ⊎ ((e.provider ≡ provider) × (e.team ≡ t) × In e.value vs)
    → In e es ⊎ ((e.provider ≡ provider) × (e.team ≡ t) × In e.value (v ∷ vs))
origin vs made e (inr (p, own, later)) = inr (p, own, inr later)
origin vs {es = es} made e (inl i) = elim (subst (In e) made i) [
  | inl new ↦ inr (ap (λ d. d.provider) new, ap (λ d. d.team) new, inl (ap (λ d. d.value) new))
  | inr old ↦ inl old
]

pub add_ids-Added :
    (provider : String) (t : CanonicalTeam) (vs : List String) (es : List ProviderEntry)
    {es' : List ProviderEntry}
    → add_ids provider t vs es ≡ ok es'
    → Added provider t vs es es'
unfolding add_ids
add_ids-Added provider t [] es h =
    subst (Added provider t [] es) (ok-eq refl h)
      (record { kept = λ p v s found. found; found = tt; old_or_new = All-In _ es (λ e i. inl i) })
add_ids-Added provider t (v ∷ vs) es h =
    let (mid, e1, h1) = >>=-ok (add_id provider t v es) _ h in
    let (kept, found, made) = add_id-ok provider t v es e1 in
    let more = add_ids-Added provider t vs mid h1 in
    record {
      kept = λ p w s old. more.kept p w s (kept p w s old);
      found = (more.kept provider v t found, more.found);
      old_or_new = All-map _ (origin vs made) more.old_or_new;
    }

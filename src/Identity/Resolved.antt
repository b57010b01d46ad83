-- ===== src/Identity/Resolved.antt =====
-- What `resolve` and `get` of src/identity.py return over a registry that was built from a file.
use lol_predictor.Prelude.{
  ℕ, String, ◌≡◌, refl, ap, subst, sym, ◌∙◌, ◌↔◌, inl, inr, true, Option, none, some, List, [], ◌∷◌,
  In, In-All, All-map, ok, ok-eq, Bool-cases, Option-cases, some-eq, Unicode, text_eq, text_eq-eq,
  text_eq_self, truthy, ◌==◌, eq_iff,
}
use lol_predictor.Identity.{
  CanonicalTeam, IdentityRegistry, RegistryFile, find_canonical, find_provider, all_names,
  normalized_name, candidates, resolve_name, resolve_id, resolve, get, identity_registry,
}
use lol_predictor.Identity.Built.{Owns, Named, IsWellFormed, identity_registry-IsWellFormed}
use lol_predictor.Identity.Candidates.{
  find_provider-In, Covers, candidates-Covers, candidates-one, only_one-ok,
}

module _ (u : Unicode) where
  -- Why `resolve` returns this team for a provider's id and a name.
  pub data Justified (reg : IdentityRegistry) (p : String) (id name : Option String)
      (t : CanonicalTeam) : Type 0 where
    by_id :
        (v : String)
        → id ≡ some v
        → truthy v ≡ true
        → In t reg.by_canonical
        → Owns p v t
        → Justified reg p id name t
    by_name :
        (n : String)
        → ((v : String) (s : CanonicalTeam)
            → id ≡ some v
            → truthy v ≡ true
            → In s reg.by_canonical
            → Owns p v s
            → ⊥)
        → name ≡ some n
        → truthy n ≡ true
        → In t reg.by_canonical
        → Named u (normalized_name u n) t
        → ((s : CanonicalTeam) → In s reg.by_canonical → Named u (normalized_name u n) s → s ≡ t)
        → Justified reg p id name t

  resolve_id-some :
      (p : String) (id : Option String) (reg : IdentityRegistry) {t : CanonicalTeam}
      → resolve_id p id reg ≡ some t
      → (v : String) × (id ≡ some v)
        × (truthy v ≡ true)
        × (find_provider p v reg.by_provider ≡ some t)
  unfolding resolve_id
  resolve_id-some p none reg h = cc
  resolve_id-some p (some v) reg h = elim (Bool-cases (truthy v)) [
    | inl yes_v ↦ (v, refl, yes_v, rw yes_v at h)
    | inr no_v ↦ cc (rw no_v at h)
  ]

  module _ (reg : IdentityRegistry) (w : IsWellFormed u reg) where
    Owns-find :
        (p v : String) (t : CanonicalTeam)
        → In t reg.by_canonical
        → Owns p v t
        → find_provider p v reg.by_provider ≡ some t
    Owns-find p v t i (inl (e, j)) =
        rw e (In-All _ t.oracle_ids (In-All _ reg.by_canonical w.oracle i) j)
    Owns-find p v t i (inr (e, j)) =
        rw e (In-All _ t.pandascore_ids (In-All _ reg.by_canonical w.panda i) j)

    Owns-resolve_id :
        (p v : String) (id : Option String) (t : CanonicalTeam)
        → id ≡ some v
        → truthy v ≡ true
        → In t reg.by_canonical
        → Owns p v t
        → resolve_id p id reg ≡ some t
    unfolding resolve_id
    Owns-resolve_id p v id t e yes_v i o = rw (e, yes_v) (Owns-find p v t i o)

    find-Owns :
        (p v : String) (t : CanonicalTeam)
        → find_provider p v reg.by_provider ≡ some t
        → In t reg.by_canonical × Owns p v t
    find-Owns p v t h =
        let (e, i, ep, ev, own) = find_provider-In p v reg.by_provider h in
        let known = In-All _ reg.by_provider w.owned i in rw (← ep, ← ev, ← own) known

    same_id-eq :
        (s t : CanonicalTeam)
        → In s reg.by_canonical
        → In t reg.by_canonical
        → s.canonical_id ≡ t.canonical_id
        → s ≡ t
    same_id-eq s t i j same = some-eq (
        sym (In-All _ reg.by_canonical w.canonical i)
        ∙ (ap (λ k. find_canonical k reg.by_canonical) same
            ∙ In-All _ reg.by_canonical w.canonical j))

    -- a team with the name stands among the candidates
    one_found :
        (key : List ℕ) (s t : CanonicalTeam)
        → Covers key reg.by_name (t ∷ [])
        → In s reg.by_canonical
        → Named u key s
        → s.canonical_id ≡ t.canonical_id
    unfolding find_canonical
    one_found key s t c j (m, k, e) =
        let i = In-All _ (all_names s) (In-All _ reg.by_canonical w.listed j) k in
        let (r, f) = In-All _ reg.by_name c.found i (rw e (text_eq_self (normalized_name u m))) in
        elim (Bool-cases (t.canonical_id == s.canonical_id)) [
          | inl same ↦ sym ((eq_iff t.canonical_id s.canonical_id).0 same)
          | inr other ↦ cc (rw other at f)
        ]

    resolve_name-ByName :
        (name : Option String) {t : CanonicalTeam}
        → resolve_name u name reg ≡ ok t
        → (n : String) × (name ≡ some n)
          × (truthy n ≡ true)
          × In t reg.by_canonical
          × Named u (normalized_name u n) t
          × ((s : CanonicalTeam) → In s reg.by_canonical → Named u (normalized_name u n) s → s ≡ t)
    unfolding resolve_name
    resolve_name-ByName none h = cc
    resolve_name-ByName (some n) {t = t} h = elim (Bool-cases (truthy n)) [
      | inr blank ↦ cc (rw blank at h)
      | inl yes_n ↦
          let key = normalized_name u n in
          let one = only_one-ok u (candidates u key reg.by_name) (rw yes_n at h) in
          let c = subst (Covers key reg.by_name) one (candidates-Covers u key reg.by_name) in
          let (e, i, own, m) = c.from.0 in
          let (known, named) = In-All _ reg.by_name w.named i in
          let known' : In t reg.by_canonical = subst (λ s. In s reg.by_canonical) own known in
          (
            n,
            refl,
            yes_n,
            known',
            subst (λ k. Named u k t) (text_eq-eq e.key key m) (subst (Named u e.key) own named),
            λ s j sn. same_id-eq s t j known' (one_found key s t c j sn),
          )
    ]

    resolve_id-none :
        (p : String) (id : Option String)
        → ((v : String) (s : CanonicalTeam)
            → id ≡ some v
            → truthy v ≡ true
            → In s reg.by_canonical
            → Owns p v s
            → ⊥)
        → resolve_id p id reg ≡ none
    resolve_id-none p id nobody = elim (Option-cases (resolve_id p id reg)) [
      | inl e ↦ e
      | inr (s, h) ↦
          let (v, e, yes_v, f) = resolve_id-some p id reg h in
          let (i, o) = find-Owns p v s f in absurd (nobody v s e yes_v i o)
    ]

    ByName-resolve_name :
        (n : String) (t : CanonicalTeam)
        → truthy n ≡ true
        → In t reg.by_canonical
        → Named u (normalized_name u n) t
        → ((s : CanonicalTeam) → In s reg.by_canonical → Named u (normalized_name u n) s → s ≡ t)
        → resolve_name u (some n) reg ≡ ok t
    unfolding resolve_name
    ByName-resolve_name n t yes_n i (m, k, e) only =
        let key = normalized_name u n in
        let j = In-All _ (all_names t) (In-All _ reg.by_canonical w.listed i) k in
        let all_t =
          All-map {Q = λ d. text_eq d.key key ≡ true → d.team ≡ t} reg.by_name
            (λ d known same.
              only d.team known.0
                (subst (λ x. Named u x d.team) (text_eq-eq d.key key same) known.1))
            w.named in
        elim (candidates-one u key t reg.by_name all_t) [
          | inl one ↦ rw (yes_n, one) refl
          | inr (_, others) ↦
              let no = In-All _ reg.by_name others j in cc (rw (← e, text_eq_self key) at no)
        ]

    resolve-Justified :
        (p : String) (id name : Option String) (t : CanonicalTeam)
        → resolve u p id name reg ≡ ok t
        → Justified reg p id name t
    unfolding resolve
    resolve-Justified p id name t h = elim (Option-cases (resolve_id p id reg)) [
      | inr (s, f) ↦
          let (v, e, yes_v, g) = resolve_id-some p id reg f in
          let (i, o) = find-Owns p v s g in
          subst (Justified reg p id name) (ok-eq refl (rw (f, resolve) at h)) (by_id v e yes_v i o)
      | inl nothing ↦
          let (n, e, yes_n, i, named, only) =
            resolve_name-ByName name (rw (nothing, resolve) at h) in
          by_name n (λ v s ev yes_v j o. cc (Owns-resolve_id p v id s ev yes_v j o, nothing)) e
            yes_n i named only
    ]

    Justified-resolve :
        (p : String) (id name : Option String) (t : CanonicalTeam)
        → Justified reg p id name t
        → resolve u p id name reg ≡ ok t
    unfolding resolve
    Justified-resolve p id name t (by_id v e yes_v i o) =
        rw (Owns-resolve_id p v id t e yes_v i o, resolve) refl
    Justified-resolve p id name t (by_name n nobody e yes_n i named only) =
        rw (resolve_id-none p id nobody, e, resolve) (ByName-resolve_name n t yes_n i named only)

    get-ok : (t : CanonicalTeam) → In t reg.by_canonical → get t.canonical_id reg ≡ ok t
    unfolding get
    get-ok t i = rw (In-All _ reg.by_canonical w.canonical i, get) refl

  -- Over a registry that was built from a file, `resolve` returns a team exactly if the team is in the
  -- registry and either owns the given provider id, or, where no team owns it, has the given name and
  -- is the only one that has it.
  pub resolve_lem :
      (file : RegistryFile) (reg : IdentityRegistry) (p : String) (id name : Option String)
      (t : CanonicalTeam)
      → identity_registry u file ≡ ok reg
      → ((resolve u p id name reg ≡ ok t) ↔ Justified reg p id name t)
  resolve_lem file reg p id name t built =
      let w = (identity_registry-IsWellFormed u file built).0 in
      (resolve-Justified reg w p id name t, Justified-resolve reg w p id name t)

  -- Over a registry that was built from a file, `get` returns every team for its own canonical id.
  pub get-canonical_id :
      (file : RegistryFile) (reg : IdentityRegistry) (t : CanonicalTeam)
      → identity_registry u file ≡ ok reg
      → In t reg.by_canonical
      → get t.canonical_id reg ≡ ok t
  get-canonical_id file reg t built i =
      get-ok reg (identity_registry-IsWellFormed u file built).0 t i

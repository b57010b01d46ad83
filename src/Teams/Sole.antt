-- ===== src/Teams/Sole.antt =====
-- `resolve_team` of src/config.py never picks one of several teams.
use lol_predictor.Prelude.{
  ◌||◌, ap, ℕ, String, ◌≡◌, ◌⊎◌, inl, inr, Bool, true, false, List, [], ◌∷◌, keep, All, In, In-All,
  All-In, Bool-cases, occurs_in, Unicode, not, ltb, length, starts_with, refl, eqb_iff, All-map, ok,
  ◌≤◌, subst, text_eq-eq, keep-In, text_eq, sym, text_eq_self, ok-eq, ap, arith, In-keep, is_empty,
}
use lol_predictor.Teams.{
  SeedTeam, TeamRecord, seeded, lived, team_name, identity_key, contains, has_key, no_extra,
  resolve_team, by_part, by_name_or_part,
}

keep-nil : {A : Type 0} (p : A → Bool) (xs : List A) → keep p xs ≡ [] → All (λ x. p x ≡ false) xs
keep-nil p [] h = tt
keep-nil p (x ∷ xs) h = elim (Bool-cases (p x)) [
  | inl kept ↦ cc (rw kept at h)
  | inr dropped ↦ (dropped, keep-nil p xs (rw dropped at h))
]

-- Of the items that pass, there is only this one.
keep-one :
    {A : Type 0} (p : A → Bool) (xs : List A) {y : A}
    → keep p xs ≡ y ∷ []
    → All (λ x. p x ≡ true → x ≡ y) xs
keep-one p [] h = tt
keep-one p (x ∷ xs) {y = y} h = elim (Bool-cases (p x)) [
  | inr dropped ↦ (λ e. cc, keep-one p xs (rw dropped at h))
  | inl kept ↦
      let e : x ∷ keep p xs ≡ y ∷ [] = rw kept at h in
      let none_left : keep p xs ≡ [] = cc in
      (λ _. cc, All-In _ xs (λ z i q. cc (In-All _ xs (keep-nil p xs none_left) i, q)))
]

list_cases : {A : Type 0} (xs : List A) → (xs ≡ []) ⊎ ((x : A) × (ys : List A) × (xs ≡ x ∷ ys))
list_cases [] = inl refl
list_cases (x ∷ xs) = inr (x, xs, refl)

not-false : {b : Bool} → not b ≡ false → b ≡ true
not-false {b = true} h = refl
not-false {b = false} h = cc

at_most_one : (a b : ℕ) → (ltb 1 a || ltb 1 b) ≡ false → (a ≤ 1) × (b ≤ 1)
at_most_one a b h = ground arith

-- The team is one of those known, and it is the only one that fits.
pub record Sole (u : Unicode) (teams : List SeedTeam) (names : List String) (low : List ℕ)
    (r : TeamRecord) : Type 0 where
  pub known :
      ((t : SeedTeam) × (r ≡ seeded t) × In t teams) ⊎ ((n : String) × (r ≡ lived n) × In n names)
  pub fits : occurs_in low (identity_key u (team_name r)) ≡ true
  -- a team with this very name comes first
  pub exact_team : All (λ t. identity_key u t.name ≡ low → identity_key u (team_name r) ≡ low) teams
  pub exact_name : All (λ n. identity_key u n ≡ low → identity_key u (team_name r) ≡ low) names
  -- without one, all that fit have the name of this team
  pub only :
      ((identity_key u (team_name r) ≡ low)
        × (length (keep (λ t. has_key u low t.name) teams) ≤ 1)
        × (length (keep (has_key u low) names) ≤ 1))
      ⊎ (All (λ t. contains u low t.name ≡ true → r ≡ seeded t) teams
          × All
              (λ n. contains u low n ≡ true → identity_key u n ≡ identity_key u (team_name r))
              names)

starts_with_self : (s : List ℕ) → starts_with s s ≡ true
starts_with_self [] = refl
starts_with_self (a ∷ s) = rw ((eqb_iff a a).1 refl) (starts_with_self s)

occurs_in_self : (s : List ℕ) → occurs_in s s ≡ true
occurs_in_self [] = refl
occurs_in_self (a ∷ s) = rw (starts_with_self (a ∷ s)) refl

module _ (u : Unicode) (teams : List SeedTeam) (names : List String) (low : List ℕ) where
  -- no name is exactly the one that was asked for
  none_exact :
      (r : TeamRecord)
      → keep (λ t. has_key u low t.name) teams ≡ []
      → keep (has_key u low) names ≡ []
      → All (λ t. identity_key u t.name ≡ low → identity_key u (team_name r) ≡ low) teams
        × All (λ n. identity_key u n ≡ low → identity_key u (team_name r) ≡ low) names
  none_exact r no_team no_name = (
    All-map teams
        (λ t other e. cc (other, subst (λ k. text_eq k low ≡ true) (sym e) (text_eq_self low)))
        (keep-nil (λ t. has_key u low t.name) teams no_team),
    All-map names
        (λ n other e. cc (other, subst (λ k. text_eq k low ≡ true) (sym e) (text_eq_self low)))
        (keep-nil (has_key u low) names no_name),
  )

  exact-Sole :
      (r : TeamRecord)
      → (((t : SeedTeam) × (r ≡ seeded t) × In t teams)
          ⊎ ((n : String) × (r ≡ lived n) × In n names))
      → identity_key u (team_name r) ≡ low
      → length (keep (λ t. has_key u low t.name) teams) ≤ 1
      → length (keep (has_key u low) names) ≤ 1
      → Sole u teams names low r
  exact-Sole r known same one_team one_name = record {
    known = known;
    fits = rw same (occurs_in_self low);
    exact_team = All-In _ teams (λ t i e. same);
    exact_name = All-In _ names (λ n i e. same);
    only = inl (same, one_team, one_name);
  }

  no_extra-All :
      (t : SeedTeam) (ns : List String)
      → no_extra u t ns ≡ true
      → All (λ n. identity_key u n ≡ identity_key u t.name) ns
  no_extra-All t ns h =
      elim (list_cases (keep (λ n. not (has_key u (identity_key u t.name) n)) ns)) [
        | inr (x, xs, more) ↦ cc (rw (more, no_extra) at h)
        | inl none_more ↦
            All-map ns (λ n e. text_eq-eq (identity_key u n) (identity_key u t.name) (not-false e))
              (keep-nil (λ n. not (has_key u (identity_key u t.name) n)) ns none_more)
      ]

  by_part-Sole :
      (hits : List SeedTeam) (rhits : List String) {r : TeamRecord}
      → keep (λ t. has_key u low t.name) teams ≡ []
      → keep (has_key u low) names ≡ []
      → keep (λ t. contains u low t.name) teams ≡ hits
      → keep (contains u low) names ≡ rhits
      → by_part u hits rhits ≡ ok r
      → Sole u teams names low r
  by_part-Sole [] [] no_team no_name eh er h = cc
  by_part-Sole [] (n ∷ []) no_team no_name eh er h =
      let (i, part) = keep-In (contains u low) names (subst (In n) (sym er) (inl refl)) in
      subst (Sole u teams names low) (ok-eq refl h) (record {
        known = inr (n, refl, i);
        fits = part;
        exact_team = (none_exact (lived n) no_team no_name).0;
        exact_name = (none_exact (lived n) no_team no_name).1;
        only = inr (
          All-map teams (λ t other e. cc (other, e))
              (keep-nil (λ t. contains u low t.name) teams eh),
          All-map names (λ m same e. ap (identity_key u) (same e))
              (keep-one (contains u low) names er),
        );
      })
  by_part-Sole [] (_ ∷ _ ∷ _) no_team no_name eh er h = cc
  by_part-Sole (t ∷ []) rhits no_team no_name eh er h = elim (Bool-cases (no_extra u t rhits)) [
    | inr more ↦ cc (rw more at h)
    | inl sole ↦
        let (i, part) =
          keep-In (λ t. contains u low t.name) teams (subst (In t) (sym eh) (inl refl)) in
        subst (Sole u teams names low) (ok-eq refl (rw sole at h)) (record {
          known = inl (t, refl, i);
          fits = part;
          exact_team = (none_exact (seeded t) no_team no_name).0;
          exact_name = (none_exact (seeded t) no_team no_name).1;
          only = inr (
            All-map teams (λ s same e. ap seeded (sym (same e)))
                (keep-one (λ t. contains u low t.name) teams eh),
            All-In _ names (λ n j e.
                In-All _ rhits (no_extra-All t rhits sole)
                  (subst (In n) er (In-keep (contains u low) names j e))),
          );
        })
  ]
  by_part-Sole (_ ∷ _ ∷ _) rhits no_team no_name eh er h = cc

  by_name_or_part-Sole :
      (ets : List SeedTeam) (ers : List String) (hits : List SeedTeam) (rhits : List String)
      {r : TeamRecord}
      → keep (λ t. has_key u low t.name) teams ≡ ets
      → keep (has_key u low) names ≡ ers
      → keep (λ t. contains u low t.name) teams ≡ hits
      → keep (contains u low) names ≡ rhits
      → length ets ≤ 1
      → length ers ≤ 1
      → by_name_or_part u ets ers hits rhits ≡ ok r
      → Sole u teams names low r
  by_name_or_part-Sole (t ∷ ts) ers hits rhits et er eh es one_team one_name h =
      let (i, same) =
        keep-In (λ t. has_key u low t.name) teams (subst (In t) (sym et) (inl refl)) in
      subst (Sole u teams names low) (ok-eq refl h) (
        exact-Sole (seeded t) (inl (t, refl, i)) (text_eq-eq (identity_key u t.name) low same)
          (rw et one_team) (rw er one_name))
  by_name_or_part-Sole [] (n ∷ ns) hits rhits et er eh es one_team one_name h =
      let (i, same) = keep-In (has_key u low) names (subst (In n) (sym er) (inl refl)) in
      subst (Sole u teams names low) (ok-eq refl h) (
        exact-Sole (lived n) (inr (n, refl, i)) (text_eq-eq (identity_key u n) low same)
          (rw et one_team) (rw er one_name))
  by_name_or_part-Sole [] [] hits rhits et er eh es one_team one_name h =
      by_part-Sole hits rhits et er eh es h

-- If `resolve_team` returns a team, it is a known one whose name contains the name asked for; it has
-- this very name if a seeded or a lived team has it, which then at most one of each has, and otherwise
-- no other team's name contains the name asked for.
pub resolve_team-Sole :
    (u : Unicode) (teams : List SeedTeam) (names : List String) (name : String) {r : TeamRecord}
    → resolve_team u teams names name ≡ ok r
    → Sole u teams names (identity_key u name) r
unfolding resolve_team
resolve_team-Sole u teams names name h =
    let low = identity_key u name in
    let exact_teams = keep (λ t. has_key u low t.name) teams in
    let exact_names = keep (has_key u low) names in
    let several = ltb 1 (length exact_teams) || ltb 1 (length exact_names) in
    elim (Bool-cases (is_empty low)) [
      | inl blank ↦ cc (rw blank at h)
      | inr named ↦ elim (Bool-cases several) [
        | inl more ↦ cc (rw (named, more) at h)
        | inr one ↦
            let (one_team, one_name) = at_most_one (length exact_teams) (length exact_names) one in
            by_name_or_part-Sole u teams names low exact_teams exact_names _ _ refl refl refl refl
              one_team one_name (rw (named, one) at h)
      ]
    ]

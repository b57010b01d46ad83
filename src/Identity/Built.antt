-- ===== src/Identity/Built.antt =====
-- What a registry that src/identity.py has built from a file holds.
use lol_predictor.Prelude.{
  Bool-cases, Option-cases, ℕ, String, ◌≡◌, refl, subst, sym, ◌⊎◌, inl, inr, some, List, [], ◌∷◌,
  ◌++◌, map, All, In, In-All, All-map, All-append, ok, >>=-ok, ok-eq, Unicode, In-append_right,
  In-append_left,
}
use lol_predictor.Approval.{is_text}
use lol_predictor.Identity.{
  no_file, RegistryRecord, CanonicalTeam, TeamRow, ProviderEntry, NameEntry, IdentityRegistry,
  find_canonical, find_provider, team_of, add_canonical, add_ids, all_names, normalized_name,
  name_entry, name_entries, add_team, add_teams, RegistryFile, identity_registry, registry, true,
}
use lol_predictor.Identity.Entries.{
  KeepsTeams, Added, add_canonical-ok, find_canonical-cons, add_ids-Added,
}

-- The provider knows the team by this id.
abbrev pub Owns : String → String → CanonicalTeam → Type 0
Owns p v t =
    ((p ≡ "oracles_elixir") × In v t.oracle_ids) ⊎ ((p ≡ "pandascore") × In v t.pandascore_ids)

-- The second list is the first with the teams of the rows put before it, one by one.
pub data Lists : List TeamRow → List CanonicalTeam → List CanonicalTeam → Type 0 where
  done : {ts : List CanonicalTeam} → Lists [] ts ts
  more :
      {rows : List TeamRow} {ts ts' : List CanonicalTeam} (row : TeamRow) (t : CanonicalTeam)
      → team_of row ≡ ok t
      → Lists rows (t ∷ ts) ts'
      → Lists (row ∷ rows) ts ts'

module _ (u : Unicode) where
  abbrev pub Named : List ℕ → CanonicalTeam → Type 0
  Named key t = (n : String) × In n (all_names t) × (key ≡ normalized_name u n)

  -- The dicts of a registry agree: every team is found under its canonical id and under each of its
  -- provider ids, and listed under each of its names, and the dicts hold nothing else.
  pub record IsWellFormed (reg : IdentityRegistry) : Type 0 where
    pub canonical :
        All (λ t. find_canonical t.canonical_id reg.by_canonical ≡ some t) reg.by_canonical
    pub oracle :
        All
          (λ t. All (λ v. find_provider "oracles_elixir" v reg.by_provider ≡ some t) t.oracle_ids)
          reg.by_canonical
    pub panda :
        All
          (λ t. All (λ v. find_provider "pandascore" v reg.by_provider ≡ some t) t.pandascore_ids)
          reg.by_canonical
    pub owned :
        All (λ e. In e.team reg.by_canonical × Owns e.provider e.value e.team) reg.by_provider
    pub named : All (λ e. In e.team reg.by_canonical × Named e.key e.team) reg.by_name
    pub listed :
        All (λ t. All (λ n. In (name_entry u t n) reg.by_name) (all_names t)) reg.by_canonical

  entries-Named :
      (t : CanonicalTeam) (ns : List String)
      → ((n : String) → In n ns → In n (all_names t))
      → All (λ e. (e.team ≡ t) × Named e.key e.team) (map (name_entry u t) ns)
  entries-Named t [] sub = tt
  entries-Named t (n ∷ ns) sub =
      ((refl, (n, sub n (inl refl), refl)), entries-Named t ns (λ m i. sub m (inr i)))

  entries-listed :
      (t : CanonicalTeam) (ns : List String)
      → All (λ n. In (name_entry u t n) (map (name_entry u t) ns)) ns
  entries-listed t [] = tt
  entries-listed t (n ∷ ns) = (inl refl, All-map ns (λ m i. inr i) (entries-listed t ns))

  -- One row of the file more.
  pub record Grown (row : TeamRow) (reg reg' : IdentityRegistry) : Type 0 where
    pub team : CanonicalTeam
    pub read : team_of row ≡ ok team
    pub added : reg'.by_canonical ≡ team ∷ reg.by_canonical

  -- the owner of an entry, old or new
  owner :
      (reg : IdentityRegistry) (t : CanonicalTeam) (oracle : List ProviderEntry)
      → IsWellFormed reg
      → Added "oracles_elixir" t t.oracle_ids reg.by_provider oracle
      → (e : ProviderEntry)
      → In e oracle ⊎ ((e.provider ≡ "pandascore") × (e.team ≡ t) × In e.value t.pandascore_ids)
      → In e.team (t ∷ reg.by_canonical) × Owns e.provider e.value e.team
  owner reg t oracle w a e (inr (p, own, i)) =
      (inl own, inr (p, subst (λ s. In e.value s.pandascore_ids) (sym own) i))
  owner reg t oracle w a e (inl i) = elim (In-All _ oracle a.old_or_new i) [
    | inl old ↦ let (known, owns) = In-All _ reg.by_provider w.owned old in (inr known, owns)
    | inr (p, own, j) ↦ (inl own, inl (p, subst (λ s. In e.value s.oracle_ids) (sym own) j))
  ]

  grown-IsWellFormed :
      (reg : IdentityRegistry) (t : CanonicalTeam) (oracle providers : List ProviderEntry)
      → IsWellFormed reg
      → KeepsTeams reg.by_canonical (t ∷ reg.by_canonical)
      → Added "oracles_elixir" t t.oracle_ids reg.by_provider oracle
      → Added "pandascore" t t.pandascore_ids oracle providers
      → IsWellFormed (record {
        version = reg.version;
        by_canonical = t ∷ reg.by_canonical;
        by_provider = providers;
        by_name = reg.by_name ++ name_entries u t;
      })
  grown-IsWellFormed reg t oracle providers w teams a b =
      let Known : NameEntry → Type 0 = λ e. In e.team (t ∷ reg.by_canonical) × Named e.key e.team in
      record {
        canonical = (
          find_canonical-cons t reg.by_canonical,
          All-map _ (λ s found. teams s.canonical_id s found) w.canonical,
        );
        oracle = (
          All-map _ (λ v found. b.kept "oracles_elixir" v t found) a.found,
          All-map _
              (λ s.
                All-map s.oracle_ids
                  (λ v found. b.kept "oracles_elixir" v s (a.kept "oracles_elixir" v s found)))
              w.oracle,
        );
        panda = (
          b.found,
          All-map _
              (λ s.
                All-map s.pandascore_ids
                  (λ v found. b.kept "pandascore" v s (a.kept "pandascore" v s found)))
              w.panda,
        );
        owned = All-map _ (λ e. owner reg t oracle w a e) b.old_or_new;
        named =
            All-append Known reg.by_name _
              (All-map {Q = Known} reg.by_name (λ e h. (inr h.0, h.1)) w.named)
              (All-map {Q = Known} (name_entries u t) (λ e h. (inl h.0, h.1))
                (entries-Named t (all_names t) (λ n i. i)));
        listed = (
          All-map {P = λ n. In (name_entry u t n) (name_entries u t)}
              {Q = λ n. In (name_entry u t n) (reg.by_name ++ name_entries u t)} (all_names t)
              (λ n i. In-append_right (name_entry u t n) reg.by_name (name_entries u t) i)
              (entries-listed t (all_names t)),
          All-map _
              (λ s.
                All-map (all_names s)
                  (λ n i. In-append_left (name_entry u s n) reg.by_name (name_entries u t) i))
              w.listed,
        );
      }

  add_team-IsWellFormed :
      (row : TeamRow) (reg : IdentityRegistry) {reg' : IdentityRegistry}
      → IsWellFormed reg
      → add_team u row reg ≡ ok reg'
      → IsWellFormed reg' × Grown row reg reg'
  unfolding add_team
  add_team-IsWellFormed row reg w h =
      let (t, e1, h1) = >>=-ok (team_of row) _ h in
      let (teams, e2, h2) = >>=-ok (add_canonical t reg.by_canonical) _ h1 in
      let (oracle, e3, h3) =
        >>=-ok (add_ids "oracles_elixir" t t.oracle_ids reg.by_provider) _ h2 in
      let (providers, e4, h4) = >>=-ok (add_ids "pandascore" t t.pandascore_ids oracle) _ h3 in
      let (kept, made) = add_canonical-ok t reg.by_canonical e2 in
      subst (λ r. IsWellFormed r × Grown row reg r) (ok-eq (rw (← made) refl) h4)
        (
          grown-IsWellFormed reg t oracle providers w
              (subst (KeepsTeams reg.by_canonical) made kept)
              (add_ids-Added "oracles_elixir" t t.oracle_ids reg.by_provider e3)
              (add_ids-Added "pandascore" t t.pandascore_ids oracle e4),
          record { team = t; read = e1; added = refl },
        )

  add_teams-IsWellFormed :
      (rows : List TeamRow) (reg : IdentityRegistry) {reg' : IdentityRegistry}
      → IsWellFormed reg
      → add_teams u rows reg ≡ ok reg'
      → IsWellFormed reg' × Lists rows reg.by_canonical reg'.by_canonical
  unfolding add_teams
  add_teams-IsWellFormed [] reg w h =
      subst (λ r. IsWellFormed r × Lists [] reg.by_canonical r.by_canonical) (ok-eq refl h)
        (w, done)
  add_teams-IsWellFormed (row ∷ rows) reg {reg' = reg'} w h =
      let (mid, e1, h1) = >>=-ok (add_team u row reg) _ h in
      let (w1, g) = add_team-IsWellFormed row reg w e1 in
      let (w2, l) = add_teams-IsWellFormed rows mid w1 h1 in
      (w2, more row g.team g.read (subst (λ ts. Lists rows ts reg'.by_canonical) g.added l))

  empty-IsWellFormed :
      (v : String)
      → IsWellFormed (record { version = v; by_canonical = []; by_provider = []; by_name = [] })
  empty-IsWellFormed v = record {
    canonical = tt;
    oracle = tt;
    panda = tt;
    owned = tt;
    named = tt;
    listed = tt;
  }

  -- The file that a registry was built from.
  pub record BuiltFrom (file : RegistryFile) (reg : IdentityRegistry) : Type 0 where
    pub read : RegistryRecord
    pub rows : List TeamRow
    pub is_file : file ≡ registry read
    pub versioned : is_text "lol-canonical-teams/1.0" read.schema_version ≡ true
    pub has_teams : read.teams ≡ some rows
    pub lists : Lists rows [] reg.by_canonical

  -- A registry that is built from a file has the teams of all rows of a file of the right schema,
  -- each found under its canonical id, which no other has, and under each of its provider ids, and
  -- listed under each of its names; and its dicts hold nothing else.
  pub identity_registry-IsWellFormed :
      (file : RegistryFile) {reg : IdentityRegistry}
      → identity_registry u file ≡ ok reg
      → IsWellFormed reg × BuiltFrom file reg
  unfolding identity_registry
  identity_registry-IsWellFormed no_file h = cc
  identity_registry-IsWellFormed (registry r) h =
      elim (Bool-cases (is_text "lol-canonical-teams/1.0" r.schema_version)) [
        | inr other ↦ cc (rw other at h)
        | inl versioned ↦ elim (Option-cases r.teams) [
          | inl no_list ↦ cc (rw (versioned, no_list) at h)
          | inr (rows, has) ↦
              let (w, lists) =
                add_teams-IsWellFormed rows _ (empty-IsWellFormed r.registry_version)
                  (rw (versioned, has) at h) in
              (
                w,
                record {
                  read = r;
                  rows = rows;
                  is_file = refl;
                  versioned = versioned;
                  has_teams = has;
                  lists = lists;
                },
              )
        ]
      ]

-- ===== src/Freeze/Kept.antt =====
-- What `publish_freeze` of src/freeze.py leaves on the disk.
use lol_predictor.Prelude.{
  eq_refl, ok-eq, false, ◌⊎◌, inl, inr, String, ◌≡◌, refl, Option, none, some, List, [], ◌∷◌,
  Result, ok, fail, ◌==◌, eq_iff, Bool-cases, Option-cases, subst,
}
use lol_predictor.Freeze.{
  Pointer, read_current, FreezeError, FileEntry, Pointer, Manifest, Unsigned,
}
use lol_predictor.Freeze.Publish.{Publisher, Disk, put_file, immutable_copy, then_on, copy_all}
use lol_predictor.Freeze.Issue.{
  target_of, with_entry, Prepared, prepare, copy_artifacts, copies, assemble, keep_or_write,
  point_at, issue, publish_freeze,
}

-- Every file of the one is on the other with the same content.
abbrev pub Grows : {C : Type 0} → Disk C → Disk C → Type 0
Grows {C} d d' = (path : String) (c : C) → d path ≡ some c → d' path ≡ some c

put_file-Grows :
    {C : Type 0} (target : String) (c : C) (d : Disk C)
    → d target ≡ none
    → Grows d (put_file target c d)
put_file-Grows target c d free path old stored = elim (Bool-cases (path == target)) [
  | inr other ↦ rw other stored
  | inl same ↦ let e = (eq_iff path target).0 same in cc (rw e at stored)
]

module _ {C D : Type 0} (w : Publisher C D) where
  then_on-Grows :
      {A B : Type 0} (d : Disk C) (x : Result FreezeError A × Disk C)
      (k : A → Disk C → Result FreezeError B × Disk C)
      → Grows d x.1
      → ((a : A) (d' : Disk C) → Grows d' (k a d').1)
      → Grows d (then_on w x k).1
  then_on-Grows d (fail e, d') k g more = g
  then_on-Grows d (ok a, d') k g more = λ path c h. more a d' path c (g path c h)

  immutable_copy-Grows :
      (source target : String) (d : Disk C) → Grows d (immutable_copy w source target d).1
  unfolding immutable_copy
  immutable_copy-Grows source target d = elim (Option-cases (d target)) [
    | inr (old, there) ↦ rw (there, immutable_copy) (λ path c h. h)
    | inl free ↦ elim (Option-cases (d source)) [
      | inl missing ↦ rw (free, missing, immutable_copy) (λ path c h. h)
      | inr (c, found) ↦ rw (free, found, immutable_copy) (put_file-Grows target c d free)
    ]
  ]

  copy_all-Grows : (files : List (String × String)) (d : Disk C) → Grows d (copy_all w files d).1
  unfolding copy_all
  copy_all-Grows [] d = λ path c h. h
  copy_all-Grows ((source, target) ∷ files) d =
      then_on-Grows d (immutable_copy w source target d) _ (immutable_copy-Grows source target d)
        (λ _ d'. copy_all-Grows files d')

  with_entry-Grows :
      (label sha : String) (path : Option String)
      (rest : Result FreezeError (List (String × FileEntry)) × Disk C) (d : Disk C)
      → Grows d rest.1
      → Grows d (with_entry w label sha path rest d).1
  with_entry-Grows label sha none rest d g = λ path c h. h
  with_entry-Grows label sha (some path) (fail e, d') d g = g
  with_entry-Grows label sha (some path) (ok others, d') d g = g

  copy_artifacts-Grows :
      (id : String) (es : List (String × FileEntry)) (d : Disk C)
      → Grows d (copy_artifacts w id es d).1
  unfolding copy_artifacts
  copy_artifacts-Grows id [] d = λ path c h. h
  copy_artifacts-Grows id ((label, e) ∷ es) d = elim (Option-cases (w.tools.resolve e.path)) [
    | inl outside ↦ rw (outside, copy_artifacts) (λ path c h. h)
    | inr (source, found) ↦
        let target = target_of w id source in
        rw (found, copy_artifacts)
          (then_on-Grows d (immutable_copy w source target d) _
            (immutable_copy-Grows source target d)
            (λ _ d'.
              with_entry-Grows label e.sha256 (w.relative target) (copy_artifacts w id es d') d'
                (copy_artifacts-Grows id es d')))
  ]

  -- The pointer names a manifest file on the disk that holds the manifest.
  pub record Current (m : Manifest D) (p : Pointer) (d : Disk C) : Type 0 where
    pub id : String
    pub named : w.relative (w.frozen id "manifest.json") ≡ some p.path
    pub content : C
    pub stored : d (w.frozen id "manifest.json") ≡ some content
    pub holds : (content ≡ w.encode_manifest m) ⊎ (w.tools.read_manifest content ≡ some m)
    pub same_hash : p.manifest_hash ≡ m.manifest_hash

  -- How a call ends: it raised, and the disk has only grown, or it has returned a manifest, and the
  -- pointer was replaced on a disk that has only grown.
  pub data Published (d : Disk C) : Result FreezeError (Manifest D) × Disk C → Type 0 where
    raised : (e : FreezeError) {d' : Disk C} → Grows d d' → Published d (fail e, d')
    pointed :
        (m : Manifest D) (p : Pointer) {d' : Disk C}
        → Grows d d'
        → Current m p d'
        → Published d (ok m, put_file w.tools.pointer_path (w.encode_pointer p) d')

  wider :
      (d d' : Disk C)
      → Grows d d'
      → (x : Result FreezeError (Manifest D) × Disk C) → Published d' x
      → Published d x
  wider d d' g x (raised e h) = raised e (λ path c i. h path c (g path c i))
  wider d d' g x (pointed m p h current) = pointed m p (λ path c i. h path c (g path c i)) current

  then_on-Published :
      {A : Type 0} (d : Disk C) (x : Result FreezeError A × Disk C)
      (k : A → Disk C → Result FreezeError (Manifest D) × Disk C)
      → Grows d x.1
      → ((a : A) (d' : Disk C) → Published d' (k a d'))
      → Published d (then_on w x k)
  then_on-Published d (fail e, d') k g more = raised e g
  then_on-Published d (ok a, d') k g more = wider d d' g (k a d') (more a d')

  point_at-Published :
      (p : Prepared) (m : Manifest D) (d : Disk C) (c : C)
      → d (w.frozen p.freeze_id "manifest.json") ≡ some c
      → (c ≡ w.encode_manifest m) ⊎ (w.tools.read_manifest c ≡ some m)
      → Published d (point_at w p (w.frozen p.freeze_id "manifest.json") m d)
  unfolding point_at
  point_at-Published p m d c stored holds =
      let target = w.frozen p.freeze_id "manifest.json" in
      elim (Option-cases (w.relative target)) [
        | inl outside ↦ rw (outside, point_at) (raised _ (λ path c h. h))
        | inr (path, inside) ↦
            rw (inside, point_at)
              (pointed m _ (λ q c h. h)
                (record {
                  id = p.freeze_id;
                  named = inside;
                  content = c;
                  stored = stored;
                  holds = holds;
                  same_hash = refl;
                }))
      ]

  -- the manifest that stands under the id counts
  kept-Published :
      (p : Prepared) (m : Manifest D) (d : Disk C)
      → Published d (
          then_on w
            (keep_or_write w (w.frozen p.freeze_id "manifest.json") m d)
            (λ n d'. point_at w p (w.frozen p.freeze_id "manifest.json") n d'))
  unfolding keep_or_write
  kept-Published p m d =
      let target = w.frozen p.freeze_id "manifest.json" in
      let new = w.encode_manifest m in
      elim (Option-cases (d target)) [
        | inl free ↦
            rw (free, keep_or_write)
              (wider d (put_file target new d) (put_file-Grows target new d free) _ (
                point_at-Published p m (put_file target new d) new (rw (eq_refl target) refl)
                  (inl refl)))
        | inr (c, there) ↦ elim (Option-cases (w.tools.read_manifest c)) [
          | inl broken ↦ rw (there, keep_or_write, broken) (raised _ (λ path c h. h))
          | inr (n, reads) ↦
              rw (there, keep_or_write, reads) (point_at-Published p n d c there (inr reads))
        ]
      ]

  issue-Published :
      (p : Prepared) (artifacts : List (String × FileEntry)) (d : Disk C)
      (u : Result FreezeError (Unsigned D))
      → assemble w p artifacts d ≡ u
      → Published d (issue w p artifacts d)
  unfolding issue
  issue-Published p artifacts d (fail e) made = rw (made, issue) (raised e (λ path c h. h))
  issue-Published p artifacts d (ok u) made = rw (made, issue) (kept-Published p _ d)

  publish_from :
      (d : Disk C) (x : Result FreezeError Prepared)
      → prepare w d ≡ x
      → Published d (publish_freeze w d)
  unfolding publish_freeze
  publish_from d (fail e) made = rw (made, publish_freeze) (raised e (λ path c h. h))
  publish_from d (ok p) made =
      rw (made, publish_freeze)
        (then_on-Published d (copy_artifacts w p.freeze_id p.backtest.unsigned.artifacts d) _
          (copy_artifacts-Grows p.freeze_id p.backtest.unsigned.artifacts d)
          (λ artifacts d1.
            then_on-Published d1 (copy_all w (copies w p.freeze_id) d1) _
              (copy_all-Grows (copies w p.freeze_id) d1)
              (λ _ d2. issue-Published p artifacts d2 _ refl)))

  -- `publish_freeze` never removes a file and never changes the content of one, but for the pointer,
  -- which it replaces only where it returns a manifest, by one that names a file with this manifest
  -- and has its hash; a call that raises may only have added files.
  pub publish_freeze-Published : (d : Disk C) → Published d (publish_freeze w d)
  publish_freeze-Published d = publish_from d (prepare w d) refl

  -- The files that `publish_freeze` writes can be read, and none of them is the pointer's.
  pub record Readable : Type 0 where
    pub pointers : (p : Pointer) → w.tools.read_pointer (w.encode_pointer p) ≡ some p
    pub manifests : (m : Manifest D) → w.tools.read_manifest (w.encode_manifest m) ≡ some m
    pub paths : (path r : String) → w.relative path ≡ some r → w.tools.resolve r ≡ some path
    pub apart : (id : String) → (w.frozen id "manifest.json" == w.tools.pointer_path) ≡ false

  reads_back :
      (r : Readable) (m : Manifest D) (c : C)
      → (c ≡ w.encode_manifest m) ⊎ (w.tools.read_manifest c ≡ some m)
      → w.tools.read_manifest c ≡ some m
  reads_back r m c (inl new) = rw new (r.manifests m)
  reads_back r m c (inr old) = old

  Current-read :
      (r : Readable) (m : Manifest D) (p : Pointer) (d : Disk C)
      → Current m p d
      → read_current w.tools (put_file w.tools.pointer_path (w.encode_pointer p) d) ≡ ok (p, m)
  unfolding read_current
  Current-read r m p d c =
      rw
        (
          eq_refl w.tools.pointer_path,
          r.pointers p,
          r.paths (w.frozen c.id "manifest.json") p.path c.named,
          r.apart c.id,
          c.stored,
          reads_back r m c.content c.holds,
        )
        refl

  read-after :
      (r : Readable) (d : Disk C) {x : Result FreezeError (Manifest D) × Disk C} {m : Manifest D}
      → Published d x
      → x.0 ≡ ok m
      → (p : Pointer) × (read_current w.tools x.1 ≡ ok (p, m)) × (p.manifest_hash ≡ m.manifest_hash)
  read-after r d (raised e g) h = cc
  read-after r d {m = m} (pointed n p {d' = d'} g c) h =
      let same : n ≡ m = ok-eq refl h in
      subst
        (λ k.
          (q : Pointer) × (read_current w.tools
              (put_file w.tools.pointer_path (w.encode_pointer p) d')
            ≡ ok (q, k))
          × (q.manifest_hash ≡ k.manifest_hash))
        same (p, Current-read r n p d' c, c.same_hash)

  -- If JSON files and relative paths read back, then after a `publish_freeze` that returned a manifest
  -- the current pointer and manifest read as a pointer with the manifest's hash and this manifest.
  pub publish_freeze-read_current :
      (r : Readable) (d : Disk C) {m : Manifest D}
      → (publish_freeze w d).0 ≡ ok m
      → (p : Pointer) × (read_current w.tools (publish_freeze w d).1 ≡ ok (p, m))
        × (p.manifest_hash ≡ m.manifest_hash)
  publish_freeze-read_current r d h = read-after r d (publish_freeze-Published d) h

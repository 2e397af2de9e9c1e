-- ===== src/Restore/Verified.antt =====
-- What a result without problems says of an archive (domain/organizations/export_verification.py).
use signalscope.Shared.{
  ap, ◌≡◌, refl, inl, inr, true, false, Bool-cases, Option, none, some, List, [], ◌∷◌, ◌++◌, ◌==◌,
  ltb, All, arith, ok,
}
use signalscope.Shared.Text.{text_eq}
use signalscope.Shared.Rows.{count}
use signalscope.Restore.Archive.{
  Bytes, Reading, read, bad_zip_file, other_error, uncaught, Member, Manifest, Parsed, object,
  Problem, manifest_file, in_texts, unreadable, not_object, manifest_unreadable,
  manifest_not_object, not_a_zip, no_single_manifest, manifest_too_large, max_manifest_bytes,
}
use signalscope.Restore.Verify.{
  Readers, Verification, names_of, paths_of, failed, no_problems, check_parsed, read_manifest,
  open_manifest, actual_paths, get_info, check_manifest, checked_of, member_problems, verify,
}
use signalscope.Restore.Genuine.{IsGenuine, NamesDiffer, entries_of, manifest-IsGenuine}

failed-invalid :
    (infos : List Member) (p : Problem) {v : Verification}
    → failed infos p ≡ ok v
    → v.valid ≡ true
    → ⊥
failed-invalid infos p {v} h valid =
    some_problem (member_problems infos) (ground (arith, ap no_problems refl))
  where
    some_problem : (ps : List Problem) → no_problems (ps ++ p ∷ []) ≡ true → ⊥
    some_problem [] h = ground arith
    some_problem (q ∷ ps) h = ground arith

no_problems-none : (problems : List Problem) → no_problems problems ≡ true → problems ≡ []
no_problems-none [] h = refl
no_problems-none (p ∷ problems) h = absurd (ground arith)

manifest-clean :
    (r : Readers) (infos : List Member) (m : Manifest)
    → (check_manifest r infos m).valid ≡ true
    → (check_manifest r infos m).problems ≡ []
unfolding check_manifest
manifest-clean r infos m valid = no_problems-none _ valid

-- The manifest of an archive, as it is read
abbrev pub HasManifest : Readers → List Member → Manifest → Type 0
HasManifest r infos m =
    (info : Member) × (content : Bytes) × (get_info manifest_file infos ≡ some info)
    × (info.content ≡ read content)
    × (r.parse content ≡ object m)

-- Nothing raises and there is no problem.
abbrev IsClean : Readers → List Member → Manifest → Type 0
IsClean r infos m =
    ((checked_of r infos m).raised ≡ false) × ((check_manifest r infos m).problems ≡ [])

module _ (r : Readers) (infos : List Member) {v : Verification} where
  parsed_object :
      (parsed : Parsed)
      → check_parsed r infos parsed ≡ ok v
      → v.valid ≡ true
      → (m : Manifest) × (parsed ≡ object m) × IsClean r infos m
  parsed_object unreadable h valid = absurd (failed-invalid infos manifest_unreadable h valid)
  parsed_object not_object h valid = absurd (failed-invalid infos manifest_not_object h valid)
  parsed_object (object m) h valid = elim (Bool-cases (checked_of r infos m).raised) [
    | inl y ↦ absurd (ground arith)
    | inr n ↦
        let same : check_manifest r infos m ≡ v = ground arith in
        (m, refl, (n, manifest-clean r infos m (rw same valid)))
  ]

  read_object :
      (reading : Reading)
      → read_manifest r infos reading ≡ ok v
      → v.valid ≡ true
      → (m : Manifest) × (content : Bytes) × (reading ≡ read content)
        × (r.parse content ≡ object m)
        × IsClean r infos m
  read_object (read content) h valid =
      let (m, p, n) = parsed_object (r.parse content) h valid in (m, content, refl, p, n)
  read_object bad_zip_file h valid = absurd (failed-invalid infos not_a_zip h valid)
  read_object other_error h valid = absurd (ground arith)
  read_object uncaught h valid = absurd (ground arith)

  opened_manifest :
      (found : Option Member)
      → get_info manifest_file infos ≡ found
      → open_manifest r infos found ≡ ok v
      → v.valid ≡ true
      → (m : Manifest) × HasManifest r infos m × IsClean r infos m
  opened_manifest none g h valid = absurd (failed-invalid infos no_single_manifest h valid)
  opened_manifest (some info) g h valid =
      elim (Bool-cases (ltb max_manifest_bytes info.file_size)) [
        | inl y ↦ absurd (failed-invalid infos manifest_too_large (rw y at h) valid)
        | inr n ↦
            let (m, content, c, p, none_found) = read_object info.content (rw n at h) valid in
            (m, (info, content, g, c, p), none_found)
      ]

-- An archive that verification returns as valid has a manifest, and each file that is taken from the
-- manifest is a member, at a safe path, that reads as so many bytes with that hash. Each member
-- but the manifest is one of these files, and no two members have one name.
pub valid_archive :
    (r : Readers) (archive : Option (List Member)) {v : Verification}
    → verify r archive ≡ ok v
    → v.valid ≡ true
    → (infos : List Member) × (m : Manifest) × (archive ≡ some infos)
      × HasManifest r infos m
      × All (IsGenuine r infos) (entries_of r m)
      × All (λ t. in_texts t (paths_of (entries_of r m)) ≡ true) (actual_paths infos)
      × NamesDiffer infos
unfolding verify
valid_archive r none h valid = absurd (ground arith)
valid_archive r (some infos) h valid =
    elim (Bool-cases (count (text_eq manifest_file) (names_of infos) == 1)) [
      | inl y ↦
          let (m, has, clean) =
            opened_manifest r infos (get_info manifest_file infos) refl (rw y at h) valid in
          let (genuine, known, differ) = manifest-IsGenuine r infos m clean.0 clean.1 in
          (infos, m, refl, has, genuine, known, differ)
      | inr n ↦ absurd (failed-invalid infos no_single_manifest (rw n at h) valid)
    ]

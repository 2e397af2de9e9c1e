-- ===== src/Restore/Genuine.antt =====
-- The entries of a manifest against the members of an archive (domain/organizations/export_verification.py).
use signalscope.Shared.{
  ℕ, ◌+◌, ◌≡◌, refl, inl, inr, true, false, not, Bool-cases, some, List, [], ◌∷◌, ◌++◌, ◌==◌, ltb,
  length, map, All, arith, Result-cases, Result, ok,
}
use signalscope.Shared.Text.{Text, text_eq, text_eq→eq}
use signalscope.Shared.Rows.{select, count}
use signalscope.Restore.Paths.{safe_path}
use signalscope.Restore.Archive.{
  Bytes, Reading, read, bad_zip_file, other_error, uncaught, Member, Manifest, FileEntry, Problem,
  manifest_file, in_texts, manifest_entries, asset_entries, collect, Listed, listed, check_entry,
  RawEntry, entry, no_object, string, bounded, max_member_bytes, max_record_count, files,
  member_missing, member_unlisted, unsafe_member, duplicate_member, record_counts_of,
  check_asset_files, checksum_of, entry_size_invalid, entry_checksum_invalid,
}
use signalscope.Restore.Verify.{
  Readers, names_of, paths_of, actual_paths, get_info, duplicates, difference, sorted_texts,
  check_content, check_member, check_info, check_members, check_manifest, checked_of,
  member_problems, version_of, version_problems,
}
use signalscope.Restore.Lookups.{
  ++-none, map-none, select-none, sorted_texts-none, difference-none, in_texts-select,
  get_info-some,
}

abbrev AllSafe : List FileEntry → Type 0
AllSafe entries = All (λ (e : FileEntry). safe_path e.path ≡ true) entries

AllSafe-append :
    (entries : List FileEntry) (e : FileEntry)
    → AllSafe entries
    → safe_path e.path ≡ true
    → AllSafe (entries ++ e ∷ [])
AllSafe-append [] e h s = (s, tt)
AllSafe-append (d ∷ entries) e (t, h) s = (t, AllSafe-append entries e h s)

collect-AllSafe :
    {A : Type 0} (check : List FileEntry → A → Result Problem FileEntry)
    → ((found : List FileEntry) (raw : A) (e : FileEntry)
        → check found raw ≡ ok e
        → safe_path e.path ≡ true)
    → (found : List FileEntry) (rows : List A) → AllSafe found
    → AllSafe (collect check found rows).0
unfolding collect
collect-AllSafe check safe found [] h = h
collect-AllSafe check safe found (raw ∷ rows) h = elim (Result-cases (check found raw)) [
  | inl (e, q) ↦
      let more = AllSafe-append found e h (safe found raw e q) in
      rw (q, collect) (collect-AllSafe check safe (found ++ e ∷ []) rows more)
  | inr (p, q) ↦ rw (q, collect) (collect-AllSafe check safe found rows h)
]

check_entry-IsSafe :
    (asset_paths : List Text) (found : List FileEntry) (raw : RawEntry) (e : FileEntry)
    → check_entry asset_paths found raw ≡ ok e
    → safe_path e.path ≡ true
unfolding check_entry
check_entry-IsSafe asset_paths found no_object e h = absurd (ground arith)
check_entry-IsSafe asset_paths found (entry (string path) size sum) e h =
    elim (Result-cases (bounded max_member_bytes (entry_size_invalid path) size)) [
      | inr (p, q) ↦ absurd (ground arith)
      | inl (n, q) ↦ elim (Result-cases (checksum_of (entry_checksum_invalid path) sum)) [
        | inr (p, t) ↦ absurd (ground arith)
        | inl (c, t) ↦ ground arith
      ]
    ]
check_entry-IsSafe asset_paths found (entry _ size sum) e h = absurd (ground arith)

-- A member of the archive that reads as an entry says, at a safe path
abbrev pub IsGenuine : Readers → List Member → FileEntry → Type 0
IsGenuine r infos e =
    (info : Member) × (content : Bytes) × (get_info e.path infos ≡ some info)
    × (info.content ≡ read content)
    × (length content ≡ e.size_bytes)
    × (r.sha256_of content ≡ e.sha256)
    × (safe_path e.path ≡ true)

content_genuine :
    (r : Readers) (asset_paths : List Text) (counts : List (Text × ℕ)) (e : FileEntry)
    (reading : Reading)
    → (check_content r asset_paths counts e reading).found ≡ []
    → (check_content r asset_paths counts e reading).raised ≡ false
    → (content : Bytes) × (reading ≡ read content)
      × (length content ≡ e.size_bytes)
      × (r.sha256_of content ≡ e.sha256)
unfolding check_content
content_genuine r asset_paths counts e (read content) h quiet =
    elim (Bool-cases (length content == e.size_bytes)) [
      | inl y ↦ elim (Bool-cases (text_eq (r.sha256_of content) e.sha256)) [
        | inl z ↦ (content, refl, ground arith, text_eq→eq (r.sha256_of content) e.sha256 z)
        | inr n ↦ absurd (ground arith)
      ]
      | inr n ↦ absurd (ground arith)
    ]
content_genuine r asset_paths counts e bad_zip_file h quiet = absurd (ground arith)
content_genuine r asset_paths counts e other_error h quiet = absurd (ground arith)
content_genuine r asset_paths counts e uncaught h quiet = absurd (ground arith)

info-IsGenuine :
    (r : Readers) (asset_paths : List Text) (counts : List (Text × ℕ)) (infos : List Member)
    (actual : List Text) (e : FileEntry)
    → in_texts e.path actual ≡ true
    → in_texts e.path (names_of infos) ≡ true
    → in_texts e.path (duplicates (names_of infos)) ≡ false
    → safe_path e.path ≡ true
    → (check_member r asset_paths counts infos actual e).found ≡ []
    → (check_member r asset_paths counts infos actual e).raised ≡ false
    → IsGenuine r infos e
unfolding check_member
info-IsGenuine r asset_paths counts infos actual e present named single safe h quiet =
    let (info, g) = get_info-some e.path infos named in
    let opened : (check_info r asset_paths counts e (some info)).found ≡ [] =
      rw (present, single, safe, g) at h in
    let no_raise : (check_info r asset_paths counts e (some info)).raised ≡ false =
      rw (present, single, safe, g) at quiet in
    elim (Bool-cases (ltb max_member_bytes info.file_size)) [
      | inl y ↦ absurd (ground arith)
      | inr n ↦
          let (content, c, size, sum) =
            content_genuine r asset_paths counts e info.content (rw n at opened)
              (rw n at no_raise) in
          (info, content, g, c, size, sum, safe)
    ]

members-IsGenuine :
    (r : Readers) (asset_paths : List Text) (counts : List (Text × ℕ)) (infos : List Member)
    (entries : List FileEntry)
    → All (λ t. in_texts t (actual_paths infos) ≡ true) (paths_of entries)
    → duplicates (names_of infos) ≡ []
    → AllSafe entries
    → (check_members r asset_paths counts infos (actual_paths infos) entries).found ≡ []
    → (check_members r asset_paths counts infos (actual_paths infos) entries).raised ≡ false
    → All (IsGenuine r infos) entries
unfolding check_members in_texts
members-IsGenuine r asset_paths counts infos [] present single safe h quiet = tt
members-IsGenuine r asset_paths counts infos (e ∷ entries) (p, present) single (s, safe) h quiet =
    let (here, rest) = ++-none _ _ h in
    let named = in_texts-select (λ t. not (text_eq t manifest_file)) e.path (names_of infos) p in
    (
      info-IsGenuine r asset_paths counts infos (actual_paths infos) e p named (rw single refl) s
          here (ground arith),
      members-IsGenuine r asset_paths counts infos entries present single safe rest (ground arith),
    )

manifest_entries-AllSafe :
    (asset_paths : List Text) (raw : Listed RawEntry) → AllSafe (manifest_entries asset_paths raw).0
unfolding manifest_entries
manifest_entries-AllSafe asset_paths (listed rows) =
    elim (Bool-cases (ltb (length files + max_record_count) (length rows))) [
      | inl y ↦ rw y tt
      | inr n ↦
          rw n
            (collect-AllSafe (check_entry asset_paths) (check_entry-IsSafe asset_paths) [] rows tt)
    ]
manifest_entries-AllSafe asset_paths _ = tt

-- No two members have one name.
abbrev pub NamesDiffer : List Member → Type 0
NamesDiffer infos = All (λ t. ltb 1 (count (text_eq t) (names_of infos)) ≡ false) (names_of infos)

single_names :
    (infos : List Member)
    → member_problems infos ≡ []
    → (duplicates (names_of infos) ≡ []) × NamesDiffer infos
unfolding member_problems duplicates
single_names infos h =
    let names = names_of infos in
    let unsafe = map unsafe_member (select (λ t. not (safe_path t)) names) in
    let repeated = select (λ t. ltb 1 (count (text_eq t) names)) names in
    let last = (++-none (_ ++ unsafe) (map duplicate_member (duplicates names)) h).1 in
    let none_twice : sorted_texts repeated ≡ [] =
      map-none duplicate_member (duplicates names) last in
    (none_twice, select-none _ names (sorted_texts-none repeated none_twice))

-- The entries that a manifest's files are taken for
abbrev pub entries_of : Readers → Manifest → List FileEntry
entries_of r m = (manifest_entries (paths_of (asset_entries r.is_uuid m.assets).0) m.files).0

parts-none :
    (a b c d e f g h k : List Problem)
    → a ++ b ++ c ++ d ++ e ++ f ++ g ++ h ++ k ≡ []
    → (a ≡ []) × (g ≡ []) × (h ≡ []) × (k ≡ [])
parts-none a b c d e f g h k n =
    let (to_h, last) = ++-none (a ++ b ++ c ++ d ++ e ++ f ++ g ++ h) k n in
    let (to_g, unlisted) = ++-none (a ++ b ++ c ++ d ++ e ++ f ++ g) h to_h in
    let (to_f, missing) = ++-none (a ++ b ++ c ++ d ++ e ++ f) g to_g in
    let to_e = (++-none (a ++ b ++ c ++ d ++ e) f to_f).0 in
    let to_d = (++-none (a ++ b ++ c ++ d) e to_e).0 in
    let to_c = (++-none (a ++ b ++ c) d to_d).0 in
    let to_b = (++-none (a ++ b) c to_c).0 in ((++-none a b to_b).0, missing, unlisted, last)

pub manifest-IsGenuine :
    (r : Readers) (infos : List Member) (m : Manifest)
    → (checked_of r infos m).raised ≡ false
    → (check_manifest r infos m).problems ≡ []
    → All (IsGenuine r infos) (entries_of r m)
      × All (λ t. in_texts t (paths_of (entries_of r m)) ≡ true) (actual_paths infos)
      × NamesDiffer infos
unfolding check_manifest checked_of
manifest-IsGenuine r infos m quiet h =
    let assets = asset_entries r.is_uuid m.assets in
    let entries = manifest_entries (paths_of assets.0) m.files in
    let counts = record_counts_of m.record_counts in
    let actual = actual_paths infos in
    let paths = paths_of entries.0 in
    let checked = check_members r (paths_of assets.0) counts.0 infos actual entries.0 in
    let (start, missing, unlisted, members) =
      parts-none (member_problems infos) (version_problems (version_of m.format_version)) assets.1
        entries.1 (check_asset_files assets.0 entries.0) counts.1
        (map member_missing (difference paths actual))
        (map member_unlisted (difference actual paths)) checked.found h in
    let (single, differ) = single_names infos start in
    let present =
      difference-none paths actual (map-none member_missing (difference paths actual) missing) in
    let known =
      difference-none actual paths (map-none member_unlisted (difference actual paths) unlisted) in
    let safe = manifest_entries-AllSafe (paths_of assets.0) m.files in
    (
      members-IsGenuine r (paths_of assets.0) counts.0 infos entries.0 present single safe members
          quiet,
      known,
      differ,
    )

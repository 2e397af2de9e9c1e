-- ===== src/Restore/Tests.antt =====
-- An archive with one member, whose ID is the length of its text; user 3 takes the member's place.
use signalscope.Shared.{
  ℕ, ◌≡◌, refl, true, false, Option, some, List, [], ◌∷◌, All, In, ok, length, ◌⊎◌,
}
use signalscope.Shared.Text.{Text, codes, text_eq}
use signalscope.Shared.Rows.{find, select, count}
use signalscope.Organizations.Model.{User}
use signalscope.Restore.Users.{
  string, not_string, user_id, ArchiveRow, Archive, target_of, resolve_each, resolve,
  referenced_user_ids, section_ids, sorted_set, add_sorted,
}
use signalscope.Restore.Mapped.{IsSound, resolve-IsSound}
use signalscope.Restore.Paths.{
  IsBelow, IsFromDrive, posix_place, windows_place, safe_path, with_slashes, split_path, has_dots,
  is_posix_absolute, is_windows_absolute, safe_path_stays_inside,
}
use signalscope.Restore.Archive.{
  Reading, read, Member, Value, RawEntry, entry, number, Listed, listed, absent, Manifest, object,
  FileEntry, in_texts, check_entry, collect, manifest_entries, asset_entries, all_hex, is_checksum,
  files, manifest_file, check_asset_files, count_rows, record_counts_of,
}
use signalscope.Restore.Archive
use signalscope.Restore.Verify.{
  checked_of, Readers, Verification, verify, check_manifest, check_members, check_member,
  check_content, check_records, read_records, all_json, member_problems, get_info, duplicates,
  difference, sorted_texts, add_text, paths_of, actual_paths,
}
use signalscope.Restore.Genuine.{IsGenuine, NamesDiffer, entries_of}
use signalscope.Restore.Verified.{HasManifest, valid_archive}

abbrev uuid_of : Text → Option ℕ
uuid_of t = some (length t)

abbrev row : ArchiveRow
row user_id = string (codes "ab")
row _ = not_string

abbrev archive : Archive
archive = record {
  organization = [];
  memberships = row ∷ [];
  investigations = [];
  investigation_collaborators = [];
  security_audit = [];
}

abbrev users : List User
users =
    record {
      id = 3;
      email = codes "c@example.org";
      normalized_email = codes "c@example.org";
      is_active = true;
      is_system_admin = false;
    }
    ∷ []

abbrev mappings : ℕ → Option ℕ
mappings i = some 3

abbrev pairs : List (ℕ × ℕ)
pairs = (2, 3) ∷ []

referenced : referenced_user_ids uuid_of archive ≡ ok (2 ∷ [])
unfolding referenced_user_ids section_ids sorted_set add_sorted
referenced = refl

resolved : resolve uuid_of users mappings archive ≡ ok pairs
unfolding resolve resolve_each referenced_user_ids section_ids sorted_set add_sorted find
resolved = refl

resolve-IsSound_example :
    IsSound users mappings pairs
    × All (λ i. In {A = ℕ × ℕ} (i, target_of mappings i) pairs) (2 ∷ [])
resolve-IsSound_example = resolve-IsSound users mappings uuid_of archive referenced resolved

abbrev path : Text
path = codes "a\\.b"

path-IsSafe : safe_path path ≡ true
unfolding safe_path has_dots split_path with_slashes is_posix_absolute is_windows_absolute text_eq
path-IsSafe = refl

-- Two dots in a directory that a backslash ends are seen.
dots_unsafe : safe_path (codes "a\\..") ≡ false
unfolding safe_path has_dots split_path with_slashes is_posix_absolute is_windows_absolute text_eq
dots_unsafe = refl

-- A drive and no root is let through, although two dots follow.
drive_is_safe : safe_path (codes "C:..\\a") ≡ true
unfolding safe_path has_dots split_path with_slashes is_posix_absolute is_windows_absolute text_eq
drive_is_safe = refl

abbrev current : ℕ → List Text
current d = codes "home" ∷ []

safe_path_stays_inside_example :
    IsBelow (codes "out" ∷ []) (posix_place (codes "out" ∷ []) (with_slashes path))
    × (((windows_place current (b'D', codes "out" ∷ []) (with_slashes path)).0 ≡ b'D')
          × IsBelow
              (codes "out" ∷ [])
              (windows_place current (b'D', codes "out" ∷ []) (with_slashes path)).1
        ⊎ IsFromDrive current
            (with_slashes path)
            (windows_place current (b'D', codes "out" ∷ []) (with_slashes path)))
safe_path_stays_inside_example =
    safe_path_stays_inside current b'D' (codes "out" ∷ []) path path-IsSafe

-- An archive of a file of one line, "{}", and its manifest
abbrev hash : Text
hash = codes "0123456789abcdef0123456789abcdef0123456789abcdef0123456789abcdef"

abbrev manifest : Manifest
manifest = record {
  format_version = Archive.string (codes "2");
  assets = absent;
  files =
      listed (entry (Archive.string (codes "events.jsonl")) (number 2) (Archive.string hash) ∷ []);
  record_counts = listed ((codes "events", number 1) ∷ []);
}

abbrev readers : Readers
readers = record {
  is_uuid = λ t. true;
  sha256_of = λ content. hash;
  parse = λ content. object manifest;
  decode = λ content. some content;
  is_json = λ t. true;
  split_lines = λ t. t ∷ [];
}

abbrev two_members : List Member
two_members =
    record { filename = codes "events.jsonl"; file_size = 2; content = read (codes "{}") }
    ∷ record { filename = codes "manifest.json"; file_size = 9; content = read [] }
    ∷ []

abbrev verified : Verification
verified = record {
  valid = true;
  version = some (codes "2");
  checked_files = 1;
  checked_records = 1;
  problems = [];
}

verified_run : verify readers (some two_members) ≡ ok verified
unfolding verify check_manifest checked_of check_members check_member check_content check_records
    read_records all_json member_problems get_info duplicates difference sorted_texts add_text
    check_entry collect manifest_entries asset_entries all_hex is_checksum files check_asset_files
    count_rows record_counts_of in_texts safe_path has_dots split_path with_slashes
    is_posix_absolute is_windows_absolute text_eq find select count
verified_run = refl

valid_archive_example :
    (infos : List Member) × (m : Manifest) × (some two_members ≡ some infos)
    × HasManifest readers infos m
    × All (IsGenuine readers infos) (entries_of readers m)
    × All (λ t. in_texts t (paths_of (entries_of readers m)) ≡ true) (actual_paths infos)
    × NamesDiffer infos
valid_archive_example = valid_archive readers (some two_members) verified_run refl

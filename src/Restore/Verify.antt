-- ===== src/Restore/Verify.antt =====
-- `OrganizationExportVerificationService.verify` (domain/organizations/export_verification.py). The readers
-- of ZIP files and of JSON, `uuid.UUID`, `decode`, `splitlines` and SHA-256 are arguments.
use signalscope.Shared.{
  ℕ, ◌+◌, Bool, true, false, not, ◌&&◌, ◌||◌, Option, none, some, List, [], ◌∷◌, ◌++◌, ◌==◌, ltb,
  length, map, if◌then◌else◌, Result, ok, err,
}
use signalscope.Shared.Text.{Text, codes, text_eq}
use signalscope.Shared.Rows.{find, select, count}
use signalscope.Restore.Paths.{safe_path}
use signalscope.Restore.Archive.{
  Bytes, Reading, read, bad_zip_file, uncaught, Member, Value, string, Manifest, Parsed, unreadable,
  not_object, object, FileEntry, Problem, not_a_zip, too_many_members, no_single_manifest,
  manifest_too_large, manifest_unreadable, manifest_not_object, unsupported_version, unsafe_member,
  duplicate_member, member_missing, member_unlisted, member_too_large, member_unreadable,
  size_mismatch, checksum_mismatch, not_json, count_missing, count_mismatch, max_manifest_bytes,
  max_member_bytes, max_record_count, manifest_file, files, in_texts, has_path, manifest_entries,
  asset_entries, check_asset_files, record_counts_of,
}

-- What `verify` needs of libraries and of the language
pub record Readers : Type 0 where
  pub is_uuid : Text → Bool
  pub sha256_of : Bytes → Text
  pub parse : Bytes → Parsed
  pub decode : Bytes → Option Text
  pub is_json : Text → Bool
  pub split_lines : Text → List Text

pub record Verification : Type 0 where
  pub valid : Bool
  pub version : Option Text
  pub checked_files : ℕ
  pub checked_records : ℕ
  pub problems : List Problem

pub data Raised : Type 0 where
  manifest_not_read member_not_read : Raised

abbrev pub no_problems : List Problem → Bool
no_problems [] = true
no_problems (p ∷ problems) = false

abbrev pub result : Option Text → ℕ → ℕ → List Problem → Verification
result version checked_files checked_records problems = record {
  valid = no_problems problems;
  version = version;
  checked_files = checked_files;
  checked_records = checked_records;
  problems = problems;
}

-- Texts in the order of their code points
unfoldable pub is_before : Text → Text → Bool
is_before t [] = false
is_before [] (d ∷ ds) = true
is_before (c ∷ cs) (d ∷ ds) = ltb c d || (c == d && is_before cs ds)

unfoldable pub add_text : Text → List Text → List Text
add_text t [] = t ∷ []
add_text t (s ∷ texts) =
    if text_eq t s then s ∷ texts else if is_before t s then t ∷ s ∷ texts else s ∷ add_text t texts

-- `sorted` of a set
unfoldable pub sorted_texts : List Text → List Text
sorted_texts [] = []
sorted_texts (t ∷ texts) = add_text t (sorted_texts texts)

-- The names that are not among others, sorted
unfoldable pub difference : List Text → List Text → List Text
difference names others = sorted_texts (select (λ t. not (in_texts t others)) names)

abbrev pub names_of : List Member → List Text
names_of infos = map (λ (m : Member). m.filename) infos

unfoldable pub duplicates : List Text → List Text
duplicates names = sorted_texts (select (λ t. ltb 1 (count (text_eq t) names)) names)

-- `getinfo`: the last member with a name
unfoldable pub get_info : Text → List Member → Option Member
get_info path [] = none
get_info path (m ∷ infos) = elim (get_info path infos) [
  | some info ↦ some info
  | none ↦ if text_eq m.filename path then some m else none
]

-- The checks before the manifest
unfoldable pub member_problems : List Member → List Problem
member_problems infos =
    (if ltb (length files + max_record_count + 1) (length infos) then too_many_members ∷ [] else [])
    ++ map unsafe_member (select (λ t. not (safe_path t)) (names_of infos))
    ++ map duplicate_member (duplicates (names_of infos))

abbrev pub ends_with : Text → Text → Bool
ends_with suffix [] = text_eq [] suffix
ends_with suffix (c ∷ cs) = text_eq (c ∷ cs) suffix || ends_with suffix cs

unfoldable pub all_json : (Text → Bool) → List Text → Bool
all_json is_json [] = true
all_json is_json (line ∷ lines) = is_json line && all_json is_json lines

-- `_read_records`
unfoldable pub read_records : Readers → Text → Bytes → Option ℕ
read_records r path content = elim (r.decode content) [
  | none ↦ none
  | some text ↦
      if ends_with (codes ".jsonl") path
      then (if all_json r.is_json (r.split_lines text)
          then some (length (r.split_lines text))
          else none)
      else (if r.is_json text then some 1 else none)
]

-- What the loop over the entries adds up, and if it raises
pub record Checked : Type 0 where
  pub file_count : ℕ
  pub record_count : ℕ
  pub found : List Problem
  pub raised : Bool

abbrev pub get_count : List (Text × ℕ) → Option (Text × Text) → Option ℕ
get_count counts none = none
get_count counts (some (dataset, path)) =
    elim (find (λ (c : Text × ℕ). text_eq c.0 dataset) counts) [
      | none ↦ none
      | some (name, n) ↦ some n
    ]

abbrev pub compare_count : Text → ℕ → Option ℕ → List Problem
compare_count path records none = count_missing path ∷ []
compare_count path records (some n) = if records == n then [] else count_mismatch path ∷ []

unfoldable pub check_records :
    Readers → List Text → List (Text × ℕ) → Text → Bytes → ℕ × List Problem
check_records r asset_paths counts path content =
    if in_texts path asset_paths then (0, []) else elim (read_records r path content) [
      | none ↦ (0, not_json path ∷ [])
      | some n ↦ (n, compare_count path n (get_count counts (find (has_path path) files)))
    ]

unfoldable pub check_content : Readers → List Text → List (Text × ℕ) → FileEntry → Reading → Checked
check_content r asset_paths counts e (read content) =
    let records = check_records r asset_paths counts e.path content in
    record {
      file_count = 1;
      record_count = records.0;
      found =
          (if length content == e.size_bytes then [] else size_mismatch e.path ∷ [])
          ++ (if text_eq (r.sha256_of content) e.sha256 then [] else checksum_mismatch e.path ∷ [])
          ++ records.1;
      raised = false;
    }
check_content r asset_paths counts e uncaught = record {
  file_count = 0;
  record_count = 0;
  found = [];
  raised = true;
}
check_content r asset_paths counts e _ = record {
  file_count = 0;
  record_count = 0;
  found = member_unreadable e.path ∷ [];
  raised = false;
}

abbrev pub check_info : Readers → List Text → List (Text × ℕ) → FileEntry → Option Member → Checked
check_info r asset_paths counts e none = record {
  file_count = 0;
  record_count = 0;
  found = [];
  raised = false;
}
check_info r asset_paths counts e (some info) =
    if ltb max_member_bytes info.file_size
    then record {
      file_count = 0;
      record_count = 0;
      found = member_too_large e.path ∷ [];
      raised = false;
    }
    else check_content r asset_paths counts e info.content

-- The body of the loop over the entries; a path among the names has a member.
unfoldable pub check_member :
    Readers → List Text → List (Text × ℕ) → List Member → List Text → FileEntry → Checked
check_member r asset_paths counts infos actual e =
    if not (in_texts e.path actual)
      || (in_texts e.path (duplicates (names_of infos)) || not (safe_path e.path))
    then record { file_count = 0; record_count = 0; found = []; raised = false }
    else check_info r asset_paths counts e (get_info e.path infos)

unfoldable pub check_members :
    Readers → List Text → List (Text × ℕ) → List Member → List Text → List FileEntry → Checked
check_members r asset_paths counts infos actual [] = record {
  file_count = 0;
  record_count = 0;
  found = [];
  raised = false;
}
check_members r asset_paths counts infos actual (e ∷ entries) =
    let here = check_member r asset_paths counts infos actual e in
    let rest = check_members r asset_paths counts infos actual entries in
    record {
      file_count = here.file_count + rest.file_count;
      record_count = here.record_count + rest.record_count;
      found = here.found ++ rest.found;
      raised = here.raised || rest.raised;
    }

abbrev pub version_of : Value → Option Text
version_of (string t) = some t
version_of _ = none

abbrev pub version_problems : Option Text → List Problem
version_problems none = unsupported_version ∷ []
version_problems (some t) = if text_eq t (codes "2") then [] else unsupported_version ∷ []

abbrev pub paths_of : List FileEntry → List Text
paths_of entries = map (λ (e : FileEntry). e.path) entries

-- The names of the members but the manifest
abbrev pub actual_paths : List Member → List Text
actual_paths infos = select (λ t. not (text_eq t manifest_file)) (names_of infos)

-- The loop over the entries of a manifest
unfoldable pub checked_of : Readers → List Member → Manifest → Checked
checked_of r infos m =
    let asset_paths = paths_of (asset_entries r.is_uuid m.assets).0 in
    check_members r asset_paths (record_counts_of m.record_counts).0 infos (actual_paths infos)
      (manifest_entries asset_paths m.files).0

unfoldable pub check_manifest : Readers → List Member → Manifest → Verification
check_manifest r infos m =
    let assets = asset_entries r.is_uuid m.assets in
    let asset_paths = paths_of assets.0 in
    let entries = manifest_entries asset_paths m.files in
    let counts = record_counts_of m.record_counts in
    let actual = actual_paths infos in
    let checked = checked_of r infos m in
    result (version_of m.format_version) checked.file_count checked.record_count (
      member_problems infos
      ++ version_problems (version_of m.format_version)
      ++ assets.1
      ++ entries.1
      ++ check_asset_files assets.0 entries.0
      ++ counts.1
      ++ map member_missing (difference (paths_of entries.0) actual)
      ++ map member_unlisted (difference actual (paths_of entries.0))
      ++ checked.found)

abbrev pub failed : List Member → Problem → Result Raised Verification
failed infos problem = ok (result none 0 0 (member_problems infos ++ problem ∷ []))

abbrev pub check_parsed : Readers → List Member → Parsed → Result Raised Verification
check_parsed r infos unreadable = failed infos manifest_unreadable
check_parsed r infos not_object = failed infos manifest_not_object
check_parsed r infos (object m) =
    if (checked_of r infos m).raised then err member_not_read else ok (check_manifest r infos m)

abbrev pub read_manifest : Readers → List Member → Reading → Result Raised Verification
read_manifest r infos (read content) = check_parsed r infos (r.parse content)
read_manifest r infos bad_zip_file = failed infos not_a_zip
read_manifest r infos _ = err manifest_not_read

-- The manifest is one of the names, so that `getinfo` finds it.
abbrev pub open_manifest : Readers → List Member → Option Member → Result Raised Verification
open_manifest r infos none = failed infos no_single_manifest
open_manifest r infos (some info) =
    if ltb max_manifest_bytes info.file_size
    then failed infos manifest_too_large
    else read_manifest r infos info.content

-- The members of the archive, if it is a ZIP file
unfoldable pub verify : Readers → Option (List Member) → Result Raised Verification
verify r none = ok (result none 0 0 (not_a_zip ∷ []))
verify r (some infos) =
    if count (text_eq manifest_file) (names_of infos) == 1
    then open_manifest r infos (get_info manifest_file infos)
    else failed infos no_single_manifest

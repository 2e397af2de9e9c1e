-- ===== src/Restore/Archive.antt =====
-- domain/organizations/export_verification.py, and the names of files of export_archive.py. Reading a
-- ZIP file, JSON, UTF-8, UUIDs and hashes are arguments: the members with what reading each gives, and a
-- manifest as what its fields hold. Problems are values in place of their messages.
use signalscope.Shared.{
  ℕ, ◌+◌, Bool, true, false, not, ◌&&◌, ◌||◌, Option, none, some, List, [], ◌∷◌, ◌++◌, ◌==◌, ltb,
  leb, length, map, is_some, if◌then◌else◌, Result, ok, err, ◌>>=◌, ◌>>◌, raise_if,
}
use signalscope.Shared.Text.{Text, codes, text_eq}
use signalscope.Shared.Rows.{find}
use signalscope.Restore.Paths.{safe_path, is_empty}

abbrev pub Bytes : Type 0
Bytes = List ℕ

-- What `ZipFile.read` returns or raises: BadZipFile, or RuntimeError or OSError, or an
-- exception that `verify` does not catch, such as zlib.error
pub data Reading : Type 0 where
  read : Bytes → Reading
  bad_zip_file other_error uncaught : Reading

pub record Member : Type 0 where
  pub filename : Text
  pub file_size : ℕ
  pub content : Reading

-- A value of a manifest, as far as it is a text or a natural number (and no Boolean)
pub data Value : Type 0 where
  string : Text → Value
  number : ℕ → Value
  missing other : Value

pub data RawEntry : Type 0 where
  entry : Value → Value → Value → RawEntry
  no_object : RawEntry

-- An asset's and a document's identifier, and the path, filename, content type, size and checksum
pub data RawAsset : Type 0 where
  asset : Value → Value → Value → Value → Value → Value → Value → RawAsset
  no_object : RawAsset

pub data Listed (A : Type 0) : Type 0 where
  listed : List A → Listed A
  absent no_list : Listed A

pub record Manifest : Type 0 where
  pub format_version : Value
  pub assets : Listed RawAsset
  pub files : Listed RawEntry
  pub record_counts : Listed (Text × Value)

pub data Parsed : Type 0 where
  unreadable not_object : Parsed
  object : Manifest → Parsed

pub record FileEntry : Type 0 where
  pub path : Text
  pub size_bytes : ℕ
  pub sha256 : Text

pub data Problem : Type 0 where
  not_a_zip too_many_members no_single_manifest manifest_too_large : Problem
  manifest_unreadable manifest_not_object unsupported_version : Problem
  files_not_bounded entry_invalid entry_path_invalid : Problem
  unsafe_member duplicate_member duplicate_entry entry_size_invalid : Text → Problem
  entry_checksum_invalid : Text → Problem
  assets_not_bounded asset_invalid asset_ids_invalid asset_path_invalid : Problem
  duplicate_asset filename_invalid content_type_invalid asset_size_invalid : Text → Problem
  asset_checksum_invalid asset_entry_missing asset_mismatch : Text → Problem
  counts_not_object count_invalid : Problem
  member_missing member_unlisted member_too_large member_unreadable : Text → Problem
  size_mismatch checksum_mismatch not_json count_missing count_mismatch : Text → Problem

abbrev pub max_manifest_bytes : ℕ
max_manifest_bytes = 1_000_000

abbrev pub max_member_bytes : ℕ
max_member_bytes = 256_000_000

abbrev pub max_record_count : ℕ
max_record_count = 10_000_000

abbrev pub manifest_file : Text
manifest_file = codes "manifest.json"

-- `FILES`: datasets and their paths
abbrev pub jsonl : Text → Text × Text
jsonl name = (name, name ++ codes ".jsonl")

unfoldable pub files : List (Text × Text)
files =
    (codes "organization", codes "organization.json")
    ∷ map jsonl (
        codes "memberships"
        ∷ codes "sources"
        ∷ codes "documents"
        ∷ codes "document_revisions"
        ∷ codes "document_chunks"
        ∷ codes "document_assets"
        ∷ codes "entities"
        ∷ codes "entity_mentions"
        ∷ codes "claims"
        ∷ codes "claim_evidence"
        ∷ codes "events"
        ∷ codes "event_evidence"
        ∷ codes "event_clusters"
        ∷ codes "event_cluster_members"
        ∷ codes "investigations"
        ∷ codes "investigation_items"
        ∷ codes "investigation_collaborators"
        ∷ codes "research_sessions"
        ∷ codes "research_turns"
        ∷ codes "security_audit"
        ∷ codes "operation_history"
        ∷ [])

unfoldable pub in_texts : Text → List Text → Bool
in_texts t [] = false
in_texts t (s ∷ texts) = text_eq s t || in_texts t texts

-- `DATASET_BY_PATH`
abbrev pub has_path : Text → Text × Text → Bool
has_path path (name, at) = text_eq at path

abbrev pub has_name : Text → Text × Text → Bool
has_name dataset (name, at) = text_eq name dataset

-- `SHA256_PATTERN`
abbrev pub is_hex : ℕ → Bool
is_hex c = (leb b'0' c && leb c b'9') || (leb b'a' c && leb c b'f')

unfoldable pub all_hex : Text → Bool
all_hex [] = true
all_hex (c ∷ cs) = is_hex c && all_hex cs

unfoldable pub is_checksum : Text → Bool
is_checksum t = length t == 64 && all_hex t

abbrev pub text_of : {E : Type 0} → E → Value → Result E Text
text_of problem (string t) = ok t
text_of problem _ = err problem

-- An integer between 0 and a bound
abbrev pub bounded : {E : Type 0} → ℕ → E → Value → Result E ℕ
bounded bound problem (number n) = if leb n bound then ok n else err problem
bounded bound problem _ = err problem

abbrev pub checksum_of : {E : Type 0} → E → Value → Result E Text
checksum_of problem (string t) = if is_checksum t then ok t else err problem
checksum_of problem _ = err problem

abbrev pub at_path : Text → FileEntry → Bool
at_path path e = text_eq e.path path

-- The body of the loop of `_manifest_entries`
unfoldable pub check_entry : List Text → List FileEntry → RawEntry → Result Problem FileEntry
check_entry asset_paths entries no_object = err entry_invalid
check_entry asset_paths entries (entry raw_path raw_size raw_checksum) = do
  path ← text_of entry_path_invalid raw_path
  raise_if (not (is_some (find (has_path path) files) || in_texts path asset_paths))
      entry_path_invalid
  raise_if (not (safe_path path)) entry_path_invalid
  raise_if (is_some (find (at_path path) entries)) (duplicate_entry path)
  size ← bounded max_member_bytes (entry_size_invalid path) raw_size
  checksum ← checksum_of (entry_checksum_invalid path) raw_checksum
  ok (record { path = path; size_bytes = size; sha256 = checksum })

-- `_uuid`
abbrev pub check_uuid : (Text → Bool) → Value → Result Problem (Unit {0})
check_uuid is_uuid (string t) = raise_if (not (is_uuid t)) asset_ids_invalid
check_uuid is_uuid _ = err asset_ids_invalid

-- The text of an identifier that is one
abbrev pub id_text : Value → Text
id_text (string t) = t
id_text _ = []

abbrev pub check_filename : Text → Value → Result Problem (Unit {0})
check_filename path (string t) = ok tt
check_filename path missing = ok tt
check_filename path _ = err (filename_invalid path)

abbrev pub check_content_type : Text → Value → Result Problem (Unit {0})
check_content_type path (string t) = raise_if (is_empty t) (content_type_invalid path)
check_content_type path _ = err (content_type_invalid path)

-- The body of the loop of `_asset_entries`
unfoldable pub check_asset : (Text → Bool) → List FileEntry → RawAsset → Result Problem FileEntry
check_asset is_uuid entries no_object = err asset_invalid
check_asset is_uuid entries
      (asset asset_id document_id raw_path filename content_type raw_size raw_checksum) =
    do
      check_uuid is_uuid asset_id
      check_uuid is_uuid document_id
      path ← text_of asset_path_invalid raw_path
      raise_if (not (text_eq path (codes "assets/" ++ id_text asset_id))) asset_path_invalid
      raise_if (not (safe_path path)) asset_path_invalid
      raise_if (is_some (find (at_path path) entries)) (duplicate_asset path)
      check_filename path filename
      check_content_type path content_type
      size ← bounded max_member_bytes (asset_size_invalid path) raw_size
      checksum ← checksum_of (asset_checksum_invalid path) raw_checksum
      ok (record { path = path; size_bytes = size; sha256 = checksum })

abbrev pub Found : Type 0
Found = List FileEntry × List Problem

-- A loop that keeps what passes, in order, and lists the problems
unfoldable pub collect {ℓ} :
    {A : Type ℓ} → (List FileEntry → A → Result Problem FileEntry) → List FileEntry → List A → Found
collect check entries [] = (entries, [])
collect check entries (raw ∷ rows) = elim (check entries raw) [
  | ok e ↦ collect check (entries ++ e ∷ []) rows
  | err p ↦ let found = collect check entries rows in (found.0, p ∷ found.1)
]

unfoldable pub manifest_entries : List Text → Listed RawEntry → Found
manifest_entries asset_paths (listed rows) =
    if ltb (length files + max_record_count) (length rows)
    then ([], files_not_bounded ∷ [])
    else collect (check_entry asset_paths) [] rows
manifest_entries asset_paths _ = ([], files_not_bounded ∷ [])

unfoldable pub asset_entries : (Text → Bool) → Listed RawAsset → Found
asset_entries is_uuid absent = ([], [])
asset_entries is_uuid no_list = ([], assets_not_bounded ∷ [])
asset_entries is_uuid (listed rows) =
    if ltb max_record_count (length rows)
    then ([], assets_not_bounded ∷ [])
    else collect (check_asset is_uuid) [] rows

-- The body of the loop of `_check_asset_files`
abbrev pub check_file : FileEntry → Option FileEntry → List Problem
check_file a none = asset_entry_missing a.path ∷ []
check_file a (some file) =
    if a.size_bytes == file.size_bytes && text_eq a.sha256 file.sha256
    then []
    else asset_mismatch a.path ∷ []

unfoldable pub check_asset_files : List FileEntry → List FileEntry → List Problem
check_asset_files [] entries = []
check_asset_files (a ∷ assets) entries =
    check_file a (find (at_path a.path) entries) ++ check_asset_files assets entries

abbrev pub Counts : Type 0
Counts = List (Text × ℕ) × List Problem

-- `_record_counts`: the names of an object are unique
unfoldable pub count_rows : List (Text × Value) → Counts
count_rows [] = ([], [])
count_rows ((name, value) ∷ rows) =
    let (counts, problems) = count_rows rows in
    if is_some (find (has_name name) files)
    then elim (bounded max_record_count count_invalid value) [
      | ok n ↦ ((name, n) ∷ counts, problems)
      | err p ↦ (counts, p ∷ problems)
    ]
    else (counts, count_invalid ∷ problems)

unfoldable pub record_counts_of : Listed (Text × Value) → Counts
record_counts_of (listed rows) = count_rows rows
record_counts_of _ = ([], counts_not_object ∷ [])

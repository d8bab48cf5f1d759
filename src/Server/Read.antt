-- ===== src/Server/Read.antt =====
-- src/server/mod.rs: handle_get_blob, handle_head_blob and handle_list, which read the state; a read
-- of a blob counts an access.
use blossom_rs.Prelude.{
  ℕ, ◌==◌, nat_key, list_key, Bool, Option, none, some, List, [], ◌∷◌, ◌++◌, length, take, drop,
  map, leb, ltb, ◌&&◌, ◌||◌, if◌then◌else◌, Text, bytes_of, is_ascii_digit,
}
use blossom_rs.Access.{all}
use blossom_rs.Db.{UploadRecord, MemoryDatabase, Result, get_upload, list_uploads_by_pubkey}
use blossom_rs.Lfs.{LfsFileVersion, MemoryLfsVersionDatabase, get_by_sha256}
use blossom_rs.Stats
use blossom_rs.Stats.{StatsAccumulator}
use blossom_rs.Server.{State, get_blob}
use blossom_rs.Server.Encode.{Crates, decoded_as}
use blossom_rs.Server.Store.{StatusCode, status_ok, bad_request, not_found, internal_server_error}

-- 64 lowercase hex digits.
unfoldable pub is_valid_sha256 : Text → Bool
is_valid_sha256 s = length s == 64 && all (λ c. is_ascii_digit c || (leb b'a' c && leb c b'f')) s

-- What stands before the first dot.
unfoldable pub stem : Text → Text
stem [] = []
stem (c ∷ s) = let rest = stem s in if c == b'.' then [] else c ∷ rest

abbrev pub octet_stream : Text
octet_stream = bytes_of "application/octet-stream"

abbrev magic : ℕ → ℕ → ℕ → ℕ → Text → Text
magic a b c d rest =
    let all4 = a ∷ b ∷ c ∷ d ∷ [] in
    if all4 == 137 ∷ b'P' ∷ b'N' ∷ b'G' ∷ []
    then bytes_of "image/png"
    else if a == 255 && b == 216 && c == 255
    then bytes_of "image/jpeg"
    else if all4 == bytes_of "GIF8"
    then bytes_of "image/gif"
    else if all4 == bytes_of "RIFF"
        && ltb 8 (length rest)
        && take 4 (drop 4 rest) == bytes_of "WEBP"
    then bytes_of "image/webp"
    else if all4 == bytes_of "%PDF"
    then bytes_of "application/pdf"
    else if all4 == b'P' ∷ b'K' ∷ 3 ∷ 4 ∷ []
    then bytes_of "application/zip"
    else if a == 31 && b == 139
    then bytes_of "application/gzip"
    else if ltb 4 (length rest) && take 4 rest == bytes_of "ftyp"
    then bytes_of "video/mp4"
    else octet_stream

unfoldable pub detect_mime : Text → Text
detect_mime (a ∷ b ∷ c ∷ d ∷ rest) = magic a b c d rest
detect_mime [] = octet_stream
detect_mime (a ∷ []) = octet_stream
detect_mime (a ∷ b ∷ []) = octet_stream
detect_mime (a ∷ b ∷ c ∷ []) = octet_stream

abbrev detected : Option Text → Text
detected none = octet_stream
detected (some bytes) = detect_mime bytes

abbrev recorded_or_detected : Result UploadRecord → Option Text → Text
recorded_or_detected (Result.err e) bytes = detected bytes
recorded_or_detected (Result.ok r) bytes =
    if r.mime_type == [] || r.mime_type == octet_stream then detected bytes else r.mime_type

unfoldable pub stored_content_type : MemoryDatabase → Text → Option Text → Text
unfolding get_upload detect_mime
stored_content_type db sha256 bytes = recorded_or_detected (get_upload db sha256) bytes

module _ (crates : Crates) where
  abbrev pub decoded_for : MemoryLfsVersionDatabase → State → Option LfsFileVersion → Text → Text
  decoded_for db s none stored = stored
  decoded_for db s (some v) stored = decoded_as crates v.storage db s.backend.blobs v stored

  -- The bytes that a read serves of what is stored.
  abbrev pub served : State → Option MemoryLfsVersionDatabase → Text → Text → Text
  served s none sha256 stored = stored
  served s (some db) sha256 stored = decoded_for db s (get_by_sha256 db sha256) stored

  pub record BlobResponse : Type 0 where
    pub status : StatusCode
    pub content_type : Text
    pub body : Text

  abbrev refused : StatusCode → BlobResponse
  refused status = record { status = status; content_type = []; body = [] }

  abbrev found : State → StatsAccumulator → Text → ℕ → Option Text → StatsAccumulator × BlobResponse
  found s stats sha256 now none = (stats, refused not_found)
  found s stats sha256 now (some stored) =
      let bytes = served s s.lfs_version_db sha256 stored in
      (
        Stats.record_access stats sha256 (length bytes) now,
        record {
          status = status_ok;
          content_type = stored_content_type s.database sha256 (some bytes);
          body = bytes;
        },
      )

  unfoldable pub handle_get_blob :
      State → StatsAccumulator → Text → ℕ → StatsAccumulator × BlobResponse
  unfolding get_blob stem is_valid_sha256 stored_content_type Stats.record_access
  handle_get_blob s stats path now =
      let sha256 = stem path in
      if is_valid_sha256 sha256
      then found s stats sha256 now (get_blob s.backend sha256)
      else (stats, refused bad_request)

abbrev size_of : Option LfsFileVersion → Text → ℕ
size_of none stored = length stored
size_of (some v) stored = v.original_size

abbrev content_length : Option MemoryLfsVersionDatabase → Text → Text → ℕ
content_length none sha256 stored = length stored
content_length (some db) sha256 stored = size_of (get_by_sha256 db sha256) stored

abbrev head_of : State → Text → Option Text → StatusCode × ℕ × Text
head_of s sha256 none = (not_found, 0, [])
head_of s sha256 (some stored) = (
  status_ok,
  content_length s.lfs_version_db sha256 stored,
  stored_content_type s.database sha256 none,
)

-- The status, the length and the type of the content.
unfoldable pub handle_head_blob : State → Text → StatusCode × ℕ × Text
unfolding get_blob stem is_valid_sha256 stored_content_type
handle_head_blob s path =
    let sha256 = stem path in
    if is_valid_sha256 sha256
    then head_of s sha256 (get_blob s.backend sha256)
    else (bad_request, 0, [])

pub record BlobDescriptor : Type 0 where
  pub sha256 : Text
  pub size : ℕ
  pub content_type : Option Text
  pub url : Option Text
  pub uploaded : Option ℕ

abbrev pub descriptor_of : Text → UploadRecord → BlobDescriptor
descriptor_of base_url r = record {
  sha256 = r.sha256;
  size = r.size;
  content_type = some r.mime_type;
  url = some (base_url ++ b'/' ∷ r.sha256);
  uploaded = some r.created_at;
}

abbrev listed : Text → Result (List UploadRecord) → StatusCode × List BlobDescriptor
listed base_url (Result.err e) = (internal_server_error, [])
listed base_url (Result.ok records) = (status_ok, map (descriptor_of base_url) records)

pub handle_list : State → Text → Text → StatusCode × List BlobDescriptor
handle_list s base_url pubkey = listed base_url (list_uploads_by_pubkey s.database pubkey)

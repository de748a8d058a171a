-- ===== src/Update/Download.antt =====
-- downloadUpdate of internal/update/checker.go: which download is accepted. The network, SHA-256,
-- Ed25519 and hexadecimal are parameters.
use wireguide_plus.Common.{
  ℕ, zero, suc, ◌+◌, ◌/◌, List, [], ◌∷◌, Option, none, some, Bool, true, false, not, ◌==◌, ltb, leb,
  is_empty, length, if◌then◌else◌,
}
use wireguide_plus.Common.Text.{Text}
use wireguide_plus.Update.Checksums.{parse_expected_hash}

-- The fields of an UpdateInfo that a download reads; a negative size is 0.
pub record Asset : Type 0 where
  pub download_url : Text
  pub asset_name : Text
  pub asset_size : ℕ
  pub checksum_url : Text
  pub expected_hash : Text

-- An answer to a GET; a content length that is not positive is unknown.
pub record Reply : Type 0 where
  pub status : ℕ
  pub content_length : Option ℕ
  pub body : List ℕ
  -- Whether the body is read without an error.
  pub is_read : Bool

pub data DownloadError : Type 0 where
  no_url invalid_size refused_url unreachable bad_status bad_length no_temp_file read_failed
        too_small wrong_size bad_signature not_listed unsigned no_checksum wrong_hash :
      DownloadError

-- An accepted download: its bytes, and whether a signature was checked.
pub data Downloaded : Type 0 where
  accepted : List ℕ → Bool → Downloaded
  rejected : DownloadError → Downloaded

abbrev pub min_asset_size : ℕ
min_asset_size = 1048576

-- io.LimitReader
unfoldable pub limit : ℕ → List ℕ → List ℕ
limit zero bs = []
limit (suc n) [] = []
limit (suc n) (b ∷ bs) = b ∷ limit n bs

abbrev pub max_size : ℕ → ℕ
max_size size = if ltb (size + size / 10) 104857600 then 104857600 else size + size / 10

abbrev pub fits : ℕ → Option ℕ → Bool
fits size none = true
fits size (some n) = n == size

-- Goes on if a condition holds.
unfoldable pub need : Bool → DownloadError → Downloaded → Downloaded
need true e r = r
need false e r = rejected e

-- What the check of a download uses of the network and of cryptography.
pub record Services : Type 0 where
  pub equal_fold : Text → Text → Bool
  pub bsd_line : Text → Option (Text × Text)
  -- checkUpdateRawURL and resolveAssetURL
  pub allows : Text → Bool
  pub resolve : Text → Text
  pub get : Text → Option Reply
  pub creates_file : Bool
  -- hex.EncodeToString of the SHA-256 sum, hex.DecodeString, and ed25519.Verify
  pub sha256 : List ℕ → Text
  -- The characters of bytes that are read as text
  pub text : List ℕ → Text
  pub decode_hex : Text → Option (List ℕ)
  pub verify : List ℕ → Text → List ℕ → Bool
  -- url.Parse with .sig behind the path
  pub sig_url : Text → Option Text
  -- activePublicKey, and the build tag for signed updates
  pub public_key : Text
  pub require_signed_updates : Bool

module _ (w : Services) where
  abbrev pub small_body : Option Reply → Option (List ℕ)
  small_body none = none
  small_body (some r) =
      if not (r.status == 200)
      then none
      else if r.is_read
      then some (limit 1048576 r.body)
      else none

  -- fetchSmall
  unfoldable pub fetch_small : Text → Option (List ℕ)
  unfolding limit
  fetch_small url = if not (w.allows url) then none else small_body (w.get url)

  -- verifyEd25519, which takes a key of 32 bytes and a signature of 64.
  unfoldable pub verify_ed25519 : List ℕ → List ℕ → List ℕ → Bool
  verify_ed25519 content sig key =
      if not (length key == 32)
      then false
      else if not (length sig == 64)
      then false
      else w.verify key content sig

  abbrev pub checked_sums : Option (List ℕ) → Option (List ℕ) → List ℕ → Option (List ℕ)
  checked_sums (some sums) (some sig) key = if verify_ed25519 sums sig key then some sums else none
  checked_sums _ _ key = none

  abbrev pub fetch_if : Option Text → Option (List ℕ)
  fetch_if none = none
  fetch_if (some url) = fetch_small url

  abbrev pub sums_for_key : Text → Option (List ℕ) → Option (List ℕ)
  sums_for_key url none = none
  sums_for_key url (some key) =
      if not (length key == 32)
      then none
      else checked_sums (fetch_small url) (fetch_if (w.sig_url url)) key

  -- verifyChecksumSignature: the bytes of SHA256SUMS, if their signature is that of the key.
  unfoldable pub verify_checksum_signature : Text → Option (List ℕ)
  unfolding fetch_small verify_ed25519
  verify_checksum_signature url =
      if is_empty w.public_key
      then none
      else if is_empty url
      then none
      else sums_for_key url (w.decode_hex w.public_key)

  unfoldable pub compare_hash : Text → Bool → List ℕ → Downloaded
  unfolding need
  compare_hash expected signed bytes = need (not (is_empty expected)) DownloadError.no_checksum (
      need (w.equal_fold (w.sha256 bytes) expected) DownloadError.wrong_hash
        (accepted bytes signed))

  abbrev pub signed_hash : Asset → List ℕ → Option (List ℕ) → Downloaded
  signed_hash a bytes none = rejected DownloadError.bad_signature
  signed_hash a bytes (some sums) =
      let hash = parse_expected_hash w.equal_fold w.bsd_line (w.text sums) a.asset_name in
      need (not (is_empty hash)) DownloadError.not_listed (compare_hash hash true bytes)

  -- From the expected hash to the comparison.
  unfoldable pub authenticate : Asset → List ℕ → Downloaded
  unfolding compare_hash verify_checksum_signature need
  authenticate a bytes =
      if not (is_empty w.public_key)
      then signed_hash a bytes (verify_checksum_signature (w.resolve a.checksum_url))
      else if w.require_signed_updates
      then rejected DownloadError.unsigned
      else compare_hash a.expected_hash false bytes

  -- What becomes of the answer.
  unfoldable pub receive : Asset → Option Reply → Downloaded
  unfolding need limit authenticate
  receive a none = rejected DownloadError.unreachable
  receive a (some r) =
      let bytes = limit (max_size a.asset_size) r.body in
      need (r.status == 200) DownloadError.bad_status (
        need (fits a.asset_size r.content_length) DownloadError.bad_length (
          need w.creates_file DownloadError.no_temp_file (
            need r.is_read DownloadError.read_failed (
              need (leb min_asset_size (length bytes)) DownloadError.too_small (
                need (length bytes == a.asset_size) DownloadError.wrong_size
                  (authenticate a bytes))))))

  -- downloadUpdate
  unfoldable pub download_update : Asset → Downloaded
  unfolding need receive
  download_update a = need (not (is_empty a.download_url)) DownloadError.no_url (
      need (not (a.asset_size == 0)) DownloadError.invalid_size (
        need (w.allows (w.resolve a.download_url)) DownloadError.refused_url
          (receive a (w.get (w.resolve a.download_url)))))

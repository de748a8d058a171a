-- ===== src/Tests/Updates.antt =====
-- Tests of the updater (internal/update), and each law at a concrete input.
use wireguide_plus.Common.{
  ℕ, inl, ◌≡◌, ◌↔◌, ◌≤◌, refl, List, [], ◌∷◌, Option, some, none, true, false, any, str_eq, arith,
  if◌then◌else◌, length, suc, zero, ◌++◌,
}
use wireguide_plus.Common.Int.{ℤ}
use wireguide_plus.Common.Text.{Text, codes, text_eq, atoi, trim}
use wireguide_plus.Update.Version.{split, parse_parts, is_newer_version}
use wireguide_plus.Update.VersionOrder.{Exceeds, newer_version_iff}
use wireguide_plus.Update.Scheduler.{Response, Feed, new_scheduler}
use wireguide_plus.Update.Persistence.{Program, fresh, Event, step, run}
use wireguide_plus.Update.Announced.{dismissed_is_silent}
use wireguide_plus.Update.Unchanged.{unchanged_feed_is_silent}
use wireguide_plus.Update.Checksums.{parse_expected_hash}
use wireguide_plus.Update.Download.{
  Asset, Reply, accepted, Services, authenticate, limit, download_update,
}
use wireguide_plus.Update.Accepted.{Authentic, accepted-Authentic, authentic_accepted}
use wireguide_plus.Common.{String}

newer_version_iff_example : (is_newer_version (codes "1.10.0") (codes "1.9-rc1") ≡ true) ↔ (
    (a : List ℤ) × (b : List ℤ) × (parse_parts (codes "1.10.0") ≡ some a)
    × (parse_parts (codes "1.9-rc1") ≡ some b)
    × Exceeds a b)
newer_version_iff_example = newer_version_iff (codes "1.10.0") (codes "1.9-rc1")

ten_after_nine : is_newer_version (codes "1.10.0") (codes "1.9-rc1") ≡ true
unfolding is_newer_version atoi
ten_after_nine = refl

longer_is_newer : is_newer_version (codes "1.9.0") (codes "1.9") ≡ true
unfolding is_newer_version atoi
longer_is_newer = refl

-- A feed with a release of this tag, which answers 304 to who has the tag.
abbrev feed_of : String → String → Feed
feed_of tag version etag modified =
    if str_eq etag tag
    then Response.not_modified tag ""
    else Response.answered tag "" (some (record { available = true; version = version }))

abbrev new_program : Program
new_program = record { scheduler = new_scheduler fresh; disk = none }

-- A feed that takes a release back and gives it again: it is announced twice in one session.
announced_twice :
    (run
      (Event.checked 30 (feed_of "e1" "2.0.0") true
        ∷ Event.checked 20 (feed_of "e2" "1.9.0") true
        ∷ Event.checked 10 (feed_of "e1" "2.0.0") true
        ∷ [])
      new_program).1
    ≡ "2.0.0" ∷ "1.9.0" ∷ "2.0.0" ∷ []
unfolding run
announced_twice = refl

-- A check, a new start, and another check.
abbrev around_restart : List Event
around_restart =
    Event.checked 20 (feed_of "e1" "2.0.0") false
    ∷ Event.restarted true
    ∷ Event.checked 10 (feed_of "e1" "2.0.0") true
    ∷ []

dismissed_is_silent_example :
    any (str_eq "2.0.0") (run around_restart (step (Event.dismissed "2.0.0" true) new_program).0).1
    ≡ false
dismissed_is_silent_example = dismissed_is_silent "2.0.0" around_restart new_program refl refl

-- A dismissal that could not be saved is lost at the next start.
unsaved_is_lost :
    any
      (str_eq "2.0.0")
      (run
        (Event.checked 20 (feed_of "e1" "2.0.0") true ∷ Event.restarted true ∷ [])
        (step (Event.dismissed "2.0.0" false) new_program).0).1
    ≡ true
unfolding run
unsaved_is_lost = refl

-- The release was announced before the program was started again; the feed has not changed since.
unchanged_feed_is_silent_example :
    (run
      (Event.checked 20 (feed_of "e1" "2.0.0") true ∷ Event.restarted true ∷ [])
      (step (Event.checked 10 (feed_of "e1" "2.0.0") true) new_program).0).1
    ≡ []
unchanged_feed_is_silent_example =
    unchanged_feed_is_silent "e1" "" (record { available = true; version = "2.0.0" }) 10
      (feed_of "e1" "2.0.0")
      (Event.checked 20 (feed_of "e1" "2.0.0") true ∷ Event.restarted true ∷ []) new_program refl
      refl (λ modified. inl refl, (refl, tt))

-- A file of zero bytes.
zeros : ℕ → List ℕ
zeros zero = []
zeros (suc n) = 0 ∷ zeros n

length-zeros : (n : ℕ) → length (zeros n) ≡ n
unfolding zeros
length-zeros zero = refl
length-zeros (suc n) = omega (arith, length-zeros n)

abbrev key : List ℕ
key =
    1 ∷ 2 ∷ 3 ∷ 4 ∷ 5 ∷ 6 ∷ 7 ∷ 8 ∷ 1 ∷ 2 ∷ 3 ∷ 4 ∷ 5 ∷ 6 ∷ 7 ∷ 8 ∷ 1 ∷ 2 ∷ 3 ∷ 4 ∷ 5 ∷ 6 ∷ 7 ∷ 8
    ∷ 1 ∷ 2 ∷ 3 ∷ 4 ∷ 5 ∷ 6 ∷ 7 ∷ 8 ∷ []

abbrev sums : Text
sums = codes "# sums" ++ (10 ∷ codes "00ff  other.zip" ++ (10 ∷ codes "abcd *app.zip"))

abbrev binary : Reply
binary = record { status = 200; content_length = none; body = zeros 1048576; is_read = true }

abbrev get : Text → Option Reply
get url =
    if text_eq url (codes "app.zip")
    then some binary
    else if text_eq url (codes "SHA256SUMS")
    then some (record { status = 200; content_length = none; body = sums; is_read = true })
    else some (record { status = 200; content_length = none; body = key ++ key; is_read = true })

abbrev services : Services
services = record {
  equal_fold = text_eq;
  bsd_line = λ s. none;
  allows = λ u. true;
  resolve = λ u. u;
  get = get;
  creates_file = true;
  sha256 = λ b. codes "abcd";
  text = λ b. b;
  decode_hex = λ k. some key;
  verify = λ k content sig. text_eq sig (key ++ key);
  sig_url = λ u. some (codes "SHA256SUMS.sig");
  public_key = codes "01";
  require_signed_updates = true;
}

abbrev app : Asset
app = record {
  download_url = codes "app.zip";
  asset_name = codes "app.zip";
  asset_size = 1048576;
  checksum_url = codes "SHA256SUMS";
  expected_hash = [];
}

app_is_authentic : authenticate services app (zeros 1048576) ≡ accepted (zeros 1048576) true
unfolding authenticate parse_expected_hash trim limit split
app_is_authentic = refl

app_is_accepted : download_update services app ≡ accepted (zeros 1048576) true
app_is_accepted =
    authentic_accepted services app binary true refl refl refl refl refl refl refl
      (length-zeros 1048576) (omega (arith, length-zeros 1048576)) app_is_authentic

accepted-Authentic_example :
    (r : Reply) × (some binary ≡ some r)
    × (r.body ≡ zeros 1048576)
    × (length (zeros 1048576) ≡ 1048576)
    × (1048576 ≤ length (zeros 1048576))
    × Authentic services app (zeros 1048576) true
accepted-Authentic_example = accepted-Authentic services app (zeros 1048576) true app_is_accepted

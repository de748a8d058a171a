-- ===== src/Update/Accepted.antt =====
-- What downloadUpdate of internal/update/checker.go accepts.
use mathlib.Core.Path.{subst}
use wireguide_plus.Common.{
  ℕ, zero, suc, ◌≤◌, ◌<◌, ◌≡◌, refl, sym, ap, ◌∙◌, List, [], ◌∷◌, Option, none, some, Bool, true,
  false, ◌||◌, not, ◌==◌, ==_iff, leb, leb→le, is_empty, length, if◌then◌else◌, Bool-cases, inl,
  inr, arith,
}
use wireguide_plus.Common.Text.{Text}
use wireguide_plus.Update.Checksums.{parse_expected_hash}
use wireguide_plus.Update.Download.{
  Asset, Reply, DownloadError, Downloaded, accepted, max_size, limit, fits, need, Services,
  verify_ed25519, checked_sums, sums_for_key, fetch_small, fetch_if, verify_checksum_signature,
  compare_hash, signed_hash, authenticate, receive, download_update,
}
use wireguide_plus.Common.{le→leb}

need-accepted :
    (b : Bool) (e : DownloadError) (r : Downloaded) (bytes : List ℕ) (s : Bool)
    → need b e r ≡ accepted bytes s
    → (b ≡ true) × (r ≡ accepted bytes s)
unfolding need
need-accepted true e r bytes s h = (refl, h)
need-accepted false e r bytes s h = cc

-- The body was not cut.
limit-whole : (n : ℕ) (bs : List ℕ) → length (limit n bs) < n → limit n bs ≡ bs
unfolding limit
limit-whole zero bs h = ground (arith, h)
limit-whole (suc n) [] h = refl
limit-whole (suc n) (b ∷ bs) h = ap (λ xs. b ∷ xs) (limit-whole n bs (omega (arith, h)))

-- Why bytes are authentic: a SHA256SUMS that the embedded key signs gives the asset their hash, or, in a
-- build without a key that does not insist on signatures, the hash of the check is theirs.
pub data Authentic (w : Services) (a : Asset) (bytes : List ℕ) : Bool → Type 0 where
  by_key :
      (key sums sig : List ℕ)
      → w.decode_hex w.public_key ≡ some key
      → w.verify key sums sig ≡ true
      → w.equal_fold
          (w.sha256 bytes)
          (parse_expected_hash w.equal_fold w.bsd_line (w.text sums) a.asset_name)
        ≡ true
      → Authentic w a bytes true
  by_hash :
      is_empty w.public_key ≡ true
      → w.require_signed_updates ≡ false
      → is_empty a.expected_hash ≡ false
      → w.equal_fold (w.sha256 bytes) a.expected_hash ≡ true
      → Authentic w a bytes false

accepted-inj : {bs cs : List ℕ} {s t : Bool} → accepted bs s ≡ accepted cs t → (bs ≡ cs) × (s ≡ t)
accepted-inj h = (cc, cc)

if-some : (b : Bool) (x y : List ℕ) → (if b then some x else none) ≡ some y → (b ≡ true) × (x ≡ y)
if-some true x y h = (refl, cc)
if-some false x y h = cc

module _ (w : Services) (a : Asset) where
  compared :
      (expected : Text) (signed : Bool) (bs cs : List ℕ) (s : Bool)
      → compare_hash w expected signed bs ≡ accepted cs s
      → (is_empty expected ≡ false)
        × (w.equal_fold (w.sha256 bs) expected ≡ true)
        × (bs ≡ cs)
        × (signed ≡ s)
  unfolding compare_hash
  compared expected signed bs cs s h =
      let p = need-accepted (not (is_empty expected)) _ _ cs s h in
      let q = need-accepted (w.equal_fold (w.sha256 bs) expected) _ _ cs s p.1 in
      let r = accepted-inj q.1 in (ground (arith, p.0), q.0, r.0, r.1)

  is-verified :
      (content sig key : List ℕ)
      → verify_ed25519 w content sig key ≡ true
      → w.verify key content sig ≡ true
  unfolding verify_ed25519
  is-verified content sig key h = ground (arith, h)

  verified :
      (sums sig : Option (List ℕ)) (key out : List ℕ)
      → checked_sums w sums sig key ≡ some out
      → (s : List ℕ) × (w.verify key out s ≡ true)
  verified none sig key out h = cc
  verified (some sums) none key out h = cc
  verified (some sums) (some sig) key out h =
      let p = if-some (verify_ed25519 w sums sig key) sums out h in
      (sig, ap (λ t. w.verify key t sig) (sym p.1) ∙ is-verified sums sig key p.0)

  sums-verified :
      (url : Text) (key : Option (List ℕ)) (out : List ℕ)
      → sums_for_key w url key ≡ some out
      → (k : List ℕ) × (s : List ℕ) × (key ≡ some k) × (w.verify k out s ≡ true)
  sums-verified url none out h = cc
  sums-verified url (some k) out h = elim (Bool-cases (not (length k == 32))) [
    | inl e ↦ ground (arith, h, e)
    | inr e ↦
        let p =
          verified (fetch_small w url) (fetch_if w (w.sig_url url)) k out (ground (arith, h, e)) in
        (k, p.0, refl, p.1)
  ]

  signature-verified :
      (url : Text) (out : List ℕ)
      → verify_checksum_signature w url ≡ some out
      → (k : List ℕ) × (s : List ℕ) × (w.decode_hex w.public_key ≡ some k)
        × (w.verify k out s ≡ true)
  unfolding verify_checksum_signature
  signature-verified url out h = elim (Bool-cases (is_empty w.public_key || is_empty url)) [
    | inl e ↦ ground (arith, h, e)
    | inr e ↦ sums-verified url (w.decode_hex w.public_key) out (ground (arith, h, e))
  ]

  hash-signed :
      (bs cs : List ℕ) (s : Bool) (o : Option (List ℕ))
      → verify_checksum_signature w (w.resolve a.checksum_url) ≡ o
      → signed_hash w a bs o ≡ accepted cs s
      → (bs ≡ cs) × Authentic w a cs s
  hash-signed bs cs s none e h = cc
  hash-signed bs cs s (some sums) e h =
      let hash = parse_expected_hash w.equal_fold w.bsd_line (w.text sums) a.asset_name in
      let p = need-accepted (not (is_empty hash)) _ _ cs s h in
      let q = compared hash true bs cs s p.1 in
      let v = signature-verified (w.resolve a.checksum_url) sums e in
      (
        q.2,
        subst (Authentic w a cs) q.3 (
            by_key v.0 sums v.1 v.2 v.3 (ap (λ t. w.equal_fold (w.sha256 t) hash) (sym q.2) ∙ q.1)),
      )

  authenticate-Authentic :
      (bs cs : List ℕ) (s : Bool)
      → authenticate w a bs ≡ accepted cs s
      → (bs ≡ cs) × Authentic w a cs s
  unfolding authenticate
  authenticate-Authentic bs cs s h = elim (Bool-cases (is_empty w.public_key)) [
    | inl e ↦ elim (Bool-cases w.require_signed_updates) [
      | inl r ↦ ground (arith, h, e, r)
      | inr r ↦
          let q = compared a.expected_hash false bs cs s (ground (arith, h, e, r)) in
          (
            q.2,
            subst (Authentic w a cs) q.3 (
                by_hash e r q.0
                  (ap (λ t. w.equal_fold (w.sha256 t) a.expected_hash) (sym q.2) ∙ q.1)),
          )
    ]
    | inr e ↦
        hash-signed bs cs s (verify_checksum_signature w (w.resolve a.checksum_url)) refl
          (ground (arith, h, e))
  ]

  max_size-gt : (n : ℕ) → 1048576 ≤ n → n < max_size n
  max_size-gt n h = ground (arith, h)

  received :
      (o : Option Reply) (cs : List ℕ) (s : Bool)
      → receive w a o ≡ accepted cs s
      → (r : Reply) × (o ≡ some r)
        × (r.body ≡ cs)
        × (length cs ≡ a.asset_size)
        × (1048576 ≤ length cs)
        × Authentic w a cs s
  unfolding receive
  received none cs s h = cc
  received (some r) cs s h =
      let bs = limit (max_size a.asset_size) r.body in
      let p = need-accepted (r.status == 200) _ _ cs s h in
      let q = need-accepted (fits a.asset_size r.content_length) _ _ cs s p.1 in
      let f = need-accepted w.creates_file _ _ cs s q.1 in
      let i = need-accepted r.is_read _ _ cs s f.1 in
      let m = need-accepted (leb 1048576 (length bs)) _ _ cs s i.1 in
      let z = need-accepted (length bs == a.asset_size) _ _ cs s m.1 in
      let t = authenticate-Authentic bs cs s z.1 in
      let n = (==_iff (length bs) a.asset_size).0 z.0 in
      let g = leb→le 1048576 (length bs) m.0 in
      let whole =
        limit-whole (max_size a.asset_size) r.body
          (omega (arith, n, g, max_size-gt a.asset_size (omega (arith, n, g)))) in
      (r, refl, sym whole ∙ t.0, ap length (sym t.0) ∙ n, omega (arith, g, ap length t.0), t.1)

-- A download is accepted only if it is the whole body that the server sent, it has the size that the
-- release names, at least 1 MiB, and it is authentic: an embedded key signs the SHA256SUMS that gives its
-- hash, or there is no key, the build does not insist on one, and the hash of the check is its hash.
pub accepted-Authentic :
    (w : Services) (a : Asset) (bytes : List ℕ) (s : Bool)
    → download_update w a ≡ accepted bytes s
    → (r : Reply) × (w.get (w.resolve a.download_url) ≡ some r)
      × (r.body ≡ bytes)
      × (length bytes ≡ a.asset_size)
      × (1048576 ≤ length bytes)
      × Authentic w a bytes s
unfolding download_update
accepted-Authentic w a bytes s h =
    let p = need-accepted (not (is_empty a.download_url)) _ _ bytes s h in
    let q = need-accepted (not (a.asset_size == 0)) _ _ bytes s p.1 in
    let t = need-accepted (w.allows (w.resolve a.download_url)) _ _ bytes s q.1 in
    received w a (w.get (w.resolve a.download_url)) bytes s t.1

limit-all : (n : ℕ) (bs : List ℕ) → length bs ≤ n → limit n bs ≡ bs
unfolding limit
limit-all zero [] h = refl
limit-all zero (b ∷ bs) h = ground (arith, h)
limit-all (suc n) [] h = refl
limit-all (suc n) (b ∷ bs) h = ap (λ xs. b ∷ xs) (limit-all n bs (omega (arith, h)))

not_empty : (n : ℕ) → 1048576 ≤ n → (n == 0) ≡ false
not_empty n h = ground (arith, h)

-- A download is accepted if the server sends a body of the size that the release names, at least 1 MiB,
-- that authenticates.
pub authentic_accepted :
    (w : Services) (a : Asset) (r : Reply) (s : Bool)
    → is_empty a.download_url ≡ false
    → w.allows (w.resolve a.download_url) ≡ true
    → w.get (w.resolve a.download_url) ≡ some r
    → (r.status == 200) ≡ true
    → fits a.asset_size r.content_length ≡ true
    → w.creates_file ≡ true
    → r.is_read ≡ true
    → length r.body ≡ a.asset_size
    → 1048576 ≤ length r.body
    → authenticate w a r.body ≡ accepted r.body s
    → download_update w a ≡ accepted r.body s
unfolding download_update receive need
authentic_accepted w a r s url allowed got status fit file read size large h =
    let n : 1048576 ≤ a.asset_size = omega (arith, size, large) in
    let z : (a.asset_size == 0) ≡ false = not_empty a.asset_size n in
    let whole : limit (max_size a.asset_size) r.body ≡ r.body =
      limit-all (max_size a.asset_size) r.body
        (omega (arith, size, max_size-gt w a a.asset_size n)) in
    let big : leb 1048576 (length r.body) ≡ true = le→leb 1048576 (length r.body) large in
    let same : (length r.body == a.asset_size) ≡ true =
      (==_iff (length r.body) a.asset_size).1 size in
    rw (url, z, allowed, got, status, fit, file, read, whole, big, same) h

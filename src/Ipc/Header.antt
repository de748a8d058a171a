-- ===== src/Ipc/Header.antt =====
-- What internal/ipc/framing.go reads as one frame.
use mathlib.Core.Path.{ap₂}
use wireguide_plus.Common.{
  inl, inr, Bool-cases, ℕ, zero, suc, ◌/◌, ◌%◌, ◌≤◌, ◌<◌, ◌≡◌, ◌↔◌, refl, ap, ◌∙◌, sym, [], ◌∷◌,
  ◌++◌, length, arith, All, ltb,
}
use wireguide_plus.Ipc.Frame.{
  Bytes, max_frame_size, put_uint32, uint32, ok, copied, short, copy_more, copy_n, read_body,
  read_length, read_frame_raw, frame,
}
use wireguide_plus.Common.{Bool-cases}
use wireguide_plus.Common.{inl}
use wireguide_plus.Common.{inr}
use wireguide_plus.Common.{ltb→lt}

pub uint32-put :
    (n : ℕ)
    → n ≤ max_frame_size
    → uint32 (n / 16777216 % 256) (n / 65536 % 256) (n / 256 % 256) (n % 256) ≡ n
unfolding uint32
uint32-put n h = omega arith

put-uint32 :
    (a b c d : ℕ)
    → a < 256
    → b < 256
    → c < 256
    → d < 256
    → put_uint32 (uint32 a b c d) ≡ a ∷ b ∷ c ∷ d ∷ []
unfolding put_uint32 uint32
put-uint32 a b c d ha hb hc hd = ap₂ ◌∷◌ (omega (arith, ha, hb, hc, hd)) (
    ap₂ ◌∷◌ (omega (arith, ha, hb, hc, hd))
      (ap₂ ◌∷◌ (omega (arith, ha, hb, hc, hd)) (ap₂ ◌∷◌ (omega (arith, ha, hb, hc, hd)) refl)))

pub copy_n-append : (bs rest : Bytes) → copy_n (length bs) (bs ++ rest) ≡ copied bs rest
unfolding copy_n
copy_n-append [] rest = refl
copy_n-append (b ∷ bs) rest = ap (copy_more b) (copy_n-append bs rest)

pub copy_n-few : (n : ℕ) (s : Bytes) → length s < n → copy_n n s ≡ short (length s)
unfolding copy_n
copy_n-few zero s h = ground arith
copy_n-few (suc n) [] h = refl
copy_n-few (suc n) (b ∷ s) h = ap (copy_more b) (copy_n-few n s (omega (arith, h)))

-- What `copy_n` finds where enough bytes come.
record Parts (n : ℕ) (s : Bytes) : Type 0 where
  first : Bytes
  rest : Bytes
  whole : s ≡ first ++ rest
  long : length first ≡ n
  copies : copy_n n s ≡ copied first rest

parts : (n : ℕ) (s : Bytes) → n ≤ length s → Parts n s
unfolding copy_n
parts zero s h = record { first = []; rest = s; whole = refl; long = refl; copies = refl }
parts (suc n) [] h = ground arith
parts (suc n) (b ∷ s) h =
    let p = parts n s (omega (arith, h)) in
    record {
      first = b ∷ p.first;
      rest = p.rest;
      whole = ap (λ t. b ∷ t) p.whole;
      long = ap suc p.long;
      copies = ap (copy_more b) p.copies;
    }

-- What a body is within.
abbrev pub IsBody : Bytes → Type 0
IsBody body = (1 ≤ length body) × (length body ≤ max_frame_size)

Split : ℕ → Bytes → Bytes → Bytes → Type 0
Split len s body rest = (s ≡ body ++ rest) × (length body ≡ len)

Parts-Split :
    (len : ℕ) (s body rest : Bytes)
    → Parts len s
    → read_body len (copy_n len s) ≡ ok body rest
    → Split len s body rest
unfolding read_body Split
Parts-Split len s body rest p h = grind (arith, p.copies, p.whole, p.long, h)

read_body-Split :
    (len : ℕ) (s body rest : Bytes)
    → read_body len (copy_n len s) ≡ ok body rest
    → Split len s body rest
unfolding read_body
read_body-Split len s body rest h = elim (Bool-cases (ltb (length s) len)) [
  | inl e ↦ ground (arith, copy_n-few len s (ltb→lt (length s) len e))
  | inr e ↦ Parts-Split len s body rest (parts len s (ground arith)) h
]

read_length-ok :
    (body rest : Bytes) → IsBody body → read_length (length body) (body ++ rest) ≡ ok body rest
unfolding read_length read_body
read_length-ok body rest h = rw (copy_n-append body rest) (ground (arith, h.0, h.1))

read_length-lem :
    (len : ℕ) (s body rest : Bytes)
    → read_length len s ≡ ok body rest
    → Split len s body rest × (1 ≤ len) × (len ≤ max_frame_size)
unfolding read_length
read_length-lem len s body rest h = ground (arith, read_body-Split len s body rest)

pub read-frame :
    (body rest : Bytes) → IsBody body → read_frame_raw (frame body ++ rest) ≡ ok body rest
unfolding read_frame_raw frame put_uint32
read-frame body rest h = rw (uint32-put (length body) h.1) (read_length-ok body rest h)

header-frame :
    (a b c d : ℕ) (s body rest : Bytes)
    → put_uint32 (length body) ≡ a ∷ b ∷ c ∷ d ∷ []
    → s ≡ body ++ rest
    → a ∷ b ∷ c ∷ d ∷ s ≡ frame body ++ rest
unfolding frame
header-frame a b c d s body rest h k = rw k (ap (λ t. (t ++ body) ++ rest) (sym h))

frame-found :
    (a b c d : ℕ) (s body rest : Bytes)
    → All (λ b. b < 256) (a ∷ b ∷ c ∷ d ∷ [])
    → Split (uint32 a b c d) s body rest × (1 ≤ uint32 a b c d) × (uint32 a b c d ≤ max_frame_size)
    → (a ∷ b ∷ c ∷ d ∷ s ≡ frame body ++ rest) × IsBody body
unfolding Split
frame-found a b c d s body rest hs (e, lo, hi) = (
  header-frame a b c d s body rest
      (ap put_uint32 e.1 ∙ put-uint32 a b c d hs.0 hs.1.0 hs.1.1.0 hs.1.1.1.0) e.0,
  (omega (arith, e.1, lo), omega (arith, e.1, hi)),
)

read-IsBody :
    (s body rest : Bytes)
    → All (λ b. b < 256) s
    → read_frame_raw s ≡ ok body rest
    → (s ≡ frame body ++ rest) × IsBody body
unfolding read_frame_raw
read-IsBody [] body rest hs h = ground arith
read-IsBody (a ∷ []) body rest hs h = ground arith
read-IsBody (a ∷ b ∷ []) body rest hs h = ground arith
read-IsBody (a ∷ b ∷ c ∷ []) body rest hs h = ground arith
read-IsBody (a ∷ b ∷ c ∷ d ∷ s) body rest hs h =
    frame-found a b c d s body rest (hs.0, (hs.1.0, (hs.1.1.0, (hs.1.1.1.0, tt))))
      (read_length-lem (uint32 a b c d) s body rest h)

-- On a stream of bytes ReadFrameRaw returns a body exactly when the stream begins with the frame
-- that WriteFrame makes of that body, and the body has 1 byte to 1 MiB.
pub read_frame_raw_iff :
    (s body rest : Bytes)
    → All (λ b. b < 256) s
    → (read_frame_raw s ≡ ok body rest) ↔ ((s ≡ frame body ++ rest) × IsBody body)
read_frame_raw_iff s body rest hs =
    (read-IsBody s body rest hs, λ k. rw k.0 (read-frame body rest k.1))

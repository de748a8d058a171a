-- ===== src/Ipc/Stream.antt =====
-- What internal/ipc/framing.go reads of a stream of frames, and of one that is cut off.
use mathlib.Core.List.{append_assoc, append-nil}
use wireguide_plus.Common.{
  ℕ, zero, suc, ◌≤◌, ◌<◌, ◌≡◌, refl, sym, ap, ◌∙◌, List, [], ◌∷◌, ◌++◌, Option, some, Option-cases,
  Bool, true, false, length, length-append, arith, ltb, inl, inr, ◌⊎◌, lt→ltb,
}
use wireguide_plus.Ipc.Frame.{
  Bytes, max_frame_size, put_uint32, uint32, WriteError, ReadError, Read, ok, error, Written,
  write_frame, write_data, frame, read_frame, read_frame_raw, read_length, read_body,
}
use wireguide_plus.Ipc.Header.{IsBody, read-frame, uint32-put, copy_n-few}

-- What the two functions of encoding/json promise each other: what Marshal writes of a value, of a
-- size that a frame takes, is not empty, and Unmarshal reads the value back from it.
pub record IsJson {V : Type 0} (marshal : V → Option Bytes) (unmarshal : Bytes → Option V)
    : Type 0 where
  pub not_empty : (v : V) (body : Bytes) → marshal v ≡ some body → 1 ≤ length body
  pub reads_back : (v : V) (body : Bytes) → marshal v ≡ some body → unmarshal body ≡ some v

module _ {V : Type 0} (marshal : V → Option Bytes) where
  -- The stream after a value was written behind it.
  abbrev pub append_frame : V → Bytes → Written Bytes
  append_frame v s = write_frame marshal (λ bs. some (s ++ bs)) v

  abbrev pub then_write : (Bytes → Written Bytes) → Written Bytes → Written Bytes
  then_write k (Written.ok s) = k s
  then_write k (Written.error e) = Written.error e

  -- Values written one behind the other.
  unfoldable pub write_all : List V → Bytes → Written Bytes
  unfolding write_frame
  write_all [] s = Written.ok s
  write_all (v ∷ vs) s = then_write (write_all vs) (append_frame v s)

module _ {V : Type 0} (unmarshal : Bytes → Option V) where
  abbrev pub then_read : V → Read (List V) → Read (List V)
  then_read v (ok vs rest) = ok (v ∷ vs) rest
  then_read v (error e) = error e

  abbrev pub continue_read : (Bytes → Read (List V)) → Read V → Read (List V)
  continue_read k (ok v rest) = then_read v (k rest)
  continue_read k (error e) = error e

  -- As many values as wanted, read one after the other.
  unfoldable pub read_all : ℕ → Bytes → Read (List V)
  unfolding read_frame
  read_all zero s = ok [] s
  read_all (suc n) s = continue_read (read_all n) (read_frame unmarshal s)

write_data-ok :
    {V : Type 0} (marshal : V → Option Bytes) (body s t : Bytes)
    → write_data marshal (λ bs. some (s ++ bs)) (some body) ≡ Written.ok t
    → (t ≡ s ++ frame body) × (length body ≤ max_frame_size)
unfolding write_data
write_data-ok marshal body s t h = ground arith

nothing-sent : {A : Type 0} {t : Bytes} {e : WriteError} → Written.error e ≡ Written.ok t → A
nothing-sent h = cc

Written-cases :
    {S : Type 0} (w : Written S)
    → ((s : S) × (w ≡ Written.ok s)) ⊎ ((e : WriteError) × (w ≡ Written.error e))
Written-cases (Written.ok s) = inl (s, refl)
Written-cases (Written.error e) = inr (e, refl)

-- A frame that was written, and the value that it holds.
record Sent {V : Type 0} (unmarshal : Bytes → Option V) (v : V) (s t : Bytes) : Type 0 where
  body : Bytes
  follows : t ≡ s ++ frame body
  long : IsBody body
  value : unmarshal body ≡ some v

ok-inj : {s t : Bytes} → Written.ok s ≡ Written.ok t → s ≡ t
ok-inj h = cc

sent-nil : (s t : Bytes) → Written.ok s ≡ Written.ok t → t ≡ s ++ []
sent-nil s t h = sym (ok-inj h) ∙ sym (append-nil s)

module _ {V : Type 0} (marshal : V → Option Bytes) (unmarshal : Bytes → Option V)
    (j : IsJson marshal unmarshal) where
  append_frame-Sent :
      (v : V) (s t : Bytes) → append_frame marshal v s ≡ Written.ok t → Sent unmarshal v s t
  unfolding write_frame
  append_frame-Sent v s t h = elim (Option-cases (marshal v)) [
    | inl e ↦ nothing-sent (rw e at h)
    | inr (body, e) ↦
        let k = write_data-ok marshal body s t (rw e at h) in
        record {
          body = body;
          follows = k.0;
          long = (j.not_empty v body e, k.1);
          value = j.reads_back v body e;
        }
  ]

  read-Sent :
      (v : V) (s t rest : Bytes) (x : Sent unmarshal v s t)
      → read_frame unmarshal (frame x.body ++ rest) ≡ ok v rest
  unfolding read_frame
  read-Sent v s t rest x = rw (read-frame x.body rest x.long, x.value) refl

  -- Values that were written behind `s`, read back whatever follows.
  record AllSent (vs : List V) (s t : Bytes) : Type 0 where
    sent : Bytes
    follows : t ≡ s ++ sent
    read_back : (rest : Bytes) → read_all unmarshal (length vs) (sent ++ rest) ≡ ok vs rest

  more-AllSent :
      (v : V) (vs : List V) (s t u : Bytes)
      → Sent unmarshal v s t
      → AllSent vs t u
      → AllSent (v ∷ vs) s u
  unfolding read_all
  more-AllSent v vs s t u x y = record {
    sent = frame x.body ++ y.sent;
    follows = y.follows ∙ ap (λ r. r ++ y.sent) x.follows ∙ append_assoc s (frame x.body) y.sent;
    read_back = λ rest.
        ap (read_all unmarshal (suc (length vs))) (append_assoc (frame x.body) y.sent rest)
        ∙ ap (continue_read unmarshal (read_all unmarshal (length vs)))
            (read-Sent v s t (y.sent ++ rest) x)
        ∙ ap (then_read unmarshal v) (y.read_back rest);
  }

  write_all-AllSent :
      (vs : List V) (s t : Bytes) → write_all marshal vs s ≡ Written.ok t → AllSent vs s t
  unfolding write_all read_all
  write_all-AllSent [] s t h = record {
    sent = [];
    follows = sent-nil s t h;
    read_back = λ rest. refl;
  }
  write_all-AllSent (v ∷ vs) s t h = elim (Written-cases (append_frame marshal v s)) [
    | inl (r, e) ↦
        more-AllSent v vs s r t (append_frame-Sent v s r e) (write_all-AllSent vs r t (rw e at h))
    | inr (r, e) ↦ nothing-sent (rw e at h)
  ]

-- Values that WriteFrame wrote to a stream one behind the other, ReadFrame reads back in the same
-- order, and it leaves what follows them; encoding/json reads back what it writes.
pub write_all-read :
    {V : Type 0} (marshal : V → Option Bytes) (unmarshal : Bytes → Option V)
    → IsJson marshal unmarshal
    → (vs : List V) (t rest : Bytes) → write_all marshal vs [] ≡ Written.ok t
    → read_all unmarshal (length vs) (t ++ rest) ≡ ok vs rest
write_all-read marshal unmarshal j vs t rest h =
    let a = write_all-AllSent marshal unmarshal j vs [] t h in rw a.follows (a.read_back rest)

-- Whether an error says that the input ended too soon.
abbrev pub is_cut : ReadError → Bool
is_cut ReadError.eof = true
is_cut ReadError.unexpected_eof = true
is_cut (ReadError.short_body n len) = ltb n len
is_cut _ = false

cut_body :
    (len : ℕ) (s : Bytes)
    → 1 ≤ len
    → len ≤ max_frame_size
    → length s < len
    → (e : ReadError) × (read_length len s ≡ error e) × (is_cut e ≡ true)
unfolding read_length read_body
cut_body len s lo hi h = (
  ReadError.short_body (length s) len,
  rw (copy_n-few len s h) (ground (arith, lo, hi)),
  lt→ltb (length s) len h,
)

same_parts :
    {n m k l a b c d : ℕ} {s t : Bytes}
    → n ∷ m ∷ k ∷ l ∷ s ≡ a ∷ b ∷ c ∷ d ∷ t
    → (uint32 n m k l ≡ uint32 a b c d) × (s ≡ t)
same_parts h = (cc, cc)

cut-at :
    {m : ℕ} (n len : ℕ) (s : Bytes)
    → m ≡ n
    → m ≡ len
    → 1 ≤ n × n ≤ max_frame_size
    → length s < n
    → (e : ReadError) × (read_length len s ≡ error e) × (is_cut e ≡ true)
cut-at n len s h k b c =
    cut_body len s (omega (arith, h, k, b.0)) (omega (arith, h, k, b.1)) (omega (arith, h, k, c))

-- A frame that is cut off at any place is refused, with an error that says so.
pub cut_frame_fails :
    (body cut rest : Bytes)
    → IsBody body
    → frame body ≡ cut ++ rest
    → 1 ≤ length rest
    → (e : ReadError) × (read_frame_raw cut ≡ error e) × (is_cut e ≡ true)
unfolding read_frame_raw frame put_uint32
cut_frame_fails body [] rest hb h hr = (ReadError.eof, refl, refl)
cut_frame_fails body (a ∷ []) rest hb h hr = (ReadError.unexpected_eof, refl, refl)
cut_frame_fails body (a ∷ b ∷ []) rest hb h hr = (ReadError.unexpected_eof, refl, refl)
cut_frame_fails body (a ∷ b ∷ c ∷ []) rest hb h hr = (ReadError.unexpected_eof, refl, refl)
cut_frame_fails body (a ∷ b ∷ c ∷ d ∷ s) rest hb h hr =
    let k = same_parts h in
    cut-at (length body) (uint32 a b c d) s (uint32-put (length body) hb.1) k.0 hb
      (omega (arith, hr, ap length k.1, length-append s rest))

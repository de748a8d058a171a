-- ===== src/Ipc/Frame.antt =====
-- internal/ipc/framing.go. A reader is the list of the bytes that are still to come before the end
-- of the input; encoding/json is a pair of parameters, and so is the writer's `Write`.
use wireguide_plus.Common.{
  ℕ, zero, suc, ◌+◌, ◌*◌, ◌/◌, ◌%◌, List, [], ◌∷◌, ◌++◌, Option, none, some, ltb, ◌==◌, length,
  if◌then◌else◌,
}

abbrev pub Bytes : Type 0
Bytes = List ℕ

-- 1 MiB
abbrev pub max_frame_size : ℕ
max_frame_size = 1048576

-- binary.BigEndian.PutUint32
unfoldable pub put_uint32 : ℕ → Bytes
put_uint32 n = (n / 16777216 % 256) ∷ (n / 65536 % 256) ∷ (n / 256 % 256) ∷ (n % 256) ∷ []

-- binary.BigEndian.Uint32
unfoldable pub uint32 : ℕ → ℕ → ℕ → ℕ → ℕ
uint32 a b c d = a * 16777216 + b * 65536 + c * 256 + d

pub data WriteError : Type 0 where
  marshal_failed write_failed : WriteError
  too_large : ℕ → WriteError

pub data ReadError : Type 0 where
  eof unexpected_eof empty_frame unmarshal_failed : ReadError
  too_large : ℕ → ReadError
  -- How many bytes came, and how many the header announced.
  short_body : ℕ → ℕ → ReadError

-- What a read gives: a result and the rest of the input, or an error.
pub data Read (A : Type 0) : Type 0 where
  ok : A → Bytes → Read A
  error : ReadError → Read A

-- io.CopyN: the first n bytes and the rest, or how many bytes there were.
pub data Copied : Type 0 where
  copied : Bytes → Bytes → Copied
  short : ℕ → Copied

abbrev pub copy_more : ℕ → Copied → Copied
copy_more b (copied bs rest) = copied (b ∷ bs) rest
copy_more b (short n) = short (suc n)

unfoldable pub copy_n : ℕ → Bytes → Copied
copy_n zero s = copied [] s
copy_n (suc n) [] = short zero
copy_n (suc n) (b ∷ s) = copy_more b (copy_n n s)

unfoldable pub read_body : ℕ → Copied → Read Bytes
read_body len (copied bs rest) = ok bs rest
read_body len (short n) = error (ReadError.short_body n len)

-- The checks of the length that the header announced, and the body.
unfoldable pub read_length : ℕ → Bytes → Read Bytes
unfolding read_body copy_n
read_length len s =
    if ltb max_frame_size len
    then error (ReadError.too_large len)
    else if len == 0
    then error ReadError.empty_frame
    else read_body len (copy_n len s)

-- ReadFrameRaw
unfoldable pub read_frame_raw : Bytes → Read Bytes
unfolding read_length uint32
read_frame_raw [] = error ReadError.eof
read_frame_raw (a ∷ []) = error ReadError.unexpected_eof
read_frame_raw (a ∷ b ∷ []) = error ReadError.unexpected_eof
read_frame_raw (a ∷ b ∷ c ∷ []) = error ReadError.unexpected_eof
read_frame_raw (a ∷ b ∷ c ∷ d ∷ s) = read_length (uint32 a b c d) s

-- buf: the header and the body.
unfoldable pub frame : Bytes → Bytes
unfolding put_uint32
frame body = put_uint32 (length body) ++ body

pub data Written (S : Type 0) : Type 0 where
  ok : S → Written S
  error : WriteError → Written S

-- w.Write takes the frame to the state of the stream after it, or fails.
module _ {V S : Type 0} (marshal : V → Option Bytes) (write : Bytes → Option S) where
  abbrev pub write_result : Option S → Written S
  write_result none = Written.error WriteError.write_failed
  write_result (some s) = Written.ok s

  unfoldable pub write_data : Option Bytes → Written S
  unfolding frame
  write_data none = Written.error WriteError.marshal_failed
  write_data (some body) =
      if ltb max_frame_size (length body)
      then Written.error (WriteError.too_large (length body))
      else write_result (write (frame body))

  -- WriteFrame
  unfoldable pub write_frame : V → Written S
  unfolding write_data
  write_frame v = write_data (marshal v)

module _ {V : Type 0} (unmarshal : Bytes → Option V) where
  unfoldable pub decode : Option V → Bytes → Read V
  decode none rest = error ReadError.unmarshal_failed
  decode (some v) rest = ok v rest

  abbrev pub decode_body : Read Bytes → Read V
  unfolding decode
  decode_body (error e) = error e
  decode_body (ok body rest) = decode (unmarshal body) rest

  -- ReadFrame
  unfoldable pub read_frame : Bytes → Read V
  unfolding read_frame_raw decode
  read_frame s = decode_body (read_frame_raw s)

-- ===== src/Tests/Frames.antt =====
-- Tests of the frames (internal/ipc/framing.go), and each law at a concrete input.
use wireguide_plus.Common.{ℕ, ◌≡◌, ◌↔◌, refl, sym, [], ◌∷◌, ◌++◌, Option, none, some, true, arith}
use wireguide_plus.Ipc.Frame.{Bytes, ReadError, ok, error, frame, read_frame_raw, write_frame}
use wireguide_plus.Ipc.Header.{IsBody, read_frame_raw_iff}
use wireguide_plus.Ipc.Stream.{IsJson, write_all, read_all, write_all-read, is_cut, cut_frame_fails}

-- "{}"
abbrev braces : Bytes
braces = 123 ∷ 125 ∷ []

braces_framed : frame braces ≡ 0 ∷ 0 ∷ 0 ∷ 2 ∷ 123 ∷ 125 ∷ []
unfolding frame
braces_framed = refl

too_large : read_frame_raw (0 ∷ 16 ∷ 0 ∷ 1 ∷ []) ≡ error (ReadError.too_large 1048577)
unfolding read_frame_raw
too_large = refl

empty_frame : read_frame_raw (0 ∷ 0 ∷ 0 ∷ 0 ∷ 1 ∷ []) ≡ error ReadError.empty_frame
unfolding read_frame_raw
empty_frame = refl

-- A number below 256 is written as one byte.
abbrev marshal_byte : ℕ → Option Bytes
marshal_byte n = some (n ∷ [])

abbrev unmarshal_byte : Bytes → Option ℕ
unmarshal_byte (n ∷ []) = some n
unmarshal_byte _ = none

back : (v : ℕ) (body : Bytes) → v ∷ [] ≡ body → unmarshal_byte body ≡ some v
back v body h = rw (sym h) refl

marshal_byte-IsJson : IsJson marshal_byte unmarshal_byte
marshal_byte-IsJson = record {
  not_empty = λ v body h. ground (arith, h);
  reads_back = λ v body h. back v body (cc);
}

read_frame_raw_iff_example :
    (read_frame_raw (0 ∷ 0 ∷ 0 ∷ 2 ∷ 123 ∷ 125 ∷ 7 ∷ []) ≡ ok braces (7 ∷ []))
    ↔ ((0 ∷ 0 ∷ 0 ∷ 2 ∷ 123 ∷ 125 ∷ 7 ∷ [] ≡ frame braces ++ (7 ∷ [])) × IsBody braces)
read_frame_raw_iff_example =
    read_frame_raw_iff (0 ∷ 0 ∷ 0 ∷ 2 ∷ 123 ∷ 125 ∷ 7 ∷ []) braces (7 ∷ []) (
      omega arith,
      (omega arith, (omega arith, (omega arith, (omega arith, (omega arith, (omega arith, tt)))))),
    )

write_all-read_example :
    read_all unmarshal_byte 2 (0 ∷ 0 ∷ 0 ∷ 1 ∷ 5 ∷ 0 ∷ 0 ∷ 0 ∷ 1 ∷ 6 ∷ 9 ∷ [])
    ≡ ok (5 ∷ 6 ∷ []) (9 ∷ [])
unfolding write_all write_frame
write_all-read_example =
    write_all-read marshal_byte unmarshal_byte marshal_byte-IsJson (5 ∷ 6 ∷ [])
      (0 ∷ 0 ∷ 0 ∷ 1 ∷ 5 ∷ 0 ∷ 0 ∷ 0 ∷ 1 ∷ 6 ∷ []) (9 ∷ []) refl

cut_frame_fails_example :
    (e : ReadError) × (read_frame_raw (0 ∷ 0 ∷ 0 ∷ 2 ∷ 123 ∷ []) ≡ error e) × (is_cut e ≡ true)
unfolding frame
cut_frame_fails_example =
    cut_frame_fails braces (0 ∷ 0 ∷ 0 ∷ 2 ∷ 123 ∷ []) (125 ∷ []) (omega arith, omega arith) refl
      (omega arith)

-- ===== src/Examples/Header.antt =====
-- The header and the key at concrete bytes.
use l2tvpp.Common.{ℕ, ◌≡◌, ◌<◌, ◌^◌, refl, Returns, some, [], ◌∷◌, ◌++◌, arith}
use l2tvpp.Header.{hdr_data, parse_hdr, session_key}
use l2tvpp.Header.Parse.{Reads, parse_hdr_lem}
use l2tvpp.Header.Frame.{ids_bytes, flags, parse_hdr-ids_bytes}
use l2tvpp.Header.Worker.{session_key-injective}
use l2tvpp.Examples.Data.{plain_packet, full_frame, payload}

parse_hdr_lem_example : Returns (parse_hdr plain_packet 0 14) (Reads plain_packet 0 14)
parse_hdr_lem_example = parse_hdr_lem plain_packet 0 14 (omega arith)

parse_hdr-ids_bytes_example :
    parse_hdr ((1 ∷ []) ++ (ids_bytes full_frame ++ payload)) 1 12
    ≡ some (hdr_data (flags full_frame) 7 9 8)
parse_hdr-ids_bytes_example =
    parse_hdr-ids_bytes (1 ∷ []) payload full_frame 12
      (record { tid_fits = omega arith; sid_fits = omega arith; pad_fits = omega arith })
      (omega arith)

session_key-injective_example : (◌≡◌ {A = ℕ} 7 7) × (◌≡◌ {A = ℕ} 9 9) × (session_key 7 9 < 2 ^ 32)
session_key-injective_example =
    session_key-injective 7 9 7 9 (omega arith) (omega arith) (omega arith) (omega arith) refl

-- ===== src/Examples/Flow.antt =====
-- The flow hand-off at a frame that takes the fast path.
use l2tvpp.Common.{
  ℕ, ◌+◌, ◌*◌, ◌/◌, ◌%◌, ◌^◌, ◌≡◌, ◌≤◌, refl, not, ◌==◌, Bool, true, false, Option, some, none,
  List, [], ◌∷◌, ◌++◌, length, get_elem?, leb, if◌then◌else◌, arith, Returns,
}
use mathlib.Core.Option
use l2tvpp.Flow.{Ip4, kind_inner, classify}
use l2tvpp.Flow.Safety.{IsSound, classify-IsSound}
use l2tvpp.Flow.Node.{FlowIf, choose}
use l2tvpp.Flow.Node.Threads.{IsPow2, choose-mod}
use l2tvpp.Examples.Data.{plain_packet}

abbrev in_range : List ℕ → ℕ → Option Bool
in_range m p = if leb (p + 20) (length m) then some true else none

pub in_range-returns :
    (m : List ℕ) (p : ℕ)
    → p + 20 ≤ length m
    → get_elem? m p ≡ some 0x45
    → Returns (in_range m p) (λ b. in_range m p ≡ some b)
in_range-returns m p h e = record { value = true; returns = ground arith; holds = ground arith }

abbrev pub plain_ip : Ip4
plain_ip = record {
  crc32c = λ k. k.proto;
  as_u32 = λ bytes. length bytes;
  header_bytes = λ b. b % 16 * 4;
  fragment_offset = λ f. f % 2 ^ 13;
  fragment_more = λ f. not (f / 2 ^ 13 % 2 == 0);
  checksum_is_valid = in_range;
  header_bytes-plain = refl;
  checksum_is_valid-in_range = in_range-returns;
}

-- Ethernet, IPv4 of 42 bytes, UDP to port 1701, and a data packet.
abbrev pub fast_frame : List ℕ
fast_frame =
    (2 ∷ 0 ∷ 0 ∷ 0 ∷ 0 ∷ 1 ∷ 2 ∷ 0 ∷ 0 ∷ 0 ∷ 0 ∷ 2 ∷ 8 ∷ 0 ∷ [])
    ++ ((0x45 ∷ 0 ∷ 0 ∷ 42 ∷ 0 ∷ 0 ∷ 0 ∷ 0 ∷ 64 ∷ 17 ∷ 0 ∷ 0 ∷ 10 ∷ 0 ∷ 0 ∷ 1 ∷ 10 ∷ 0 ∷ 0 ∷ 2 ∷ [])
        ++ ((6 ∷ 0xa5 ∷ 6 ∷ 0xa5 ∷ 0 ∷ 22 ∷ 0 ∷ 0 ∷ []) ++ plain_packet))

classify-IsSound_example :
    Returns
      (classify plain_ip (4 ∷ []) fast_frame true true)
      (IsSound plain_ip (4 ∷ []) fast_frame true true)
classify-IsSound_example = classify-IsSound plain_ip (4 ∷ []) fast_frame true true

is_four : ℕ → Bool
is_four n = n == 4

is_four-IsPow2 : IsPow2 is_four
unfolding is_four
is_four-IsPow2 n pos e = (2, ground arith)

abbrev four_workers : FlowIf
four_workers = record {
  workers = 1 ∷ 2 ∷ 3 ∷ 4 ∷ [];
  rr = 0;
  enabled = true;
  fastpath = true;
  spray = false;
}

choose-mod_example :
    choose is_four four_workers 0 kind_inner 7
    ≡ Option.map (λ w. (w, four_workers)) (get_elem? (1 ∷ 2 ∷ 3 ∷ 4 ∷ []) 3)
choose-mod_example =
    choose-mod is_four is_four-IsPow2 four_workers 0 kind_inner 7 refl refl (omega arith)

-- ===== src/Header.antt =====
-- plugin/l2tvpp/l2tvpp.h: the header parse, the session key and the worker of a session, shared by
-- the nodes of the plugin.
pub mod Parse
pub mod Frame
pub mod Worker
use l2tvpp.Common.{
  ℕ, ◌+◌, ◌*◌, ◌/◌, ◌%◌, ◌^◌, bit_and, bit_or, bit_xor, Bool, not, Option, some, List, ltb, ◌==◌,
  ◌&&◌, if◌then◌else◌, ◌>>=◌, read_u16,
}

abbrev pub udp_port : ℕ
udp_port = 1701

-- L2TVPP_HDR_T .. L2TVPP_HDR_VER, the flag bits of RFC 2661.
abbrev pub hdr_t : ℕ
hdr_t = 0x8000

abbrev pub hdr_l : ℕ
hdr_l = 0x4000

abbrev pub hdr_s : ℕ
hdr_s = 0x0800

abbrev pub hdr_o : ℕ
hdr_o = 0x0200

abbrev pub hdr_p : ℕ
hdr_p = 0x0100

abbrev pub hdr_ver : ℕ
hdr_ver = 0x000f

abbrev pub ppp_proto_ip4 : ℕ
ppp_proto_ip4 = 0x0021

abbrev pub ppp_proto_ip6 : ℕ
ppp_proto_ip6 = 0x0057

-- `if (f & bit)`.
abbrev pub has_bit : ℕ → ℕ → Bool
has_bit f bit = not (bit_and f bit == 0)

-- `l2tvpp_hdr_rc_t` with the outputs that each case sets; `off` counts from the header's start.
pub data HdrRc : Type 0 where
  hdr_data : (flags tid sid off : ℕ) → HdrRc
  hdr_too_short hdr_not_v2 hdr_control : HdrRc

-- `l2tvpp_parse_hdr` on the `len` bytes at offset `cur` of a memory; `none` is a read outside it.
unfoldable pub parse_hdr : List ℕ → ℕ → ℕ → Option HdrRc
parse_hdr m cur len = if ltb len 6 then some hdr_too_short else do
  f ← read_u16 m cur
  if not (bit_and f hdr_ver == 2)
      then some hdr_not_v2
      else if has_bit f hdr_t
      then some hdr_control
      else if has_bit f hdr_l && ltb len 8
      then some hdr_too_short
      else do
        let o = if has_bit f hdr_l then 4 else 2
        tid ← read_u16 m (cur + o)
        sid ← read_u16 m (cur + o + 2)
        some (hdr_data f tid sid (o + 4))

-- The decap lookup key.
unfoldable pub session_key : ℕ → ℕ → ℕ
session_key local_tid local_sid = bit_or (local_tid * 2 ^ 16) local_sid

-- `h ^= h >> 16` after the multiplication, all on 32 bits.
unfoldable pub session_hash : ℕ → ℕ → ℕ
session_hash tid sid =
    let h = bit_or (tid * 2 ^ 16) sid * 0x9e3779b1 % 2 ^ 32 in bit_xor h (h / 2 ^ 16)

unfoldable pub handoff_worker : ℕ → ℕ → ℕ → ℕ
handoff_worker tid sid n_workers = (1 + session_hash tid sid % n_workers) % 2 ^ 16

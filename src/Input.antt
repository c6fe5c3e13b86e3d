-- ===== src/Input.antt =====
-- plugin/l2tvpp/node.c: `l2tvpp-input`, which takes the L2TP and PPP headers off a data packet.
pub mod Safety
pub mod Decap
pub mod Unknown
pub mod Node
use l2tvpp.Common.{
  ℕ, ◌+◌, ◌^◌, ◌%◌, bit_and, Bool, true, false, Option, some, none, List, [], ◌∷◌, ◌++◌, length,
  get_elem?, ltb, ◌==◌, if◌then◌else◌, ◌>>=◌, read_u16,
}
use mathlib.Core.Option
use l2tvpp.Objects.{Session}
use l2tvpp.Header.{
  HdrRc, hdr_data, hdr_too_short, hdr_not_v2, hdr_control, hdr_s, hdr_o, ppp_proto_ip4,
  ppp_proto_ip6, has_bit, parse_hdr, session_key,
}

pub data Next : Type 0 where
  ip4_input ip4_input_ncs ip6_input punt drop : Next

pub data Error : Type 0 where
  decap decap_seq decap_off punt_control punt_no_session punt_ppp_proto : Error
  punt_unsupported too_short : Error

-- What happens to the buffer: it stays, it is rewound to its IP header, or it is advanced past the
-- PPP header and marked as received on a session's interface.
pub data Action : Type 0 where
  keep rewind_to_ip : Action
  deliver : (advance sw_if_index : ℕ) → Action

-- The variables of one round of the node's loop as its label `trace` finds them; a session index of
-- ~0 is `none`.
pub record Outcome : Type 0 where
  pub next : Next
  pub error : Error
  pub session_index : Option ℕ
  pub tid : ℕ
  pub sid : ℕ
  pub ppp_proto : ℕ
  pub action : Action

-- What the node reads of `l2tvpp_main_t`: the bihash from keys to indices, the session pool (`none`
-- is a free index) and the checksum switch.
pub record Tables : Type 0 where
  pub session_by_key : ℕ → Option ℕ
  pub sessions : ℕ → Option Session
  pub inner_ip4_no_checksum : Bool

abbrev pub next_ip4 : Tables → Next
next_ip4 t = if t.inner_ip4_no_checksum then ip4_input_ncs else ip4_input

-- An optional FF 03.
unfoldable pub skip_acfc : List ℕ → ℕ → Option ℕ
skip_acfc p cur = do
  b0 ← get_elem? p cur
  if b0 == 0xff
      then (do b1 ← get_elem? p (cur + 1); some (if b1 == 0x03 then cur + 2 else cur))
      else some cur

-- The PPP protocol, of one byte if that is odd and else of two, and the position behind it.
unfoldable pub ppp_header : List ℕ → ℕ → Option (ℕ × ℕ)
unfolding skip_acfc
ppp_header p start = do
  cur ← skip_acfc p start
  b0 ← get_elem? p cur
  if has_bit b0 1 then some (b0, cur + 1) else (do proto ← read_u16 p cur; some (proto, cur + 2))

-- `goto trace` after a truncation, in the drop branches.
abbrev pub dropped : ℕ → ℕ → Outcome
dropped tid sid = record {
  next = drop;
  error = too_short;
  session_index = none;
  tid = tid;
  sid = sid;
  ppp_proto = 0;
  action = keep;
}

-- `goto punt`.
abbrev pub punted : Error → Option ℕ → ℕ → ℕ → ℕ → Outcome
punted error session_index tid sid ppp_proto = record {
  next = punt;
  error = error;
  session_index = session_index;
  tid = tid;
  sid = sid;
  ppp_proto = ppp_proto;
  action = rewind_to_ip;
}

-- The end of a decapsulation, before `goto trace`.
abbrev pub delivered : ℕ → ℕ → ℕ → Error → ℕ → ℕ → Next → Session → Outcome
delivered tid sid si error proto cur n sess = record {
  next = n;
  error = error;
  session_index = some si;
  tid = tid;
  sid = sid;
  ppp_proto = proto;
  action = deliver cur sess.sw_if_index;
}

-- Past Ns and Nr, if the S bit says that they are there.
abbrev pub skip_sequence : ℕ → ℕ → ℕ
skip_sequence flags off = if has_bit flags hdr_s then off + 4 else off

module _ (t : Tables) (p : List ℕ) where
  -- The S and O fields behind the session id are skipped: where the PPP header starts and what is
  -- counted, or `none` if the offset size lies outside the buffer.
  unfoldable pub skip_options : ℕ → ℕ → Option (Option (ℕ × Error))
  skip_options flags off =
      let cur = skip_sequence flags off in
      let error = if has_bit flags hdr_s then decap_seq else decap in
      if has_bit flags hdr_o
      then (if ltb (length p) (cur + 2)
          then some none
          else do size ← read_u16 p cur; some (some (cur + (2 + size), decap_off)))
      else some (some (cur, error))

  -- From the protocol on: the next node, or a punt, and the delivery to the session's interface.
  unfoldable pub forward : ℕ → ℕ → ℕ → Error → ℕ × ℕ → Option Outcome
  forward tid sid si error (proto, cur) =
      if proto == ppp_proto_ip4
      then Option.map (delivered tid sid si error proto cur (next_ip4 t)) (t.sessions si)
      else if proto == ppp_proto_ip6
      then Option.map (delivered tid sid si error proto cur ip6_input) (t.sessions si)
      else some (punted punt_ppp_proto (some si) tid sid proto)

  -- The bound on the PPP header, the session lookup and the PPP header.
  unfoldable pub decapsulate : ℕ → ℕ → Option (ℕ × Error) → Option Outcome
  decapsulate tid sid none = some (dropped tid sid)
  decapsulate tid sid (some (cur, error)) =
      if ltb (length p) (cur + 4)
      then some (dropped tid sid)
      else elim (t.session_by_key (session_key tid sid)) [
        | none ↦ some (punted punt_no_session none tid sid 0)
        | some si ↦ ppp_header p cur >>= forward tid sid si error
      ]

  unfoldable pub after_parse : HdrRc → Option Outcome
  after_parse (hdr_data flags tid sid off) = skip_options flags off >>= decapsulate tid sid
  after_parse hdr_not_v2 = some (punted punt_unsupported none 0 0 0)
  after_parse hdr_control = some (punted punt_control none 0 0 0)
  after_parse hdr_too_short = some (dropped 0 0)

  -- One round of the loop of `l2tvpp_input_node`, on the `current_length` bytes at `current_data`.
  unfoldable pub input_packet : Option Outcome
  input_packet = parse_hdr p 0 (length p) >>= after_parse

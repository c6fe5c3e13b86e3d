-- ===== src/Sync/OverRegistry/Packets.antt =====
-- What plugin/l2tvpp/node.c does with packets after a pass of syncd/l2tvppd.py.
use l2tvpp.Common.{ℕ, ◌≤◌, ◌≡◌, Bool, true, false, some, none, List, length}
use l2tvpp.Objects.{Session}
use l2tvpp.Vpp.{Vpp}
use l2tvpp.Header.Frame.{Frame, IsFrame}
use l2tvpp.Registry.{Main}
use l2tvpp.Input.{Next, input_packet, delivered, punted, punt_no_session}
use l2tvpp.Input.Decap.{counted, packet_bytes, headers_length}
use l2tvpp.System.{tables_of}

-- A data packet with a payload of three bytes or more, for a protocol that goes to the node `n`.
module _ (V : Vpp) (no_checksum : Bool) (f : Frame) (framed short : Bool) (proto : ℕ)
    (payload : List ℕ) (n : Next) (v : IsFrame f) (long : 3 ≤ length payload) where
  open V.session_pool use {elt as session_at}

  -- The packet is delivered to a session with its ids, past exactly its headers, or it is punted as one of
  -- no session.
  abbrev pub IsAnswered : Main V → Bool → Type 0
  IsAnswered m true =
      (si : ℕ) × (s : Session) × (session_at m.sessions si ≡ some s)
      × (s.local_tid ≡ f.tid)
      × (s.local_sid ≡ f.sid)
      × (input_packet (tables_of V m no_checksum) (packet_bytes f framed short proto payload)
          ≡ some (
              delivered f.tid f.sid si (counted f.sequence f.pad) proto
                (headers_length f framed short proto) n s))
  IsAnswered m false =
      input_packet (tables_of V m no_checksum) (packet_bytes f framed short proto payload)
      ≡ some (punted punt_no_session none f.tid f.sid 0)

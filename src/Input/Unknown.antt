-- ===== src/Input/Unknown.antt =====
-- What `l2tvpp-input` does with a data packet of no session.
use l2tvpp.Common.{ℕ, ◌+◌, ◌≤◌, ◌≡◌, ◌∙◌, Bool, some, none, List, length, arith}
use l2tvpp.Header.{session_key}
use l2tvpp.Header.Frame.{Frame, IsFrame}
use l2tvpp.Input.{Error, punt_no_session, Tables, punted, decapsulate, input_packet}
use l2tvpp.Input.Decap.{packet_bytes, input_packet-to_ppp, ppp_fits}

decapsulate_missing :
    (t : Tables) (p : List ℕ) (tid sid cur : ℕ) (error : Error)
    → cur + 4 ≤ length p
    → t.session_by_key (session_key tid sid) ≡ none
    → decapsulate t p tid sid (some (cur, error)) ≡ some (punted punt_no_session none tid sid 0)
unfolding decapsulate
decapsulate_missing t p tid sid cur error fits missing = rw missing (ground arith)

-- A data packet whose ids name no session is punted and counted as such, whatever it carries.
pub input_packet-unknown :
    (t : Tables) (f : Frame) (framed short : Bool) (proto : ℕ) (payload : List ℕ)
    → IsFrame f
    → 3 ≤ length payload
    → t.session_by_key (session_key f.tid f.sid) ≡ none
    → input_packet t (packet_bytes f framed short proto payload)
      ≡ some (punted punt_no_session none f.tid f.sid 0)
input_packet-unknown t f framed short proto payload v long missing =
    input_packet-to_ppp t f framed short proto payload v
    ∙ decapsulate_missing t (packet_bytes f framed short proto payload) f.tid f.sid _ _
        (ppp_fits t f framed short proto payload long) missing

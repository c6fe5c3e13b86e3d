-- ===== src/Examples/Data.antt =====
-- A session, its tables and packets for it.
use l2tvpp.Common.{ℕ, ◌==◌, if◌then◌else◌, true, false, some, none, List, [], ◌∷◌}
use l2tvpp.Objects.{Session}
use l2tvpp.Header.Frame.{Frame}
use l2tvpp.Input.{Tables}

-- Session 3 has local ids 7 and 9, so the key 7 * 65536 + 9.
abbrev pub session_three : Session
session_three = record {
  tunnel_index = 0;
  local_tid = 7;
  local_sid = 9;
  peer_sid = 21;
  acfc = 0;
  pfc = 0;
  sw_if_index = 5;
  hw_if_index = 4;
  encap_ip_csum0 = 0;
}

abbrev pub one_session : Tables
one_session = record {
  session_by_key = λ k. if k == 458761 then some 3 else none;
  sessions = λ i. if i == 3 then some session_three else none;
  inner_ip4_no_checksum = false;
}

-- A header with every optional field, and one with none.
abbrev pub full_frame : Frame
full_frame = record {
  tid = 7;
  sid = 9;
  total = some 40;
  sequence = some (1, 2);
  pad = some (0 ∷ 0 ∷ []);
  priority = true;
}

abbrev pub plain_frame : Frame
plain_frame = record {
  tid = 7;
  sid = 9;
  total = none;
  sequence = none;
  pad = none;
  priority = false;
}

abbrev pub payload : List ℕ
payload = 0x45 ∷ 0 ∷ 0 ∷ 20 ∷ []

-- Version 2, ids 7 and 9, FF 03 00 21 and the payload.
abbrev pub plain_packet : List ℕ
plain_packet = 0 ∷ 2 ∷ 0 ∷ 7 ∷ 0 ∷ 9 ∷ 0xff ∷ 0x03 ∷ 0 ∷ 0x21 ∷ payload

-- The same session with the S bit and a one-byte protocol.
abbrev pub sequenced_packet : List ℕ
sequenced_packet = 8 ∷ 2 ∷ 0 ∷ 7 ∷ 0 ∷ 9 ∷ 0 ∷ 1 ∷ 0 ∷ 2 ∷ 0x21 ∷ payload

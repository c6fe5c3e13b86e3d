-- ===== src/Steer/Agreement.antt =====
-- The XDP program reads the L2TP header as the plugin's nodes do.
use mathlib.Core.Option
use l2tvpp.Common.{ℕ, ◌+◌, ◌-◌, ◌≤◌, ◌≡◌, List, length, arith, inl, inr, Option-cases, read_u16}
use l2tvpp.Header.{HdrRc, hdr_data, hdr_control, parse_hdr}
use l2tvpp.Steer.{Maps, Verdict, pass, pass_other, pass_ctrl, choose_cpu, steer_l2tp}

-- The verdict for each result of the plugin's parse.
abbrev pub verdict_of : Maps → HdrRc → Verdict
verdict_of m (hdr_data flags tid sid off) = choose_cpu m tid sid
verdict_of m hdr_control = pass pass_ctrl
verdict_of m _ = pass pass_other

-- Where the UDP payload has six bytes or more, the XDP program and the plugin's parse take the same
-- packets for data and for control messages and read the same ids: its verdict is a function of the
-- parse's result.
pub steer_l2tp-parse_hdr :
    (m : Maps) (p : List ℕ) (cur : ℕ)
    → cur + 6 ≤ length p
    → steer_l2tp m p cur ≡ Option.map (verdict_of m) (parse_hdr p cur (length p - cur))
unfolding steer_l2tp parse_hdr
steer_l2tp-parse_hdr m p cur h = elim (Option-cases (read_u16 p cur)) [
  | inl e ↦ rw e (ground arith)
  | inr (f, e) ↦ rw e (ground arith)
]

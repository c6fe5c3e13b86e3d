-- ===== src/Examples/Steer.antt =====
-- The XDP program at a packet with four CPUs.
use l2tvpp.Common.{◌≡◌, ◌+◌, true, some, none, arith, Returns, ltb, if◌then◌else◌}
use mathlib.Core.Option
use l2tvpp.Header.{parse_hdr}
use l2tvpp.Steer.{Maps, l2tp_steer, steer_l2tp}
use l2tvpp.Steer.Safety.{IsAllowed, l2tp_steer-IsAllowed}
use l2tvpp.Steer.Agreement.{verdict_of, steer_l2tp-parse_hdr}
use l2tvpp.Examples.Data.{plain_packet}

-- Four CPUs, the even ones.
abbrev four_cpus : Maps
four_cpus = record {
  cpu_count = some 4;
  cpus_available = λ i. if ltb i 4 then some (i + i) else none;
  redirects = λ cpu. true;
}

l2tp_steer-IsAllowed_example : Returns (l2tp_steer four_cpus plain_packet) (IsAllowed four_cpus)
l2tp_steer-IsAllowed_example = l2tp_steer-IsAllowed four_cpus plain_packet

steer_l2tp-parse_hdr_example :
    steer_l2tp four_cpus plain_packet 0
    ≡ Option.map (verdict_of four_cpus) (parse_hdr plain_packet 0 14)
steer_l2tp-parse_hdr_example = steer_l2tp-parse_hdr four_cpus plain_packet 0 (omega arith)

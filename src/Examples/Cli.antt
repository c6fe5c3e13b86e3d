-- ===== src/Examples/Cli.antt =====
-- Messages and lines on the plugin with a tunnel and a session.
use l2tvpp.Common.{
  Bool, if◌then◌else◌, ℕ, ◌%◌, ◌^◌, ◌≡◌, ◌⊎◌, ◌||◌, ◌==◌, refl, true, false, some, Option, List, [],
  ◌∷◌, arith, Returns,
}
use l2tvpp.Objects.{Tunnel, Session}
use l2tvpp.Encap.{Prefix}
use l2tvpp.Registry.{HwInterface}
use l2tvpp.Registry.Ghost.{Sessions}
use l2tvpp.System.Good.{IsGood}
use l2tvpp.System.Invariant.{Reach-IsGood}
use l2tvpp.System.{Reach}
use l2tvpp.Api.{
  Endian, Wire, all_ones, TunnelAddDel, SessionAddDel, TunnelDetails, SessionDetails,
  session_handler, tunnel_details, session_details, tunnel_dump, session_dump,
}
use l2tvpp.Api.Dump.{Among, tunnel_dump-IsOfTunnel, session_dump-IsOfSession}
use l2tvpp.Cli.{
  session_cli, tunnel_is, local_sid_is, peer_sid_is, read_tunnel, local_is, peer_is, local_tid_is,
  peer_tid_is, TunnelOption,
}
use l2tvpp.Cli.Agreement.{BothAgree, session_line, session_cli-BothAgree}
use l2tvpp.Cli.Commands.{Command, cli_session, cli_tunnel, new_tid, execute, execute-Reach}
use l2tvpp.Cli.Switches.Fastpath.{IsSwitched, enable_all, enable_all-IsSwitched}
use l2tvpp.Examples.Registry.{some_vpp}
use l2tvpp.Examples.Rewrite.{ones_complement, ten_net}
use l2tvpp.Examples.System.{
  empty, empty-IsInitial, with_tunnel, with_session, session_reached, tunnel_reached,
}

-- A host whose byte order is the network's.
abbrev big_endian : Endian
big_endian = record {
  net_to_host_u16 = λ x. x % 2 ^ 16;
  host_to_net_u16 = λ x. x;
  net_to_host_u32 = λ x. x % 2 ^ 32;
  host_to_net_u32 = λ x. x;
  net_to_host_u16_word = λ x. omega arith;
  net_to_host_u32_word = λ x. omega arith;
  net_to_host_u16_inverse = λ x h. omega (arith, h);
  net_to_host_u32_inverse = λ x h. omega (arith, h);
}

abbrev as_is : Wire ℕ
as_is = record {
  ApiAddress = ℕ;
  ApiPrefix = Prefix;
  ip_address_decode = λ a. a;
  ip_address_encode = λ a. a;
  ip_prefix_decode = λ p. p;
  ip_address_decode_inverse = λ a. refl;
}

abbrev add_tunnel : TunnelAddDel some_vpp as_is big_endian
add_tunnel = record {
  is_add = true;
  local_ip = 1;
  peer_ip = 2;
  local_port = 1701;
  peer_port = 1701;
  local_tid = 7;
  peer_tid = 8;
}

abbrev add_session : SessionAddDel some_vpp as_is big_endian
add_session = record {
  is_add = true;
  tunnel_index = 0;
  local_sid = 9;
  peer_sid = 21;
  acfc = 1;
  pfc = 0;
}

abbrev interface_six : HwInterface
interface_six = record { hw_if_index = 5; sw_if_index = 6 }

abbrev good : (es : Sessions) × IsGood some_vpp with_tunnel es
good = Reach-IsGood some_vpp ones_complement ten_net empty-IsInitial tunnel_reached

session_cli-BothAgree_example :
    BothAgree some_vpp as_is big_endian 0 with_tunnel
      (session_cli some_vpp with_tunnel
        (some (session_line some_vpp as_is big_endian 0 add_session))
        interface_six)
      (session_handler some_vpp as_is big_endian with_tunnel add_session interface_six)
session_cli-BothAgree_example =
    session_cli-BothAgree some_vpp as_is big_endian 0 with_tunnel good.0 add_session interface_six
      good.1 refl (λ e. absurd (omega (arith, e))) (omega arith) (omega arith)

abbrev another_session : Command some_vpp as_is big_endian 0
another_session =
    cli_session (some (tunnel_is 0 ∷ local_sid_is 10 ∷ peer_sid_is 22 ∷ [])) interface_six

execute-Reach_example :
    Returns
      (execute some_vpp as_is big_endian 0 with_session another_session)
      (Reach some_vpp ones_complement ten_net empty)
execute-Reach_example =
    execute-Reach some_vpp as_is big_endian 0 ones_complement ten_net empty-IsInitial
      session_reached another_session (λ tid e. absurd (ground arith)) (λ sw e. ground arith)

-- An id above 16 bits is cut: this line adds a tunnel with the local id 7.
abbrev wide_line : List (TunnelOption some_vpp 0)
wide_line = local_is 1 ∷ peer_is 2 ∷ local_tid_is 65543 ∷ peer_tid_is 8 ∷ []

wide_line_tid : new_tid some_vpp as_is big_endian 0 (cli_tunnel (some wide_line)) ≡ some 7
unfolding read_tunnel
wide_line_tid = refl

tunnel_dump-IsOfTunnel_example :
    ((i : ℕ) (t : Tunnel ℕ)
      → (all_ones ≡ all_ones) ⊎ (all_ones ≡ i)
      → some_vpp.tunnel_pool.elt with_session.tunnels i ≡ some t
      → Among
          (tunnel_details some_vpp as_is big_endian i t)
          (tunnel_dump some_vpp as_is big_endian with_session true all_ones))
    × ((d : TunnelDetails some_vpp as_is big_endian)
        → Among d (tunnel_dump some_vpp as_is big_endian with_session true all_ones)
        → (i : ℕ) × (t : Tunnel ℕ) × ((all_ones ≡ all_ones) ⊎ (all_ones ≡ i))
          × (some_vpp.tunnel_pool.elt with_session.tunnels i ≡ some t)
          × (d ≡ tunnel_details some_vpp as_is big_endian i t))
tunnel_dump-IsOfTunnel_example =
    tunnel_dump-IsOfTunnel some_vpp as_is big_endian with_session all_ones

abbrev counter : ℕ → ℕ
counter sw = 0

session_dump-IsOfSession_example :
    ((i : ℕ) (s : Session)
      → some_vpp.session_pool.elt with_session.sessions i ≡ some s
      → (5 == all_ones || s.sw_if_index == 5) ≡ true
      → Among
          (session_details some_vpp as_is big_endian counter counter s)
          (session_dump some_vpp as_is big_endian counter counter with_session true 5))
    × ((d : SessionDetails some_vpp as_is big_endian counter counter)
        → Among d (session_dump some_vpp as_is big_endian counter counter with_session true 5)
        → (i : ℕ) × (s : Session) × (some_vpp.session_pool.elt with_session.sessions i ≡ some s)
          × ((5 == all_ones || s.sw_if_index == 5) ≡ true)
          × (d ≡ session_details some_vpp as_is big_endian counter counter s))
session_dump-IsOfSession_example =
    session_dump-IsOfSession some_vpp as_is big_endian with_session counter counter 5

-- On an interface that is on, then off, and one that is not of the hardware.
abbrev hardware : ℕ → Option Bool
hardware sw = if sw == 4 then some false else some true

enable_all-IsSwitched_example :
    IsSwitched hardware
      ((3, false) ∷ (4, true) ∷ (3, true) ∷ [])
      (enable_all hardware ((3, false) ∷ (4, true) ∷ (3, true) ∷ []))
enable_all-IsSwitched_example =
    enable_all-IsSwitched hardware ((3, false) ∷ (4, true) ∷ (3, true) ∷ [])

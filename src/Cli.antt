-- ===== src/Cli.antt =====
-- plugin/l2tvpp/l2tvpp_cli.c, and the commands of flow_handoff.c, encap_fastpath.c and the startup
-- configuration of l2tvpp.c: a line is the list of the options that `unformat` finds in it, and is
-- `none` where there is no line.
pub mod Agreement
pub mod Commands
pub mod Switches
use l2tvpp.Common.{
  ℕ, ◌+◌, ◌-◌, ◌%◌, ◌^◌, Bool, true, false, not, ◌&&◌, ◌||◌, Option, some, none, List, [], ◌∷◌,
  length, ltb, ◌==◌, if◌then◌else◌, ◌>>=◌,
}
use l2tvpp.Vpp.{Vpp, Bihash}
use l2tvpp.Header.{udp_port}
use l2tvpp.Registry.{
  Main, Result, ok, err, ApiError, HwInterface, VnetCall, tunnel_add_del, session_add_del,
}
use l2tvpp.Api.{all_ones}
use l2tvpp.Encap.{Prefix, EncapCache, FibCall, route_add_del}
use l2tvpp.Settings.{Handoff, set_handoff}

-- A command ends with an error, which changes nothing, or with a state and an index to print.
pub data CliError : Type 0 where
  unknown_input required : CliError
  returned : ApiError → CliError

pub data Answer (A : Type 0) : Type 0 where
  done : A → (shown : Option ℕ) → Answer A
  failed : CliError → Answer A

abbrev pub is_unset : ℕ → Bool
is_unset x = x == all_ones

module _ (V : Vpp) (no_address : V.Address) where
  open V use {Address}

  -- Numbers are read by `%d` into 32 bits.
  pub data TunnelOption : Type 0 where
    tunnel_delete tunnel_unknown : TunnelOption
    local_is peer_is : Address → TunnelOption
    local_port_is peer_port_is local_tid_is peer_tid_is : ℕ → TunnelOption

  pub record TunnelArgs : Type 0 where
    pub is_add : Bool
    pub local_ip : Address
    pub peer_ip : Address
    pub local_port : ℕ
    pub peer_port : ℕ
    pub local_tid : ℕ
    pub peer_tid : ℕ

  abbrev pub no_tunnel_args : TunnelArgs
  no_tunnel_args = record {
    is_add = true;
    local_ip = no_address;
    peer_ip = no_address;
    local_port = udp_port;
    peer_port = udp_port;
    local_tid = all_ones;
    peer_tid = all_ones;
  }

  -- The loop over the line; `none` at the first option that is not known.
  unfoldable pub read_tunnel : List TunnelOption → TunnelArgs → Option TunnelArgs
  read_tunnel [] a = some a
  read_tunnel (tunnel_unknown ∷ rest) a = none
  read_tunnel (tunnel_delete ∷ rest) a = read_tunnel rest (record a { is_add = false })
  read_tunnel (local_is ip ∷ rest) a = read_tunnel rest (record a { local_ip = ip })
  read_tunnel (peer_is ip ∷ rest) a = read_tunnel rest (record a { peer_ip = ip })
  read_tunnel (local_port_is n ∷ rest) a = read_tunnel rest (record a { local_port = n })
  read_tunnel (peer_port_is n ∷ rest) a = read_tunnel rest (record a { peer_port = n })
  read_tunnel (local_tid_is n ∷ rest) a = read_tunnel rest (record a { local_tid = n })
  read_tunnel (peer_tid_is n ∷ rest) a = read_tunnel rest (record a { peer_tid = n })

  unfoldable pub tunnel_answer : Result (Main V × Option ℕ) → Answer (Main V)
  tunnel_answer (err e) = failed (returned e)
  tunnel_answer (ok (m, i)) = done m i

  -- Past the loop. The parameters of the call are 16 bits wide.
  unfoldable pub tunnel_command : Main V → Option TunnelArgs → Answer (Main V)
  tunnel_command m none = failed unknown_input
  tunnel_command m (some a) =
      if is_unset a.local_tid || (a.is_add && is_unset a.peer_tid)
      then failed required
      else tunnel_answer (
          tunnel_add_del V m a.local_ip a.peer_ip (a.local_port % 2 ^ 16) (a.peer_port % 2 ^ 16)
            (a.local_tid % 2 ^ 16) (a.peer_tid % 2 ^ 16) a.is_add)

  -- `l2tvpp_tunnel_cli`.
  unfoldable pub tunnel_cli : Main V → Option (List TunnelOption) → Answer (Main V)
  tunnel_cli m none = done m none
  tunnel_cli m (some line) = tunnel_command m (read_tunnel line no_tunnel_args)

pub data SessionOption : Type 0 where
  session_delete session_unknown with_acfc with_pfc : SessionOption
  tunnel_is local_sid_is peer_sid_is : ℕ → SessionOption

pub record SessionArgs : Type 0 where
  pub is_add : Bool
  pub tunnel_index : ℕ
  pub local_sid : ℕ
  pub peer_sid : ℕ
  pub acfc : ℕ
  pub pfc : ℕ

abbrev pub no_session_args : SessionArgs
no_session_args = record {
  is_add = true;
  tunnel_index = all_ones;
  local_sid = all_ones;
  peer_sid = all_ones;
  acfc = 0;
  pfc = 0;
}

unfoldable pub read_session : List SessionOption → SessionArgs → Option SessionArgs
read_session [] a = some a
read_session (session_unknown ∷ rest) a = none
read_session (session_delete ∷ rest) a = read_session rest (record a { is_add = false })
read_session (tunnel_is n ∷ rest) a = read_session rest (record a { tunnel_index = n })
read_session (local_sid_is n ∷ rest) a = read_session rest (record a { local_sid = n })
read_session (peer_sid_is n ∷ rest) a = read_session rest (record a { peer_sid = n })
read_session (with_acfc ∷ rest) a = read_session rest (record a { acfc = 1 })
read_session (with_pfc ∷ rest) a = read_session rest (record a { pfc = 1 })

module _ (V : Vpp) where
  -- An addition prints the name of its interface.
  unfoldable pub session_answer :
      Bool → HwInterface → Result (Main V × List VnetCall) → Answer (Main V)
  session_answer is_add hi (err e) = failed (returned e)
  session_answer is_add hi (ok (m, calls)) = done m (if is_add then some hi.sw_if_index else none)

  unfoldable pub session_command :
      Main V → HwInterface → Option SessionArgs → Option (Answer (Main V))
  session_command m hi none = some (failed unknown_input)
  session_command m hi (some a) =
      if is_unset a.tunnel_index || is_unset a.local_sid || (a.is_add && is_unset a.peer_sid)
      then some (failed required)
      else do
        result ←
            session_add_del V m a.tunnel_index (a.local_sid % 2 ^ 16) (a.peer_sid % 2 ^ 16) a.acfc
              a.pfc a.is_add hi
        some (session_answer a.is_add hi result)

  -- `l2tvpp_session_cli`; `hi` is vnet's answer to the registration.
  unfoldable pub session_cli :
      Main V → Option (List SessionOption) → HwInterface → Option (Answer (Main V))
  session_cli m none hi = some (done m none)
  session_cli m (some line) hi = session_command m hi (read_session line no_session_args)

-- ===== src/Cli/Commands.antt =====
-- Messages and lines of the CLI as they come, on the state that control calls reach.
use l2tvpp.Common.{
  ℕ, ◌%◌, ◌^◌, ◌<◌, ◌≡◌, refl, Bool, true, ◌&&◌, ◌||◌, Option, some, none, List, if◌then◌else◌,
  if_cases, arith, ◌>>=◌, Returns, Returns-some,
}
use l2tvpp.Vpp.{Vpp}
use l2tvpp.Registry.{
  Main, Result, ok, err, HwInterface, VnetCall, vec_at, tunnel_add_del, session_add_del,
}
use l2tvpp.Registry.Sessions.{session_add_del-Refines}
use l2tvpp.Rewrite.{Checksum}
use l2tvpp.System.{IsInitial, IsFreshTid, tunnel_call, session_call, Reach, next}
use l2tvpp.System.Invariant.{Reach-IsGood}
use l2tvpp.Api.{
  Endian, Wire, TunnelAddDel, SessionAddDel, tunnel_reply, tunnel_handler, session_reply,
  session_handler,
}
use l2tvpp.Cli.{
  Answer, done, failed, is_unset, TunnelOption, TunnelArgs, no_tunnel_args, read_tunnel,
  tunnel_answer, tunnel_command, tunnel_cli, SessionOption, SessionArgs, session_answer,
  session_command, session_cli,
}

module _ (V : Vpp) (W : Wire V.Address) (E : Endian) (no_address : V.Address) where
  open E use {net_to_host_u16, net_to_host_u32, net_to_host_u16_word}

  -- A message or a line that makes or deletes a tunnel or a session, with vnet's interface.
  pub data Command : Type 0 where
    api_tunnel : TunnelAddDel V W E → Command
    api_session : SessionAddDel V W E → HwInterface → Command
    cli_tunnel : Option (List (TunnelOption V no_address)) → Command
    cli_session : Option (List SessionOption) → HwInterface → Command

  abbrev pub state_after : Main V → Answer (Main V) → Main V
  state_after m (done m' shown) = m'
  state_after m (failed e) = m

  -- The state after a command.
  abbrev pub execute : Main V → Command → Option (Main V)
  execute m (api_tunnel mp) = some ((tunnel_handler V W E m mp).0)
  execute m (api_session mp hi) = do r ← session_handler V W E m mp hi; some (r.0)
  execute m (cli_tunnel line) = some (state_after m (tunnel_cli V no_address m line))
  execute m (cli_session line hi) = do a ← session_cli V m line hi; some (state_after m a)

  -- The local id of the tunnel that a command adds, in 16 bits.
  abbrev pub added_tid : Option (TunnelArgs V no_address) → Option ℕ
  added_tid none = none
  added_tid (some a) = if a.is_add then some (a.local_tid % 2 ^ 16) else none

  abbrev pub new_tid : Command → Option ℕ
  new_tid (api_tunnel mp) = if mp.is_add then some (net_to_host_u16 mp.local_tid) else none
  new_tid (cli_tunnel (some line)) =
      added_tid (read_tunnel V no_address line (no_tunnel_args V no_address))
  new_tid _ = none

  -- The interface that vnet has for the command.
  abbrev pub new_interface : Command → Option ℕ
  new_interface (api_session mp hi) = some hi.sw_if_index
  new_interface (cli_session line hi) = some hi.sw_if_index
  new_interface _ = none

  module _ (C : Checksum) (ip4_bytes : V.Address → List ℕ) {m0 m : Main V} (z : IsInitial V m0)
      (r : Reach V C ip4_bytes m0 m) where
    module _ (local_ip peer_ip : V.Address) (local_port peer_port tid peer_tid : ℕ) (is_add : Bool)
        (small : tid < 65536) (fresh : is_add ≡ true → IsFreshTid V m tid) where
      abbrev tunnel_result : Result (Main V × Option ℕ)
      tunnel_result = tunnel_add_del V m local_ip peer_ip local_port peer_port tid peer_tid is_add

      tunnel_reply-Reach :
          (o : Result (Main V × Option ℕ))
          → tunnel_result ≡ o
          → Reach V C ip4_bytes m0 ((tunnel_reply V W E m o).0)
      unfolding tunnel_reply
      tunnel_reply-Reach (err e) is = r
      tunnel_reply-Reach (ok (m', i)) is =
          next r
            (tunnel_call local_ip peer_ip local_port peer_port tid peer_tid is_add i small fresh is)

      tunnel_answer-Reach :
          (o : Result (Main V × Option ℕ))
          → tunnel_result ≡ o
          → Reach V C ip4_bytes m0 (state_after m (tunnel_answer V no_address o))
      unfolding tunnel_answer
      tunnel_answer-Reach (err e) is = r
      tunnel_answer-Reach (ok (m', i)) is =
          next r
            (tunnel_call local_ip peer_ip local_port peer_port tid peer_tid is_add i small fresh is)

    module _ (ti sid peer_sid acfc pfc : ℕ) (is_add : Bool) (hi : HwInterface) (small : sid < 65536)
        (unused : vec_at m.session_index_by_sw_if_index hi.sw_if_index ≡ none) where
      session_returns :
          Returns (session_add_del V m ti sid peer_sid acfc pfc is_add hi) (λ _. Unit {0})
      session_returns =
          let (es, g) = Reach-IsGood V C ip4_bytes z r in
          let done_ =
            session_add_del-Refines V m es ti sid peer_sid acfc pfc is_add hi g.represents g.unique
              g.words g.tids small unused in
          record { value = done_.value; returns = done_.returns; holds = tt }

      session_reply-Reach :
          (o : Result (Main V × List VnetCall))
          → session_add_del V m ti sid peer_sid acfc pfc is_add hi ≡ some o
          → Reach V C ip4_bytes m0 ((session_reply V W E m is_add hi o).0)
      unfolding session_reply
      session_reply-Reach (err e) is = r
      session_reply-Reach (ok (m', calls)) is =
          next r (session_call ti sid peer_sid acfc pfc is_add hi calls small unused is)

      session_answer-Reach :
          (o : Result (Main V × List VnetCall))
          → session_add_del V m ti sid peer_sid acfc pfc is_add hi ≡ some o
          → Reach V C ip4_bytes m0 (state_after m (session_answer V is_add hi o))
      unfolding session_answer
      session_answer-Reach (err e) is = r
      session_answer-Reach (ok (m', calls)) is =
          next r (session_call ti sid peer_sid acfc pfc is_add hi calls small unused is)

    tunnel_command-Reach :
        (o : Option (TunnelArgs V no_address))
        → ((tid : ℕ) → added_tid o ≡ some tid → IsFreshTid V m tid)
        → Reach V C ip4_bytes m0 (state_after m (tunnel_command V no_address m o))
    unfolding tunnel_command
    tunnel_command-Reach none fresh = r
    tunnel_command-Reach (some a) fresh =
        if_cases (λ x. Reach V C ip4_bytes m0 (state_after m x))
          (is_unset a.local_tid || (a.is_add && is_unset a.peer_tid)) (λ _. r)
          λ _.
            tunnel_answer-Reach _ _ _ _ _ _ a.is_add (omega arith) (λ add. fresh _ (rw add refl)) _
              refl

    session_command-Reach :
        (o : Option SessionArgs) (hi : HwInterface)
        → vec_at m.session_index_by_sw_if_index hi.sw_if_index ≡ none
        → Returns (do a ← session_command V m hi o; some (state_after m a)) (Reach V C ip4_bytes m0)
    unfolding session_command
    session_command-Reach none hi unused = Returns-some r
    session_command-Reach (some a) hi unused =
        if_cases (λ x. Returns (do c ← x; some (state_after m c)) (Reach V C ip4_bytes m0))
          (is_unset a.tunnel_index || is_unset a.local_sid || (a.is_add && is_unset a.peer_sid))
          (λ _. Returns-some r)
          λ _.
            let d =
              session_returns a.tunnel_index (a.local_sid % 2 ^ 16) (a.peer_sid % 2 ^ 16) a.acfc
                a.pfc a.is_add hi (omega arith) unused in
            rw d.returns (
              Returns-some (
                session_answer-Reach a.tunnel_index (a.local_sid % 2 ^ 16) (a.peer_sid % 2 ^ 16)
                  a.acfc a.pfc a.is_add hi (omega arith) unused d.value d.returns))

    -- In every state that control calls and adjacency updates reach from the empty one, a message or a
    -- line of the CLI ends, whatever its numbers, and leaves such a state again, so that all that
    -- holds in these states goes on to hold: if a tunnel that it adds has a fresh local id in 16 bits,
    -- and vnet's new interface has no session.
    pub execute-Reach :
        (c : Command)
        → ((tid : ℕ) → new_tid c ≡ some tid → IsFreshTid V m tid)
        → ((sw : ℕ) → new_interface c ≡ some sw → vec_at m.session_index_by_sw_if_index sw ≡ none)
        → Returns (execute m c) (Reach V C ip4_bytes m0)
    unfolding tunnel_handler session_handler tunnel_cli session_cli
    execute-Reach (api_tunnel mp) fresh unused = Returns-some (
        tunnel_reply-Reach _ _ _ _ _ _ mp.is_add (net_to_host_u16_word mp.local_tid)
          (λ add. fresh _ (rw add refl)) _ refl)
    execute-Reach (api_session mp hi) fresh unused =
        let small = net_to_host_u16_word mp.local_sid in
        let free = unused hi.sw_if_index refl in
        let d =
          session_returns (net_to_host_u32 mp.tunnel_index) (net_to_host_u16 mp.local_sid)
            (net_to_host_u16 mp.peer_sid) mp.acfc mp.pfc mp.is_add hi small free in
        rw d.returns (
          Returns-some (
            session_reply-Reach (net_to_host_u32 mp.tunnel_index) (net_to_host_u16 mp.local_sid)
              (net_to_host_u16 mp.peer_sid) mp.acfc mp.pfc mp.is_add hi small free d.value
              d.returns))
    execute-Reach (cli_tunnel none) fresh unused = Returns-some r
    execute-Reach (cli_tunnel (some line)) fresh unused =
        Returns-some (tunnel_command-Reach _ fresh)
    execute-Reach (cli_session none hi) fresh unused = Returns-some r
    execute-Reach (cli_session (some line) hi) fresh unused =
        session_command-Reach _ hi (unused hi.sw_if_index refl)

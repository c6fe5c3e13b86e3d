-- ===== src/Cli/Agreement.antt =====
-- A line of the CLI with the numbers of a message does what the message's handler does.
use l2tvpp.Common.{
  ℕ, ◌%◌, ◌^◌, ◌≤◌, ◌≡◌, ◌≢◌, refl, Bool, true, false, ◌&&◌, Option, some, none, List, [], ◌∷◌,
  ◌++◌, ◌==◌, if◌then◌else◌, arith, ◌>>=◌,
}
use l2tvpp.Vpp.{Vpp}
use l2tvpp.Registry.{Main, Result, ok, err, HwInterface, VnetCall, vec_at}
use l2tvpp.Registry.Ghost.{Sessions}
use l2tvpp.Registry.Sessions.{session_add_del-Refines}
use l2tvpp.System.Good.{IsGood}
use l2tvpp.Api.{
  Endian, Wire, Reply, all_ones, TunnelAddDel, SessionAddDel, session_reply, session_handler,
}
use l2tvpp.Cli.{
  Answer, done, failed, returned, TunnelOption, tunnel_delete, local_is, peer_is, local_port_is,
  peer_port_is, local_tid_is, peer_tid_is, TunnelArgs, SessionOption, session_delete, tunnel_is,
  local_sid_is, peer_sid_is, with_acfc, with_pfc, SessionArgs, no_session_args, read_session,
  session_answer, session_command, session_cli,
}

module _ (V : Vpp) (W : Wire V.Address) (E : Endian) (no_address : V.Address) where
  open E use {net_to_host_u16, net_to_host_u32, net_to_host_u16_word, net_to_host_u32_word}
  open W use {ip_address_decode}

  -- The command and the handler end in one state without an error, or both fail with one error and
  -- leave the state.
  abbrev pub Agrees : Main V → Answer (Main V) → Main V × Reply → Type 0
  Agrees m (done m' shown) (m'', reply) = (m'' ≡ m') × (reply.retval ≡ none)
  Agrees m (failed (returned e)) (m'', reply) = (m'' ≡ m) × (reply.retval ≡ some e)
  Agrees m (failed _) (m'', reply) = ⊥

  abbrev pub tunnel_line : TunnelAddDel V W E → List (TunnelOption V no_address)
  tunnel_line mp =
      (if mp.is_add then [] else tunnel_delete ∷ [])
      ++ (local_is (ip_address_decode mp.local_ip)
          ∷ peer_is (ip_address_decode mp.peer_ip)
          ∷ local_port_is (net_to_host_u16 mp.local_port)
          ∷ peer_port_is (net_to_host_u16 mp.peer_port)
          ∷ local_tid_is (net_to_host_u16 mp.local_tid)
          ∷ peer_tid_is (net_to_host_u16 mp.peer_tid)
          ∷ [])

  tunnel_args : TunnelAddDel V W E → TunnelArgs V no_address
  tunnel_args mp = record {
    is_add = mp.is_add;
    local_ip = ip_address_decode mp.local_ip;
    peer_ip = ip_address_decode mp.peer_ip;
    local_port = net_to_host_u16 mp.local_port;
    peer_port = net_to_host_u16 mp.peer_port;
    local_tid = net_to_host_u16 mp.local_tid;
    peer_tid = net_to_host_u16 mp.peer_tid;
  }

  no_and : (b : Bool) → b && false ≡ false
  no_and true = refl
  no_and false = refl

  -- Both end, and they agree.
  abbrev pub BothAgree : Main V → Option (Answer (Main V)) → Option (Main V × Reply) → Type 0
  BothAgree m (some answer) (some reply) = Agrees m answer reply
  BothAgree m _ _ = ⊥

  -- The options of a session, with each flag as a Boolean.
  abbrev session_options : Bool → Bool → Bool → ℕ → ℕ → ℕ → List SessionOption
  session_options is_add acfc pfc tunnel_index local_sid peer_sid =
      (if is_add then [] else session_delete ∷ [])
      ++ ((if acfc then with_acfc ∷ [] else [])
          ++ ((if pfc then with_pfc ∷ [] else [])
              ++ (tunnel_is tunnel_index ∷ local_sid_is local_sid ∷ peer_sid_is peer_sid ∷ [])))

  abbrev pub session_line : SessionAddDel V W E → List SessionOption
  session_line mp =
      session_options mp.is_add (mp.acfc == 1) (mp.pfc == 1) (net_to_host_u32 mp.tunnel_index)
        (net_to_host_u16 mp.local_sid) (net_to_host_u16 mp.peer_sid)

  abbrev session_args : Bool → Bool → Bool → ℕ → ℕ → ℕ → SessionArgs
  session_args is_add acfc pfc tunnel_index local_sid peer_sid = record {
    is_add = is_add;
    tunnel_index = tunnel_index;
    local_sid = local_sid;
    peer_sid = peer_sid;
    acfc = if acfc then 1 else 0;
    pfc = if pfc then 1 else 0;
  }

  read_session-session_options :
      (b c d : Bool) (ti ls ps : ℕ)
      → read_session (session_options b c d ti ls ps) no_session_args
        ≡ some (session_args b c d ti ls ps)
  unfolding read_session
  read_session-session_options true true true ti ls ps = refl
  read_session-session_options true true false ti ls ps = refl
  read_session-session_options true false true ti ls ps = refl
  read_session-session_options true false false ti ls ps = refl
  read_session-session_options false true true ti ls ps = refl
  read_session-session_options false true false ti ls ps = refl
  read_session-session_options false false true ti ls ps = refl
  read_session-session_options false false false ti ls ps = refl

  session_answer-BothAgree :
      (m : Main V) (b : Bool) (hi : HwInterface) (o : Option (Result (Main V × List VnetCall)))
      (r : Result (Main V × List VnetCall))
      → o ≡ some r
      → BothAgree m
          (do r ← o; some (session_answer V b hi r))
          (do r ← o; some (session_reply V W E m b hi r))
  unfolding session_answer session_reply
  session_answer-BothAgree m b hi o (err e) is = rw is (refl, refl)
  session_answer-BothAgree m b hi o (ok (m', calls)) is = rw is (refl, refl)

  -- The session command on a line with the values of a message, and the handler of that message, end
  -- in one state without an error, or fail with one error and leave the state; neither reads at a free
  -- index. The state stands for a list of sessions, as each state does that control calls reach, vnet's
  -- new interface has no session, the tunnel index is not ~0, which the command takes for one that is
  -- missing, and each flag is 0 or 1.
  pub session_cli-BothAgree :
      (m : Main V) (es : Sessions) (mp : SessionAddDel V W E) (hi : HwInterface)
      → IsGood V m es
      → vec_at m.session_index_by_sw_if_index hi.sw_if_index ≡ none
      → net_to_host_u32 mp.tunnel_index ≢ all_ones
      → mp.acfc ≤ 1
      → mp.pfc ≤ 1
      → BothAgree m (session_cli V m (some (session_line mp)) hi) (session_handler V W E m mp hi)
  unfolding session_cli session_command session_handler
  session_cli-BothAgree m es mp hi g unused some_tunnel acfc_flag pfc_flag =
      let done =
        session_add_del-Refines V m es (net_to_host_u32 mp.tunnel_index)
          (net_to_host_u16 mp.local_sid) (net_to_host_u16 mp.peer_sid) mp.acfc mp.pfc mp.is_add hi
          g.represents g.unique g.words g.tids (omega (arith, net_to_host_u16_word mp.local_sid))
          unused in
      let set : (net_to_host_u32 mp.tunnel_index == all_ones) ≡ false =
        ground (arith, some_tunnel) in
      let set' : (net_to_host_u16 mp.local_sid == all_ones) ≡ false =
        ground (arith, net_to_host_u16_word mp.local_sid) in
      let set'' : (net_to_host_u16 mp.peer_sid == all_ones) ≡ false =
        ground (arith, net_to_host_u16_word mp.peer_sid) in
      rw
        (
          read_session-session_options mp.is_add (mp.acfc == 1) (mp.pfc == 1)
              (net_to_host_u32 mp.tunnel_index) (net_to_host_u16 mp.local_sid)
              (net_to_host_u16 mp.peer_sid),
          set,
          set',
          set'',
          flag mp.acfc acfc_flag,
          flag mp.pfc pfc_flag,
          word mp.local_sid,
          word mp.peer_sid,
          no_and mp.is_add,
        )
        (session_answer-BothAgree m mp.is_add hi _ done.value done.returns)
    where
      word : (x : ℕ) → net_to_host_u16 x % 2 ^ 16 ≡ net_to_host_u16 x
      word x = omega (arith, net_to_host_u16_word x)

      flag : (x : ℕ) → x ≤ 1 → (if x == 1 then 1 else 0) ≡ x
      flag x h = ground arith

-- ===== src/System/Packets.antt =====
-- Packets in the states that control calls reach.
use l2tvpp.Common.{
  ℕ, ◌≤◌, ◌<◌, ◌≡◌, refl, sym, ◌∙◌, subst, Bool, true, false, some, none, List, length, arith,
  Returns,
}
use l2tvpp.Objects.{Tunnel, Session}
use l2tvpp.Vpp.{Vpp}
use l2tvpp.Header.{session_key}
use l2tvpp.Header.Frame.{Frame, IsFrame}
use l2tvpp.Registry.{Main, ok, HwInterface, VnetCall, vec_at, new_session, session_add_del}
use l2tvpp.Registry.Ghost.{Sessions, by_index_of_key, by_key-without}
use l2tvpp.Registry.Sessions.{Refines, session_add_del-Refines}
use l2tvpp.Input.{Outcome, Next, input_packet, delivered, punted, punt_no_session}
use l2tvpp.Input.Safety.{IsConsistent, IsHandled, input_packet-IsHandled}
use l2tvpp.Input.Decap.{Carries, counted, packet_bytes, headers_length, input_packet-packet_bytes}
use l2tvpp.Input.Unknown.{input_packet-unknown}
use l2tvpp.Handoff.{thread_of}
use l2tvpp.Handoff.Affinity.{IsInjective, thread_of-session}
use l2tvpp.Rewrite.{Checksum}
use l2tvpp.System.{tables_of, IsInitial, Reach}
use l2tvpp.System.Good.{IsGood}
use l2tvpp.System.Invariant.{Reach-IsGood}

module _ (V : Vpp) where
  open V.tunnel_pool use {elt as tunnel_at}
  open V.session_pool use {elt as session_at, next_index as next_session}

  module _ (m : Main V) (no_checksum : Bool) (es : Sessions) (g : IsGood V m es) where
    pub keyed :
        (k si : ℕ)
        → V.bihash.search m.session_by_key k ≡ some si
        → (s : Session) × (session_at m.sessions si ≡ some s)
          × (session_key s.local_tid s.local_sid ≡ k)
    keyed k si e =
        let (s, at, of_key) =
          by_index_of_key k si es g.represents.distinct (sym (g.represents.keys_are k) ∙ e) in
        (s, g.represents.sessions_are si ∙ at, of_key)

    tables_of-IsConsistent : IsConsistent (tables_of V m no_checksum)
    tables_of-IsConsistent k si e = let (s, at, _) = keyed k si e in (s, at)

    tables_of-IsInjective : IsInjective (tables_of V m no_checksum)
    tables_of-IsInjective k k' si e e' =
        let (s, at, of_k) = keyed k si e in let (s', at', of_k') = keyed k' si e' in cc

module _ (V : Vpp) (C : Checksum) (ip4_bytes : V.Address → List ℕ) where
  open V.tunnel_pool use {elt as tunnel_at}
  open V.session_pool use {elt as session_at, next_index as next_session}

  module _ {m0 m : Main V} (z : IsInitial V m0) (r : Reach V C ip4_bytes m0 m)
      (no_checksum : Bool) where
    -- In every state that control calls and adjacency updates reach from the empty one, `l2tvpp-input` reads
    -- only inside the packet and at sessions in use, whatever the bytes, and returns: a drop, a punt
    -- from the IP header, or a delivery inside the packet to the session that its ids look up.
    pub Reach-IsHandled :
        (p : List ℕ)
        → Returns
            (input_packet (tables_of V m no_checksum) p)
            (IsHandled (tables_of V m no_checksum) p)
    Reach-IsHandled p =
        let (es, g) = Reach-IsGood V C ip4_bytes z r in
        input_packet-IsHandled (tables_of V m no_checksum) p
          (tables_of-IsConsistent V m no_checksum es g)

    -- In every such state, with 1 to 65535 workers, `l2tvpp-handoff` sends two packets that
    -- `l2tvpp-input` gives to one session to one thread, which is a worker 1 .. n, from whichever
    -- threads they come.
    pub Reach-thread_of :
        (n this this' : ℕ) (p q : List ℕ) (o o' : Outcome) (si : ℕ)
        → 0 < n
        → n < 65536
        → input_packet (tables_of V m no_checksum) p ≡ some o
        → input_packet (tables_of V m no_checksum) q ≡ some o'
        → o.session_index ≡ some si
        → o'.session_index ≡ some si
        → (w : ℕ) × (thread_of n this p ≡ some w)
          × (thread_of n this' q ≡ some w)
          × (1 ≤ w)
          × (w ≤ n)
    Reach-thread_of n this this' p q o o' si pos small =
        let (es, g) = Reach-IsGood V C ip4_bytes z r in
        thread_of-session (tables_of V m no_checksum) n this this' p q o o' si pos small
          (tables_of-IsInjective V m no_checksum es g)

    module _ (m' : Main V) (ti sid peer_sid acfc pfc : ℕ) (hi : HwInterface) (t : Tunnel V.Address)
        (calls : List VnetCall) (here : tunnel_at m.tunnels ti ≡ some t) (small : sid < 65536)
        (unused : vec_at m.session_index_by_sw_if_index hi.sw_if_index ≡ none) (f : Frame)
        (framed short : Bool) (proto : ℕ) (payload : List ℕ) (v : IsFrame f)
        (tid : f.tid ≡ t.local_tid) (its_sid : f.sid ≡ sid) (long : 3 ≤ length payload) where
      answer :
          (is_add : Bool)
          → session_add_del V m ti sid peer_sid acfc pfc is_add hi ≡ some (ok (m', calls))
          → (es : Sessions) × IsGood V m es
            × Refines V m es ti sid peer_sid acfc pfc hi (some t) is_add (ok (m', calls))
      answer is_add e =
          let (es, g) = Reach-IsGood V C ip4_bytes z r in
          let done =
            session_add_del-Refines V m es ti sid peer_sid acfc pfc is_add hi g.represents g.unique
              g.words g.tids small unused in
          let same : done.value ≡ ok (m', calls) = cc (done.returns) in
          (
            es,
            g,
            subst (λ o. Refines V m es ti sid peer_sid acfc pfc hi o is_add (ok (m', calls))) here
                (subst (Refines V m es ti sid peer_sid acfc pfc hi (tunnel_at m.tunnels ti) is_add)
                  same done.holds),
          )

      -- Once a session is added in such a state, a data packet with its tunnel's local id and its
      -- local id, whatever its optional fields, is delivered: advanced by exactly its headers, to the
      -- IP node of its protocol, on the interface that vnet gave the session.
      pub added-packet_bytes :
          (n : Next)
          → Carries (tables_of V m' no_checksum) proto n
          → session_add_del V m ti sid peer_sid acfc pfc true hi ≡ some (ok (m', calls))
          → input_packet (tables_of V m' no_checksum) (packet_bytes f framed short proto payload)
            ≡ some (
                delivered f.tid f.sid
                  (next_session m.sessions)
                  (counted f.sequence f.pad)
                  proto
                  (headers_length f framed short proto)
                  n
                  (new_session V ti t sid peer_sid acfc pfc hi))
      added-packet_bytes n c e =
          let (es, g, (free, after)) = answer true e in
          let key_is : session_key f.tid f.sid ≡ session_key t.local_tid sid =
            rw (tid, its_sid) refl in
          input_packet-packet_bytes (tables_of V m' no_checksum) f framed short proto n payload
            (next_session m.sessions) (new_session V ti t sid peer_sid acfc pfc hi) v c long
            (after.keys_are (session_key f.tid f.sid) ∙ ground (arith, key_is))
            (after.sessions_are (next_session m.sessions) ∙ ground arith)

      -- Once a session is deleted in such a state, a data packet with its ids is punted as one of no
      -- session.
      pub deleted-packet_bytes :
          session_add_del V m ti sid peer_sid acfc pfc false hi ≡ some (ok (m', calls))
          → input_packet (tables_of V m' no_checksum) (packet_bytes f framed short proto payload)
            ≡ some (punted punt_no_session none f.tid f.sid 0)
      deleted-packet_bytes e =
          let (es, g, (i, found, after)) = answer false e in
          let key_is : session_key f.tid f.sid ≡ session_key t.local_tid sid =
            rw (tid, its_sid) refl in
          let (s, at, of_key) = by_index_of_key _ i es g.represents.distinct found in
          input_packet-unknown (tables_of V m' no_checksum) f framed short proto payload v long (
            after.keys_are (session_key f.tid f.sid)
            ∙ ground (
              arith,
              key_is,
              of_key,
              by_key-without i s es (session_key f.tid f.sid) g.represents.distinct at,
            ))

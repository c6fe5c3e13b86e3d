-- ===== src/Api/Dump.antt =====
-- What the dumps of plugin/l2tvpp/l2tvpp_api.c send.
use l2tvpp.Common.{
  ℕ, ◌≡◌, ◌⊎◌, refl, sym, inl, inr, Bool, Bool-cases, true, false, ◌||◌, Option, some, none,
  Option-cases, List, [], ◌∷◌, ◌==◌, if◌then◌else◌, if_cases, arith,
}
use l2tvpp.Objects.{Tunnel, Session}
use l2tvpp.Vpp.{Vpp, Has}
use l2tvpp.Registry.{Main}
use l2tvpp.Api.{
  Endian, Wire, all_ones, TunnelDetails, tunnel_details, sent_tunnel, sent_session, send_tunnels,
  tunnel_dump, SessionDetails, session_details, send_sessions, session_dump,
}

-- A message is among those that were sent.
abbrev pub Among : {A : Type 0} → A → List A → Type 0
Among x [] = ⊥
Among x (y ∷ ys) = (y ≡ x) ⊎ Among x ys

module _ (V : Vpp) (W : Wire V.Address) (E : Endian) (m : Main V) where
  open V.tunnel_pool use {
    elt as tunnel_at, indices as tunnel_indices, indices_all as tunnel_indices_all,
  }
  open V.session_pool use {
    elt as session_at, indices as session_indices, indices_all as session_indices_all,
  }
  open E use {net_to_host_u32}

  -- A message of a tunnel dump is of a tunnel in use at an index that was asked for.
  abbrev IsOfTunnel : List ℕ → TunnelDetails V W E → Type 0
  IsOfTunnel is d =
      (i : ℕ) × (t : Tunnel V.Address) × Has i is
      × (tunnel_at m.tunnels i ≡ some t)
      × (d ≡ tunnel_details V W E i t)

  send_tunnels_all :
      (is : List ℕ) (i : ℕ) (t : Tunnel V.Address)
      → Has i is
      → tunnel_at m.tunnels i ≡ some t
      → Among (tunnel_details V W E i t) (send_tunnels V W E m is)
  unfolding send_tunnels
  send_tunnels_all [] i t h e = h
  send_tunnels_all (j ∷ is) i t (inl same) e =
      let here : tunnel_at m.tunnels j ≡ some t = rw (← same) e in rw (here, same) (inl refl)
  send_tunnels_all (j ∷ is) i t (inr h) e = elim (Option-cases (tunnel_at m.tunnels j)) [
    | inl free ↦ rw free (send_tunnels_all is i t h e)
    | inr (u, used) ↦ rw used (inr (send_tunnels_all is i t h e))
  ]

  send_tunnels_only :
      (is : List ℕ) (d : TunnelDetails V W E) → Among d (send_tunnels V W E m is) → IsOfTunnel is d
  unfolding send_tunnels
  send_tunnels_only [] d a = absurd a
  send_tunnels_only (j ∷ is) d a = at (tunnel_at m.tunnels j) refl a (send_tunnels_only is d)
    where
      later : IsOfTunnel is d → IsOfTunnel (j ∷ is) d
      later (i, t, h, e, same) = (i, t, inr h, e, same)

      at :
          (o : Option (Tunnel V.Address))
          → tunnel_at m.tunnels j ≡ o
          → Among d (sent_tunnel V W E j o (send_tunnels V W E m is))
          → (Among d (send_tunnels V W E m is) → IsOfTunnel is d)
          → IsOfTunnel (j ∷ is) d
      at none e a rest = later (rest a)
      at (some t) e (inl same) rest = (j, t, inl refl, e, sym same)
      at (some t) e (inr a) rest = later (rest a)

  -- A dump of all tunnels sends a registered client the details of each tunnel in use under its
  -- index, and nothing else; a dump of one index, those of that tunnel only, if it is in use.
  pub tunnel_dump-IsOfTunnel :
      (x : ℕ)
      → ((i : ℕ) (t : Tunnel V.Address)
          → (net_to_host_u32 x ≡ all_ones) ⊎ (net_to_host_u32 x ≡ i)
          → tunnel_at m.tunnels i ≡ some t
          → Among (tunnel_details V W E i t) (tunnel_dump V W E m true x))
        × ((d : TunnelDetails V W E)
            → Among d (tunnel_dump V W E m true x)
            → (i : ℕ) × (t : Tunnel V.Address) × ((net_to_host_u32 x ≡ all_ones)
                ⊎ (net_to_host_u32 x ≡ i))
              × (tunnel_at m.tunnels i ≡ some t)
              × (d ≡ tunnel_details V W E i t))
  unfolding tunnel_dump
  tunnel_dump-IsOfTunnel x = elim (Bool-cases (net_to_host_u32 x == all_ones)) [
    | inl all ↦
        let is_all : net_to_host_u32 x ≡ all_ones = ground arith in
        rw all (
          (λ i t asked e.
              send_tunnels_all (tunnel_indices m.tunnels) i t
                (tunnel_indices_all m.tunnels i (λ free. cc)) e),
          λ d a.
              let (i, t, h, e, same) = send_tunnels_only (tunnel_indices m.tunnels) d a in
              (i, t, inl is_all, e, same),
        )
    | inr one ↦ rw one (
      (λ i t asked e. send_tunnels_all (net_to_host_u32 x ∷ []) i t (asked_one i one asked) e),
      λ d a.
          let (i, t, h, e, same) = send_tunnels_only (net_to_host_u32 x ∷ []) d a in
          (i, t, inr (only_one i h), e, same),
    )
  ]
    where
      asked_one :
          (i : ℕ)
          → (net_to_host_u32 x == all_ones) ≡ false
          → (net_to_host_u32 x ≡ all_ones) ⊎ (net_to_host_u32 x ≡ i)
          → Has i (net_to_host_u32 x ∷ [])
      asked_one i one (inl all) = absurd (ground arith)
      asked_one i one (inr same) = inl (sym same)

      only_one : (i : ℕ) → Has i (net_to_host_u32 x ∷ []) → net_to_host_u32 x ≡ i
      only_one i (inl same) = sym same
      only_one i (inr nothing) = absurd nothing

  module _ {Counter : Type 0} (rx tx : ℕ → Counter) (sw : ℕ) where
    abbrev is_asked : Session → Bool
    is_asked s = sw == all_ones || s.sw_if_index == sw

    abbrev Details : Type 0
    Details = SessionDetails V W E {Counter = Counter} rx tx

    abbrev IsOfSession : List ℕ → Details → Type 0
    IsOfSession is d =
        (i : ℕ) × (s : Session) × Has i is
        × (session_at m.sessions i ≡ some s)
        × (is_asked s ≡ true)
        × (d ≡ session_details V W E rx tx s)

    send_sessions_all :
        (is : List ℕ) (i : ℕ) (s : Session)
        → Has i is
        → session_at m.sessions i ≡ some s
        → is_asked s ≡ true
        → Among (session_details V W E rx tx s) (send_sessions V W E rx tx m sw is)
    unfolding send_sessions
    send_sessions_all [] i s h e asked = h
    send_sessions_all (j ∷ is) i s (inl same) e asked =
        let here : session_at m.sessions j ≡ some s = rw (← same) e in rw (here, asked) (inl refl)
    send_sessions_all (j ∷ is) i s (inr h) e asked = elim (Option-cases (session_at m.sessions j)) [
      | inl free ↦ rw free (send_sessions_all is i s h e asked)
      | inr (u, used) ↦ rw used (
          if_cases (Among (session_details V W E rx tx s)) (is_asked u)
            (λ _. inr (send_sessions_all is i s h e asked))
            (λ _. send_sessions_all is i s h e asked))
    ]

    send_sessions_only :
        (is : List ℕ) (d : Details) → Among d (send_sessions V W E rx tx m sw is) → IsOfSession is d
    unfolding send_sessions
    send_sessions_only [] d a = absurd a
    send_sessions_only (j ∷ is) d a = at (session_at m.sessions j) refl a (send_sessions_only is d)
      where
        later : IsOfSession is d → IsOfSession (j ∷ is) d
        later (i, s, h, e, asked, same) = (i, s, inr h, e, asked, same)

        sent :
            (s : Session) (b : Bool)
            → is_asked s ≡ b
            → session_at m.sessions j ≡ some s
            → Among d (
                if b
                then session_details V W E rx tx s ∷ send_sessions V W E rx tx m sw is
                else send_sessions V W E rx tx m sw is)
            → (Among d (send_sessions V W E rx tx m sw is) → IsOfSession is d)
            → IsOfSession (j ∷ is) d
        sent s true asked e (inl same) rest = (j, s, inl refl, e, asked, sym same)
        sent s true asked e (inr a) rest = later (rest a)
        sent s false asked e a rest = later (rest a)

        at :
            (o : Option Session)
            → session_at m.sessions j ≡ o
            → Among d (sent_session V W E rx tx sw o (send_sessions V W E rx tx m sw is))
            → (Among d (send_sessions V W E rx tx m sw is) → IsOfSession is d)
            → IsOfSession (j ∷ is) d
        at none e a rest = later (rest a)
        at (some s) e a rest = sent s (is_asked s) refl e a rest

  -- A dump sends a registered client the details of each session in use that is on the interface asked
  -- for, or of each session for ~0, and nothing else.
  pub session_dump-IsOfSession :
      {Counter : Type 0} (rx tx : ℕ → Counter) (x : ℕ)
      → ((i : ℕ) (s : Session)
          → session_at m.sessions i ≡ some s
          → (net_to_host_u32 x == all_ones || s.sw_if_index == net_to_host_u32 x) ≡ true
          → Among (session_details V W E rx tx s) (session_dump V W E rx tx m true x))
        × ((d : SessionDetails V W E rx tx)
            → Among d (session_dump V W E rx tx m true x)
            → (i : ℕ) × (s : Session) × (session_at m.sessions i ≡ some s)
              × ((net_to_host_u32 x == all_ones || s.sw_if_index == net_to_host_u32 x) ≡ true)
              × (d ≡ session_details V W E rx tx s))
  unfolding session_dump
  session_dump-IsOfSession rx tx x = (
    (λ i s e asked.
        send_sessions_all rx tx (net_to_host_u32 x) (session_indices m.sessions) i s
          (session_indices_all m.sessions i (λ free. cc)) e asked),
    λ d a.
        let (i, s, _, e, asked, same) =
          send_sessions_only rx tx (net_to_host_u32 x) (session_indices m.sessions) d a in
        (i, s, e, asked, same),
  )

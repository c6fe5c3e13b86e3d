-- ===== src/Registry/Sessions.antt =====
-- `l2tvpp_session_add_del` on the list of sessions that the state stands for.
use l2tvpp.Common.{
  ℕ, ◌<◌, ◌≡◌, refl, Bool, true, false, Option, some, none, List, Returns, Returns-some,
}
use l2tvpp.Objects.{Tunnel}
use l2tvpp.Header.{session_key}
use l2tvpp.Vpp.{Vpp}
use l2tvpp.Registry.{
  Main, Result, err, no_such_entry, HwInterface, VnetCall, vec_at, new_session, session_on,
  session_add_del,
}
use l2tvpp.Registry.Ghost.{Sessions}
use l2tvpp.Registry.Represents.{Represents, UniqueTids, HasWords, Adds, Deletes}
use l2tvpp.Registry.Additions.{session_add-Adds}
use l2tvpp.Registry.Deletions.{session_del-Deletes}

module _ (V : Vpp) where
  open V.tunnel_pool use {elt as tunnel_at, elt-write as tunnel_at-write}
  open V.session_pool use {
    elt as session_at, elt-write as session_at-write, elt-free as session_at-free,
  }
  open V.session_pool use {next_index as next_session, next_index_free as next_session_free}
  open V.bihash use {search, search-add, search-remove}

  -- What the call promises, on the tunnel that its index names, for an addition and a deletion.
  abbrev pub Refines :
      Main V
      → Sessions
      → ℕ
      → ℕ
      → ℕ
      → ℕ
      → ℕ
      → HwInterface
      → Option (Tunnel V.Address)
      → Bool
      → Result (Main V × List VnetCall)
      → Type 0
  Refines m es ti local_sid peer_sid acfc pfc hi none is_add r = r ≡ err no_such_entry
  Refines m es ti local_sid peer_sid acfc pfc hi (some t) true r =
      Adds V m es (session_key t.local_tid local_sid)
        (new_session V ti t local_sid peer_sid acfc pfc hi) r
  Refines m es ti local_sid peer_sid acfc pfc hi (some t) false r =
      Deletes V m es (session_key t.local_tid local_sid) r

  -- `l2tvpp_session_add_del` acts on the list of sessions that the state stands for: an unknown tunnel
  -- and an unknown key are NO_SUCH_ENTRY, a taken key is ENTRY_ALREADY_EXISTS; else an addition puts
  -- the new session before the others and a deletion takes the one with the key out, in the pool, the
  -- key table, the interface vector and the tunnel's count alike. It never reads a free pool index.
  -- The tunnels' ids differ, ids are 16-bit numbers, and vnet's new interface has no session yet.
  pub session_add_del-Refines :
      (m : Main V) (es : Sessions) (ti local_sid peer_sid acfc pfc : ℕ) (is_add : Bool)
      (hi : HwInterface)
      → Represents V m es
      → UniqueTids V m
      → HasWords V es
      → ((j : ℕ) (t : Tunnel V.Address) → tunnel_at m.tunnels j ≡ some t → t.local_tid < 65536)
      → local_sid < 65536
      → vec_at m.session_index_by_sw_if_index hi.sw_if_index ≡ none
      → Returns
          (session_add_del V m ti local_sid peer_sid acfc pfc is_add hi)
          (Refines m es ti local_sid peer_sid acfc pfc hi (tunnel_at m.tunnels ti) is_add)
  unfolding session_add_del session_on
  session_add_del-Refines m es ti local_sid peer_sid acfc pfc is_add hi r unique words tids hs
        unused =
      go (tunnel_at m.tunnels ti) is_add refl
    where
      go :
          (o : Option (Tunnel V.Address)) (b : Bool)
          → tunnel_at m.tunnels ti ≡ o
          → Returns
              (session_on V m ti local_sid peer_sid acfc pfc b hi o)
              (Refines m es ti local_sid peer_sid acfc pfc hi o b)
      go none b e = Returns-some refl
      go (some t) true e =
          Returns-some (session_add-Adds V m es r ti t e local_sid peer_sid acfc pfc hi unused)
      go (some t) false e =
          session_del-Deletes V m es r ti t e local_sid unique (tids ti t e) hs words

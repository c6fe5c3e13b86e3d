-- ===== src/Registry.antt =====
-- plugin/l2tvpp/l2tvpp.c: the tunnels and sessions of the plugin, and the calls that add and delete
-- them.
pub mod Ghost
pub mod Tunnels
pub mod Represents
pub mod Additions
pub mod Deletions
pub mod Sessions
pub mod Counts
use l2tvpp.Common.{
  ℕ, zero, suc, ◌+◌, ◌-◌, ◌%◌, ◌^◌, Bool, true, false, not, ◌&&◌, ◌||◌, Option, some, none, List,
  [], ◌∷◌, ◌++◌, get_elem?, ◌==◌, if◌then◌else◌, ◌>>=◌, set,
}
use l2tvpp.Objects.{Tunnel, Session}
use l2tvpp.Header.{session_key}
use l2tvpp.Vpp.{Vpp, Pool, Bihash}

-- The error codes of the VPP API that these calls return.
pub data ApiError : Type 0 where
  unimplemented tunnel_exist no_such_entry instance_in_use entry_already_exists : ApiError
  invalid_sw_if_index invalid_worker : ApiError

pub data Result {ℓ} (A : Type ℓ) : Type ℓ where
  ok : A → Result A
  err : ApiError → Result A

-- The calls into vnet that a session makes, in the order in which it makes them.
pub data VnetCall : Type 0 where
  register_interface : (dev_instance : ℕ) → VnetCall
  set_link_up : (hw_if_index : ℕ) → VnetCall
  set_l3_output_node reset_l3_output_node : (sw_if_index : ℕ) → VnetCall
  set_admin_up clear_sw_flags : (sw_if_index : ℕ) → VnetCall
  ip4_enable_disable ip6_enable_disable : (sw_if_index : ℕ) (enable : Bool) → VnetCall
  remove_ip4_delegates remove_ip6_delegates : (sw_if_index : ℕ) → VnetCall
  delete_hw_interface : (hw_if_index : ℕ) → VnetCall

-- What `vnet_register_interface` and `vnet_get_hw_interface` answer.
pub record HwInterface : Type 0 where
  pub hw_if_index : ℕ
  pub sw_if_index : ℕ

-- A vector of indices in which ~0 is `none`: a read, `vec_validate_init_empty` with a store, and a
-- store in range.
abbrev pub vec_at : List (Option ℕ) → ℕ → Option ℕ
vec_at v i = get_elem? v i >>= λ x. x

unfoldable pub vec_store : List (Option ℕ) → ℕ → ℕ → List (Option ℕ)
vec_store [] zero x = some x ∷ []
vec_store [] (suc i) x = none ∷ vec_store [] i x
vec_store (y ∷ ys) zero x = some x ∷ ys
vec_store (y ∷ ys) (suc i) x = y ∷ vec_store ys i x

-- The part of `l2tvpp_main_t` that tunnels and sessions live in.
pub record Main (V : Vpp) : Type 0 where
  pub tunnels : V.tunnel_pool.Carrier
  pub sessions : V.session_pool.Carrier
  pub session_by_key : V.bihash.Table
  pub session_index_by_sw_if_index : List (Option ℕ)
  pub local_ip4s : List ℕ

abbrev pub contains : List ℕ → ℕ → Bool
contains [] a = false
contains (x ∷ xs) a = x == a || contains xs a

module _ (V : Vpp) where
  open V.tunnel_pool use {
    elt as tunnel_at, indices, next_index as next_tunnel, write as write_tunnel,
  }
  open V.tunnel_pool use {free as free_tunnel}
  open V.session_pool use {elt as session_at, next_index as next_session, write as write_session}
  open V.session_pool use {free as free_session}
  open V.bihash use {search, add, remove}

  -- The test in the loop of `l2tvpp_tunnel_find`.
  unfoldable pub is_tunnel : Tunnel V.Address → V.Address → ℕ → ℕ → Bool
  is_tunnel t peer_ip peer_port local_tid =
      t.local_tid == local_tid && (t.peer_port == peer_port && V.is_equal t.peer_ip peer_ip)

  -- One round of the loop: a hit ends it.
  unfoldable pub visit :
      V.Address
      → ℕ
      → ℕ
      → ℕ
      → Option (ℕ × Tunnel V.Address)
      → Option (Tunnel V.Address)
      → Option (ℕ × Tunnel V.Address)
  visit peer_ip peer_port local_tid i rest none = rest
  visit peer_ip peer_port local_tid i rest (some t) =
      if is_tunnel t peer_ip peer_port local_tid then some (i, t) else rest

  unfoldable pub find_in : Main V → V.Address → ℕ → ℕ → List ℕ → Option (ℕ × Tunnel V.Address)
  find_in m peer_ip peer_port local_tid [] = none
  find_in m peer_ip peer_port local_tid (i ∷ is) =
      visit peer_ip peer_port local_tid i (find_in m peer_ip peer_port local_tid is)
        (tunnel_at m.tunnels i)

  unfoldable pub tunnel_find : Main V → V.Address → ℕ → ℕ → Option (ℕ × Tunnel V.Address)
  tunnel_find m peer_ip peer_port local_tid =
      find_in m peer_ip peer_port local_tid (indices m.tunnels)

  -- The new pool element, zeroed and filled in.
  abbrev pub new_tunnel : V.Address → V.Address → ℕ → ℕ → ℕ → ℕ → Tunnel V.Address
  new_tunnel local_ip peer_ip local_port peer_port local_tid peer_tid = record {
    local_ip = local_ip;
    peer_ip = peer_ip;
    local_port = local_port;
    peer_port = peer_port;
    local_tid = local_tid;
    peer_tid = peer_tid;
    n_sessions = 0;
    encap_fib_index = 0;
  }

  -- The addition and the deletion, on what `l2tvpp_tunnel_find` answers.
  unfoldable pub tunnel_add :
      Main V
      → V.Address
      → V.Address
      → ℕ
      → ℕ
      → ℕ
      → ℕ
      → Option (ℕ × Tunnel V.Address)
      → Result (Main V × Option ℕ)
  tunnel_add m local_ip peer_ip local_port peer_port local_tid peer_tid (some found) =
      err tunnel_exist
  tunnel_add m local_ip peer_ip local_port peer_port local_tid peer_tid none =
      let i = next_tunnel m.tunnels in
      let ip4 = V.ip4_word local_ip in
      ok (
        record m {
          tunnels =
              write_tunnel m.tunnels i
                (new_tunnel local_ip peer_ip local_port peer_port local_tid peer_tid);
          local_ip4s =
              if contains m.local_ip4s ip4 then m.local_ip4s else m.local_ip4s ++ (ip4 ∷ []);
        },
        some i,
      )

  unfoldable pub tunnel_del : Main V → Option (ℕ × Tunnel V.Address) → Result (Main V × Option ℕ)
  tunnel_del m none = err no_such_entry
  tunnel_del m (some (i, t)) =
      if not (t.n_sessions == 0)
      then err instance_in_use
      else ok (record m { tunnels = free_tunnel m.tunnels i }, none)

  -- `l2tvpp_tunnel_add_del`: the index is `none` for a deletion, which sets none.
  unfoldable pub tunnel_add_del :
      Main V → V.Address → V.Address → ℕ → ℕ → ℕ → ℕ → Bool → Result (Main V × Option ℕ)
  tunnel_add_del m local_ip peer_ip local_port peer_port local_tid peer_tid is_add =
      if not (V.is_ip4 local_ip) || not (V.is_ip4 peer_ip)
      then err unimplemented
      else (let t = tunnel_find m peer_ip peer_port local_tid in
          if is_add
          then tunnel_add m local_ip peer_ip local_port peer_port local_tid peer_tid t
          else tunnel_del m t)

  abbrev pub new_session : ℕ → Tunnel V.Address → ℕ → ℕ → ℕ → ℕ → HwInterface → Session
  new_session tunnel_index t local_sid peer_sid acfc pfc hi = record {
    tunnel_index = tunnel_index;
    local_tid = t.local_tid;
    local_sid = local_sid;
    peer_sid = peer_sid;
    acfc = acfc;
    pfc = pfc;
    sw_if_index = hi.sw_if_index;
    hw_if_index = hi.hw_if_index;
    encap_ip_csum0 = 0;
  }

  module _ (m : Main V) (tunnel_index : ℕ) (t : Tunnel V.Address) (local_sid : ℕ) where
    abbrev key : ℕ
    key = session_key t.local_tid local_sid

    -- The addition, on what the lookup of the key answers; `hi` is vnet's answer to the registration.
    unfoldable pub session_add_at :
        ℕ → ℕ → ℕ → HwInterface → Option ℕ → Result (Main V × List VnetCall)
    session_add_at peer_sid acfc pfc hi (some _) = err entry_already_exists
    session_add_at peer_sid acfc pfc hi none =
        let i = next_session m.sessions in
        ok (
          record m {
            sessions =
                write_session m.sessions i
                  (new_session tunnel_index t local_sid peer_sid acfc pfc hi);
            session_index_by_sw_if_index =
                vec_store m.session_index_by_sw_if_index hi.sw_if_index i;
            session_by_key = add m.session_by_key key i;
            tunnels =
                write_tunnel m.tunnels tunnel_index
                  (record t { n_sessions = (t.n_sessions + 1) % 2 ^ 32 });
          },
          register_interface i
              ∷ set_link_up hi.hw_if_index
              ∷ set_l3_output_node hi.sw_if_index
              ∷ set_admin_up hi.sw_if_index
              ∷ ip4_enable_disable hi.sw_if_index true
              ∷ ip6_enable_disable hi.sw_if_index true
              ∷ [],
        )

    unfoldable pub session_add : ℕ → ℕ → ℕ → HwInterface → Result (Main V × List VnetCall)
    session_add peer_sid acfc pfc hi =
        session_add_at peer_sid acfc pfc hi (search m.session_by_key key)

    -- The deletion of the session `s` at index `i` of the pool; a free index is a fault, `none`.
    unfoldable pub session_del_at : ℕ → Option Session → Option (Result (Main V × List VnetCall))
    session_del_at i none = none
    session_del_at i (some s) = some (
        ok (
          record m {
            sessions = free_session m.sessions i;
            session_index_by_sw_if_index = set m.session_index_by_sw_if_index s.sw_if_index none;
            session_by_key = remove m.session_by_key key;
            tunnels =
                write_tunnel m.tunnels tunnel_index
                  (record t { n_sessions = (t.n_sessions + 2 ^ 32 - 1) % 2 ^ 32 });
          },
          ip4_enable_disable s.sw_if_index false
              ∷ ip6_enable_disable s.sw_if_index false
              ∷ clear_sw_flags s.sw_if_index
              ∷ remove_ip4_delegates s.sw_if_index
              ∷ remove_ip6_delegates s.sw_if_index
              ∷ reset_l3_output_node s.sw_if_index
              ∷ delete_hw_interface s.hw_if_index
              ∷ [],
        ))

    -- The deletion, on what the lookup of the key answers.
    unfoldable pub session_del_found : Option ℕ → Option (Result (Main V × List VnetCall))
    session_del_found none = some (err no_such_entry)
    session_del_found (some i) = session_del_at i (session_at m.sessions i)

    unfoldable pub session_del : Option (Result (Main V × List VnetCall))
    session_del = session_del_found (search m.session_by_key key)

  -- An addition or a deletion on the tunnel that the index names.
  unfoldable pub session_on :
      Main V
      → ℕ
      → ℕ
      → ℕ
      → ℕ
      → ℕ
      → Bool
      → HwInterface
      → Option (Tunnel V.Address)
      → Option (Result (Main V × List VnetCall))
  session_on m tunnel_index local_sid peer_sid acfc pfc is_add hi none = some (err no_such_entry)
  session_on m tunnel_index local_sid peer_sid acfc pfc true hi (some t) =
      some (session_add m tunnel_index t local_sid peer_sid acfc pfc hi)
  session_on m tunnel_index local_sid peer_sid acfc pfc false hi (some t) =
      session_del m tunnel_index t local_sid

  -- `l2tvpp_session_add_del`.
  unfoldable pub session_add_del :
      Main V → ℕ → ℕ → ℕ → ℕ → ℕ → Bool → HwInterface → Option (Result (Main V × List VnetCall))
  session_add_del m tunnel_index local_sid peer_sid acfc pfc is_add hi =
      session_on m tunnel_index local_sid peer_sid acfc pfc is_add hi
        (tunnel_at m.tunnels tunnel_index)

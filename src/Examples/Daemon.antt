-- ===== src/Examples/Daemon.antt =====
-- A pass of the session daemon over the plugin's own tables, on concrete pools.
use l2tvpp.Common.{
  ℕ, ◌+◌, ◌≡◌, refl, sym, ap, ◌↔◌, Bool, true, false, ◌&&◌, some, none, List, [], ◌∷◌, length, ◌==◌,
  ==_iff, not, if◌then◌else◌, arith,
}
use l2tvpp.Registry.{Main, HwInterface}
use l2tvpp.Encap.{Prefix, EncapCache}
use l2tvpp.Sync.Dictionary.{Dict}
use l2tvpp.Sync.{Host, tunnel_keys, KernelSession, Installed}
use l2tvpp.Sync.Endpoints.{tid_keys, KernelTunnel}
use l2tvpp.Sync.OverRegistry.{State, carries}
use l2tvpp.Examples.Registry.{some_vpp}

-- Equality of prefixes.
abbrev is_bool : Bool → Bool → Bool
is_bool true b = b
is_bool false b = not b

abbrev is_prefix : Prefix → Prefix → Bool
is_prefix a b = is_bool a.is_ip4 b.is_ip4 && (a.len == b.len && a.word == b.word)

is_bool_lem : (a b : Bool) → is_bool a b ≡ true → a ≡ b
is_bool_lem true b e = sym e
is_bool_lem false true e = absurd (ground arith)
is_bool_lem false false e = refl

is_bool_refl : (a : Bool) → is_bool a a ≡ true
is_bool_refl true = refl
is_bool_refl false = refl

is_prefix_iff : (a b : Prefix) → (is_prefix a b ≡ true) ↔ (a ≡ b)
is_prefix_iff a b = (
  (λ e.
      let p : a.is_ip4 ≡ b.is_ip4 = is_bool_lem a.is_ip4 b.is_ip4 (ground arith) in
      let q : a.len ≡ b.len = ground arith in
      let r : a.word ≡ b.word = ground arith in
      λ i. record { is_ip4 = p i; len = q i; word = r i }),
  λ e.
      let p : is_bool a.is_ip4 b.is_ip4 ≡ true =
        (rw (← ap (λ (x : Prefix). x.is_ip4) e) (is_bool_refl a.is_ip4)) in
      let q : a.len ≡ b.len = ap (λ (x : Prefix). x.len) e in
      let r : a.word ≡ b.word = ap (λ (x : Prefix). x.word) e in ground arith,
)

abbrev prefix_of : ℕ → Prefix
prefix_of a = record { is_ip4 = true; len = 32; word = a }

-- Addresses and netdevs are numbers; a netdev shows one prefix.
abbrev lns : Host ℕ Prefix
lns = record {
  Netdev = ℕ;
  is_ip = λ a b. a == b;
  is_ip_iff = λ a b. ==_iff a b;
  is_prefix = is_prefix;
  is_prefix_iff = is_prefix_iff;
  ppp_routes = λ i. prefix_of (100 + i) ∷ [];
  set_order = λ ps. ps;
  sorted = λ ps. ps;
  set_order_members = λ p ps. refl;
  sorted_members = λ p ps. refl;
}

-- vnet hands out the first interface that the vector does not know.
abbrev next_interface : Main some_vpp → HwInterface
next_interface m = record {
  hw_if_index = length m.session_index_by_sw_if_index;
  sw_if_index = length m.session_index_by_sw_if_index;
}

abbrev no_cache : EncapCache some_vpp.bihash
no_cache = record { encap_adj_init = false; encap_adj_by_ip4 = λ k. none; encap_adj_count = 0 }

-- One session of the tunnel that is there, one of a tunnel that is not, and one without a netdev, each
-- with the local address for a peer.
abbrev kernel : List (KernelSession lns)
kernel =
    record {
      peer_ip = 1;
      peer_port = 1701;
      local_tid = 7;
      local_sid = 9;
      peer_tid = 8;
      peer_sid = 21;
      ifname = some 3;
      routes = none;
      local_ip = none;
      local_port = none;
    }
    ∷ record {
      peer_ip = 1;
      peer_port = 1701;
      local_tid = 6;
      local_sid = 4;
      peer_tid = 9;
      peer_sid = 5;
      ifname = some 5;
      routes = none;
      local_ip = none;
      local_port = none;
    }
    ∷ record {
      peer_ip = 1;
      peer_port = 1701;
      local_tid = 5;
      local_sid = 6;
      peer_tid = 1;
      peer_sid = 1;
      ifname = none;
      routes = none;
      local_ip = none;
      local_port = none;
    }
    ∷ []

abbrev listed_tunnel : ℕ → KernelTunnel lns
listed_tunnel far = record { from_ip = some 1; to_ip = some far; from_port = 1701; to_port = 1701 }

abbrev kernel_tunnels : Dict tid_keys (KernelTunnel lns)
kernel_tunnels = (7, listed_tunnel 2) ∷ (6, listed_tunnel 3) ∷ []

abbrev peer_of : ℕ → ℕ × ℕ
peer_of tid = if tid == 7 then (2, 1701) else (3, 1701)

abbrev nbr : Prefix → ℕ → ℕ
nbr prefix sw = 40 + sw

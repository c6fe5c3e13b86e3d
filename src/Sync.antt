-- ===== src/Sync.antt =====
-- syncd/l2tvppd.py: `Syncd`, which makes the plugin carry the sessions of the kernel. The plugin is
-- an interface, which the next modules fill and use.
pub mod Dictionary
pub mod Mirror
pub mod Reconcile
pub mod Again
pub mod Laws
pub mod Carried
pub mod Endpoints
pub mod OverRegistry
use l2tvpp.Common.{
  ℕ, ◌+◌, ◌≡◌, ◌↔◌, refl, ap, ◌∙◌, Bool, true, false, not, ◌&&◌, ◌||◌, Option, some, none, List, [],
  ◌∷◌, ◌==◌, if◌then◌else◌, arith,
}
use l2tvpp.Sync.Dictionary.{Keys, Dict, lookup, has, put, drop_key, keys, is_in, is_some}

-- Membership by a test.
abbrev pub among : {A : Type 0} → (A → A → Bool) → A → List A → Bool
among is x [] = false
among is x (y ∷ ys) = is y x || among is x ys

-- What the daemon uses of the host: addresses and prefixes as text, with their equality; the prefixes
-- that `ip` shows for a netdev; and Python's sets, as lists with the same members: `set_order` is the
-- order in which a set is iterated, and `sorted` sorts it.
pub record Host (Ip Prefix : Type 0) : Type 1 where
  pub Netdev : Type 0
  pub is_ip : Ip → Ip → Bool
  pub is_ip_iff : (a b : Ip) → (is_ip a b ≡ true) ↔ (a ≡ b)
  pub is_prefix : Prefix → Prefix → Bool
  pub is_prefix_iff : (a b : Prefix) → (is_prefix a b ≡ true) ↔ (a ≡ b)
  pub ppp_routes : Netdev → List Prefix
  pub set_order : List Prefix → List Prefix
  pub sorted : List Prefix → List Prefix
  pub set_order_members :
      (p : Prefix) (ps : List Prefix) → among is_prefix p (set_order ps) ≡ among is_prefix p ps
  pub sorted_members :
      (p : Prefix) (ps : List Prefix) → among is_prefix p (sorted ps) ≡ among is_prefix p ps

pub is_pair_iff : (a b : ℕ × ℕ) → ((a.0 == b.0 && a.1 == b.1) ≡ true) ↔ (a ≡ b)
is_pair_iff (a, c) (b, d) = (
  (λ e. let p : a ≡ b = ground arith in let q : c ≡ d = ground arith in rw (p, q) refl),
  λ e. let p : a ≡ b = ap (λ x. x.0) e in let q : c ≡ d = ap (λ x. x.1) e in ground arith,
)

abbrev pub session_keys : Keys
session_keys = record {
  Key = ℕ × ℕ;
  is_key = λ a b. a.0 == b.0 && a.1 == b.1;
  is_key_iff = is_pair_iff;
}

abbrev pub is_number : ℕ → List ℕ → Bool
is_number i [] = false
is_number i (j ∷ js) = j == i || is_number i js

module _ {Ip Prefix : Type 0} (H : Host Ip Prefix) where
  open H use {Netdev, is_prefix}

  pub is_tunnel_iff :
      (a b : Ip × (ℕ × ℕ))
      → ((H.is_ip a.0 b.0 && (a.1.0 == b.1.0 && a.1.1 == b.1.1)) ≡ true) ↔ (a ≡ b)
  is_tunnel_iff (a, c) (b, d) = (
    (λ e.
        let p : a ≡ b = (H.is_ip_iff a b).0 (ground arith) in
        let q : c ≡ d = (is_pair_iff c d).0 (ground arith) in rw (p, q) refl),
    λ e.
        let p : H.is_ip a b ≡ true = (H.is_ip_iff a b).1 (ap (λ x. x.0) e) in
        let q : (c.0 == d.0 && c.1 == d.1) ≡ true = (is_pair_iff c d).1 (ap (λ x. x.1) e) in
        ground arith,
  )

  abbrev pub tunnel_keys : Keys
  tunnel_keys = record {
    Key = Ip × (ℕ × ℕ);
    is_key = λ a b. H.is_ip a.0 b.0 && (a.1.0 == b.1.0 && a.1.1 == b.1.1);
    is_key_iff = is_tunnel_iff;
  }

  -- A session of the kernel, as `parse_pppol2tp` and `merge_tunnel_endpoints` give it.
  pub record KernelSession : Type 0 where
    pub peer_ip : Ip
    pub peer_port : ℕ
    pub local_tid : ℕ
    pub local_sid : ℕ
    pub peer_tid : ℕ
    pub peer_sid : ℕ
    pub ifname : Option Netdev
    pub routes : Option (List Prefix)
    pub local_ip : Option Ip
    pub local_port : Option ℕ

  abbrev pub tunnel_key : KernelSession → tunnel_keys.Key
  tunnel_key s = (s.peer_ip, (s.peer_port, s.local_tid))

  abbrev pub session_key : KernelSession → session_keys.Key
  session_key s = (s.local_tid, s.local_sid)

  -- The plugin: what it lists, and its calls, with the index that the reply of an addition has. A
  -- reply's return value is not looked at.
  pub record Plugin : Type 1 where
    pub State : Type 0
    pub tunnel_dump : State → List (tunnel_keys.Key × ℕ)
    pub session_tunnels : State → List ℕ
    pub tunnel_add :
        State → (local_ip peer_ip : Ip) (local_port peer_port local_tid peer_tid : ℕ) → State × ℕ
    pub tunnel_del : State → (local_ip : Option Ip) (local_port : ℕ) → tunnel_keys.Key → State
    pub session_add : State → (tunnel_index local_sid peer_sid : ℕ) → State × ℕ
    pub session_del : State → (tunnel_index local_sid peer_sid : ℕ) → State
    pub route_add_del : State → (is_add : Bool) → Prefix → (sw_if_index : ℕ) → State

  -- What the daemon has installed for a session.
  pub record Installed : Type 0 where
    pub sw_if_index : ℕ
    pub tunnel_index : ℕ
    pub local_sid : ℕ
    pub peer_sid : ℕ
    pub installed_key : tunnel_keys.Key
    pub installed_routes : List Prefix

  -- The prefixes of a session: its own, or those of its netdev.
  abbrev pub routes_of : KernelSession → List Prefix
  routes_of s = elim s.routes [
    | some ps ↦ ps
    | none ↦ elim s.ifname [ some i ↦ H.ppp_routes i | none ↦ [] ]
  ]

  abbrev pub record_of : KernelSession → (sw_if_index tunnel_index : ℕ) → Installed
  record_of s sw tidx = record {
    sw_if_index = sw;
    tunnel_index = tidx;
    local_sid = s.local_sid;
    peer_sid = s.peer_sid;
    installed_key = tunnel_key s;
    installed_routes = routes_of s;
  }

  abbrev pub is_among : Prefix → List Prefix → Bool
  is_among = among is_prefix

  -- The members of a list that are not in another.
  abbrev pub minus : List Prefix → List Prefix → List Prefix
  minus [] b = []
  minus (p ∷ ps) b = if is_among p b then minus ps b else p ∷ minus ps b

  abbrev pub is_empty : List Prefix → Bool
  is_empty [] = true
  is_empty (p ∷ ps) = false

  abbrev pub is_same_set : List Prefix → List Prefix → Bool
  is_same_set a b = is_empty (minus a b) && is_empty (minus b a)

  -- `vpp_tunnels`: the last tunnel with a key counts.
  unfoldable pub vpp_tunnels : List (tunnel_keys.Key × ℕ) → Dict tunnel_keys ℕ → Dict tunnel_keys ℕ
  vpp_tunnels [] d = d
  vpp_tunnels ((key, i) ∷ rest) d = vpp_tunnels rest (put tunnel_keys key i d)

  module _ (P : Plugin) (fallback_ip : Option Ip) (fallback_port : ℕ) where
    -- The state of a pass: the plugin, its tunnels as far as they are known, and the daemon's record.
    pub record Pass : Type 0 where
      pub plugin : P.State
      pub cache : Dict tunnel_keys ℕ
      pub installed : Dict session_keys Installed
      pub added : ℕ
      pub removed : ℕ

    -- A step ends, or raises `RuntimeError`, which ends the pass.
    pub data Ran (A : Type 0) : Type 0 where
      ended : A → Pass → Ran A
      raised : Pass → Ran A

    abbrev pub after : {A B : Type 0} → Ran A → (A → Pass → Ran B) → Ran B
    after (ended a p) k = k a p
    after (raised p) k = raised p

    -- `x or y` of an optional port.
    abbrev pub port_or : Option ℕ → ℕ → ℕ
    port_or none y = y
    port_or (some x) y = if x == 0 then y else x

    abbrev pub ip_or : Option Ip → Option Ip → Option Ip
    ip_or none y = y
    ip_or (some x) y = some x

    unfoldable pub make_tunnel : KernelSession → Pass → Option Ip → Ran ℕ
    make_tunnel s p none = raised p
    make_tunnel s p (some ip) =
        let made =
          P.tunnel_add p.plugin ip s.peer_ip (port_or s.local_port fallback_port) s.peer_port
            s.local_tid s.peer_tid in
        ended (made.1)
          (record p { plugin = made.0; cache = put tunnel_keys (tunnel_key s) (made.1) p.cache })

    -- `ensure_tunnel`.
    unfoldable pub ensure_tunnel : KernelSession → Pass → Ran ℕ
    ensure_tunnel s p = elim (lookup tunnel_keys (tunnel_key s) p.cache) [
      | some i ↦ ended i p
      | none ↦ make_tunnel s p (ip_or s.local_ip fallback_ip)
    ]

    unfoldable pub route_all : P.State → Bool → ℕ → List Prefix → P.State
    route_all st is_add sw [] = st
    route_all st is_add sw (x ∷ xs) = route_all (P.route_add_del st is_add x sw) is_add sw xs

    -- `add_session`, past `ensure_tunnel`.
    unfoldable pub add_on : KernelSession → ℕ → Pass → Ran (Unit {0})
    add_on s tidx p =
        let made = P.session_add p.plugin tidx s.local_sid s.peer_sid in
        ended tt (record p {
          plugin = route_all (made.0) true (made.1) (routes_of s);
          installed = put session_keys (session_key s) (record_of s (made.1) tidx) p.installed;
          added = p.added + 1;
        })

    unfoldable pub add_session : KernelSession → Pass → Ran (Unit {0})
    add_session s p = after (ensure_tunnel s p) (add_on s)

    -- `sync_routes` of a session and its record.
    unfoldable pub sync_routes : KernelSession → Installed → Pass → Pass
    sync_routes s rec p =
        let have = rec.installed_routes in
        let want = routes_of s in
        let st = route_all p.plugin true rec.sw_if_index (H.set_order (minus want have)) in
        record p {
          plugin = route_all st false rec.sw_if_index (H.set_order (minus have want));
          installed =
              if is_same_set have want
              then p.installed
              else put session_keys (session_key s)
                  (record rec { installed_routes = H.sorted want }) p.installed;
        }

    -- One round of the loop over the wanted sessions, on what the record has for it.
    unfoldable pub mirror : Bool → KernelSession → Pass → Option Installed → Ran (Unit {0})
    mirror sync s p none = add_session s p
    mirror sync s p (some rec) = ended tt (if sync then sync_routes s rec p else p)

    unfoldable pub mirror_all : Bool → Dict session_keys KernelSession → Pass → Ran (Unit {0})
    mirror_all sync [] p = ended tt p
    mirror_all sync ((key, s) ∷ rest) p =
        after (mirror sync s p (lookup session_keys key p.installed)) (λ u. mirror_all sync rest)

    -- `del_session` of a key, on its record.
    unfoldable pub del_session : session_keys.Key → Pass → Option Installed → Pass
    del_session key p none = p
    del_session key p (some rec) = record p {
      plugin =
          P.session_del (route_all p.plugin false rec.sw_if_index rec.installed_routes)
            rec.tunnel_index rec.local_sid rec.peer_sid;
      installed = drop_key session_keys key p.installed;
      removed = p.removed + 1;
    }

    -- The loop over the keys that the record had.
    unfoldable pub remove_all :
        Dict session_keys KernelSession → List session_keys.Key → Pass → Pass
    remove_all want [] p = p
    remove_all want (key ∷ rest) p = remove_all want rest (
        if has session_keys key want
        then p
        else del_session key p (lookup session_keys key p.installed))

    -- `prune_tunnels` on what the dumps listed.
    unfoldable pub prune : P.State → List ℕ → Dict tunnel_keys ℕ → P.State
    prune st live [] = st
    prune st live ((key, tidx) ∷ rest) =
        prune (if is_number tidx live then st else P.tunnel_del st fallback_ip fallback_port key)
          live rest

    -- The sessions to mirror: those with a netdev, by their ids, the last of each.
    unfoldable pub wanted :
        List KernelSession → Dict session_keys KernelSession → Dict session_keys KernelSession
    wanted [] d = d
    wanted (s ∷ rest) d =
        wanted rest (if is_some s.ifname then put session_keys (session_key s) s d else d)

    unfoldable pub prune_tunnels : Pass → Pass
    prune_tunnels p = if p.removed == 0 then p else record p {
      plugin =
          prune p.plugin (P.session_tunnels p.plugin) (vpp_tunnels (P.tunnel_dump p.plugin) []);
    }

    -- `reconcile`, on the state of the plugin and the daemon's record.
    unfoldable pub reconcile :
        List KernelSession → (sync : Bool) → P.State → Dict session_keys Installed → Ran (Unit {0})
    reconcile sessions sync st installed =
        let want = wanted sessions [] in
        let start : Pass = record {
          plugin = st;
          cache = vpp_tunnels (P.tunnel_dump st) [];
          installed = installed;
          added = 0;
          removed = 0;
        } in
        after (mirror_all sync want start)
          λ u p. ended tt (prune_tunnels (remove_all want (keys session_keys p.installed) p))

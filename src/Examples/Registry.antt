-- ===== src/Examples/Registry.antt =====
-- Tunnels and sessions on concrete pools and tables.
use l2tvpp.Common.{
  ℕ, zero, suc, ◌+◌, ◌*◌, ◌≤◌, ◌≡◌, ◌≢◌, refl, inl, inr, Bool-cases, true, Option, some, none, List,
  [], ◌∷◌, ◌==◌, ==_iff, if◌then◌else◌, arith, Returns,
}
use l2tvpp.Objects.{Tunnel, Session}
use l2tvpp.Vpp.{Has, Pool, Bihash, Vpp}
use l2tvpp.Registry.{Main, session_add_del}
use l2tvpp.Registry.Represents.{Represents}
use l2tvpp.Registry.Sessions.{Refines, session_add_del-Refines}

-- A pool as the history of its writes.
abbrev last_write : {A : Type 0} → List (ℕ × Option A) → ℕ → Option A
last_write [] i = none
last_write ((j, a) ∷ c) i = if j == i then a else last_write c i

abbrev written : {A : Type 0} → List (ℕ × Option A) → List ℕ
written [] = []
written ((j, a) ∷ c) = j ∷ written c

abbrev above : {A : Type 0} → List (ℕ × Option A) → ℕ
above [] = 0
above ((j, a) ∷ c) = suc (j + above c)

pub last_write-above :
    {A : Type 0} (c : List (ℕ × Option A)) (i : ℕ) → above c ≤ i → last_write c i ≡ none
last_write-above [] i h = refl
last_write-above ((j, a) ∷ c) i h = ground (arith, last_write-above c i)

pub written_all :
    {A : Type 0} (c : List (ℕ × Option A)) (i : ℕ) → last_write c i ≢ none → Has i (written c)
written_all [] i h = absurd (h refl)
written_all ((j, a) ∷ c) i h = elim (Bool-cases (j == i)) [
  | inl same ↦ inl (ground arith)
  | inr other ↦ inr (written_all c i (ground arith))
]

abbrev pub history_pool : (A : Type 0) → Pool A
history_pool A = record {
  Carrier = List (ℕ × Option A);
  elt = last_write;
  next_index = above;
  address = λ c i. 4096 + 64 * i;
  write = λ c i a. (i, some a) ∷ c;
  free = λ c i. (i, none) ∷ c;
  indices = written;
  next_index_free = λ c. last_write-above c (above c) (omega arith);
  elt-write = λ c i j a. refl;
  elt-free = λ c i j. refl;
  indices_all = written_all;
}

abbrev pub function_hash : Bihash
function_hash = record {
  Table = ℕ → Option ℕ;
  search = λ t k. t k;
  add = λ t k v. λ j. if k == j then some v else t j;
  remove = λ t k. λ j. if k == j then none else t j;
  search-add = λ t k j v. refl;
  search-remove = λ t k j. refl;
}

abbrev pub some_vpp : Vpp
some_vpp = record {
  Address = ℕ;
  is_ip4 = λ a. true;
  ip4_word = λ a. a;
  is_equal = λ a b. a == b;
  is_equal_iff = λ a b. ==_iff a b;
  tunnel_pool = history_pool (Tunnel ℕ);
  session_pool = history_pool Session;
  bihash = function_hash;
}

abbrev pub tunnel_seven : Tunnel ℕ
tunnel_seven = record {
  local_ip = 1;
  peer_ip = 2;
  local_port = 1701;
  peer_port = 1701;
  local_tid = 7;
  peer_tid = 8;
  n_sessions = 0;
  encap_fib_index = 0;
}

abbrev pub one_tunnel : Main some_vpp
one_tunnel = record {
  tunnels = (0, some tunnel_seven) ∷ [];
  sessions = [];
  session_by_key = λ k. none;
  session_index_by_sw_if_index = [];
  local_ip4s = 1 ∷ [];
}

pub only_tunnel :
    (j : ℕ) (t : Tunnel ℕ)
    → last_write ((0, some tunnel_seven) ∷ []) j ≡ some t
    → (j ≡ 0) × (tunnel_seven ≡ t)
only_tunnel zero t e = (refl, cc)
only_tunnel (suc j) t e = absurd (ground arith)

pub one_tunnel-Represents : Represents some_vpp one_tunnel []
one_tunnel-Represents = record {
  sessions_are = λ i. refl;
  keys_are = λ k. refl;
  interfaces_are = λ sw. refl;
  counts_are = λ ti t e. let (_, is) = only_tunnel ti t e in rw (← is) refl;
  tunnels_are = λ i s e. absurd (ground arith);
  distinct = tt;
}

session_add_del-Refines_example :
    Returns
      (session_add_del some_vpp one_tunnel 0 9 21 0 0 true
        (record { hw_if_index = 4; sw_if_index = 5 }))
      (Refines some_vpp one_tunnel [] 0 9 21 0 0
        (record { hw_if_index = 4; sw_if_index = 5 })
        (some tunnel_seven)
        true)
session_add_del-Refines_example =
    session_add_del-Refines some_vpp one_tunnel [] 0 9 21 0 0 true
      (record { hw_if_index = 4; sw_if_index = 5 }) one_tunnel-Represents
      (λ i j t u a b same.
        let (p, _) = only_tunnel i t a in let (q, _) = only_tunnel j u b in omega arith)
      (λ j u e. absurd (ground arith)) (λ j t e. let (_, is) = only_tunnel j t e in ground arith)
      (omega arith) refl

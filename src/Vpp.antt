-- ===== src/Vpp.antt =====
-- What the plugin uses of VPP, as interfaces: pools, the 8-8 bihash and addresses. The laws are the
-- documented behaviour of vppinfra and vnet.
use l2tvpp.Common.{
  ℕ, ◌≡◌, ◌≢◌, ◌↔◌, ◌⊎◌, Bool, true, Option, some, none, List, [], ◌∷◌, ◌==◌, if◌then◌else◌,
}
use l2tvpp.Objects.{Tunnel, Session}

-- An index stands in a list of indices.
abbrev pub Has : ℕ → List ℕ → Type 0
Has i [] = ⊥
Has i (j ∷ js) = (i ≡ j) ⊎ Has i js

-- `elt` is `pool_elt_at_index`, `none` where `pool_is_free_index` holds; `next_index` is the index
-- that `pool_get` hands out, `address` is where an element stands in memory, which may change when the
-- pool grows, `write` stores an element there or at an index in use, `free` is
-- `pool_put`, and `indices` is what `pool_foreach` goes through.
pub record Pool (A : Type 0) : Type 1 where
  pub Carrier : Type 0
  pub elt : Carrier → ℕ → Option A
  pub next_index : Carrier → ℕ
  pub address : Carrier → ℕ → ℕ
  pub write : Carrier → ℕ → A → Carrier
  pub free : Carrier → ℕ → Carrier
  pub indices : Carrier → List ℕ
  pub next_index_free : (c : Carrier) → elt c (next_index c) ≡ none
  pub elt-write :
      (c : Carrier) (i j : ℕ) (a : A) → elt (write c i a) j ≡ (if i == j then some a else elt c j)
  pub elt-free : (c : Carrier) (i j : ℕ) → elt (free c i) j ≡ (if i == j then none else elt c j)
  pub indices_all : (c : Carrier) (i : ℕ) → elt c i ≢ none → Has i (indices c)

-- `clib_bihash_search_8_8` answers `none` for its nonzero return; `add` and `remove` are
-- `clib_bihash_add_del_8_8` with `is_add` 1, which overwrites and returns 0, and 0.
pub record Bihash : Type 1 where
  pub Table : Type 0
  pub search : Table → ℕ → Option ℕ
  pub add : Table → ℕ → ℕ → Table
  pub remove : Table → ℕ → Table
  pub search-add :
      (t : Table) (k j v : ℕ) → search (add t k v) j ≡ (if k == j then some v else search t j)
  pub search-remove :
      (t : Table) (k j : ℕ) → search (remove t k) j ≡ (if k == j then none else search t j)

-- `Address` is `ip46_address_t`, `ip4_word` its `ip4.as_u32`.
pub record Vpp : Type 1 where
  pub Address : Type 0
  pub is_ip4 : Address → Bool
  pub ip4_word : Address → ℕ
  pub is_equal : Address → Address → Bool
  pub is_equal_iff : (a b : Address) → (is_equal a b ≡ true) ↔ (a ≡ b)
  pub tunnel_pool : Pool (Tunnel Address)
  pub session_pool : Pool Session
  pub bihash : Bihash

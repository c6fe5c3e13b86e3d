-- ===== src/Registry/Ghost.antt =====
-- The sessions of the plugin as a list, which its three indexes and its counts stand for.
use l2tvpp.Common.{
  ℕ, ◌+◌, ◌≡◌, ◌≢◌, Option, some, none, List, [], ◌∷◌, ◌==◌, Bool-cases, inl, inr, if◌then◌else◌,
  arith,
}
use l2tvpp.Objects.{Session}
use l2tvpp.Header.{session_key}

abbrev pub key_of : Session → ℕ
key_of s = session_key s.local_tid s.local_sid

abbrev pub Sessions : Type 0
Sessions = List (ℕ × Session)

abbrev pub by_index : ℕ → Sessions → Option Session
by_index i [] = none
by_index i ((j, s) ∷ es) = if j == i then some s else by_index i es

abbrev pub by_key : ℕ → Sessions → Option ℕ
by_key k [] = none
by_key k ((j, s) ∷ es) = if key_of s == k then some j else by_key k es

abbrev pub by_interface : ℕ → Sessions → Option ℕ
by_interface sw [] = none
by_interface sw ((j, s) ∷ es) = if s.sw_if_index == sw then some j else by_interface sw es

-- How many sessions a tunnel carries.
abbrev pub count_of : ℕ → Sessions → ℕ
count_of ti [] = 0
count_of ti ((j, s) ∷ es) = (if s.tunnel_index == ti then 1 else 0) + count_of ti es

abbrev pub without : ℕ → Sessions → Sessions
without i [] = []
without i ((j, s) ∷ es) = if j == i then es else (j, s) ∷ without i es

-- No index, key or interface stands for two sessions.
abbrev pub Distinct : Sessions → Type 0
Distinct [] = Unit {0}
Distinct ((i, s) ∷ es) =
    (by_index i es ≡ none)
    × (by_key (key_of s) es ≡ none)
    × (by_interface s.sw_if_index es ≡ none)
    × Distinct es

pub by_index_of_key :
    (k i : ℕ) (es : Sessions)
    → Distinct es
    → by_key k es ≡ some i
    → (s : Session) × (by_index i es ≡ some s) × (key_of s ≡ k)
by_index_of_key k i [] d e = absurd (ground arith)
by_index_of_key k i ((j, s) ∷ es) d e = elim (Bool-cases (key_of s == k)) [
  | inl here ↦ (s, ground arith, ground arith)
  | inr there ↦
      let (u, p, q) = by_index_of_key k i es d.3 (ground arith) in (u, ground (arith, d.0), q)
]

module _ (i : ℕ) (s : Session) where
  pub by_key_of_index : (es : Sessions) → by_index i es ≡ some s → by_key (key_of s) es ≢ none
  by_key_of_index [] e = ground arith
  by_key_of_index ((l, u) ∷ es) e = ground (arith, by_key_of_index es)

  pub by_interface_of_index :
      (es : Sessions) → by_index i es ≡ some s → by_interface s.sw_if_index es ≢ none
  by_interface_of_index [] e = ground arith
  by_interface_of_index ((l, u) ∷ es) e = ground (arith, by_interface_of_index es)

  pub by_index-without :
      (es : Sessions) (j : ℕ)
      → Distinct es
      → by_index i es ≡ some s
      → by_index j (without i es) ≡ (if i == j then none else by_index j es)
  by_index-without [] j d e = absurd (ground arith)
  by_index-without ((l, u) ∷ es) j d e = ground (arith, by_index-without es j d.3, d.0)

  pub by_key-without :
      (es : Sessions) (k : ℕ)
      → Distinct es
      → by_index i es ≡ some s
      → by_key k (without i es) ≡ (if key_of s == k then none else by_key k es)
  by_key-without [] k d e = absurd (ground arith)
  by_key-without ((l, u) ∷ es) k d e =
      ground (arith, by_key-without es k d.3, by_key_of_index es, d.1)

  pub by_interface-without :
      (es : Sessions) (sw : ℕ)
      → Distinct es
      → by_index i es ≡ some s
      → by_interface sw (without i es) ≡ (if s.sw_if_index == sw then none else by_interface sw es)
  by_interface-without [] sw d e = absurd (ground arith)
  by_interface-without ((l, u) ∷ es) sw d e =
      ground (arith, by_interface-without es sw d.3, by_interface_of_index es, d.2)

  pub count_of-without :
      (es : Sessions) (ti : ℕ)
      → by_index i es ≡ some s
      → count_of ti (without i es) + (if s.tunnel_index == ti then 1 else 0) ≡ count_of ti es
  count_of-without [] ti e = absurd (ground arith)
  count_of-without ((l, u) ∷ es) ti e = ground (arith, count_of-without es ti)

  pub without-Distinct :
      (es : Sessions) → Distinct es → by_index i es ≡ some s → Distinct (without i es)
  without-Distinct [] d e = tt
  without-Distinct ((l, u) ∷ es) d e = ground (
    arith,
    without-Distinct es d.3,
    by_index-without es l d.3,
    by_key-without es (key_of u) d.3,
    by_interface-without es u.sw_if_index d.3,
  )

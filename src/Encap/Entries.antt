-- ===== src/Encap/Entries.antt =====
-- The entries that the adjacency cache stands for, and the locks that calls take.
use l2tvpp.Common.{
  ℕ, suc, ◌+◌, ◌≡◌, ◌≢◌, refl, Bool-cases, inl, inr, Option, some, none, List, [], ◌∷◌, length,
  ◌==◌, if◌then◌else◌, arith,
}
use l2tvpp.Encap.{FibCall, path_add, path_remove, adj_lock, adj_unlock}

-- Destination and adjacency of each entry.
abbrev pub Entries : Type 0
Entries = List (ℕ × ℕ)

abbrev pub find : ℕ → Entries → Option ℕ
find k [] = none
find k ((j, ai) ∷ es) = if j == k then some ai else find k es

abbrev pub drop_key : ℕ → Entries → Entries
drop_key k [] = []
drop_key k ((j, ai) ∷ es) = if j == k then es else (j, ai) ∷ drop_key k es

-- How often an adjacency is cached.
abbrev pub held : ℕ → Entries → ℕ
held ai [] = 0
held ai ((j, a) ∷ es) = (if a == ai then 1 else 0) + held ai es

abbrev pub Once : Entries → Type 0
Once [] = Unit {0}
Once ((j, ai) ∷ es) = (find j es ≡ none) × Once es

-- The locks that a list of calls takes on an adjacency, and those that it releases.
abbrev pub locks : ℕ → List FibCall → ℕ
locks ai [] = 0
locks ai (adj_lock a ∷ calls) = (if a == ai then 1 else 0) + locks ai calls
locks ai (adj_unlock a ∷ calls) = locks ai calls
locks ai (path_add p sw ∷ calls) = locks ai calls
locks ai (path_remove p sw ∷ calls) = locks ai calls

abbrev pub unlocks : ℕ → List FibCall → ℕ
unlocks ai [] = 0
unlocks ai (adj_unlock a ∷ calls) = (if a == ai then 1 else 0) + unlocks ai calls
unlocks ai (adj_lock a ∷ calls) = unlocks ai calls
unlocks ai (path_add p sw ∷ calls) = unlocks ai calls
unlocks ai (path_remove p sw ∷ calls) = unlocks ai calls

module _ (k : ℕ) where
  pub find-drop_key :
      (es : Entries) (j : ℕ)
      → Once es
      → find j (drop_key k es) ≡ (if k == j then none else find j es)
  find-drop_key [] j o = ground arith
  find-drop_key ((l, a) ∷ es) j o = ground (arith, find-drop_key es j o.1, o.0)

  pub drop_key-Once : (es : Entries) → Once es → Once (drop_key k es)
  drop_key-Once [] o = tt
  drop_key-Once ((l, a) ∷ es) o = elim (Bool-cases (l == k)) [
    | inl here ↦ rw here o.1
    | inr there ↦ rw there (ground (arith, find-drop_key es l o.1, o.0), drop_key-Once es o.1)
  ]

  pub length-drop_key : (es : Entries) → find k es ≢ none → length es ≡ suc (length (drop_key k es))
  length-drop_key [] h = absurd (h refl)
  length-drop_key ((l, a) ∷ es) h = ground (arith, length-drop_key es)

  pub held-drop_key :
      (es : Entries) (a ai : ℕ)
      → find k es ≡ some a
      → held ai es ≡ held ai (drop_key k es) + (if a == ai then 1 else 0)
  held-drop_key [] a ai e = absurd (ground arith)
  held-drop_key ((l, b) ∷ es) a ai e = ground (arith, held-drop_key es a ai)

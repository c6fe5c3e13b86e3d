-- ===== src/Common/Lists.antt =====
-- Bytes in memory as lists, measured and indexed by native numbers.
use Prim.Native.Nat.{ℕ, zero, suc, ◌+◌, ◌*◌, ◌≤◌, ◌<◌}
use mathlib.Core.Path.{◌≡◌, refl, ap, ◌∙◌}
use mathlib.Core.List.{List, [], ◌∷◌, ◌++◌}
use mathlib.Core.Option.{Option, none, some}
use native.Mathlib.Omega.{arith}
use l2tvpp.Common.Tests.{◌>>=◌, Returns, Returns-some, Returns-bind}

module _ {ℓ} {A : Type ℓ} where
  abbrev pub length : List A → ℕ
  length [] = 0
  length (x ∷ xs) = suc (length xs)

  abbrev pub get_elem? : List A → ℕ → Option A
  get_elem? [] i = none
  get_elem? (x ∷ xs) zero = some x
  get_elem? (x ∷ xs) (suc i) = get_elem? xs i

  -- A write out of bounds changes nothing.
  abbrev pub set : List A → ℕ → A → List A
  set [] i v = []
  set (x ∷ xs) zero v = v ∷ xs
  set (x ∷ xs) (suc i) v = x ∷ set xs i v

  pub length-append : (xs ys : List A) → length (xs ++ ys) ≡ length xs + length ys
  length-append [] ys = omega arith
  length-append (x ∷ xs) ys = omega (arith, length-append xs ys)

  -- A read in range returns.
  pub get_elem?-in_range :
      (xs : List A) (i : ℕ)
      → i < length xs
      → Returns (get_elem? xs i) (λ a. get_elem? xs i ≡ some a)
  get_elem?-in_range [] i h = absurd (omega arith)
  get_elem?-in_range (x ∷ xs) zero h = Returns-some refl
  get_elem?-in_range (x ∷ xs) (suc i) h = get_elem?-in_range xs i (omega arith)

  -- A read behind a prefix is a read of what follows it.
  pub get_elem?-append :
      (xs ys : List A) (i : ℕ) → get_elem? (xs ++ ys) (length xs + i) ≡ get_elem? ys i
  get_elem?-append [] ys i = let e : 0 + i ≡ i = omega arith in ap (get_elem? ys) e
  get_elem?-append (x ∷ xs) ys i =
      let e : suc (length xs) + i ≡ suc (length xs + i) = omega arith in
      ap (get_elem? (x ∷ (xs ++ ys))) e ∙ get_elem?-append xs ys i

-- A 16-bit field in network byte order, as `clib_net_to_host_u16 (*(u16 *) p)` reads it.
unfoldable pub read_u16 : List ℕ → ℕ → Option ℕ
read_u16 m i = get_elem? m i >>= λ hi. get_elem? m (i + 1) >>= λ lo. some (hi * 256 + lo)

pub read_u16-in_range :
    (m : List ℕ) (i : ℕ) → i + 2 ≤ length m → Returns (read_u16 m i) (λ v. read_u16 m i ≡ some v)
unfolding read_u16
read_u16-in_range m i h = Returns-bind (get_elem?-in_range m i (omega arith)) λ hi p _.
    Returns-bind (get_elem?-in_range m (i + 1) (omega arith)) λ lo q _. Returns-some (rw (p, q))

pub read_u16-append : (xs ys : List ℕ) (i : ℕ) → read_u16 (xs ++ ys) (length xs + i) ≡ read_u16 ys i
unfolding read_u16
read_u16-append xs ys i =
    let e : length xs + i + 1 ≡ length xs + (i + 1) = omega arith in
    rw (e, get_elem?-append xs ys i, get_elem?-append xs ys (i + 1))

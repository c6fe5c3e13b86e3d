-- ===== src/Cli/Switches/Fastpath.antt =====
-- `l2tvpp_encap_fastpath_enable_disable` over a sequence of calls.
use l2tvpp.Common.{
  ℕ, ◌≡◌, refl, ◌∙◌, Bool, true, false, not, Option, some, none, List, [], ◌∷◌, ◌==◌, if◌then◌else◌,
  arith,
}
use l2tvpp.Registry.{Result, ok, err}
use l2tvpp.Cli.Switches.{FastpathMain, switch_fastpath, encap_fastpath_enable_disable}

-- The state of the feature on an interface, from the calls that switched it.
abbrev pub feature_is : ℕ → List (ℕ × Bool) → Bool
feature_is sw [] = false
feature_is sw ((i, b) ∷ calls) = if i == sw then b else feature_is sw calls

-- Each call changed the state of the feature.
abbrev pub Alternates : List (ℕ × Bool) → Type 0
Alternates [] = Unit {0}
Alternates ((i, b) ∷ calls) = (feature_is i calls ≡ not b) × Alternates calls

abbrev pub nothing_enabled : FastpathMain
nothing_enabled = record { enabled = λ sw. false; features = [] }

-- A call keeps the state if it fails.
abbrev after : FastpathMain → Result FastpathMain → FastpathMain
after em (err e) = em
after em (ok em') = em'

-- The calls on interfaces whose kind is as `hardware` says, latest first.
abbrev pub enable_all : (ℕ → Option Bool) → List (ℕ × Bool) → FastpathMain
enable_all hardware [] = nothing_enabled
enable_all hardware ((sw, enable) ∷ calls) =
    let em = enable_all hardware calls in
    after em (encap_fastpath_enable_disable (hardware sw) em sw enable)

-- Whether the fast path is wanted on an interface: as the last call for it says, if it is a hardware
-- interface.
abbrev is_hardware : Option Bool → Bool
is_hardware none = false
is_hardware (some b) = b

abbrev pub wanted : (ℕ → Option Bool) → ℕ → List (ℕ × Bool) → Bool
wanted hardware sw calls = if is_hardware (hardware sw) then feature_is sw calls else false

abbrev pub IsSwitched : (ℕ → Option Bool) → List (ℕ × Bool) → FastpathMain → Type 0
IsSwitched hardware calls em =
    ((sw : ℕ) → em.enabled sw ≡ wanted hardware sw calls)
    × ((sw : ℕ) → feature_is sw em.features ≡ em.enabled sw)
    × Alternates em.features

module _ (hardware : ℕ → Option Bool) where
  switch_fastpath-IsSwitched :
      (calls : List (ℕ × Bool)) (em : FastpathMain) (sw : ℕ) (b : Bool)
      → hardware sw ≡ some true
      → IsSwitched hardware calls em
      → IsSwitched hardware ((sw, b) ∷ calls) (switch_fastpath em sw b)
  unfolding switch_fastpath
  switch_fastpath-IsSwitched calls em sw b hw (e, f, a) = go (em.enabled sw) b refl
    where
      go :
          (x y : Bool)
          → em.enabled sw ≡ x
          → IsSwitched hardware ((sw, y) ∷ calls) (
              if (if x then y else not y) then em else record em {
                enabled = λ j. if sw == j then y else em.enabled j;
                features = (sw, y) ∷ em.features;
              })
      go true true is = ((λ j. ground (arith, e j)), f, a)
      go false false is = ((λ j. ground (arith, e j)), f, a)
      go true false is = ((λ j. ground (arith, e j)), (λ j. ground (arith, f j)), (f sw ∙ is, a))
      go false true is = ((λ j. ground (arith, e j)), (λ j. ground (arith, f j)), (f sw ∙ is, a))

  refused-IsSwitched :
      (calls : List (ℕ × Bool)) (em : FastpathMain) (sw : ℕ) (b : Bool)
      → is_hardware (hardware sw) ≡ false
      → IsSwitched hardware calls em
      → IsSwitched hardware ((sw, b) ∷ calls) em
  refused-IsSwitched calls em sw b refused (e, f, a) = ((λ j. ground (arith, e j)), f, a)

  -- Whatever calls come, the fast path is enabled on an interface exactly if it is a hardware
  -- interface and the last call for it enabled it, the calls into vnet leave the feature in that
  -- state, and each of them changes the feature's state, so that it is never switched on twice.
  pub enable_all-IsSwitched :
      (calls : List (ℕ × Bool)) → IsSwitched hardware calls (enable_all hardware calls)
  unfolding encap_fastpath_enable_disable
  enable_all-IsSwitched [] = ((λ sw. ground arith), (λ sw. refl), tt)
  enable_all-IsSwitched ((sw, b) ∷ calls) =
      go (hardware sw) refl (enable_all hardware calls) (enable_all-IsSwitched calls)
    where
      go :
          (h : Option Bool)
          → hardware sw ≡ h
          → (em : FastpathMain) → IsSwitched hardware calls em
          → IsSwitched hardware
              ((sw, b) ∷ calls)
              (after em (encap_fastpath_enable_disable h em sw b))
      go none is em at = refused-IsSwitched calls em sw b (rw is refl) at
      go (some false) is em at = refused-IsSwitched calls em sw b (rw is refl) at
      go (some true) is em at = switch_fastpath-IsSwitched calls em sw b is at

-- ===== src/Cli/Switches.antt =====
-- The commands for subscriber routes, the hand-offs and the encapsulation fast path, and the startup
-- configuration.
pub mod Fastpath
use l2tvpp.Common.{
  ℕ, ◌+◌, ◌%◌, ◌^◌, Bool, true, false, not, ◌&&◌, ◌||◌, Option, some, none, List, [], ◌∷◌, length,
  ltb, ◌==◌, if◌then◌else◌, ◌>>=◌,
}
use l2tvpp.Vpp.{Bihash}
use l2tvpp.Registry.{Result, ok, err, ApiError, invalid_sw_if_index}
use l2tvpp.Encap.{Prefix, EncapCache, FibCall, route_add_del}
use l2tvpp.Settings.{Handoff, set_handoff}
use l2tvpp.Flow.Enable.{FlowMain, flow_enable_disable}
use l2tvpp.Cli.{Answer, done, failed, unknown_input, required, returned, is_unset}
use l2tvpp.Api.{all_ones}

-- The options of a route: a prefix with its length as read into 32 bits, and an interface.
pub data RouteOption : Type 0 where
  route_delete route_unknown : RouteOption
  prefix_is : (is_ip4 : Bool) (word plen : ℕ) → RouteOption
  interface_is : ℕ → RouteOption

pub record RouteArgs : Type 0 where
  pub is_add : Bool
  pub is_ip4 : Bool
  pub word : ℕ
  pub plen : ℕ
  pub sw_if_index : ℕ

abbrev pub no_route_args : RouteArgs
no_route_args = record {
  is_add = true;
  is_ip4 = true;
  word = 0;
  plen = all_ones;
  sw_if_index = all_ones;
}

unfoldable pub read_route : List RouteOption → RouteArgs → Option RouteArgs
read_route [] a = some a
read_route (route_unknown ∷ rest) a = none
read_route (route_delete ∷ rest) a = read_route rest (record a { is_add = false })
read_route (prefix_is b w n ∷ rest) a =
    read_route rest (record a { is_ip4 = b; word = w; plen = n })
read_route (interface_is sw ∷ rest) a = read_route rest (record a { sw_if_index = sw })

module _ (H : Bihash) (empty : H.Table) (adj_nbr_add_or_lock : Prefix → ℕ → ℕ) where
  unfoldable pub route_answer :
      Result (EncapCache H × List FibCall) → Answer (EncapCache H × List FibCall)
  route_answer (err e) = failed (returned e)
  route_answer (ok done_calls) = done done_calls none

  -- Past the loop; `fp_len` is 16 bits wide.
  unfoldable pub route_command :
      List (Option ℕ) → EncapCache H → Option RouteArgs → Answer (EncapCache H × List FibCall)
  route_command interfaces c none = failed unknown_input
  route_command interfaces c (some a) =
      if is_unset a.plen || is_unset a.sw_if_index
      then failed required
      else route_answer (
          route_add_del H empty adj_nbr_add_or_lock interfaces c
            (record { is_ip4 = a.is_ip4; len = a.plen % 2 ^ 16; word = a.word }) a.sw_if_index
            a.is_add)

  -- `l2tvpp_route_cli`.
  unfoldable pub route_cli :
      List (Option ℕ)
      → EncapCache H
      → Option (List RouteOption)
      → Answer (EncapCache H × List FibCall)
  route_cli interfaces c none = done (c, []) none
  route_cli interfaces c (some line) = route_command interfaces c (read_route line no_route_args)

-- `on` or `enable`, `off` or `disable`, and anything else.
pub data SwitchOption : Type 0 where
  switch_on switch_off switch_unknown : SwitchOption

-- The last switch on the line, if any; `none` outside at the first option that is not known.
unfoldable pub read_switch : List SwitchOption → Option Bool → Option (Option Bool)
read_switch [] seen = some seen
read_switch (switch_on ∷ rest) seen = read_switch rest (some true)
read_switch (switch_off ∷ rest) seen = read_switch rest (some false)
read_switch (switch_unknown ∷ rest) seen = none

unfoldable pub handoff_command : Handoff → Option (Option Bool) → Answer Handoff
handoff_command h none = failed unknown_input
handoff_command h (some none) = done h none
handoff_command h (some (some enable)) = done (set_handoff h enable) none

-- `l2tvpp_handoff_cli`; without a line it shows the state.
unfoldable pub handoff_cli : Handoff → Option (List SwitchOption) → Answer Handoff
handoff_cli h none = done h none
handoff_cli h (some line) = handoff_command h (read_switch line none)

-- `l2tvpp_inner_checksum_cli` on the flag `inner_ip4_no_checksum`: it switches at each option, so that
-- the options before one that is not known count.
unfoldable pub inner_checksum_cli : Bool → List SwitchOption → Bool × Option Bool
inner_checksum_cli flag [] = (flag, some (not flag))
inner_checksum_cli flag (switch_on ∷ rest) = inner_checksum_cli false rest
inner_checksum_cli flag (switch_off ∷ rest) = inner_checksum_cli true rest
inner_checksum_cli flag (switch_unknown ∷ rest) = (flag, none)

-- The options of `l2tvpp { }` in the startup configuration.
pub data ConfigOption : Type 0 where
  handoff_queue_nelts_is : ℕ → ConfigOption
  config_unknown : ConfigOption

-- `l2tvpp_config`: the depth of the frame queues, and whether it ends without an error.
unfoldable pub config : Handoff → List ConfigOption → Handoff × Bool
config h [] = (h, true)
config h (config_unknown ∷ rest) = (h, false)
config h (handoff_queue_nelts_is n ∷ rest) =
    if n == 0 then (h, false) else config (record h { handoff_queue_nelts = n }) rest

-- `em->enabled`, and the calls that switched the feature, latest first.
pub record FastpathMain : Type 0 where
  pub enabled : ℕ → Bool
  pub features : List (ℕ × Bool)

-- Past the checks of `l2tvpp_encap_fastpath_enable_disable`.
unfoldable pub switch_fastpath : FastpathMain → ℕ → Bool → FastpathMain
switch_fastpath em sw enable =
    if (if em.enabled sw then enable else not enable) then em else record em {
      enabled = λ j. if sw == j then enable else em.enabled j;
      features = (sw, enable) ∷ em.features;
    }

-- `l2tvpp_encap_fastpath_enable_disable`; `hardware` says of an interface in the pool whether it is of
-- type HARDWARE.
unfoldable pub encap_fastpath_enable_disable :
    (hardware : Option Bool) → FastpathMain → ℕ → Bool → Result FastpathMain
encap_fastpath_enable_disable none em sw enable = err invalid_sw_if_index
encap_fastpath_enable_disable (some hardware) em sw enable =
    if not hardware then err invalid_sw_if_index else ok (switch_fastpath em sw enable)

-- The options of the encapsulation fast path.
pub data FastpathOption : Type 0 where
  fastpath_delete fastpath_unknown : FastpathOption
  fastpath_interface_is : ℕ → FastpathOption

unfoldable pub read_fastpath : List FastpathOption → Bool → ℕ → Option (Bool × ℕ)
read_fastpath [] enable sw = some (enable, sw)
read_fastpath (fastpath_unknown ∷ rest) enable sw = none
read_fastpath (fastpath_delete ∷ rest) enable sw = read_fastpath rest false sw
read_fastpath (fastpath_interface_is sw' ∷ rest) enable sw = read_fastpath rest enable sw'

unfoldable pub fastpath_answer : Result FastpathMain → Answer FastpathMain
fastpath_answer (err e) = failed (returned e)
fastpath_answer (ok em) = done em none

unfoldable pub fastpath_command :
    (ℕ → Option Bool) → FastpathMain → Option (Bool × ℕ) → Answer FastpathMain
fastpath_command hardware em none = failed unknown_input
fastpath_command hardware em (some (enable, sw)) =
    if is_unset sw
    then failed required
    else fastpath_answer (encap_fastpath_enable_disable (hardware sw) em sw enable)

-- `l2tvpp_encap_fastpath_cli`.
unfoldable pub encap_fastpath_cli :
    (ℕ → Option Bool) → FastpathMain → Option (List FastpathOption) → Answer FastpathMain
encap_fastpath_cli hardware em none = failed required
encap_fastpath_cli hardware em (some line) =
    fastpath_command hardware em (read_fastpath line true all_ones)

-- The options of an interface's flow hand-off.
pub data FlowOption : Type 0 where
  flow_delete flow_unknown with_fastpath with_spray : FlowOption
  workers_are : List ℕ → FlowOption
  flow_interface_is : ℕ → FlowOption

pub record FlowArgs : Type 0 where
  pub enable : Bool
  pub fastpath : Bool
  pub spray : Bool
  pub bitmap : Option (List ℕ)
  pub sw_if_index : ℕ

abbrev pub no_flow_args : FlowArgs
no_flow_args = record {
  enable = true;
  fastpath = false;
  spray = false;
  bitmap = none;
  sw_if_index = all_ones;
}

unfoldable pub read_flow : List FlowOption → FlowArgs → Option FlowArgs
read_flow [] a = some a
read_flow (flow_unknown ∷ rest) a = none
read_flow (flow_delete ∷ rest) a = read_flow rest (record a { enable = false })
read_flow (with_fastpath ∷ rest) a = read_flow rest (record a { fastpath = true })
read_flow (with_spray ∷ rest) a = read_flow rest (record a { spray = true })
read_flow (workers_are bits ∷ rest) a = read_flow rest (record a { bitmap = some bits })
read_flow (flow_interface_is sw ∷ rest) a = read_flow rest (record a { sw_if_index = sw })

abbrev pub is_none {ℓ} : {A : Type ℓ} → Option A → Bool
is_none none = true
is_none (some x) = false

-- `clib_bitmap_count_set_bits` of a bitmap as the list of its set bits.
abbrev pub count_set_bits : Option (List ℕ) → ℕ
count_set_bits none = 0
count_set_bits (some bits) = length bits

module _ (is_pow2 : ℕ → Bool) (max_log2 : ℕ → ℕ) (last_set : List ℕ → ℕ) (n_threads n_workers : ℕ)
    (hardware : ℕ → Option Bool) where
  unfoldable pub flow_answer : Result FlowMain → Answer FlowMain
  flow_answer (err e) = failed (returned e)
  flow_answer (ok fm) = done fm none

  -- Past the loop.
  unfoldable pub flow_command : FlowMain → Option FlowArgs → Option (Answer FlowMain)
  flow_command fm none = some (failed unknown_input)
  flow_command fm (some a) =
      if is_unset a.sw_if_index
      then some (failed required)
      else if a.enable && is_none a.bitmap && not a.fastpath
      then some (failed required)
      else if a.spray && ltb (count_set_bits a.bitmap) 2
      then some (failed required)
      else do
        result ←
            flow_enable_disable is_pow2 max_log2 last_set n_threads n_workers a.sw_if_index a.bitmap
              a.fastpath a.spray a.enable (hardware a.sw_if_index) fm
        some (flow_answer result)

  -- `l2tvpp_flow_handoff_cli`.
  unfoldable pub flow_handoff_cli : FlowMain → Option (List FlowOption) → Option (Answer FlowMain)
  flow_handoff_cli fm none = some (failed required)
  flow_handoff_cli fm (some line) = flow_command fm (read_flow line no_flow_args)

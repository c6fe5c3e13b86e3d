-- ===== src/Steer.antt =====
-- xdp/l2tp_steer.bpf.c: the XDP program that spreads L2TP data packets over CPUs by session.
pub mod Safety
pub mod Agreement
use l2tvpp.Common.{
  ℕ, ◌+◌, ◌*◌, ◌/◌, ◌%◌, ◌^◌, ◌-◌, bit_and, Bool, not, ◌||◌, Option, some, none, List, length,
  get_elem?, ltb, ◌==◌, if◌then◌else◌, ◌>>=◌, read_u16,
}
use l2tvpp.Header.{udp_port, hdr_t, hdr_l, hdr_ver, has_bit, session_hash}

-- `enum stat_idx`.
pub data Stat : Type 0 where
  pass_other pass_ctrl redirect redirect_fail : Stat

-- The verdict, each with the counter that goes up: XDP_PASS, or XDP_REDIRECT to a CPU.
pub data Verdict : Type 0 where
  pass : Stat → Verdict
  redirect_to : (cpu : ℕ) → Verdict

-- The maps: `cpu_count` and `cpus_available` as their lookups answer, and whether
-- `bpf_redirect_map` answers XDP_REDIRECT for a CPU.
pub record Maps : Type 0 where
  pub cpu_count : Option ℕ
  pub cpus_available : ℕ → Option ℕ
  pub redirects : ℕ → Bool

abbrev pub eth_p_ip : ℕ
eth_p_ip = 0x0800

abbrev pub eth_p_ipv6 : ℕ
eth_p_ipv6 = 0x86dd

abbrev pub eth_p_8021q : ℕ
eth_p_8021q = 0x8100

abbrev pub eth_p_8021ad : ℕ
eth_p_8021ad = 0x88a8

abbrev pub ipproto_udp : ℕ
ipproto_udp = 17

-- A position that a part of the parse has reached, or the counter under which the packet passes.
pub data Reached : Type 0 where
  stop : Stat → Reached
  go : (proto cur : ℕ) → Reached

-- From the ids on: hash, pick a CPU, redirect.
unfoldable pub choose_cpu : Maps → ℕ → ℕ → Verdict
choose_cpu m tunnel_id session_id = elim m.cpu_count [
  | none ↦ pass redirect_fail
  | some n ↦
      if n == 0
      then pass redirect_fail
      else (elim (m.cpus_available (session_hash tunnel_id session_id % n)) [
        | none ↦ pass redirect_fail
        | some cpu ↦ if m.redirects cpu then redirect_to cpu else pass redirect_fail
      ])
]

-- One round of the loop over VLAN tags.
unfoldable pub vlan_tag : List ℕ → Reached → Option Reached
vlan_tag p (stop s) = some (stop s)
vlan_tag p (go proto cur) =
    if proto == eth_p_8021q || proto == eth_p_8021ad
    then (if ltb (length p) (cur + 4)
        then some (stop pass_other)
        else do inner ← read_u16 p (cur + 2); some (go inner (cur + 4)))
    else some (go proto cur)

module _ (m : Maps) (p : List ℕ) where
  -- The L2TP header at `cur`.
  unfoldable pub steer_l2tp : ℕ → Option Verdict
  steer_l2tp cur = if ltb (length p) (cur + 2) then some (pass pass_other) else do
    flags ← read_u16 p cur
    if not (bit_and flags hdr_ver == 2)
        then some (pass pass_other)
        else if has_bit flags hdr_t
        then some (pass pass_ctrl)
        else let idp = if has_bit flags hdr_l then cur + 2 + 2 else cur + 2 in
          if ltb (length p) (idp + 4) then some (pass pass_other) else do
            tunnel_id ← read_u16 p idp
            session_id ← read_u16 p (idp + 2)
            some (choose_cpu m tunnel_id session_id)

  -- The UDP header at `cur`, for the protocol that the IP header named.
  unfoldable pub steer_udp : ℕ → ℕ → Option Verdict
  steer_udp l4proto cur =
      if not (l4proto == ipproto_udp)
      then some (pass pass_other)
      else if ltb (length p) (cur + 8)
      then some (pass pass_other)
      else do
        dest ← read_u16 p (cur + 2)
        if not (dest == udp_port) then some (pass pass_other) else steer_l2tp (cur + 8)

  -- The IP header at `cur`.
  unfoldable pub steer_ip : Reached → Option Verdict
  steer_ip (stop s) = some (pass s)
  steer_ip (go proto cur) =
      if proto == eth_p_ip
      then (if ltb (length p) (cur + 20) then some (pass pass_other) else do
        first ← get_elem? p cur
        let ihl = bit_and first 0x0f
        if ltb ihl 5 then some (pass pass_other) else do
          frag_off ← read_u16 p (cur + 6)
          if has_bit frag_off 0x1fff
              then some (pass pass_other)
              else do l4proto ← get_elem? p (cur + 9); steer_udp l4proto (cur + ihl * 4))
      else (if proto == eth_p_ipv6
          then (if ltb (length p) (cur + 40)
              then some (pass pass_other)
              else do nexthdr ← get_elem? p (cur + 6); steer_udp nexthdr (cur + 40))
          else some (pass pass_other))

  -- The whole program, on the bytes from `data` to `data_end`.
  unfoldable pub l2tp_steer : Option Verdict
  l2tp_steer = if ltb (length p) 14 then some (pass pass_other) else do
    proto ← read_u16 p 12
    once ← vlan_tag p (go proto 14)
    twice ← vlan_tag p once
    steer_ip twice

-- ===== src/Steer/Safety.antt =====
-- The XDP program on any packet.
use l2tvpp.Common.{
  ℕ, ◌+◌, ◌*◌, ◌%◌, ◌<◌, ◌≡◌, refl, true, not, bit_and, ◌||◌, some, List, length,
  get_elem?-in_range, arith, ltb, ◌==◌, Option-cases, inl, inr, if◌then◌else◌, Returns,
  Returns-some, Returns-if, Returns-bind, read_u16-in_range,
}
use native.Mathlib.Nat.{mod-lt}
use l2tvpp.Header.{udp_port, hdr_t, hdr_l, hdr_ver, has_bit, session_hash}
use l2tvpp.Steer.{
  Maps, Verdict, pass, pass_other, pass_ctrl, redirect_to, Reached, stop, go, choose_cpu, vlan_tag,
  steer_l2tp, steer_udp, steer_ip, l2tp_steer, eth_p_8021q, eth_p_8021ad, eth_p_ip, eth_p_ipv6,
  ipproto_udp,
}

-- A redirect goes to a CPU of the dense list, at an index below the count, that the CPU map takes.
abbrev pub IsAllowed : Maps → Verdict → Type 0
IsAllowed m (pass s) = Unit {0}
IsAllowed m (redirect_to cpu) =
    (n : ℕ) × (i : ℕ) × (m.cpu_count ≡ some n)
    × (i < n)
    × (m.cpus_available i ≡ some cpu)
    × (m.redirects cpu ≡ true)

-- A CPU list with a count, and a hash below that count.
choose_cpu-IsAllowed :
    (m : Maps) (tid sid : ℕ) (v : Verdict) → choose_cpu m tid sid ≡ v → IsAllowed m v
unfolding choose_cpu
choose_cpu-IsAllowed m tid sid (pass s) e = tt
choose_cpu-IsAllowed m tid sid (redirect_to cpu) e = elim (Option-cases m.cpu_count) [
  | inl none_yet ↦ absurd (ground arith)
  | inr (n, count) ↦
      let i = session_hash tid sid % n in
      (n, i, count, mod-lt (session_hash tid sid) (ground arith), ground arith, ground arith)
]

-- A tag cut short stops the program under `pass_other`.
abbrev StopsOther : Reached → Type 0
StopsOther (stop s) = s ≡ pass_other
StopsOther (go proto cur) = Unit {0}

module _ (p : List ℕ) where
  vlan_tag_returns : (r : Reached) → StopsOther r → Returns (vlan_tag p r) StopsOther
  unfolding vlan_tag
  vlan_tag_returns (stop s) h = Returns-some h
  vlan_tag_returns (go proto cur) h =
      Returns-if (proto == eth_p_8021q || proto == eth_p_8021ad)
        (λ _.
          Returns-if (ltb (length p) (cur + 4)) (λ _. Returns-some refl)
            λ fits.
              Returns-bind (read_u16-in_range p (cur + 2) (ground arith))
                λ inner _ _. Returns-some tt)
        (λ _. Returns-some tt)

-- A property of the verdict that holds where the program passes a packet as other traffic or as control,
-- and where it chooses a CPU.
module _ (P : Verdict → Type 0) (m : Maps) (other : P (pass pass_other))
    (control : P (pass pass_ctrl)) (chosen : (tid sid : ℕ) → P (choose_cpu m tid sid))
    (p : List ℕ) where
  steer_l2tp_returns : (cur : ℕ) → Returns (steer_l2tp m p cur) P
  unfolding steer_l2tp
  steer_l2tp_returns cur =
      Returns-if (ltb (length p) (cur + 2)) (λ _. Returns-some other)
        λ fits. Returns-bind (read_u16-in_range p cur (ground arith)) λ flags _ _.
          Returns-if (not (bit_and flags hdr_ver == 2)) (λ _. Returns-some other)
            λ _.
              Returns-if (has_bit flags hdr_t) (λ _. Returns-some control)
                λ _.
                  Returns-if (ltb (length p) (idp flags + 4)) (λ _. Returns-some other)
                    λ ids_fit.
                      Returns-bind (read_u16-in_range p (idp flags) (ground arith)) λ tid _ _.
                        Returns-bind (read_u16-in_range p (idp flags + 2) (ground arith))
                          λ sid _ _. Returns-some (chosen tid sid)
    where
      idp : ℕ → ℕ
      idp flags = if has_bit flags hdr_l then cur + 2 + 2 else cur + 2

  steer_udp_returns : (l4proto cur : ℕ) → Returns (steer_udp m p l4proto cur) P
  unfolding steer_udp
  steer_udp_returns l4proto cur =
      Returns-if (not (l4proto == ipproto_udp)) (λ _. Returns-some other)
        λ _.
          Returns-if (ltb (length p) (cur + 8)) (λ _. Returns-some other)
            λ fits. Returns-bind (read_u16-in_range p (cur + 2) (ground arith)) λ dest _ _.
              Returns-if (not (dest == udp_port)) (λ _. Returns-some other)
                λ _. steer_l2tp_returns (cur + 8)

  steer_ip_returns : (r : Reached) → StopsOther r → Returns (steer_ip m p r) P
  unfolding steer_ip
  steer_ip_returns (stop s) h = Returns-some (rw h other)
  steer_ip_returns (go proto cur) h =
      Returns-if (proto == eth_p_ip)
        (λ _.
          Returns-if (ltb (length p) (cur + 20)) (λ _. Returns-some other)
            λ fits. Returns-bind (get_elem?-in_range p cur (ground arith)) λ first _ _.
              Returns-if (ltb (bit_and first 0x0f) 5) (λ _. Returns-some other)
                λ _. Returns-bind (read_u16-in_range p (cur + 6) (ground arith)) λ frag_off _ _.
                  Returns-if (has_bit frag_off 0x1fff) (λ _. Returns-some other)
                    λ _.
                      Returns-bind (get_elem?-in_range p (cur + 9) (ground arith))
                        λ l4proto _ _. steer_udp_returns l4proto (cur + bit_and first 0x0f * 4))
        λ _.
          Returns-if (proto == eth_p_ipv6)
            (λ _.
              Returns-if (ltb (length p) (cur + 40)) (λ _. Returns-some other)
                λ fits.
                  Returns-bind (get_elem?-in_range p (cur + 6) (ground arith))
                    λ nexthdr _ _. steer_udp_returns nexthdr (cur + 40))
            (λ _. Returns-some other)

  pub l2tp_steer_returns : Returns (l2tp_steer m p) P
  unfolding l2tp_steer
  l2tp_steer_returns =
      Returns-if (ltb (length p) 14) (λ _. Returns-some other)
        λ fits. Returns-bind (read_u16-in_range p 12 (ground arith)) λ proto _ _.
          Returns-bind (vlan_tag_returns p (go proto 14) tt) λ once _ h.
            Returns-bind (vlan_tag_returns p once h) λ twice _ h'. steer_ip_returns twice h'

-- The program makes no read outside the packet, whatever its bytes and whatever the maps hold, and
-- redirects only to a CPU of the dense list, at an index below the count.
pub l2tp_steer-IsAllowed : (m : Maps) (p : List ℕ) → Returns (l2tp_steer m p) (IsAllowed m)
l2tp_steer-IsAllowed m p =
    l2tp_steer_returns (IsAllowed m) m tt tt (λ tid sid. choose_cpu-IsAllowed m tid sid _ refl) p

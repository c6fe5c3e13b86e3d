-- ===== src/Flow/Reads.antt =====
-- The reads of the flow hash stay inside the frame.
use l2tvpp.Common.{
  ℕ, zero, suc, ◌+◌, ◌/◌, ◌≤◌, ◌≡◌, refl, ◌&&◌, ◌||◌, some, List, length, get_elem?-in_range,
  read_u16-in_range, arith, ltb, leb, ◌==◌, Returns, Returns-some, Returns-if, Returns-bind,
  Returns-weaken,
}
use l2tvpp.Flow.{Ip4, protocol_udp, protocol_tcp, read_bytes, hash_key, hash_ip}

pub read_bytes-in_range :
    (m : List ℕ) (i n : ℕ)
    → i + n ≤ length m
    → Returns (read_bytes m i n) (λ b. read_bytes m i n ≡ some b)
unfolding read_bytes
read_bytes-in_range m i zero h = Returns-some refl
read_bytes-in_range m i (suc n) h = Returns-bind (get_elem?-in_range m i (omega arith)) λ b e _.
    Returns-bind (read_bytes-in_range m (i + 1) n (omega arith))
      λ rest f _. Returns-some (rw (e, f))

module _ (ip : Ip4) (local_ip4s : List ℕ) (m : List ℕ) where
  hash_key_returns :
      (src dst : List ℕ) (proto l4 : ℕ)
      → Returns (hash_key ip local_ip4s m src dst proto l4) (λ _. Unit {0})
  unfolding hash_key
  hash_key_returns src dst proto l4 =
      Returns-bind {Q = λ _. Unit {0}}
        (Returns-if ((proto == protocol_udp || proto == protocol_tcp) && leb (l4 + 4) (length m))
          (λ e. Returns-weaken (read_bytes-in_range m l4 4 (ground arith)) λ b _. tt)
          (λ _. Returns-some tt))
        λ ports _ _. Returns-some tt

  pub hash_ip_returns : (p : ℕ) → Returns (hash_ip ip local_ip4s m p) (λ _. Unit {0})
  unfolding hash_ip
  hash_ip_returns p =
      Returns-if (ltb (length m) (p + 1)) (λ _. Returns-some tt)
        λ some_byte. Returns-bind (get_elem?-in_range m p (ground arith)) λ b _ _.
          Returns-if (b / 16 == 4)
            (λ _.
              Returns-if (ltb (length m) (p + 20)) (λ _. Returns-some tt)
                λ fits. Returns-bind (read_bytes-in_range m (p + 12) 4 (ground arith)) λ src _ _.
                  Returns-bind (read_bytes-in_range m (p + 16) 4 (ground arith)) λ dst _ _.
                    Returns-bind (get_elem?-in_range m (p + 9) (ground arith)) λ proto _ _.
                      Returns-bind (read_u16-in_range m (p + 6) (ground arith))
                        λ frag _ _. hash_key_returns _ _ proto _)
            λ _.
              Returns-if (b / 16 == 6)
                (λ _.
                  Returns-if (ltb (length m) (p + 40)) (λ _. Returns-some tt)
                    λ fits.
                      Returns-bind (read_bytes-in_range m (p + 8) 16 (ground arith)) λ src _ _.
                        Returns-bind (read_bytes-in_range m (p + 24) 16 (ground arith)) λ dst _ _.
                          Returns-bind (get_elem?-in_range m (p + 6) (ground arith))
                            λ proto _ _. hash_key_returns src dst proto (p + 40))
                (λ _. Returns-some tt)

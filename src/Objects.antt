-- ===== src/Objects.antt =====
-- plugin/l2tvpp/l2tvpp.h: the sessions and tunnels that the plugin keeps.
use l2tvpp.Common.{ℕ}

-- `l2tvpp_tunnel_t`; `Address` stands for VPP's `ip46_address_t`.
pub record Tunnel (Address : Type 0) : Type 0 where
  pub local_ip : Address
  pub peer_ip : Address
  pub local_port : ℕ
  pub peer_port : ℕ
  pub local_tid : ℕ
  pub peer_tid : ℕ
  pub n_sessions : ℕ
  pub encap_fib_index : ℕ

-- `l2tvpp_session_t`.
pub record Session : Type 0 where
  pub tunnel_index : ℕ
  pub local_tid : ℕ
  pub local_sid : ℕ
  pub peer_sid : ℕ
  pub acfc : ℕ
  pub pfc : ℕ
  pub sw_if_index : ℕ
  pub hw_if_index : ℕ
  pub encap_ip_csum0 : ℕ

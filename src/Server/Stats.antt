-- ===== src/Server/Stats.antt =====
-- internal/server/stats.go: the counters of a server's connections. Each operation holds the
-- mutex, so it is one step. The periodic log of the counters is left out.
pub mod Slots
use dtail.Base.{
  ℕ, zero, suc, ◌+◌, ◌-◌, ◌%◌, ◌^◌, Bool, true, false, leb, ltb, ℤ, pos, negsuc, leb_ℤ, is_positive,
  inc, dec, sum_ℤ,
}

pub record Stats : Type 0 where
  pub current_connections : ℤ
  pub lifetime_connections : ℕ
  pub max_connections : ℤ
  pub pre_auth_connections : ℤ

unfoldable pub new_stats : ℤ → Stats
new_stats max_connections = record {
  current_connections = pos 0;
  lifetime_connections = 0;
  max_connections = max_connections;
  pre_auth_connections = pos 0;
}

unfoldable pub increment_connections : Stats → Stats
increment_connections s = record s {
  current_connections = inc s.current_connections;
  lifetime_connections = (s.lifetime_connections + 1) % 2 ^ 64;
}

unfoldable pub decrement_connections : Stats → Stats
decrement_connections s = record s { current_connections = dec s.current_connections }

unfoldable pub reserve_pre_auth : Stats → Stats
reserve_pre_auth s = record s { pre_auth_connections = inc s.pre_auth_connections }

unfoldable pub release_pre_auth : Stats → Stats
release_pre_auth s = record s { pre_auth_connections = dec s.pre_auth_connections }

unfoldable pub promote_pre_auth_to_connection : Stats → Stats
promote_pre_auth_to_connection s = record s {
  pre_auth_connections = dec s.pre_auth_connections;
  current_connections = inc s.current_connections;
  lifetime_connections = (s.lifetime_connections + 1) % 2 ^ 64;
}

unfoldable pub has_connections : Stats → Bool
has_connections s = is_positive s.current_connections

unfoldable pub server_limit_exceeded : Stats → Bool
server_limit_exceeded s =
    leb_ℤ s.max_connections (sum_ℤ s.current_connections s.pre_auth_connections)

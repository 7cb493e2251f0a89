-- ===== src/Server/Examples.antt =====
-- A server that takes two connections, and one of each host.
use gunnel.Prelude.{ℕ, [], Bool, true, false, Option, some, Bytes, codes}
use gunnel.Prelude.Int.{pos}
use gunnel.Connection.{Connection}
use gunnel.Server.{ConnectionLimits, Config, default_config, Server, new_server}

abbrev two : ConnectionLimits
two = record { max_connections = 2; max_connections_per_ip = 1; connection_rate_limit = 0 }

abbrev guarded : Config
guarded = record default_config { limits = some two; token = codes "secret" }

abbrev idle_conn : Connection Bool
idle_conn = record {
  transp = false;
  connected = true;
  heartbeat_emitter = false;
  last_active = 0;
  send_channel = [];
  heartbeat_interval = pos 1;
  heartbeat_timeout = pos 1;
  heartbeat_stats = record { last = 0; sent = 0; received = 0; missed = 0 };
  closed = false;
}

abbrev conns : ℕ → Connection Bool
conns id = idle_conn

abbrev whole : Bytes → Option Bytes
whole addr = some addr

abbrev fresh : Server Bool
fresh = new_server conns guarded

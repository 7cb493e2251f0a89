-- ===== src/Http.antt =====
-- What the program reads of an `http.Request`, and the two functions of package `net` that it calls.
use gunnel.Prelude.{Bool, Bytes, Option}

-- `header k` is `Header.Get(k)`, empty where the header is absent.
pub record Request : Type 0 where
  pub method : Bytes
  pub path : Bytes
  pub host : Bytes
  pub remote_addr : Bytes
  pub header : Bytes → Bytes

-- The host that `net.SplitHostPort` returns, or none on an error, and whether `net.ParseIP` takes a
-- text for an address.
pub record Net : Type 0 where
  pub split_host_port : Bytes → Option Bytes
  pub parse_ip : Bytes → Bool

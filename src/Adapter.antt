-- ===== src/Adapter.antt =====
-- libsponge/tcp_helpers/fd_adapter, lossy_fd_adapter and tcp_config, and libsponge/util/address:
-- what carries segments between a connection and the network.
pub mod TcpOverIp
pub mod Udp
pub mod Tun
pub mod Tap
mod Carried
mod Accepted
mod Tests
use nju_networking_lab.Base.{ℕ, ◌%◌, ◌^◌, Option, none, some, Bool, true, false, not, ◌&&◌}
use nju_networking_lab.Base.{ltb, ◌==◌, if◌then◌else◌}
use nju_networking_lab.Wire.TcpSegment.{TcpSegment}

-- An `Address` of the family AF_INET, by its number in host order and its port.
pub record Address : Type 0 where
  pub ipv4_numeric : ℕ
  pub port : ℕ

unfoldable pub from_ipv4_numeric : ℕ → Address
from_ipv4_numeric ip_address = record { ipv4_numeric = ip_address; port = 0 }

-- `operator==`
unfoldable pub same_address : Address → Address → Bool
same_address a b = (a.ipv4_numeric == b.ipv4_numeric) && (a.port == b.port)

pub record FdAdapterConfig : Type 0 where
  pub source : Address
  pub destination : Address
  pub loss_rate_dn : ℕ
  pub loss_rate_up : ℕ

-- `FdAdapterBase`
pub record FdAdapterBase : Type 0 where
  pub cfg : FdAdapterConfig
  pub listen : Bool

-- `FdAdapterConfig{}` and `FdAdapterBase{}`
abbrev pub fresh : FdAdapterBase
fresh = record {
  cfg = record {
    source = from_ipv4_numeric 0;
    destination = from_ipv4_numeric 0;
    loss_rate_dn = 0;
    loss_rate_up = 0;
  };
  listen = false;
}

unfoldable pub set_listening : Bool → FdAdapterBase → FdAdapterBase
set_listening l a = record a { listen = l }

-- The ports of the configuration, as every `write` sets them.
unfoldable pub with_ports : TcpSegment → FdAdapterConfig → TcpSegment
with_ports seg cfg = record seg {
  header = record (seg.header) { sport = cfg.source.port; dport = cfg.destination.port };
}

-- `_should_drop`, for a number that the random generator draws.
unfoldable pub should_drop : FdAdapterConfig → Bool → ℕ → Bool
should_drop cfg uplink draw =
    let loss = if uplink then cfg.loss_rate_up else cfg.loss_rate_dn in
    not (loss == 0) && ltb (draw % 2 ^ 16) loss

-- `LossyFdAdapter::read`, after the adapter's own read.
unfoldable pub lossy_read : FdAdapterConfig → ℕ → Option TcpSegment → Option TcpSegment
lossy_read cfg draw ret = if should_drop cfg false draw then none else ret

-- `LossyFdAdapter::write`: `a` is the adapter, `written` what its own write returns.
unfoldable pub lossy_write : {A : Type 0} → FdAdapterConfig → ℕ → A → Option A → Option A
lossy_write cfg draw a written = if should_drop cfg true draw then some a else written

-- ===== src/Adapter/Tests.antt =====
-- Two adapters that face each other, and the theorems at concrete inputs.
use nju_networking_lab.Base.{ℕ, ◌≡◌, refl, arith, [], ◌∷◌, Option, some}
use nju_networking_lab.Buffer
use nju_networking_lab.Buffer.{BufferList}
use nju_networking_lab.Buffer.Contents.{bytes}
use nju_networking_lab.Wire.TcpSegment
use nju_networking_lab.Wire.TcpSegment.{TcpSegment}
use nju_networking_lab.Wire.TcpSegment.Check.{received}
use nju_networking_lab.Wire.Ipv4Header
use nju_networking_lab.Wire.Ipv4Header.{Ipv4Header}
use nju_networking_lab.Adapter.{Address, FdAdapterBase, fresh, with_ports}
use nju_networking_lab.Adapter.TcpOverIp.{unwrap_tcp_in_ip}
use nju_networking_lab.Adapter.Tun
use nju_networking_lab.Adapter.Carried.{read-write}
use nju_networking_lab.Adapter.Accepted.{Handled, unwrap_tcp_in_ip_lem}

abbrev numeric : ℕ → ℕ → Address
numeric ip port = record { ipv4_numeric = ip; port = port }

abbrev near : FdAdapterBase
near = record fresh {
  cfg = record (fresh.cfg) { source = numeric 10 1000; destination = numeric 20 2000 };
}

abbrev far : FdAdapterBase
far = record fresh {
  cfg = record (fresh.cfg) { source = numeric 20 2000; destination = numeric 10 1000 };
}

abbrev hello : TcpSegment
hello = record (TcpSegment.blank) { payload = 104 ∷ 105 ∷ [] }

read-write_example :
    (out : BufferList) × (check : ℕ) × (Tun.write hello near
      ≡ some (with_ports hello near.cfg, out))
    × (Tun.read numeric (bytes out) far
        ≡ some (some (received (with_ports hello near.cfg) check), far))
unfolding with_ports
read-write_example =
    read-write numeric hello near far
      (record {
        header = record {
          sport = omega arith;
          dport = omega arith;
          seqno = omega arith;
          ackno = omega arith;
          enough = omega arith;
          doff = omega arith;
          win = omega arith;
          cksum = omega arith;
          uptr = omega arith;
        };
        payload = (omega arith, (omega arith, tt));
        short = omega arith;
        source = omega arith;
        destination = omega arith;
      })
      (record {
        source_ip = refl;
        source_port = refl;
        destination_ip = refl;
        destination_port = refl;
        connected = refl;
      })

abbrev ip : Ipv4Header
ip = record (Ipv4Header.blank) { src = 10; dst = 20 }

unwrap_tcp_in_ip_lem_example :
    (o : Option TcpSegment) × (a : FdAdapterBase) × (unwrap_tcp_in_ip numeric
        (record { header = ip; payload = Buffer.of_string (1 ∷ 2 ∷ []) ∷ [] })
        far
      ≡ some (o, a))
    × Handled ip far o a
unwrap_tcp_in_ip_lem_example =
    unwrap_tcp_in_ip_lem numeric (λ ip port. refl) (λ ip port. refl) ip (1 ∷ 2 ∷ []) far

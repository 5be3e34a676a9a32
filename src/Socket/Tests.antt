-- ===== src/Socket/Tests.antt =====
-- A socket over a device of segments, and the theorems at concrete inputs.
use nju_networking_lab.Base.{
  ℕ, ◌≤◌, ◌<◌, ◌≡◌, refl, arith, List, [], ◌∷◌, ◌++◌, length, take, length-take, min, some, true,
  IsU32,
}
use nju_networking_lab.Buffer
use nju_networking_lab.Buffer.Contents.{bytes}
use nju_networking_lab.Stream
use nju_networking_lab.Stream.Contents.{contents}
use nju_networking_lab.Reassembler
use nju_networking_lab.Wire.TcpSegment
use nju_networking_lab.Wire.TcpSegment.{TcpSegment}
use nju_networking_lab.State
use nju_networking_lab.Connection
use nju_networking_lab.Connection.{TcpConfig, TcpConnection}
use nju_networking_lab.Connection.Parts.{IsValid}
use nju_networking_lab.Connection.Everything.{fresh-IsValid}
use nju_networking_lab.Adapter
use nju_networking_lab.Descriptor
use nju_networking_lab.Descriptor.{FileDescriptor}
use nju_networking_lab.Loop.{serve}
use nju_networking_lab.Socket.{
  AdapterOps, Given, TcpSpongeSocket, fresh, bytes_rule, delivery_rule, send_bytes, deliver_bytes,
}
use nju_networking_lab.Socket.Running.{is_in, start_connect}
use nju_networking_lab.Socket.Opening.{start_connect_lem}
use nju_networking_lab.Socket.Outgoing.{Sent, send_bytes_lem}
use nju_networking_lab.Socket.Incoming.{Delivered, handed, deliver_bytes_lem}
use nju_networking_lab.Socket.Served.{application_rules-serve}

-- A device that gives segments, and keeps those that it gets.
abbrev Device : Type 0
Device = FileDescriptor × List TcpSegment

abbrev device_ops : AdapterOps Device TcpSegment
device_ops = record {
  descriptor = λ a. a.0;
  read = λ seg a. some (some seg, (Descriptor.register_read a.0, a.1));
  write = λ seg a. some (Descriptor.register_write a.0, a.1 ++ (seg ∷ []));
  tick = λ ms a. a;
  set_config = λ cfg a. a;
  set_listening = λ b a. a;
}

abbrev device : Device
device = (Descriptor.fresh, [])

abbrev config : TcpConfig
config = record { rt_timeout = 1000; recv_capacity = 64000; send_capacity = 64000; isn = 7 }

-- The application has three bytes in the pipe, which takes two bytes at a time.
abbrev typed : List ℕ
typed = 1 ∷ 2 ∷ 3 ∷ []

abbrev given : Given TcpSegment
given = record {
  datagram = TcpSegment.blank;
  pipe_read = λ n. take n typed;
  pipe_write = λ n. min 2 n;
}

reads_few : (n : ℕ) → length (given.pipe_read n) ≤ n
reads_few n = omega (arith, length-take n typed)

takes_few : (n : ℕ) → given.pipe_write n ≤ n
takes_few n = omega arith

takes_some : (n : ℕ) → 0 < n → 0 < given.pipe_write n
takes_some n h = omega (arith, h)

abbrev socket : TcpSpongeSocket Device
socket = record (fresh device) { tcp = some (Connection.fresh config) }

abbrev counting : ℕ → ℕ
counting i = i

config-IsValid : IsValid counting 99 (Connection.fresh config)
config-IsValid = fresh-IsValid counting 99 config (omega arith) (omega arith)

-- A connection that has the bytes 0, 1 of the peer, which the application has not read.
abbrev heard : TcpConnection
heard =
    let c = Connection.fresh config in
    record c {
      receiver = record (c.receiver) {
        syn = true;
        isn = 99;
        rcv_base = 3;
        reassembler = record (c.receiver.reassembler) {
          cur = 2;
          output = record (c.receiver.reassembler.output) {
            buffer = Buffer.of_string (0 ∷ 1 ∷ []) ∷ [];
            write_bytes = 2;
          };
        };
      };
    }

heard-IsValid : IsValid counting 99 heard
unfolding Reassembler.input_ended Stream.input_ended contents bytes Buffer.str
heard-IsValid = record {
  receiver = record {
    stream = record {
      stream = omega arith;
      same_capacity = refl;
      small = omega arith;
      written = omega arith;
      delivered = (refl, (refl, tt));
      chain = omega arith;
      counted = refl;
    };
    same_capacity = refl;
    isn_known = λ t. refl;
    fin_after_syn = λ t. absurd (ground arith);
    base_is = λ t. refl;
  };
  sender = config-IsValid.sender;
  few = config-IsValid.few;
}

abbrev hearing : TcpSpongeSocket Device
hearing = record (fresh device) { tcp = some heard }

isn_fits : IsU32 99
isn_fits = omega arith

start_connect_lem_example :
    (s' : TcpSpongeSocket Device) × (start_connect device_ops config Adapter.fresh.cfg
        (fresh device)
      ≡ some s')
    × (is_in device_ops State.syn_sent s' ≡ some true)
start_connect_lem_example =
    start_connect_lem device_ops config Adapter.fresh.cfg (fresh device) refl

send_bytes_lem_example : Sent counting 99 isn_fits device_ops 0 (send_bytes device_ops given socket)
send_bytes_lem_example =
    send_bytes_lem counting 99 isn_fits device_ops given socket (Connection.fresh config) refl
      config-IsValid reads_few

deliver_bytes_lem_example :
    Delivered counting 99 device_ops 0
      (handed counting 99 device_ops hearing heard)
      (deliver_bytes device_ops given hearing)
deliver_bytes_lem_example =
    deliver_bytes_lem counting 99 device_ops given hearing heard refl heard-IsValid takes_few
      takes_some

application_rules-serve_example :
    Sent counting 99 isn_fits device_ops 0 (serve (bytes_rule device_ops) given hearing)
    × Delivered counting 99 device_ops 0
        (handed counting 99 device_ops hearing heard)
        (serve (delivery_rule device_ops) given hearing)
application_rules-serve_example =
    application_rules-serve counting 99 isn_fits device_ops given hearing heard refl heard-IsValid
      reads_few takes_few takes_some

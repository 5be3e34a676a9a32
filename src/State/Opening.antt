-- ===== src/State/Opening.antt =====
-- The official states at the start of a connection.
use nju_networking_lab.Base.{◌≡◌, refl, some}
use nju_networking_lab.Stream
use nju_networking_lab.Buffer
use nju_networking_lab.Receiver
use nju_networking_lab.Sender
use nju_networking_lab.Wire.TcpSegment.{length_in_sequence_space}
use nju_networking_lab.Connection.{
  TcpConfig, TcpConnection, fresh, connect, send_segs_from_sender, clean_shutdown,
}
use nju_networking_lab.State.{of_official, state_of, listen, syn_sent}

-- A new connection is in the official state LISTEN, and `connect` always brings it to SYN_SENT.
pub connect-state_of :
    (cfg : TcpConfig)
    → (state_of (fresh cfg) ≡ of_official listen)
      × ((c : TcpConnection) × (connect (fresh cfg) ≡ some c) × (state_of c ≡ of_official syn_sent))
unfolding state_of of_official connect send_segs_from_sender clean_shutdown Sender.fill_window
    Sender.segment_handler length_in_sequence_space Stream.eof Stream.input_ended
    Receiver.stream_out Receiver.ackno Buffer.list_size
connect-state_of cfg = (refl, (_, refl, refl))

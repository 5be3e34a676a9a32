-- ===== src/State.antt =====
-- libsponge/tcp_helpers/tcp_state: the names of a connection's states.
pub mod Opening
use nju_networking_lab.Base.{Bool, true, false, not, ◌&&◌, ltb, ◌==◌, if◌then◌else◌, add64}
use nju_networking_lab.Stream
use nju_networking_lab.Receiver
use nju_networking_lab.Receiver.{TcpReceiver}
use nju_networking_lab.Sender.{TcpSender}
use nju_networking_lab.Connection.{TcpConnection, has_value}

-- The strings of `TCPReceiverStateSummary` and `TCPSenderStateSummary`.
pub data ReceiverSummary : Type 0 where
  error listen syn_recv fin_recv : ReceiverSummary

pub data SenderSummary : Type 0 where
  error closed syn_sent syn_acked fin_sent fin_acked : SenderSummary

pub record TcpState : Type 0 where
  pub sender : SenderSummary
  pub receiver : ReceiverSummary
  pub active : Bool
  pub linger : Bool

-- The official names.
pub data Official : Type 0 where
  listen syn_rcvd syn_sent established close_wait last_ack : Official
  fin_wait_1 fin_wait_2 closing time_wait closed reset : Official

abbrev state : SenderSummary → ReceiverSummary → Bool → Bool → TcpState
state s r active linger = record { sender = s; receiver = r; active = active; linger = linger }

-- `TCPState(state)`
unfoldable pub of_official : Official → TcpState
of_official Official.listen = state SenderSummary.closed ReceiverSummary.listen true true
of_official Official.syn_rcvd = state SenderSummary.syn_sent ReceiverSummary.syn_recv true true
of_official Official.syn_sent = state SenderSummary.syn_sent ReceiverSummary.listen true true
of_official Official.established = state SenderSummary.syn_acked ReceiverSummary.syn_recv true true
of_official Official.close_wait = state SenderSummary.syn_acked ReceiverSummary.fin_recv true false
of_official Official.last_ack = state SenderSummary.fin_sent ReceiverSummary.fin_recv true false
of_official Official.closing = state SenderSummary.fin_sent ReceiverSummary.fin_recv true true
of_official Official.fin_wait_1 = state SenderSummary.fin_sent ReceiverSummary.syn_recv true true
of_official Official.fin_wait_2 = state SenderSummary.fin_acked ReceiverSummary.syn_recv true true
of_official Official.time_wait = state SenderSummary.fin_acked ReceiverSummary.fin_recv true true
of_official Official.reset = state SenderSummary.error ReceiverSummary.error false false
of_official Official.closed = state SenderSummary.fin_acked ReceiverSummary.fin_recv false false

unfoldable pub receiver_summary : TcpReceiver → ReceiverSummary
receiver_summary r =
    if (Receiver.stream_out r).error
    then ReceiverSummary.error
    else if not (has_value (Receiver.ackno r))
    then ReceiverSummary.listen
    else if Stream.input_ended (Receiver.stream_out r)
    then ReceiverSummary.fin_recv
    else ReceiverSummary.syn_recv

unfoldable pub sender_summary : TcpSender → SenderSummary
sender_summary s =
    if s.stream.error
    then SenderSummary.error
    else if s.next_seqno == 0
    then SenderSummary.closed
    else if s.next_seqno == s.bytes_in_flight
    then SenderSummary.syn_sent
    else if not (Stream.eof s.stream)
    then SenderSummary.syn_acked
    else if ltb s.next_seqno (add64 (Stream.bytes_written s.stream) 2)
    then SenderSummary.syn_acked
    else if not (s.bytes_in_flight == 0)
    then SenderSummary.fin_sent
    else SenderSummary.fin_acked

-- `TCPConnection::state`
unfoldable pub state_of : TcpConnection → TcpState
unfolding sender_summary receiver_summary
state_of c =
    state (sender_summary c.sender) (receiver_summary c.receiver) c.active
      (if c.active then c.linger else false)

-- The strings of two summaries are the same.
unfoldable pub same_receiver : ReceiverSummary → ReceiverSummary → Bool
same_receiver ReceiverSummary.error ReceiverSummary.error = true
same_receiver ReceiverSummary.listen ReceiverSummary.listen = true
same_receiver ReceiverSummary.syn_recv ReceiverSummary.syn_recv = true
same_receiver ReceiverSummary.fin_recv ReceiverSummary.fin_recv = true
same_receiver _ _ = false

unfoldable pub same_sender : SenderSummary → SenderSummary → Bool
same_sender SenderSummary.error SenderSummary.error = true
same_sender SenderSummary.closed SenderSummary.closed = true
same_sender SenderSummary.syn_sent SenderSummary.syn_sent = true
same_sender SenderSummary.syn_acked SenderSummary.syn_acked = true
same_sender SenderSummary.fin_sent SenderSummary.fin_sent = true
same_sender SenderSummary.fin_acked SenderSummary.fin_acked = true
same_sender _ _ = false

same_flag : Bool → Bool → Bool
same_flag true b = b
same_flag false b = not b

-- `TCPState::operator==`
unfoldable pub same_state : TcpState → TcpState → Bool
unfolding same_receiver same_sender same_flag
same_state a b =
    same_flag a.active b.active
    && (same_flag a.linger b.linger
        && (same_sender a.sender b.sender && same_receiver a.receiver b.receiver))

-- ===== src/Transfer/Tests.antt =====
-- A transfer that opens and carries three bytes, and the theorems at concrete inputs.
use nju_networking_lab.Base.{ℕ, ◌≡◌, refl, arith, [], ◌∷◌, none, some, true}
use nju_networking_lab.Wire.TcpSegment
use nju_networking_lab.Wire.TcpSegment.{TcpSegment}
use nju_networking_lab.Buffer
use nju_networking_lab.Stream
use nju_networking_lab.Reassembler
use nju_networking_lab.Receiver
use nju_networking_lab.Sender
use nju_networking_lab.Wrap
use nju_networking_lab.Transfer.{
  deliver, World, Event, start, step, run, writes, fills_window, transmits, delivers, hears,
}
use nju_networking_lab.Transfer.Delivery.{Reaches, here, next, Faithful, delivers_in_order}
use nju_networking_lab.Transfer.Recovery.{Arrived, recovery, recovers}

-- The stream 0, 1, 2, ...
abbrev counting : ℕ → ℕ
counting i = i

abbrev begin : World
begin = start 64 1000 7 64

abbrev after : Event → World → World
after e w = elim (step e w) [ none ↦ w | some w' ↦ w' ]

abbrev written : World
written = after (writes (0 ∷ 1 ∷ 2 ∷ [])) begin

-- Its SYN is outstanding.
abbrev opening : World
opening = after fills_window written

abbrev opened : World
opened = after (hears 8 64) (after (delivers 0) (after transmits opening))

abbrev carried : World
carried = after transmits opened

opens : Reaches counting begin opening
unfolding step Sender.fill_window
opens =
    next fills_window
      (next (writes (0 ∷ 1 ∷ 2 ∷ [])) here ((refl, (refl, (refl, tt))), omega arith) refl) tt refl

carries : Reaches counting begin carried
unfolding step deliver Receiver.segment_received Reassembler.push_substring Reassembler.max_idx
    Reassembler.set_end Reassembler.assemble Reassembler.clip_left Reassembler.clip_right
    Reassembler.empty Reassembler.end_if Reassembler.flush Reassembler.flush_nodes
    Reassembler.input_ended Reassembler.insert Reassembler.keep_merging Reassembler.lower_bound
    Reassembler.merge_all Reassembler.merge_prev Reassembler.merge_succ Reassembler.merge_to
    Reassembler.step_back Sender.fill_window Sender.segment_handler Sender.ack_received
    Sender.advance Sender.awaits_syn Sender.fill Sender.send_loop Sender.may_send Sender.acknowledge
    Sender.free_space Sender.reset_timer Sender.send_data Sender.send_fin Stream.buffer_size
    Stream.buffer_empty Stream.clip Stream.end_input Stream.eof Stream.input_ended
    Stream.peek_output Stream.pop_output Stream.read Stream.write Buffer.list_size Buffer.append
    Buffer.concatenate Buffer.list_remove_prefix Buffer.remove_prefix Buffer.size Buffer.str
    TcpSegment.length_in_sequence_space Wrap.unwrap Wrap.wrap Wrap.offset Wrap.sign_extend
    Receiver.note_fin Receiver.stream_index Receiver.take_in
carries =
    next transmits
      (next (hears 8 64) (next (delivers 0) (next transmits opens tt refl) tt refl) tt refl) tt refl

-- The three bytes are the second segment on the wire.
delivers_in_order_example : (w : World) × (step (delivers 1) carried ≡ some w) × Faithful counting w
delivers_in_order_example =
    delivers_in_order counting 7 64 1000 64 carried (delivers 1) (omega arith) (omega arith)
      (omega arith) carries tt

abbrev syn : TcpSegment
syn = record (TcpSegment.blank) {
  header = record (TcpSegment.blank.header) { syn = true; seqno = 7 };
}

-- The SYN is lost.
recovers_example :
    (w : World) × (run (recovery 1000 opening) opening ≡ some w) × Arrived syn 0 opening w
unfolding step Sender.fill_window Sender.segment_handler Wrap.wrap
recovers_example =
    recovers counting 7 64 1000 64 opening syn [] 1000 (omega arith) (omega arith) (omega arith)
      opens (record { at = 0; bytes = tt; ends = omega arith; seqno_is = (refl, refl) }) refl refl
      refl (omega arith) (omega arith)

-- ===== src/Reassembler/Early.antt =====
-- A substring with `eof` that is cut at the window's end.
use nju_networking_lab.Base.{ℕ, ◌^◌, ◌<◌, ◌≡◌, refl, ◌∙◌, arith, List, [], ◌∷◌}
use nju_networking_lab.Base.{
  length, take, length-take, take_of_le, some, Bool, true, false, ◌&&◌, ltb, leb, add64, sub64,
}
use nju_networking_lab.Buffer
use nju_networking_lab.Buffer.Contents.{bytes}
use nju_networking_lab.Stream
use nju_networking_lab.Stream.Contents
use nju_networking_lab.Stream.Contents.{contents}
use nju_networking_lab.Reassembler.{
  StreamReassembler, node, fresh, push_substring, assemble, set_end, max_idx, clip_right, clip_left,
  merge_all, merge_succ, merge_prev, lower_bound, step_back, insert, flush, flush_nodes, end_if,
  empty, input_ended,
}

end_if_lem :
    (b : Bool) (r : StreamReassembler)
    → ((end_if b r).unassembled ≡ r.unassembled)
      × (contents (end_if b r).output ≡ contents r.output)
      × ((end_if b r).cur ≡ r.cur)
unfolding end_if Stream.end_input contents
end_if_lem true r = (refl, refl, refl)
end_if_lem false r = (refl, refl, refl)

end_if-ended : (b : Bool) (r : StreamReassembler) → b ≡ true → input_ended (end_if b r) ≡ true
unfolding end_if Stream.end_input input_ended Stream.input_ended
end_if-ended b r e = rw (e) refl

module _ (capacity : ℕ) (substring : List ℕ) (room : 0 < capacity) (small : capacity < 2 ^ 62)
    (long : capacity < length substring) (fits : length substring < 2 ^ 62) where
  started : StreamReassembler
  started = record (fresh capacity) { input_end_idx = length substring }

  front : List ℕ
  front = take capacity substring

  length-front : length front ≡ capacity
  unfolding front
  length-front = omega (arith, length-take capacity substring)

  clipped : clip_left 0 (clip_right capacity (node 0 substring)) ≡ some (node 0 front)
  unfolding clip_left clip_right front
  clipped =
      let over : ltb capacity (add64 0 (length substring)) ≡ true = ground arith in
      let all : sub64 capacity 0 ≡ capacity = omega arith in rw (over, all) refl

  -- What is written: all of the front.
  flushed : StreamReassembler
  flushed = flush (record started { nodes = node 0 front ∷ []; unassembled = capacity })

  free : Stream.remaining_capacity (Stream.fresh capacity) ≡ capacity
  unfolding contents bytes
  free = omega (
    arith,
    Contents.remaining_capacity-add-length (Contents.fresh-IsValid capacity (omega arith)),
  )

  flushed_lem :
      (contents flushed.output ≡ front) × (flushed.cur ≡ capacity) × (flushed.unassembled ≡ 0)
  unfolding flushed flush flush_nodes started contents bytes
  flushed_lem = (
    Contents.contents-write front (Stream.fresh capacity)
        ∙ take_of_le (Stream.remaining_capacity (Stream.fresh capacity)) front
            (omega (arith, free, length-front)),
    omega (arith, Contents.write-count front (Stream.fresh capacity), free, length-front),
    omega (arith, Contents.write-count front (Stream.fresh capacity), free, length-front),
  )

  assembled : StreamReassembler
  assembled =
      let r' = end_if (leb flushed.input_end_idx flushed.cur && empty flushed) flushed in
      end_if (true && empty r') r'

  assemble_front : assemble (node 0 substring) true started ≡ some assembled
  unfolding assemble max_idx Stream.buffer_size Buffer.list_size assembled flushed started merge_all
      merge_succ merge_prev lower_bound step_back insert
  assemble_front =
      let limit : max_idx started ≡ capacity = omega arith in
      let count : add64 0 (length front) ≡ capacity = omega (arith, length-front) in
      rw (limit, clipped, count) refl

  -- A new reassembler that is given, with `eof`, a piece from index 0 that is longer than its
  -- capacity takes the front of it and ends the stream there, before the rest has arrived, if the
  -- capacity is not zero and the numbers stay below 2 ^ 62.
  pub ends_early :
      (r : StreamReassembler) × (push_substring substring 0 true (fresh capacity) ≡ some r)
      × (contents r.output ≡ take capacity substring)
      × (r.cur ≡ capacity)
      × (input_ended r ≡ true)
  unfolding push_substring set_end max_idx Stream.buffer_size Buffer.list_size started assembled
      empty front
  ends_early =
      let near : ltb (add64 (sub64 0 0) capacity) 0 ≡ false = ground arith in
      let far : leb (add64 0 (length substring)) 0 ≡ false = ground arith in
      let total : add64 0 (length substring) ≡ length substring = omega arith in
      let inner = end_if_lem (leb flushed.input_end_idx flushed.cur && empty flushed) flushed in
      let r' = end_if (leb flushed.input_end_idx flushed.cur && empty flushed) flushed in
      let outer = end_if_lem (true && empty r') r' in
      (
        assembled,
        rw (near, far, total) assemble_front,
        outer.1 ∙ inner.1 ∙ flushed_lem.0,
        outer.2 ∙ inner.2 ∙ flushed_lem.1,
        end_if-ended (true && empty r') r' (ground (arith, inner.0, flushed_lem.2)),
      )

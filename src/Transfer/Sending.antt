-- ===== src/Transfer/Sending.antt =====
-- Whatever the sender does, what it sends are pieces of the source in their places.
use nju_networking_lab.Base.{ℕ, zero, suc, ◌+◌, min, ◌≡◌, refl, sym, ap, ◌∙◌, inl, inr, arith, List}
use nju_networking_lab.Base.{
  length, take, drop, length-take, length-drop, drop-min, some, Bool, true, false, not, ◌&&◌,
  if◌then◌else◌, ltb, ◌==◌, Bool-cases, IsU32, Whenever, Whenever-bind, Whenever-if, Whenever-map,
  ◌>>=◌,
}
use nju_networking_lab.Wrap.{WrappingInt32}
use nju_networking_lab.Stream
use nju_networking_lab.Stream.{ByteStream}
use nju_networking_lab.Stream.Contents.{contents, read_lem, Popped, Popped-IsValid}
use nju_networking_lab.Wire.TcpSegment.{length_in_sequence_space}
use nju_networking_lab.Reassembler.Source.{Matches-of, Matches-drop, Matches-take}
use nju_networking_lab.Sender.{
  TcpSender, segment_handler, syn_segment, fin_segment, data_segment, max_payload_size, free_space,
  send_data, may_send, send_loop, send_fin, fill, awaits_syn, fill_window,
}
use nju_networking_lab.Transfer.Placed.{Feeds, Sends, segment_handler-Sends}

module _ (source : ℕ → ℕ) where
  -- A read takes the front of the bytes off.
  pub Popped-Feeds :
      {n : ℕ} {st st' : ByteStream}
      → Feeds source st
      → Popped n st st'
      → Feeds source st' × (st'.read_bytes ≡ st.read_bytes + min n (length (contents st)))
  Popped-Feeds {n} {st} {st'} f p = (
    record {
      valid = Popped-IsValid p f.valid;
      rest =
          Matches-of source (st.read_bytes + min n (length (contents st))) st'.read_bytes
            (drop (min n (length (contents st))) (contents st)) (contents st')
            (omega (arith, p.read_count, f.counts, f.few)) (drop-min n (contents st) ∙ sym p.rest)
            (Matches-drop source (min n (length (contents st))) st.read_bytes (contents st) f.rest);
      counts = omega (
        arith,
        p.read_count,
        p.same_written,
        f.counts,
        f.few,
        ap length p.rest,
        length-drop n (contents st),
      );
      few = omega (arith, p.same_written, f.few);
    },
    omega (arith, p.read_count, f.counts, f.few),
  )

module _ (source : ℕ → ℕ) (isn : WrappingInt32) (written : ℕ) (hi : IsU32 isn) where
  -- A sender that has sent its SYN.
  abbrev Going : TcpSender → Type 0
  Going s = Sends source isn written s × (s.syn_sent ≡ true)

  send_data-Sends :
      (s : TcpSender)
      → Sends source isn written s
      → s.syn_sent ≡ true
      → s.fin_sent ≡ false
      → Whenever Going (send_data s)
  unfolding send_data Stream.eof length_in_sequence_space
  send_data-Sends s v t g = go (read_lem size s.stream)
    where
      size : ℕ
      size = if ltb max_payload_size s.free_bytes then max_payload_size else s.free_bytes

      payload : List ℕ
      payload = take size (contents s.stream)

      go :
          ((st : ByteStream) × (Stream.read size s.stream ≡ some (payload, st))
            × Popped size s.stream st)
          → Whenever Going (send_data s)
      go (st, run, p) = rw (run) (
          ended (
            Stream.eof st
            && ltb (length_in_sequence_space (data_segment payload false)) s.receiver_window_size))
        where
          popped :
              Feeds source st
              × (st.read_bytes ≡ s.stream.read_bytes + min size (length (contents s.stream)))
          popped = Popped-Feeds source v.feeds p

          ended :
              (last : Bool)
              → Going (
                  segment_handler
                    (data_segment payload last)
                    (record s { stream = st; fin_sent = if last then true else s.fin_sent }))
          ended last = (
            segment_handler-Sends source isn written (data_segment payload last)
                (record s { stream = st; fin_sent = if last then true else s.fin_sent })
                s.stream.read_bytes v.same_isn hi popped.0 (p.same_written ∙ v.same_written) t
                (Matches-take source size s.stream.read_bytes (contents s.stream) v.feeds.rest)
                (omega (arith, popped.1, length-take size (contents s.stream)))
                (ground (arith, v.next, t, g))
                (ground (arith, v.next, t, g, popped.1, length-take size (contents s.stream)))
                (v.out) (v.kept),
            unfold segment_handler in t,
          )

  may_send-open : (edge : ℕ) (s : TcpSender) → may_send edge s ≡ true → s.fin_sent ≡ false
  unfolding may_send
  may_send-open edge s h = ground arith

  send_loop-Sends :
      (fuel edge : ℕ) (s : TcpSender) → Going s → Whenever Going (send_loop fuel edge s)
  unfolding send_loop
  send_loop-Sends zero edge s v = tt
  send_loop-Sends (suc fuel) edge s (v, t) =
      tries (may_send edge s) (more (send_loop-Sends fuel edge))
    where
      tested : Sends source isn written (record s { free_bytes = free_space edge s })
      tested = record {
        same_isn = v.same_isn;
        feeds = v.feeds;
        same_written = v.same_written;
        next = v.next;
        before = v.before;
        out = v.out;
        kept = v.kept;
      }

      tries :
          (b : Bool)
          → (b ≡ true
              → Whenever Going
                  (send_data (record s { free_bytes = free_space edge s }) >>= send_loop fuel edge))
          → Whenever Going (elim b [
            | true ↦ send_data (record s { free_bytes = free_space edge s }) >>= send_loop fuel edge
            | false ↦ some (record s { free_bytes = free_space edge s })
          ])
      tries true f = f refl
      tries false f = (tested, t)

      more :
          ((u : TcpSender) → Going u → Whenever Going (send_loop fuel edge u))
          → may_send edge s ≡ true
          → Whenever Going
              (send_data (record s { free_bytes = free_space edge s }) >>= send_loop fuel edge)
      more loop m =
          Whenever-bind Going Going (send_data (record s { free_bytes = free_space edge s }))
            (send_loop fuel edge) (send_data-Sends _ tested t (may_send-open edge s m)) loop

  send_fin-Sends :
      (edge : ℕ) (s : TcpSender) → Going s → s.fin_sent ≡ false → Going (send_fin edge s)
  unfolding send_fin length_in_sequence_space
  send_fin-Sends edge s (v, t) g =
      elim (Bool-cases (Stream.eof s.stream && ltb s.next_seqno edge)) [
        | inr f ↦ rw (f) (v, t)
        | inl e ↦ rw (e) (
          segment_handler-Sends source isn written fin_segment (record s { fin_sent = true })
              s.stream.read_bytes v.same_isn hi v.feeds v.same_written t tt (omega arith)
              (ground (arith, v.next, t, g)) (ground (arith, v.next, t, g)) v.out v.kept,
          unfold segment_handler in t,
        )
      ]

  fill-Sends : (s : TcpSender) → Going s → s.fin_sent ≡ false → Whenever Going (fill s)
  unfolding fill
  fill-Sends s (v, t) g = send_loop-Sends _ _ _ (send_fin-Sends _ _ (noted, t) g)
    where
      noted : Sends source isn written (record s {
        receiver_window_size = if s.receiver_window_size == 0 then 1 else s.receiver_window_size;
      })
      noted = record {
        same_isn = v.same_isn;
        feeds = v.feeds;
        same_written = v.same_written;
        next = v.next;
        before = v.before;
        out = v.out;
        kept = v.kept;
      }

  pub fill_window-Sends :
      (s : TcpSender)
      → Sends source isn written s
      → Whenever (Sends source isn written) (fill_window s)
  unfolding fill_window length_in_sequence_space
  fill_window-Sends s v = Whenever-if (Sends source isn written) (not s.syn_sent) _ _ opens (λ t.
      Whenever-if (Sends source isn written) (awaits_syn s.outstanding) (some s) _ (λ w. v)
        (λ w.
          Whenever-if (Sends source isn written) s.fin_sent (some s) (fill s) (λ d. v)
            (λ g.
              Whenever-map Going (Sends source isn written) (fill s) (λ u h. h.0)
                (fill-Sends s (v, ground (arith, t)) g))))
    where
      opens :
          not s.syn_sent ≡ true
          → Sends source isn written (segment_handler syn_segment (record s { syn_sent = true }))
      opens t =
          let f : s.syn_sent ≡ false = ground (arith, t) in
          segment_handler-Sends source isn written syn_segment (record s { syn_sent = true }) 0
            v.same_isn hi v.feeds v.same_written refl tt (omega arith)
            (refl, ground (arith, v.next, f)) (ground (arith, v.next, f, v.before f)) v.out v.kept

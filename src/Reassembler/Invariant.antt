-- ===== src/Reassembler/Invariant.antt =====
-- The reassembler's invariant against the source stream, and the steps of `push_substring` that
-- touch the output.
use nju_networking_lab.Base.{
  ℕ, suc, ◌+◌, ◌-◌, ◌^◌, ◌≤◌, ◌<◌, ◌≡◌, ◌⊎◌, ◌↔◌, inl, inr, refl, sym, ap, ◌∙◌, arith, List, [],
  ◌∷◌, ◌++◌,
}
use nju_networking_lab.Base.{
  length, length-append, take_of_le, true, false, ltb, ◌==◌, Bool-cases, add64, sub64,
}
use mathlib.Core.Path.{subst}
use nju_networking_lab.Base.{==_iff}
use nju_networking_lab.Stream
use nju_networking_lab.Stream.{ByteStream}
use nju_networking_lab.Stream.Contents
use nju_networking_lab.Stream.Contents.{contents}
use nju_networking_lab.Reassembler.{StreamReassembler, Node, insert, max_idx, flush, flush_nodes}
use nju_networking_lab.Reassembler.Source.{Matches, Matches-append, Matches-of}
use nju_networking_lab.Reassembler.Merge.{fin, IsNode}
use nju_networking_lab.Reassembler.Chain.{total, Has, Chain, Chain-le, Chain-at}

-- The bytes that are in the output stream and not yet read.
abbrev pub held : StreamReassembler → List ℕ
held r = contents r.output

-- The first index beyond the window: as many bytes are read by then as `_cur_idx` and the buffer say.
abbrev pub window_end : StreamReassembler → ℕ
window_end r = r.cur - length (held r) + r.capacity

-- The byte at index `j` has been put in order, or is stored.
abbrev pub Got : StreamReassembler → ℕ → Type 0
Got r j = (j < r.cur) ⊎ Has r.nodes j

-- The invariant with the stored nodes from index `a` on.
pub record Within (source : ℕ → ℕ) (a : ℕ) (r : StreamReassembler) : Type 0 where
  pub stream : Contents.IsValid r.output
  pub same_capacity : r.output.capacity ≡ r.capacity
  pub small : r.capacity < 2 ^ 62
  pub written : length (held r) ≤ r.cur
  pub delivered : Matches source (r.cur - length (held r)) (held r)
  pub chain : Chain source a (suc (window_end r)) r.nodes
  pub counted : r.unassembled ≡ total r.nodes

-- What is in the output is the source's bytes up to `_cur_idx`; what is stored are the source's
-- bytes, in nodes in order with gaps between them, behind a gap at `_cur_idx` and inside the
-- window; and `_unassembled_bytes` counts them.
abbrev pub IsValid : (ℕ → ℕ) → StreamReassembler → Type 0
IsValid source r = Within source (suc r.cur) r

module _ (source : ℕ → ℕ) where
  pub max_idx-window_end :
      {a : ℕ} {r : StreamReassembler}
      → Within source a r
      → window_end r < 2 ^ 63
      → max_idx r ≡ window_end r
  unfolding max_idx Stream.buffer_size
  max_idx-window_end {a} {r} v h =
      ground (arith, v.written, v.small, Contents.list_size-contents r.output)

  pub insert-between :
      (a b : ℕ) (block : Node) (before after : List Node)
      → Chain source a block.idx before
      → Chain source (suc (fin block)) b after
      → insert block (before ++ after) ≡ before ++ (block ∷ after)
  unfolding insert
  insert-between a b block [] [] low high = refl
  insert-between a b block [] (n ∷ after) low high =
      let e : ltb block.idx n.idx ≡ true = ground arith in rw e refl
  insert-between a b block (n ∷ before) after low high =
      let past : n.idx < block.idx =
        omega (arith, Chain-le source (suc (fin n)) block.idx before low.2) in
      let e : ltb block.idx n.idx ≡ false = ground arith in
      let f : (block.idx == n.idx) ≡ false = ground arith in
      rw (e, f) (ap (λ ns. n ∷ ns) (insert-between (suc (fin n)) b block before after low.2 high))

  -- Writing the first node keeps the invariant, with the gap at `_cur_idx`; no index is lost or won.
  pub record Flushed (r r' : StreamReassembler) : Type 0 where
    pub valid : IsValid source r'
    pub same_window : window_end r' ≡ window_end r
    pub forward : r.cur ≤ r'.cur
    pub capacity_kept : r'.capacity ≡ r.capacity
    pub kept : (j : ℕ) → Got r' j ↔ Got r j

  module _ {r : StreamReassembler} (v : Within source r.cur r) (h : window_end r < 2 ^ 63)
      (n : Node) (ns : List Node) (is_node : IsNode source n) (at : n.idx ≡ r.cur)
      (rest : Chain source (suc (fin n)) (suc (window_end r)) ns) where
    room : Stream.remaining_capacity r.output + length (held r) ≡ r.capacity
    room = Contents.remaining_capacity-add-length v.stream ∙ v.same_capacity

    fits : length n.bytes ≤ Stream.remaining_capacity r.output
    fits =
        omega
          (arith, room, v.written, at, Chain-le source (suc (fin n)) (suc (window_end r)) ns rest)

    all_written : (Stream.write n.bytes r.output).0 ≡ length n.bytes
    all_written = omega (arith, Contents.write-count n.bytes r.output, fits)

    held_after : contents (Stream.write n.bytes r.output).1 ≡ held r ++ n.bytes
    held_after =
        Contents.contents-write n.bytes r.output
        ∙ ap (λ xs. held r ++ xs) (take_of_le (Stream.remaining_capacity r.output) n.bytes fits)

    length_after :
        length (contents (Stream.write n.bytes r.output).1) ≡ length (held r) + length n.bytes
    length_after = ap length held_after ∙ length-append (held r) n.bytes

    flushed : StreamReassembler
    flushed = record r {
      nodes = ns;
      unassembled = sub64 r.unassembled (Stream.write n.bytes r.output).0;
      cur = add64 r.cur (Stream.write n.bytes r.output).0;
      output = (Stream.write n.bytes r.output).1;
    }

    cur_after : flushed.cur ≡ r.cur + length n.bytes
    unfolding flushed
    cur_after = omega (arith, all_written, is_node.fits, at)

    window_after : window_end flushed ≡ window_end r
    unfolding flushed
    window_after = omega (arith, length_after, cur_after, v.written)

    IsValid-after : total r.nodes ≡ length n.bytes + total ns → IsValid source flushed
    unfolding flushed
    IsValid-after count = record {
      stream = Contents.write-IsValid n.bytes v.stream;
      same_capacity = unfold Stream.write in v.same_capacity;
      small = v.small;
      written = omega (arith, length_after, cur_after, v.written);
      delivered =
          Matches-of source (r.cur - length (held r)) (flushed.cur - length (held flushed))
            (held r ++ n.bytes) (held flushed) (omega (arith, length_after, cur_after, v.written))
            (sym held_after)
            (Matches-append source (r.cur - length (held r)) n.idx (held r) n.bytes
              (omega (arith, v.written, at)) v.delivered is_node.right);
      chain =
          Chain-at source (suc (fin n)) (suc flushed.cur) (suc (window_end r))
            (suc (window_end flushed)) ns (omega (arith, cur_after, at)) (ap suc (sym window_after))
            rest;
      counted = omega (
        arith,
        all_written,
        v.counted,
        is_node.fits,
        count,
        Chain-le source r.cur (suc (window_end r)) r.nodes v.chain,
      );
    }

    there_node : (j : ℕ) → (j < flushed.cur) ⊎ Has ns j → (j < r.cur) ⊎ Has (n ∷ ns) j
    there_node j (inl h) = elim (Bool-cases (ltb j r.cur)) [
      | inl e ↦ inl (ground arith)
      | inr e ↦ inr (inl (ground (arith, at), omega (arith, cur_after, at)))
    ]
    there_node j (inr h) = inr (inr h)

    back_node : (j : ℕ) → (j < r.cur) ⊎ Has (n ∷ ns) j → (j < flushed.cur) ⊎ Has ns j
    back_node j (inl h) = inl (omega (arith, cur_after))
    back_node j (inr (inl h)) = inl (omega (arith, cur_after, at))
    back_node j (inr (inr h)) = inr h

    flush_node : r.nodes ≡ n ∷ ns → Flushed r (flush_nodes (n ∷ ns) r)
    unfolding flush_nodes flushed
    flush_node e =
        let t : (n.idx == r.cur) ≡ true = ground arith in
        rw t (record {
          valid = IsValid-after (ap total e);
          same_window = window_after;
          forward = omega (arith, cur_after);
          capacity_kept = refl;
          kept = λ j. (
            λ h. subst (λ xs. (j < r.cur) ⊎ Has xs j) (sym e) (there_node j h),
            λ h. back_node j (subst (λ xs. (j < r.cur) ⊎ Has xs j) e h),
          );
        })

  pub Within-from :
      (a b : ℕ) (r : StreamReassembler)
      → Within source a r
      → Chain source b (suc (window_end r)) r.nodes
      → Within source b r
  Within-from a b r v c = record {
    stream = v.stream;
    same_capacity = v.same_capacity;
    small = v.small;
    written = v.written;
    delivered = v.delivered;
    chain = c;
    counted = v.counted;
  }

  unflushed :
      (r : StreamReassembler)
      → Within source r.cur r
      → Chain source (suc r.cur) (suc (window_end r)) r.nodes
      → Flushed r r
  unflushed r v c = record {
    valid = Within-from r.cur (suc r.cur) r v c;
    same_window = refl;
    forward = omega arith;
    capacity_kept = refl;
    kept = λ j. (λ h. h, λ h. h);
  }

  flush_nodes_lem :
      (ns : List Node) (r : StreamReassembler)
      → r.nodes ≡ ns
      → Within source r.cur r
      → window_end r < 2 ^ 63
      → Flushed r (flush_nodes ns r)
  unfolding flush_nodes
  flush_nodes_lem [] r e v h =
      unflushed r v (rw e (omega (arith, v.written, v.stream.held, v.same_capacity)))
  flush_nodes_lem (n ∷ ns) r e v h = elim (Bool-cases (n.idx == r.cur)) [
    | inl t ↦ flush_node v h n ns chain.1 ((==_iff n.idx r.cur).0 t) chain.2 e
    | inr t ↦ rw t (unflushed r v (rw e (ground (arith, chain.0), chain.1, chain.2)))
  ]
    where
      chain : Chain source r.cur (suc (window_end r)) (n ∷ ns)
      chain = rw e at v.chain

  pub flush_lem :
      (r : StreamReassembler) → Within source r.cur r → window_end r < 2 ^ 63 → Flushed r (flush r)
  unfolding flush
  flush_lem r v h = flush_nodes_lem r.nodes r refl v h

-- ===== src/Reassembler/Assembled.antt =====
-- What a push of a piece does to a reassembler, and that `assemble` does it.
use nju_networking_lab.Base.{
  ℕ, suc, ◌+◌, ◌^◌, ◌≤◌, ◌<◌, ◌≡◌, ◌⊎◌, ◌↔◌, inl, inr, refl, sym, ap, ◌∙◌, arith, List, ◌∷◌, ◌++◌,
}
use nju_networking_lab.Base.{length, some, Bool, ◌&&◌, ltb, leb, Bool-cases, add64}
use mathlib.Core.Path.{subst}
use nju_networking_lab.Reassembler.{
  StreamReassembler, Node, node, Merging, insert, flush, end_if, empty, assemble, clip_left,
  clip_right, merge_all,
}
use nju_networking_lab.Reassembler.Source.{Matches}
use nju_networking_lab.Reassembler.Chain.{
  total, total-append, Has, Chain, Chain-le, Chain-append, Chain-weaken,
}
use nju_networking_lab.Reassembler.All.{MergeDone, merge_all_lem}
use nju_networking_lab.Reassembler.Clip.{Clipped, clip_lem}
use nju_networking_lab.Reassembler.Invariant.{
  window_end, Got, Within, IsValid, max_idx-window_end, insert-between, Flushed, flush_lem,
}
use nju_networking_lab.Reassembler.Ending.{end_if-Flushed}

module _ (source : ℕ → ℕ) where
  -- The index lies in the substring and in the window.
  abbrev pub Offered : ℕ → ℕ → StreamReassembler → ℕ → Type 0
  Offered index len r j = (index ≤ j) × (j < index + len) × (j < window_end r)

  -- What a push does.
  pub record Pushed (index len : ℕ) (r r' : StreamReassembler) : Type 0 where
    pub valid : IsValid source r'
    pub same_window : window_end r' ≡ window_end r
    pub forward : r.cur ≤ r'.cur
    pub capacity_kept : r'.capacity ≡ r.capacity
    pub kept : (j : ℕ) → Got r' j ↔ (Got r j ⊎ Offered index len r j)

  -- A push that offers nothing new.
  pub Flushed-Pushed :
      (index len : ℕ) {r r' : StreamReassembler}
      → ((j : ℕ) → Offered index len r j → j < r.cur)
      → Flushed source r r'
      → Pushed index len r r'
  Flushed-Pushed index len {r} {r'} old f = record {
    valid = f.valid;
    same_window = f.same_window;
    forward = f.forward;
    capacity_kept = f.capacity_kept;
    kept = λ j. (λ h. inl ((f.kept j).0 h), back j);
  }
    where
      back : (j : ℕ) → Got r j ⊎ Offered index len r j → Got r' j
      back j (inl h) = (f.kept j).1 h
      back j (inr h) = (f.kept j).1 (inl (old j h))

  -- The state between the merging and the writing.
  abbrev merged : StreamReassembler → Merging → StreamReassembler
  merged r m = record r { nodes = insert m.block m.set; unassembled = m.count }

  module _ (index : ℕ) (bytes : List ℕ) {r : StreamReassembler} (v : IsValid source r)
      (right : Matches source index bytes) (small : window_end r < 2 ^ 63)
      (fits : index + length bytes < 2 ^ 63) (near : index ≤ window_end r)
      (past : r.cur < index + length bytes) where
    in_room : r.cur ≤ window_end r
    in_room = omega (arith, v.written, v.stream.held, v.same_capacity)

    merged_lem :
        (b : Node)
        → Clipped source index (length bytes) r.cur (window_end r) b
        → (m : Merging) → MergeDone source r.cur (suc (window_end r)) b r.nodes m
        → Within source r.cur (merged r m)
          × ((j : ℕ) → Got (merged r m) j ↔ (Got r j ⊎ Offered index (length bytes) r j))
    merged_lem b c m d = (valid, λ j. (there j, back j))
      where
        inserted : insert m.block m.set ≡ d.before ++ (m.block ∷ d.after)
        inserted =
            ap (insert m.block) d.set_is
            ∙ insert-between source r.cur (suc (window_end r)) m.block d.before d.after d.low d.high

        ordered : Chain source r.cur (suc (window_end r)) (d.before ++ (m.block ∷ d.after))
        ordered =
            Chain-append source r.cur m.block.idx (suc (window_end r)) d.before (m.block ∷ d.after)
              d.low (omega arith, d.is_node, d.high)

        valid : Within source r.cur (merged r m)
        valid = record {
          stream = v.stream;
          same_capacity = v.same_capacity;
          small = v.small;
          written = v.written;
          delivered = v.delivered;
          chain = subst (λ ns. Chain source r.cur (suc (window_end r)) ns) (sym inserted) ordered;
          counted = d.counted ∙ sym (ap total inserted ∙ total-append d.before (m.block ∷ d.after));
        }

        from_block : (j : ℕ) → Has (b ∷ r.nodes) j → Got r j ⊎ Offered index (length bytes) r j
        from_block j (inl h) =
            let (lo, hi, cur, in_window) = (c.kept j).0 h in inr (lo, hi, in_window)
        from_block j (inr h) = inl (inr h)

        to_merged : (j : ℕ) → Has (b ∷ r.nodes) j → Got (merged r m) j
        to_merged j h = inr (subst (λ ns. Has ns j) (sym inserted) ((d.kept j).1 h))

        there : (j : ℕ) → Got (merged r m) j → Got r j ⊎ Offered index (length bytes) r j
        there j (inl h) = inl (inl h)
        there j (inr h) = from_block j ((d.kept j).0 (subst (λ ns. Has ns j) inserted h))

        back : (j : ℕ) → Got r j ⊎ Offered index (length bytes) r j → Got (merged r m) j
        back j (inl (inl h)) = inl h
        back j (inl (inr h)) = to_merged j (inr h)
        back j (inr h) = elim (Bool-cases (ltb j r.cur)) [
          | inl e ↦ inl (ground arith)
          | inr e ↦ to_merged j (inl ((c.kept j).1 (h.0, h.1, ground arith, h.2)))
        ]

    total_room : total r.nodes + r.cur ≤ window_end r
    total_room = omega (arith, Chain-le source (suc r.cur) (suc (window_end r)) r.nodes v.chain)

    Pushed-after :
        {r1 r2 : StreamReassembler}
        → window_end r1 ≡ window_end r
        → r1.cur ≡ r.cur
        → r1.capacity ≡ r.capacity
        → ((j : ℕ) → Got r1 j ↔ (Got r j ⊎ Offered index (length bytes) r j))
        → Flushed source r1 r2
        → Pushed index (length bytes) r r2
    Pushed-after same cur_is cap got f = record {
      valid = f.valid;
      same_window = f.same_window ∙ same;
      forward = omega (arith, f.forward);
      capacity_kept = f.capacity_kept ∙ cap;
      kept = λ j. (λ h. (got j).0 ((f.kept j).0 h), λ h. (f.kept j).1 ((got j).1 h));
    }

    pub assemble_lem :
        (eof : Bool)
        → (r' : StreamReassembler) × (assemble (node index bytes) eof r ≡ some r')
          × Pushed index (length bytes) r r'
    assemble_lem eof =
        go (clip_lem source index r.cur (window_end r) bytes right fits near past in_room)
      where
        Goal : Type 0
        Goal =
            (r' : StreamReassembler) × (assemble (node index bytes) eof r ≡ some r')
            × Pushed index (length bytes) r r'

        finish : Merging → StreamReassembler
        finish m =
            let r' = flush (merged r m) in
            let r'' = end_if (leb r'.input_end_idx r'.cur && empty r') r' in
            end_if (eof && empty r'') r''

        go :
            ((b : Node) × (clip_left r.cur (clip_right (window_end r) (node index bytes)) ≡ some b)
              × Clipped source index (length bytes) r.cur (window_end r) b)
            → Goal
        go (b, run, c) = go_merge (
            merge_all_lem source r.cur (suc (window_end r)) (add64 r.unassembled b.len) b r.nodes
              c.is_node c.from (omega (arith, c.upto))
              (Chain-weaken source (suc r.cur) r.cur (suc (window_end r)) r.nodes (omega arith)
                v.chain)
              (omega (arith, total_room, v.counted, c.is_node.len_ok, c.upto)) (omega arith))
          where
            go_merge :
                ((m : Merging) × (merge_all
                      (record { count = add64 r.unassembled b.len; block = b; set = r.nodes })
                    ≡ some m)
                  × MergeDone source r.cur (suc (window_end r)) b r.nodes m)
                → Goal
            go_merge (m, run', d) =
                let (valid, got) = merged_lem b c m d in
                (
                  finish m,
                  unfold assemble in rw (max_idx-window_end source v small, run) (rw run' refl),
                  Pushed-after refl refl refl got (
                      end_if-Flushed source _
                        (end_if-Flushed source _ (flush_lem source (merged r m) valid small))),
                )

-- ===== src/Reassembler/Push.antt =====
-- `push_substring` as a whole: it never faults, keeps the invariant, and takes exactly the indices
-- of the substring that lie in the window.
use nju_networking_lab.Base.{ℕ, ◌+◌, ◌^◌, ◌≤◌, ◌<◌, ◌≡◌, ◌⊎◌, inl, inr, refl, ◌∙◌, arith, List}
use nju_networking_lab.Base.{length, some, Bool, true, false, ◌&&◌, ltb, leb, Bool-cases, add64}
use nju_networking_lab.Reassembler.{
  StreamReassembler, max_idx, end_if, set_end, empty, push_substring,
}
use nju_networking_lab.Reassembler.Source.{Matches}
use nju_networking_lab.Reassembler.Chain.{}
use nju_networking_lab.Reassembler.Invariant.{window_end, Got, IsValid, max_idx-window_end, Flushed}
use nju_networking_lab.Reassembler.Ending.{end_if-Flushed, set_end-IsValid, cur-set_end}
use nju_networking_lab.Reassembler.Assembled.{Offered, Pushed, Flushed-Pushed, assemble_lem}

module _ (source : ℕ → ℕ) where
  -- For every source stream, `push_substring` of a piece of it, at any index and with any `eof`,
  -- returns without a fault, keeps the invariant (what is in the output and what is stored are the
  -- source's bytes, in order, and counted), leaves the window where it is, and has afterwards
  -- exactly the indices that it had and those of the piece that lie below the window's end. The
  -- piece and the window end below 2 ^ 63.
  pub push_substring_lem :
      (bytes : List ℕ) (index : ℕ) (eof : Bool) {r : StreamReassembler}
      → IsValid source r
      → Matches source index bytes
      → window_end r < 2 ^ 63
      → index + length bytes < 2 ^ 63
      → (r' : StreamReassembler) × (push_substring bytes index eof r ≡ some r')
        × Pushed source index (length bytes) r r'
  unfolding push_substring
  push_substring_lem bytes index eof {r} v right small fits =
      elim (Bool-cases (ltb (max_idx r1) index)) [
        | inl e ↦ (r1, rw e refl, Flushed-Pushed source index (length bytes) (beyond e) start)
        | inr e ↦ elim (Bool-cases (leb (add64 index (length bytes)) r1.cur)) [
          | inl f ↦ (
            end_if (leb r1.input_end_idx r1.cur && empty r1) r1,
            rw (e, f) refl,
            Flushed-Pushed source index (length bytes) (behind f) (end_if-Flushed source _ start),
          )
          | inr f ↦
              let (r', run, p) =
                assemble_lem source index bytes start.valid right (omega (arith, start.same_window))
                  fits (near e) (past f) eof in
              (r', rw (e, f) run, carry p)
        ]
      ]
    where
      r1 : StreamReassembler
      r1 = set_end eof (add64 index (length bytes)) r

      start : Flushed source r r1
      start = set_end-IsValid source eof (add64 index (length bytes)) v

      same_cur : r1.cur ≡ r.cur
      same_cur = cur-set_end source eof (add64 index (length bytes)) r

      window : max_idx r1 ≡ window_end r
      window =
          max_idx-window_end source start.valid (omega (arith, start.same_window))
          ∙ start.same_window

      beyond :
          ltb (max_idx r1) index ≡ true
          → (j : ℕ) → Offered source index (length bytes) r j
          → j < r.cur
      beyond e j h = absurd (ground (arith, window))

      behind :
          leb (add64 index (length bytes)) r1.cur ≡ true
          → (j : ℕ) → Offered source index (length bytes) r j
          → j < r.cur
      behind f j h = ground (arith, same_cur)

      near : ltb (max_idx r1) index ≡ false → index ≤ window_end r1
      near e = ground (arith, window, start.same_window)

      past : leb (add64 index (length bytes)) r1.cur ≡ false → r1.cur < index + length bytes
      past f = ground arith

      carry :
          {r' : StreamReassembler}
          → Pushed source index (length bytes) r1 r'
          → Pushed source index (length bytes) r r'
      carry {r'} p = record {
        valid = p.valid;
        same_window = p.same_window ∙ start.same_window;
        forward = omega (arith, p.forward, same_cur);
        capacity_kept = p.capacity_kept ∙ start.capacity_kept;
        kept = λ j. (λ h. there j ((p.kept j).0 h), λ h. (p.kept j).1 (back j h));
      }
        where
          there :
              (j : ℕ)
              → Got r1 j ⊎ Offered source index (length bytes) r1 j
              → Got r j ⊎ Offered source index (length bytes) r j
          there j (inl h) = inl ((start.kept j).0 h)
          there j (inr h) = inr (h.0, h.1, omega (arith, start.same_window))

          back :
              (j : ℕ)
              → Got r j ⊎ Offered source index (length bytes) r j
              → Got r1 j ⊎ Offered source index (length bytes) r1 j
          back j (inl h) = inl ((start.kept j).1 h)
          back j (inr h) = inr (h.0, h.1, omega (arith, start.same_window))

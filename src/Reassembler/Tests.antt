-- ===== src/Reassembler/Tests.antt =====
-- Substrings that overlap and arrive out of order, and the theorems at concrete inputs.
use nju_networking_lab.Base.{take}
use nju_networking_lab.Stream.Contents.{contents}
use nju_networking_lab.Reassembler.{input_ended}
use nju_networking_lab.Reassembler.Early.{ends_early}
use nju_networking_lab.Base.{ℕ, ◌≡◌, refl, arith, [], ◌∷◌, some, true}
use nju_networking_lab.Reassembler.{StreamReassembler, fresh, push_substring}
use nju_networking_lab.Reassembler.Assembled.{Pushed}
use nju_networking_lab.Reassembler.Push.{push_substring_lem}
use nju_networking_lab.Reassembler.Start.{fresh-IsValid}

-- The stream 0, 1, 2, ...
abbrev counting : ℕ → ℕ
counting i = i

push_substring_lem_example :
    (r : StreamReassembler) × (push_substring (2 ∷ 3 ∷ []) 2 true (fresh 8) ≡ some r)
    × Pushed counting 2 2 (fresh 8) r
push_substring_lem_example =
    push_substring_lem counting (2 ∷ 3 ∷ []) 2 true (fresh-IsValid counting 8 (omega arith))
      (refl, (refl, tt)) (omega arith) (omega arith)

ends_early_example :
    (r : StreamReassembler) × (push_substring (1 ∷ 2 ∷ 3 ∷ []) 0 true (fresh 2) ≡ some r)
    × (contents r.output ≡ take 2 (1 ∷ 2 ∷ 3 ∷ []))
    × (r.cur ≡ 2)
    × (input_ended r ≡ true)
ends_early_example =
    ends_early 2 (1 ∷ 2 ∷ 3 ∷ []) (omega arith) (omega arith) (omega arith) (omega arith)

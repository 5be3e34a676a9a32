-- ===== src/Stream/Tests.antt =====
-- Runs of a byte stream, and the theorems at concrete inputs.
use nju_networking_lab.Base.{◌≡◌, arith, [], ◌∷◌, some, List}
use nju_networking_lab.Stream.{fresh}
use nju_networking_lab.Stream.Contents.{fresh-IsValid}
use nju_networking_lab.Stream.Fifo.{
  Op, write, end_input, peek_output, read, ask_eof, ask_room, run, spec_run, queue_of, run_refines,
}

abbrev script : List Op
script =
    write (1 ∷ 2 ∷ 3 ∷ []) ∷ peek_output 1 ∷ read 1 ∷ ask_room ∷ end_input ∷ read 5 ∷ ask_eof ∷ []

run_refines_example : run script (fresh 2) ≡ some (spec_run 2 script (queue_of (fresh 2)))
run_refines_example = run_refines script (fresh-IsValid 2 (omega arith))

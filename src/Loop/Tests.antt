-- ===== src/Loop/Tests.antt =====
-- A rule that reads a byte whenever its descriptor is ready, and the theorem at a concrete input.
use nju_networking_lab.Base.{ℕ, List, [], ◌∷◌, some, Bool, true, false}
use nju_networking_lab.Descriptor
use nju_networking_lab.Descriptor.{FileDescriptor}
use nju_networking_lab.Loop.{Rule, Polled, Poll, polled, input}

-- What has been read, and from which descriptor.
abbrev Reader : Type 0
Reader = List ℕ × FileDescriptor

abbrev reading : Rule Reader ℕ
reading = record {
  fd = λ s. s.1;
  direction = input;
  callback = λ byte s. some (byte ∷ s.0, Descriptor.register_read s.1);
  interest = λ s. true;
  cancel = λ s. some s;
}

-- Every descriptor is ready to be read.
abbrev all_ready : List (Rule Reader ℕ × Bool) → List (Polled ℕ)
all_ready [] = []
all_ready (r ∷ rs) =
    record { in_ready = true; out_ready = false; error = false; hup = false; given = 7 }
    ∷ all_ready rs

abbrev system_poll : List (Rule Reader ℕ × Bool) → Poll ℕ
system_poll rs = polled (all_ready rs)

abbrev started : Reader
started = ([], Descriptor.fresh)

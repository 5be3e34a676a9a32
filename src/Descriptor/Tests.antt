-- ===== src/Descriptor/Tests.antt =====
-- A system that takes two bytes at a time, and the theorem at a concrete input.
use nju_networking_lab.Base.{ℕ, ◌≤◌, ◌<◌, ◌≡◌, refl, arith, [], ◌∷◌, min, some, true}
use nju_networking_lab.Descriptor.{FileDescriptor, fresh, register_write, write_loop, write}
use nju_networking_lab.Descriptor.Writing.{write_lem}

abbrev by_twos : ℕ → ℕ → ℕ
by_twos round n = min 2 n

few : (round n : ℕ) → by_twos round n ≤ n
few round n = omega arith

some_taken : (round n : ℕ) → 0 < n → 0 < by_twos round n
some_taken round n h = omega (arith, h)

-- Five bytes take three rounds.
three_rounds :
    write by_twos true (1 ∷ 2 ∷ 3 ∷ 4 ∷ 5 ∷ []) fresh ≡ some (5, record fresh { write_count = 3 })
unfolding write write_loop register_write
three_rounds = refl

write_lem_example :
    (fd' : FileDescriptor) × (write by_twos true (1 ∷ 2 ∷ 3 ∷ 4 ∷ 5 ∷ []) fresh ≡ some (5, fd'))
    × (fd'.eof ≡ fresh.eof)
    × (fd'.read_count ≡ fresh.read_count)
write_lem_example = write_lem by_twos few some_taken (1 ∷ 2 ∷ 3 ∷ 4 ∷ 5 ∷ []) fresh

-- ===== src/Descriptor/Writing.antt =====
-- A write of everything.
use nju_networking_lab.Base.{
  ℕ, zero, suc, ◌+◌, ◌≤◌, ◌<◌, ◌≡◌, refl, inl, inr, arith, List, length, length-drop, drop, some,
  true, false, not, ◌&&◌, ◌==◌, ltb, Bool-cases,
}
use nju_networking_lab.Descriptor.{FileDescriptor, register_write, write_loop, write}

module _ (system_write : ℕ → ℕ → ℕ) (takes : (round n : ℕ) → system_write round n ≤ n)
    (some_taken : (round n : ℕ) → 0 < n → 0 < system_write round n) where
  write_loop_lem :
      (fuel round total : ℕ) (buffer : List ℕ) (fd : FileDescriptor)
      → length buffer < fuel
      → (fd' : FileDescriptor) × (write_loop system_write true fuel round total buffer fd
          ≡ some (total + length buffer, fd'))
        × (fd'.eof ≡ fd.eof)
        × (fd'.read_count ≡ fd.read_count)
  unfolding write_loop register_write
  write_loop_lem zero round total buffer fd h = absurd (omega arith)
  write_loop_lem (suc fuel) round total buffer fd h =
      let n = system_write round (length buffer) in
      let long : ltb (length buffer) n ≡ false = ground (arith, takes round (length buffer)) in
      let none_taken : ((n == 0) && not (length buffer == 0)) ≡ false =
        ground (arith, some_taken round (length buffer)) in
      elim (Bool-cases (not (length (drop n buffer) == 0))) [
        | inr done ↦
            let all : total + n ≡ total + length buffer =
              ground (arith, length-drop n buffer, takes round (length buffer)) in
            (register_write fd, simp (none_taken, long, done, all) refl, refl, refl)
        | inl more ↦
            let less : length (drop n buffer) < fuel =
              ground (arith, length-drop n buffer, some_taken round (length buffer)) in
            let (fd', run, e, c) =
              write_loop_lem fuel (suc round) (total + n) (drop n buffer) (register_write fd)
                less in
            let all : total + n + length (drop n buffer) ≡ total + length buffer =
              omega (arith, length-drop n buffer, takes round (length buffer)) in
            (fd', simp (none_taken, long, more, run, all) refl, e, c)
      ]

  -- Where the system never takes more bytes than it is offered, and takes a byte at least when it is
  -- offered any, a write of everything never throws and ends, and the number that it returns is the
  -- length of the buffer.
  pub write_lem :
      (buffer : List ℕ) (fd : FileDescriptor)
      → (fd' : FileDescriptor) × (write system_write true buffer fd ≡ some (length buffer, fd'))
        × (fd'.eof ≡ fd.eof)
        × (fd'.read_count ≡ fd.read_count)
  unfolding write
  write_lem buffer fd =
      let (fd', run, e, c) = write_loop_lem (suc (length buffer)) 0 0 buffer fd (omega arith) in
      let all : 0 + length buffer ≡ length buffer = omega arith in (fd', rw (all) at run, e, c)

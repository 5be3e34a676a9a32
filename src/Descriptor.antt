-- ===== src/Descriptor.antt =====
-- libsponge/util/file_descriptor, and the shutdown of libsponge/util/socket: reads and writes around
-- the system's own, whose answers are arguments. `none` is an exception.
mod Writing
mod Tests
use nju_networking_lab.Base.{
  ℕ, zero, suc, ◌+◌, ◌*◌, min, List, [], Option, none, some, Bool, true, false, not, ◌&&◌, ◌||◌,
}
use nju_networking_lab.Base.{ltb, ◌==◌, if◌then◌else◌, length, drop, add32}

-- `FDWrapper`, which every copy of the descriptor shares.
pub record FileDescriptor : Type 0 where
  pub eof : Bool
  pub closed : Bool
  pub read_count : ℕ
  pub write_count : ℕ

-- `FileDescriptor(fd)`, for a number that is not negative.
abbrev pub fresh : FileDescriptor
fresh = record { eof = false; closed = false; read_count = 0; write_count = 0 }

unfoldable pub register_read : FileDescriptor → FileDescriptor
register_read fd = record fd { read_count = add32 fd.read_count 1 }

unfoldable pub register_write : FileDescriptor → FileDescriptor
register_write fd = record fd { write_count = add32 fd.write_count 1 }

unfoldable pub close : FileDescriptor → FileDescriptor
close fd = record fd { eof = true; closed = true }

-- The most that is read at once: 1 MiB.
abbrev pub buffer_size : ℕ
buffer_size = 1024 * 1024

-- `read(limit)`. `system_read` gives the bytes for the number that is asked for.
unfoldable pub read : (ℕ → List ℕ) → ℕ → FileDescriptor → Option (List ℕ × FileDescriptor)
read system_read limit fd =
    let size_to_read = min buffer_size limit in
    let bytes = system_read size_to_read in
    let at_end = ltb 0 limit && (length bytes == 0) in
    if ltb size_to_read (length bytes)
    then none
    else some (bytes, register_read (record fd { eof = at_end || fd.eof }))

-- `write(buffer, write_all)`: the number of bytes written. `system_write` gives, for the number of a
-- round and of the bytes that are left, how many the system takes. A round that is not the last
-- takes a byte at least, so one round more than there are bytes is enough fuel.
unfoldable pub write_loop :
    (ℕ → ℕ → ℕ) → Bool → ℕ → ℕ → ℕ → List ℕ → FileDescriptor → Option (ℕ × FileDescriptor)
write_loop system_write write_all zero round total buffer fd = none
write_loop system_write write_all (suc fuel) round total buffer fd =
    let n = system_write round (length buffer) in
    let fd' = register_write fd in
    let again =
      write_loop system_write write_all fuel (suc round) (total + n) (drop n buffer) fd' in
    if (n == 0) && not (length buffer == 0)
    then none
    else if ltb (length buffer) n
    then none
    else if write_all && not (length (drop n buffer) == 0)
    then again
    else some (total + n, fd')

unfoldable pub write : (ℕ → ℕ → ℕ) → Bool → List ℕ → FileDescriptor → Option (ℕ × FileDescriptor)
write system_write write_all buffer fd =
    write_loop system_write write_all (suc (length buffer)) 0 0 buffer fd

-- `Socket::shutdown`, for the three directions.
pub data Shutdown : Type 0 where
  shut_rd shut_wr shut_rdwr : Shutdown

unfoldable pub shutdown : Shutdown → FileDescriptor → FileDescriptor
shutdown shut_rd fd = register_read fd
shutdown shut_wr fd = register_write fd
shutdown shut_rdwr fd = register_write (register_read fd)

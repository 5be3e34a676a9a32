-- ===== src/Stream.antt =====
-- libsponge/byte_stream: a flow-controlled stream of bytes over a `BufferList`.
pub mod Contents
pub mod Fifo
mod Tests
use nju_networking_lab.Base.{ℕ, List, [], ◌∷◌, Option, none, some, Bool, true, false, ◌&&◌}
use nju_networking_lab.Base.{ltb, ◌==◌, if◌then◌else◌, length, take, add64, sub64, ◌>>=◌}
use nju_networking_lab.Buffer
use nju_networking_lab.Buffer.{BufferList}

pub record ByteStream : Type 0 where
  pub error : Bool
  pub input_end : Bool
  pub capacity : ℕ
  pub write_bytes : ℕ
  pub read_bytes : ℕ
  pub buffer : BufferList

-- `ByteStream(capacity)`
abbrev pub fresh : ℕ → ByteStream
fresh capacity = record {
  error = false;
  input_end = false;
  capacity = capacity;
  write_bytes = 0;
  read_bytes = 0;
  buffer = [];
}

unfoldable pub buffer_size : ByteStream → ℕ
buffer_size s = Buffer.list_size s.buffer

unfoldable pub remaining_capacity : ByteStream → ℕ
unfolding buffer_size
remaining_capacity s = sub64 s.capacity (buffer_size s)

-- The number of bytes accepted, and the stream that has them.
unfoldable pub write : List ℕ → ByteStream → ℕ × ByteStream
write bytes s =
    let space = sub64 s.capacity (Buffer.list_size s.buffer) in
    let write_len = if ltb space (length bytes) then space else length bytes in
    let more = Buffer.of_string (take write_len bytes) ∷ [] in
    (
      write_len,
      record s {
        buffer = Buffer.append s.buffer more;
        write_bytes = add64 s.write_bytes write_len;
      },
    )

-- `len`, or all that the buffer holds.
unfoldable pub clip : ℕ → ByteStream → ℕ
clip len s = if ltb (Buffer.list_size s.buffer) len then Buffer.list_size s.buffer else len

unfoldable pub peek_output : ℕ → ByteStream → List ℕ
unfolding clip
peek_output len s = take (clip len s) (Buffer.concatenate s.buffer)

-- `none` is the exception of `BufferList::remove_prefix`.
unfoldable pub pop_output : ℕ → ByteStream → Option ByteStream
unfolding clip
pop_output len s = Buffer.list_remove_prefix (clip len s) s.buffer >>= λ rest.
    some (record s { read_bytes = add64 s.read_bytes (clip len s); buffer = rest })

unfoldable pub read : ℕ → ByteStream → Option (List ℕ × ByteStream)
read len s =
    let res = peek_output (clip len s) s in pop_output (clip len s) s >>= λ s'. some (res, s')

unfoldable pub end_input : ByteStream → ByteStream
end_input s = record s { input_end = true }

unfoldable pub set_error : ByteStream → ByteStream
set_error s = record s { error = true }

unfoldable pub input_ended : ByteStream → Bool
input_ended s = s.input_end

unfoldable pub buffer_empty : ByteStream → Bool
buffer_empty s = Buffer.list_size s.buffer == 0

unfoldable pub eof : ByteStream → Bool
unfolding buffer_empty input_ended
eof s = buffer_empty s && input_ended s

unfoldable pub bytes_written : ByteStream → ℕ
bytes_written s = s.write_bytes

unfoldable pub bytes_read : ByteStream → ℕ
bytes_read s = s.read_bytes

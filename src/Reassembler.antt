-- ===== src/Reassembler.antt =====
-- libsponge/stream_reassembler: out-of-order substrings put in order.
-- `none` is an exception, or an iterator moved out of its range; the `long` that `merge_to` returns
-- is its 64-bit pattern.
pub mod Source
pub mod Merge
pub mod Chain
pub mod Succ
pub mod Prev
pub mod All
pub mod Clip
pub mod Invariant
pub mod Ending
pub mod Assembled
pub mod Push
pub mod Start
pub mod Reading
mod Early
mod Tests
use nju_networking_lab.Base.{
  ℕ, zero, suc, ◌+◌, ◌-◌, ◌^◌, List, [], ◌∷◌, ◌++◌, Option, none, some, Bool, true, false, ◌&&◌,
}
use nju_networking_lab.Base.{
  ltb, leb, ◌==◌, if◌then◌else◌, length, take, drop, add64, sub64, u64_mod, ◌>>=◌,
}
use nju_networking_lab.Stream
use nju_networking_lab.Stream.{ByteStream}

pub record Node : Type 0 where
  pub idx : ℕ
  pub len : ℕ
  pub bytes : List ℕ

-- `node(_idx, _data)`
abbrev pub node : ℕ → List ℕ → Node
node i bs = record { idx = i; len = length bs; bytes = bs }

-- The `std::set` is the list of its nodes in the order of `idx`.
pub record StreamReassembler : Type 0 where
  pub nodes : List Node
  pub input_end_idx : ℕ
  pub unassembled : ℕ
  pub cur : ℕ
  pub output : ByteStream
  pub capacity : ℕ

-- `StreamReassembler(capacity)`; the end index starts at INT32_MAX.
abbrev pub fresh : ℕ → StreamReassembler
fresh capacity = record {
  nodes = [];
  input_end_idx = 2 ^ 31 - 1;
  unassembled = 0;
  cur = 0;
  output = Stream.fresh capacity;
  capacity = capacity;
}

-- `std::string::substr(pos)`
substr : ℕ → List ℕ → Option (List ℕ)
substr pos s = if ltb (length s) pos then none else some (drop pos s)

-- The body of `merge_to` for `dst1.idx <= dst2.idx`: the result, and the new `a`.
merge_ordered : Node → Node → Node → Option (ℕ × Node)
unfolding substr
merge_ordered a dst1 dst2 =
    let end1 = add64 dst1.idx dst1.len in
    let end2 = add64 dst2.idx dst2.len in
    if leb end2 end1
    then some (dst2.len, dst1)
    else if ltb end1 dst2.idx
    then some (u64_mod - 1, a)
    else (substr (sub64 end1 dst2.idx) dst2.bytes >>= λ tail.
        some (sub64 end1 dst2.idx, node dst1.idx (dst1.bytes ++ tail)))

unfoldable pub merge_to : Node → Node → Option (ℕ × Node)
unfolding merge_ordered
merge_to a b = if leb a.idx b.idx then merge_ordered a a b else merge_ordered a b a

-- `lower_bound(block)`: the nodes before it, and those from it on.
unfoldable pub lower_bound : ℕ → List Node → List Node × List Node
lower_bound k [] = ([], [])
lower_bound k (n ∷ ns) =
    let (lo, hi) = lower_bound k ns in if ltb n.idx k then (n ∷ lo, hi) else ([], n ∷ ns)

-- `it--`: the node before the iterator, and those before that.
unfoldable pub step_back : List Node → Option (List Node × Node)
step_back [] = none
step_back (n ∷ []) = some ([], n)
step_back (n ∷ m ∷ ns) = step_back (m ∷ ns) >>= λ r. some (n ∷ r.0, r.1)

-- `insert`: a node with an index that is there already is not inserted.
unfoldable pub insert : Node → List Node → List Node
insert b [] = b ∷ []
insert b (n ∷ ns) =
    if ltb b.idx n.idx then b ∷ n ∷ ns else if b.idx == n.idx then n ∷ ns else n ∷ insert b ns

-- What the merging loops change: `_unassembled_bytes`, `block` and `_data_buffer`.
pub record Merging : Type 0 where
  pub count : ℕ
  pub block : Node
  pub set : List Node

abbrev is_merged : ℕ → Bool
is_merged merge_bytes = ltb merge_bytes (2 ^ 63)

-- The end of a round: after a merge the loop goes on with `set`, and otherwise it stops.
unfoldable pub keep_merging :
    (Merging → Option Merging) → Merging → List Node → ℕ × Node → Option Merging
keep_merging again m set (merge_bytes, b) = elim (is_merged merge_bytes) [
  | true ↦ again (record { count = sub64 m.count merge_bytes; block = b; set = set })
  | false ↦ some m
]

-- The loop over the nodes from `lower_bound` on. A round erases a node, so as many rounds as there
-- are nodes, and one, are enough.
unfoldable pub merge_succ : ℕ → Merging → Option Merging
merge_succ zero m = none
merge_succ (suc fuel) m =
    let (lo, hi) = lower_bound m.block.idx m.set in
    elim hi [
      | [] ↦ some m
      | n ∷ ns ↦ merge_to m.block n >>= keep_merging (merge_succ fuel) m (lo ++ ns)
    ]

-- The loop over the nodes before `lower_bound`, backwards.
unfoldable pub merge_prev : ℕ → Merging → Option Merging
merge_prev zero m = none
merge_prev (suc fuel) m =
    let (lo, hi) = lower_bound m.block.idx m.set in
    elim (step_back lo) [
      | none ↦ some m
      | some (ns, p) ↦ merge_to m.block p >>= keep_merging (merge_prev fuel) m (ns ++ hi)
    ]

unfoldable pub merge_all : Merging → Option Merging
merge_all m = merge_succ (suc (length m.set)) m >>= λ m'. merge_prev (suc (length m'.set)) m'

unfoldable pub empty : StreamReassembler → Bool
empty r = r.unassembled == 0

unfoldable pub max_idx : StreamReassembler → ℕ
max_idx r = add64 (sub64 r.cur (Stream.buffer_size r.output)) r.capacity

-- The block without what lies beyond `max_idx`.
unfoldable pub clip_right : ℕ → Node → Node
clip_right limit b =
    if ltb limit (add64 b.idx b.len) then node b.idx (take (sub64 limit b.idx) b.bytes) else b

-- The block without what lies before `_cur_idx`.
unfoldable pub clip_left : ℕ → Node → Option Node
unfolding substr
clip_left cur b =
    let offset = sub64 cur b.idx in
    if ltb b.idx cur
    then (substr offset b.bytes >>= λ tail. some (node (add64 b.idx offset) tail))
    else some b

-- Write the first node to the stream if it is the next one.
unfoldable pub flush_nodes : List Node → StreamReassembler → StreamReassembler
flush_nodes [] r = r
flush_nodes (n ∷ ns) r =
    let (written, out) = Stream.write n.bytes r.output in
    if n.idx == r.cur
    then record r {
      nodes = ns;
      unassembled = sub64 r.unassembled written;
      cur = add64 r.cur written;
      output = out;
    }
    else r

unfoldable pub flush : StreamReassembler → StreamReassembler
flush r = flush_nodes r.nodes r

-- `_output.end_input()` under a condition.
unfoldable pub end_if : Bool → StreamReassembler → StreamReassembler
end_if c r = if c then record r { output = Stream.end_input r.output } else r

unfoldable pub set_end : Bool → ℕ → StreamReassembler → StreamReassembler
set_end eof at r = if eof then record r { input_end_idx = at } else r

-- The rest of `push_substring`, for a block that reaches beyond `_cur_idx` and starts in the window.
unfoldable pub assemble : Node → Bool → StreamReassembler → Option StreamReassembler
assemble b eof r = clip_left r.cur (clip_right (max_idx r) b) >>= λ block.
    merge_all (record { count = add64 r.unassembled block.len; block = block; set = r.nodes })
    >>= λ m.
        (let r' = flush (record r { nodes = insert m.block m.set; unassembled = m.count }) in
          let r'' = end_if (leb r'.input_end_idx r'.cur && empty r') r' in
          some (end_if (eof && empty r'') r''))

unfoldable pub push_substring : List ℕ → ℕ → Bool → StreamReassembler → Option StreamReassembler
push_substring bytes index eof r0 =
    let r = set_end eof (add64 index (length bytes)) r0 in
    if ltb (max_idx r) index
    then some r
    else if leb (add64 index (length bytes)) r.cur
    then some (end_if (leb r.input_end_idx r.cur && empty r) r)
    else assemble (node index bytes) eof r

unfoldable pub input_ended : StreamReassembler → Bool
input_ended r = Stream.input_ended r.output

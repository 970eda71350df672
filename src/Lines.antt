-- ===== src/Lines.antt =====
-- src/ws_collab/jsonl_store.py, `_iter_complete_lines`: the complete lines of a file from an offset,
-- read chunk by chunk. A file is its bytes.
pub mod Framing
pub mod Chunks
use ws_collab.Prelude.{
  ℕ, zero, suc, ◌+◌, ◌≡◌, Bool, true, false, ◌&&◌, ◌||◌, Option, none, some, List, [], ◌∷◌, ◌++◌,
  if◌then◌else◌, length, take, drop, All, ◌==◌, nat_eq,
}

abbrev pub Bytes : Type 0
Bytes = List ℕ

-- One yielded tuple `(start_offset, end_offset, line_bytes)`.
pub record Row : Type 0 where
  pub start : ℕ
  pub stop : ℕ
  pub line : Bytes

-- What `bytes.strip` removes: space and the codes 9 to 13.
is_space : ℕ → Bool
is_space b = b == 32 || b == 9 || b == 10 || b == 11 || b == 12 || b == 13

-- `not line.strip()`
unfoldable pub is_blank : Bytes → Bool
unfolding is_space
is_blank [] = true
is_blank (b ∷ bs) = is_space b && is_blank bs

abbrev pub NoNewline : Bytes → Type 0
NoNewline = All (λ b. (b == 10) ≡ false)

-- `buffer.find(b"\n")`, with the bytes before and behind the newline.
unfoldable pub find_newline : Bytes → Option (Bytes × Bytes)
find_newline [] = none
find_newline (b ∷ bs) =
    let rest = find_newline bs in
    if b == 10
    then some ([], bs)
    else elim rest [ none ↦ none | some (line, after) ↦ some (b ∷ line, after) ]

-- `if line.strip(): yield line_start, offset, line`
unfoldable pub emit : Row → List Row → List Row
emit r rows = if is_blank r.line then rows else r ∷ rows

pub record Drained : Type 0 where
  pub rows : List Row
  pub offset : ℕ
  pub buffer : Bytes

-- The inner loop: cuts lines off the buffer until it holds no newline. The fuel is the length of
-- the buffer, and each round takes at least one byte off it.
unfoldable pub drain : ℕ → ℕ → Bytes → Drained
drain zero offset buffer = record { rows = []; offset = offset; buffer = buffer }
drain (suc fuel) offset buffer = elim (find_newline buffer) [
  | none ↦ record { rows = []; offset = offset; buffer = buffer }
  | some (line, after) ↦
      let stop = offset + length line + 1 in
      let d = drain fuel stop after in
      record {
        rows = emit (record { start = offset; stop = stop; line = line }) d.rows;
        offset = d.offset;
        buffer = d.buffer;
      }
]

-- The outer loop, over the chunks that `handle.read` returns.
unfoldable pub read_chunks : ℕ → Bytes → List Bytes → List Row
read_chunks offset buffer [] = []
read_chunks offset buffer (chunk ∷ chunks) =
    let d = drain (length (buffer ++ chunk)) offset (buffer ++ chunk) in
    d.rows ++ read_chunks d.offset d.buffer chunks

-- The results of `handle.read(size)` until it returns no byte; the fuel is the number of bytes.
unfoldable pub chunks_of : ℕ → ℕ → Bytes → List Bytes
chunks_of size zero bs = []
chunks_of size (suc fuel) bs =
    let rest = chunks_of size fuel (drop size bs) in
    elim (take size bs) [ [] ↦ [] | b ∷ c ↦ (b ∷ c) ∷ rest ]

unfoldable pub iter_complete_lines : ℕ → Bytes → ℕ → List Row
iter_complete_lines size file start =
    read_chunks start [] (chunks_of size (length (drop start file)) (drop start file))

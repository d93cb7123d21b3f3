-- ===== src/StreamBuffer.antt =====
-- src/lib/io/StreamBuffer.cpp: a queue of bytes as a list of chunks, of which the first `head_used`
-- bytes of the first chunk are gone. Sizes are uint32_t. The proofs are in the modules below.
pub mod View
pub mod Peek
pub mod Pop
pub mod Write
use zero_flow.Prelude.{
  ℕ, zero, suc, ◌+◌, ◌-◌, ◌%◌, ◌^◌, List, [], ◌∷◌, ◌++◌, min, leb, ltb, ◌==◌, if◌then◌else◌, length,
  take, drop,
}

pub record StreamBuffer : Type 0 where
  pub chunks : List (List ℕ)
  pub size : ℕ
  pub head_used : ℕ

abbrev pub empty : StreamBuffer
empty = record { chunks = []; size = 0; head_used = 0 }

abbrev pub chunk_size : ℕ
chunk_size = 4096

-- The loop of peek: chunks move into the first one until it has `n` bytes behind `used`.
consolidate : ℕ → ℕ → List ℕ → List (List ℕ) → List (List ℕ)
consolidate n used head [] = head ∷ []
consolidate n used head (scan ∷ rest) =
    let more = consolidate n used (head ++ scan) rest in
    if ltb (length head - used) n then more else head ∷ scan ∷ rest

-- The bytes that the pointer shows: `n` of them from `used` on.
shown : ℕ → ℕ → List (List ℕ) → List ℕ
shown n used [] = []
shown n used (head ∷ rest) = take n (drop used head)

merge : ℕ → ℕ → List (List ℕ) → List (List ℕ)
merge n used [] = []
merge n used (head ∷ rest) = consolidate n used head rest

-- StreamBuffer::peek. No chunk is touched for `n` 0, and the source asserts that `n` bytes are there.
unfoldable pub peek : ℕ → StreamBuffer → List ℕ × StreamBuffer
unfolding shown merge consolidate
peek n b =
    if n == 0
    then ([], b)
    else (let chunks' = merge n b.head_used b.chunks in
        (shown n b.head_used chunks', record b { chunks = chunks' }))

-- The loop of pop: the chunks that are left, and the bytes used of the first. Without a chunk the
-- source's assertion fails.
discard : ℕ → ℕ → List (List ℕ) → List (List ℕ) × ℕ
discard n used [] = ([], 0)
discard n used (scan ∷ rest) =
    let more = discard (n - (length scan - used)) 0 rest in
    if leb (length scan - used) n then more else (scan ∷ rest, used + n)

-- StreamBuffer::pop
unfoldable pub pop : ℕ → StreamBuffer → StreamBuffer
unfolding discard
pop n b =
    if leb b.size n
    then empty
    else (let (chunks', used) = discard n b.head_used b.chunks in
        record { chunks = chunks'; size = b.size - n; head_used = used })

-- The loop of write from the chunk `scan` on: fill it, and go on with an empty one. Each round moves
-- a byte at least, so the number of bytes is fuel enough.
fill : ℕ → List ℕ → List ℕ → List (List ℕ)
fill zero scan bytes = scan ∷ []
fill (suc fuel) scan bytes =
    let count = min (chunk_size - length scan) (length bytes) in
    let more = fill fuel [] (drop count bytes) in
    if leb (length bytes) count
    then (scan ++ take count bytes) ∷ []
    else (scan ++ take count bytes) ∷ more

-- The last chunk if it has space, else an empty one behind it.
write_back : List (List ℕ) → List ℕ → List (List ℕ)
write_back [] bytes = fill (length bytes) [] bytes
write_back (c ∷ []) bytes =
    if leb chunk_size (length c)
    then c ∷ fill (length bytes) [] bytes
    else fill (length bytes) c bytes
write_back (c ∷ d ∷ cs) bytes = c ∷ write_back (d ∷ cs) bytes

-- StreamBuffer::write
unfoldable pub write : List ℕ → StreamBuffer → StreamBuffer
unfolding write_back fill
write bytes b =
    if length bytes == 0
    then b
    else record b { size = (b.size + length bytes) % 2 ^ 32; chunks = write_back b.chunks bytes }

-- StreamBuffer::getSize
unfoldable pub get_size : StreamBuffer → ℕ
get_size b = b.size

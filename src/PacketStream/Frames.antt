-- ===== src/PacketStream/Frames.antt =====
-- The framing that the two ends of a connection agree on, without buffers: each packet is its
-- length in four bytes and then its bytes.
use zero_flow.Prelude.{
  ℕ, ◌≤◌, ◌<◌, ◌≡◌, ◌≢◌, ◌⊎◌, List, [], ◌∷◌, ◌++◌, ◌==◌, if◌then◌else◌, length, be32, All, eq→==,
  ne→==,
}
use zero_flow.StreamBuffer.View.{contents, IsBuffer}
use zero_flow.PacketStream.{Filter, max_message_length}

abbrev pub frame : List ℕ → List ℕ
frame p = be32 (length p) ++ p

abbrev pub frames : List (List ℕ) → List ℕ
frames [] = []
frames (p ∷ ps) = frame p ++ frames ps

-- A packet that the protocol allows: not empty, and within the length limit.
abbrev pub IsPacket : List ℕ → Type 0
IsPacket p = (0 < length p) × (length p ≤ max_message_length)

abbrev pub ArePackets : List (List ℕ) → Type 0
ArePackets ps = All IsPacket ps

-- The bytes of the stream that the filter holds, the size that it has taken off put back.
abbrev pub stream_of : Filter → List ℕ
stream_of f = (if f.size == 0 then [] else be32 f.size) ++ contents f.buffer

-- The filter holds the beginning of the packets `ps`; the bytes `more` of them are still to come.
-- Between two calls it has taken the size of the first packet off if that has arrived.
pub record Carries (f : Filter) (ps : List (List ℕ)) (more : List ℕ) : Type 0 where
  pub buffered : IsBuffer f.buffer
  pub stream : stream_of f ++ more ≡ frames ps
  pub packets : ArePackets ps
  pub limit : f.size ≤ max_message_length
  pub settled : (f.size ≢ 0) ⊎ (length (contents f.buffer) < 4)

pub stream_of_zero : (f : Filter) → f.size ≡ 0 → stream_of f ≡ contents f.buffer
stream_of_zero f h = rw (eq→== f.size 0 h)

pub stream_of_size : (f : Filter) → f.size ≢ 0 → stream_of f ≡ be32 f.size ++ contents f.buffer
stream_of_size f h = rw (ne→== f.size 0 h)

-- ===== src/Windows/Present/Delivery.antt =====
-- A frame of the desktop through both Windows drivers: from `PipelineHandlePresent` of Pipeline.cpp to the
-- pipe that `UsbDeviceIoDeviceControl` of Queue.cpp writes to.
use rpusbdisp.Common.{
  ℕ, ◌+◌, ◌*◌, ◌%◌, ◌^◌, ◌≤◌, ◌<◌, ◌≡◌, Bool, true, false, ◌++◌, arith, flat_map, ◌/◌, List, [],
  ◌∷◌, take,
}
use rpusbdisp.Common.Memory.{read}
use rpusbdisp.Protocol.{le16}
use rpusbdisp.Windows.Transport.{Chunk, Transport}
use rpusbdisp.Windows.Present.Picture.{picture, header_of}
use rpusbdisp.Windows.Pipeline.{Pipeline}
use rpusbdisp.Windows.Present.{chunk_data_size, Surface, make_frame}

-- The surface has pixels, few enough for a UINT32, of four bytes each, and rows that lie apart.
pub record IsFine (s : Surface) : Type 0 where
  pub some_pixels : 1 ≤ s.columns * s.rows
  pub bounded : s.columns * s.rows * 2 + chunk_data_size < 2 ^ 32
  pub bytes : (at : ℕ) → s.bits at < 256
  pub wide : s.columns * 4 ≤ s.pitch
  pub high : s.rows * s.pitch < 2 ^ 32

-- The number of chunks of a surface.
abbrev pub chunk_count : Surface → ℕ
chunk_count s = (s.columns * s.rows * 2 + 16351) / 16352

-- Chunks that are the first `k` of the frame `id`, by their headers and by the pixels that they hold.
pub record Holds (id : ℕ) (s : Surface) (k : ℕ) (cs : List Chunk) : Type 0 where
  pub headers : flat_map (λ c. c.chunk_header ∷ []) cs ≡ read k (header_of id s)
  pub contents : flat_map (λ c. c.content) cs ≡ take (k * 16352) (flat_map le16 (picture s))

-- What a present has done with the frame `id` of a surface, by whether all chunks were sent.
abbrev pub Presented : ℕ → Surface → Transport → Bool × Pipeline → Type 0
Presented id s t (true, q) =
    (cs : List Chunk) × (q.transport.wire ≡ t.wire ++ cs)
    × Holds id s (chunk_count s) cs
    × (flat_map (λ c. c.content) cs ≡ flat_map le16 (picture s))
    × (q.transport.statistics ≡ record {
      frames_submitted = (t.statistics.frames_submitted + 1) % 2 ^ 64;
      bytes_transferred = (t.statistics.bytes_transferred + s.columns * s.rows * 2) % 2 ^ 64;
    })
Presented id s t (false, q) =
    (k : ℕ) × (k < chunk_count s)
    × (cs : List Chunk) × (q.transport.wire ≡ t.wire ++ cs)
    × Holds id s k cs
    × (q.transport.statistics ≡ t.statistics)

module _ (id : ℕ) (s : Surface) (h : IsFine s) where
  payload : (make_frame id s).payload_bytes ≡ s.columns * s.rows * 2
  unfolding make_frame
  payload = omega (arith, h.bounded)

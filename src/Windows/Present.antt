-- ===== src/Windows/Present.antt =====
-- `PipelineHandlePresent` of drivers/UsbDisplayIdd/Pipeline.cpp: the surface becomes a frame of 16 bits a
-- pixel, and the frame is sent chunk by chunk. What the calls of the system answer, the allocations
-- among them, is a parameter.
pub mod Chunks
pub mod Picture
pub mod Delivery
use rpusbdisp.Common.{
  ℕ, zero, suc, ◌+◌, ◌-◌, ◌*◌, ◌/◌, ◌%◌, ◌^◌, bit_and, bit_or, Bool, true, false, not, ◌||◌, ◌&&◌,
  List, [], ◌∷◌, ◌++◌, take, drop, ltb, ◌==◌, if◌then◌else◌, flat_map,
}
use rpusbdisp.Common.Memory.{read}
use rpusbdisp.Protocol.{le16}
use rpusbdisp.Windows.Transport.{ChunkHeader, Chunk, Transport}
use rpusbdisp.Windows.Pipeline.{Attempt, Pipeline, ensure_transport_target, send_ioctl_with_retry}

-- `ChunkSize - sizeof(RPUSB_CHUNK_HEADER)`
abbrev pub chunk_data_size : ℕ
chunk_data_size = 16 * 1024 - 32

-- One pixel, from its bytes for blue, green and red.
unfoldable pub to_rgb565 : ℕ → ℕ → ℕ → ℕ
to_rgb565 b g r = bit_or (bit_or (bit_and r 0xf8 * 256) (bit_and g 0xfc * 8)) (b / 8) % 0x10000

-- `ConvertBgraToRgb565` for the row that begins at `src_row`. The product is a UINT32.
unfoldable pub convert_bgra_to_rgb565 : (ℕ → ℕ) → ℕ → ℕ → List ℕ
convert_bgra_to_rgb565 bits src_row width = read width (λ x.
    let pixel = src_row + (x * 4) % 2 ^ 32 in
    to_rgb565 (bits pixel) (bits (pixel + 1)) (bits (pixel + 2)))

-- The loop over the rows.
unfoldable pub convert_rows : (ℕ → ℕ) → ℕ → ℕ → ℕ → List ℕ
convert_rows bits pitch width zero = []
convert_rows bits pitch width (suc row) =
    convert_rows bits pitch width row ++ convert_bgra_to_rgb565 bits ((row * pitch) % 2 ^ 32) width

-- A frame: its number, its sides, and `pixelData` byte by byte.
pub record Frame : Type 0 where
  pub id : ℕ
  pub wide : ℕ
  pub high : ℕ
  pub payload_bytes : ℕ
  pub pixel_data : List ℕ

-- `totalChunks`, in a UINT32.
abbrev pub chunks_of : ℕ → ℕ
chunks_of payload_bytes =
    ((payload_bytes + chunk_data_size + 2 ^ 32 - 1) % 2 ^ 32) / chunk_data_size

-- The chunk that a round of the loop over `chunkIndex` makes.
unfoldable pub make_chunk : Frame → ℕ → Chunk
make_chunk f chunk_index =
    let offset = (chunk_index * chunk_data_size) % 2 ^ 32 in
    let remaining_bytes = (f.payload_bytes + 2 ^ 32 - offset) % 2 ^ 32 in
    let size = if ltb remaining_bytes chunk_data_size then remaining_bytes else chunk_data_size in
    record {
      chunk_header = record {
        frame_id = f.id;
        chunk_index = chunk_index;
        total_chunks = chunks_of f.payload_bytes;
        chunk_bytes = size;
        width = f.wide;
        height = f.high;
        pixel_format = 0;
        total_bytes = f.payload_bytes;
      };
      content = take size (drop (offset / 2 * 2) f.pixel_data);
    }

-- The surface of the swap chain, and what the calls for it answer.
pub record Surface : Type 0 where
  pub has_buffer : Bool
  pub has_desc : Bool
  pub is_bgra : Bool
  pub columns : ℕ
  pub rows : ℕ
  pub can_map : Bool
  pub bits : ℕ → ℕ
  pub pitch : ℕ
  pub can_allocate : Bool

-- The frame of a surface whose rows fit a UINT32.
unfoldable pub make_frame : ℕ → Surface → Frame
make_frame id s = record {
  id = id;
  wide = s.columns;
  high = s.rows;
  payload_bytes = (s.columns * s.rows * 2) % 2 ^ 32;
  pixel_data = flat_map le16 (convert_rows s.bits s.pitch s.columns s.rows);
}

module _ (env : ℕ → Attempt) (allocates : ℕ → Bool) where
  -- The rounds of the loop from `chunk_index` on: whether all chunks were sent.
  unfoldable pub send_chunks : Frame → ℕ → ℕ → Pipeline → Bool × Pipeline
  send_chunks f zero chunk_index p = (true, p)
  send_chunks f (suc left) chunk_index p =
      let r = send_ioctl_with_retry env (make_chunk f chunk_index) p in
      let rest = send_chunks f left (chunk_index + 1) r.1 in
      if allocates chunk_index then if r.0 then rest else (false, r.1) else (false, p)

  -- `PipelineHandlePresent`; the result is `allChunksSent`, and false for a frame that is dropped.
  unfoldable pub pipeline_handle_present : Surface → Pipeline → Bool × Pipeline
  pipeline_handle_present s p =
      let p' = ensure_transport_target (env p.attempts) (record p { attempts = p.attempts + 1 }) in
      let id = (p'.frame_counter + 1) % 2 ^ 32 in
      let f = make_frame id s in
      if not p'.transport_target
      then (false, p')
      else if not (s.has_buffer && s.has_desc)
      then (false, p')
      else if s.columns == 0 || s.rows == 0 || not s.is_bgra
      then (false, p')
      else if not (s.can_map && s.can_allocate)
      then (false, p')
      else send_chunks f (chunks_of f.payload_bytes) 0 (record p' { frame_counter = id })

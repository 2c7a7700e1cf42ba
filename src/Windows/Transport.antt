-- ===== src/Windows/Transport.antt =====
-- drivers/UsbTransportUmdf: `DeviceContext` of Device.h, the requests that push frames in
-- `UsbDeviceIoDeviceControl` of Queue.cpp, and the structures of UsbIoctl.h. What the pipe answers to a
-- write is a parameter of the handler; what it takes is appended to the log `wire`.
use rpusbdisp.Common.{
  ℕ, ◌+◌, ◌-◌, ◌%◌, ◌^◌, ◌||◌, Bool, true, false, List, [], ◌∷◌, ◌++◌, leb, ◌==◌, if◌then◌else◌,
}

-- `RPUSB_CHUNK_HEADER`
pub record ChunkHeader : Type 0 where
  pub frame_id : ℕ
  pub chunk_index : ℕ
  pub total_chunks : ℕ
  pub chunk_bytes : ℕ
  pub width : ℕ
  pub height : ℕ
  pub pixel_format : ℕ
  pub total_bytes : ℕ

-- An input buffer: the header, and the bytes behind it.
pub record Chunk : Type 0 where
  pub chunk_header : ChunkHeader
  pub content : List ℕ

-- `RPUSB_STATISTICS`, as far as anything writes it.
pub record Statistics : Type 0 where
  pub frames_submitted : ℕ
  pub bytes_transferred : ℕ

pub record Transport : Type 0 where
  pub statistics : Statistics
  pub wire : List Chunk

-- The part of the counters after a write that succeeded; a UINT64 wraps around.
abbrev pub count_chunk : ChunkHeader → Statistics → Statistics
count_chunk h s =
    if h.chunk_index == (h.total_chunks + 2 ^ 32 - 1) % 2 ^ 32
    then record {
      frames_submitted = (s.frames_submitted + 1) % 2 ^ 64;
      bytes_transferred = (s.bytes_transferred + h.total_bytes) % 2 ^ 64;
    }
    else s

-- `IOCTL_RPUSB_PUSH_FRAME_CHUNK` for a buffer that has a whole header: whether its memory is there, and
-- whether the pipe takes it. The result is whether the status is a success.
unfoldable pub push_frame_chunk : Bool → Bool → Chunk → Transport → Bool × Transport
push_frame_chunk retrieved written c t =
    let h = c.chunk_header in
    let sent = record t { statistics = count_chunk h t.statistics; wire = t.wire ++ c ∷ [] } in
    if retrieved
    then if h.chunk_bytes == 0 || h.total_chunks == 0 || leb h.total_chunks h.chunk_index
      then (false, t)
      else if written
      then (true, sent)
      else (false, t)
    else (false, t)

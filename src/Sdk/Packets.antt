-- ===== src/Sdk/Packets.antt =====
-- `sendCommandToDisplayEndpoint` of drivers/usermode-sdk/rpusbdisp-drv/src/rpusbdisp.cc up to the
-- transfer: a command and its payload are cut into packets in one transfer buffer, each with a header
-- byte of its own. A buffer is a function of the offset; what `malloc` leaves in it is a parameter.
pub mod Places
pub mod Reading
use rpusbdisp.Common.{
  ℕ, zero, suc, ◌+◌, ◌-◌, ◌*◌, ◌/◌, ◌%◌, ◌^◌, bit_or, Bool, List, length, ltb, ◌==◌, if◌then◌else◌,
}
use rpusbdisp.Common.Memory.{update, write_at, read}
use rpusbdisp.Protocol.{cmd_flag_start, cmd_flag_cleardity}

-- `maxPacketSize_ - 1`, where it is converted to a `size_t`.
abbrev pub effective_size : ℕ → ℕ
effective_size max = (max + 2 ^ 64 - 1) % 2 ^ 64

-- `packetCount`
abbrev pub packet_count : ℕ → ℕ → ℕ
packet_count max total = ((total - 1 + max + 2 ^ 64 - 1) % 2 ^ 64) / effective_size max

-- `overallBuffer`
abbrev pub overall_buffer : (ℕ → ℕ) → List ℕ → List ℕ → ℕ → ℕ
overall_buffer garbage packet payload = write_at (length packet) payload (write_at 0 packet garbage)

-- The header byte of a packet; the first one has the flags.
abbrev pub header_byte : Bool → ℕ → ℕ → ℕ
header_byte dirty command index =
    let start = bit_or command cmd_flag_start in
    if index == 0 then if dirty then bit_or start cmd_flag_cleardity else start else command

-- One round of the loop over `packetIndex`.
unfoldable pub put_packet : Bool → ℕ → ℕ → (ℕ → ℕ) → ℕ → (ℕ → ℕ) → ℕ → ℕ
put_packet dirty max total overall index buffer =
    let packet_offset = index * effective_size max + 1 in
    let payload_size =
      if ltb (total - packet_offset) (effective_size max)
      then total - packet_offset
      else effective_size max in
    let transfer_buffer_offset = index * max in
    write_at (transfer_buffer_offset + 1) (read payload_size (λ i. overall (packet_offset + i)))
      (update buffer transfer_buffer_offset (header_byte dirty (overall 0) index))

-- The rounds before `count`.
unfoldable pub put_packets : Bool → ℕ → ℕ → (ℕ → ℕ) → ℕ → (ℕ → ℕ) → ℕ → ℕ
put_packets dirty max total overall zero buffer = buffer
put_packets dirty max total overall (suc index) buffer =
    put_packet dirty max total overall index (put_packets dirty max total overall index buffer)

-- The bytes of `transferBuffer`, for what its memory and that of `overallBuffer` held.
unfoldable pub transfer_bytes : (ℕ → ℕ) → (ℕ → ℕ) → Bool → ℕ → List ℕ → List ℕ → List ℕ
transfer_bytes garbage transfer_garbage dirty max packet payload =
    let total = length packet + length payload in
    let count = packet_count max total in
    read (total + count - 1)
      (put_packets dirty max total (overall_buffer garbage packet payload) count transfer_garbage)

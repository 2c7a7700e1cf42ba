-- ===== src/Sdk/Runs.antt =====
-- Runs of the SDK: its packets, its calls, its status thread, and the picture that the driver sends too.
use rpusbdisp.Common.{
  ℕ, ◌*◌, ◌≤◌, ◌≡◌, ◌≢◌, refl, ◌∙◌, sym, true, false, List, [], ◌∷◌, some, length, arith, All,
  if◌then◌else◌, ◌==◌,
}
use rpusbdisp.Common.Int.{ℤ, pos, ◌+ℤ◌, ◌-ℤ◌}
use rpusbdisp.Common.Memory.{write_at, read}
use rpusbdisp.Usb.Rle.Decode.{IsPixel}
use rpusbdisp.Usb.Runs.{
  idle, area, memory, takes_all, blank, left_by, sent, pixels, size, succeeds, idle-IsUsable,
}
use rpusbdisp.Sdk.Rle.{rle_compress, est_buffer_size}
use rpusbdisp.Sdk.Rle.Size.{rle_compress_fits}
use rpusbdisp.Sdk.Packets.{transfer_bytes, put_packets, put_packet}
use rpusbdisp.Sdk.Packets.Reading.{IsPacketed, transfer_bytes-IsPacketed}
use rpusbdisp.Sdk.Device.{
  TransferAnswer, refused, ended, pending, completed, Display, Result, returns, throws, waits,
  crashes, send_command, bitblt, send_bitblt, finish_transfer,
}
use rpusbdisp.Sdk.Device.Sending.{IsSized}
use rpusbdisp.Sdk.Device.Interface.{fill_call, c_call, command_of, Answers, c_call_lem}
use rpusbdisp.Sdk.Device.Status.{
  Fetch, completes, stalls, ends, informed, reports, has_thrown, status_fetching_worker,
  status_fetching_lem,
}
use rpusbdisp.Sdk.Agreement.{IsPlace, Agrees, bitblt-Agrees}

abbrev others : List ℕ
others = 2 ∷ 2 ∷ 3 ∷ []

rle_compress_fits_example :
    length (rle_compress 1 others) ≤ est_buffer_size (2 * length {A = ℕ} (1 ∷ others))
rle_compress_fits_example = rle_compress_fits 1 others

abbrev noise : ℕ → ℕ
noise _ = 0xaa

-- A command byte, two fields and five bytes, in packets of four: two full ones and one of a single byte.
packets :
    transfer_bytes noise noise true 4 (2 ∷ 10 ∷ 11 ∷ []) (12 ∷ 13 ∷ 14 ∷ 15 ∷ 16 ∷ [])
    ≡ 0xc2 ∷ 10 ∷ 11 ∷ 12 ∷ 2 ∷ 13 ∷ 14 ∷ 15 ∷ 2 ∷ 16 ∷ []
unfolding transfer_bytes put_packets put_packet read write_at
packets = refl

-- A payload that fills its packets is followed by a packet with nothing but its header.
one_more :
    transfer_bytes noise noise false 4 (2 ∷ 10 ∷ 11 ∷ []) (12 ∷ []) ≡ 0x82 ∷ 10 ∷ 11 ∷ 12 ∷ 2 ∷ []
unfolding transfer_bytes put_packets put_packet read write_at
one_more = refl

transfer_bytes-IsPacketed_example :
    IsPacketed true 4 2
      (10 ∷ 11 ∷ 12 ∷ 13 ∷ 14 ∷ 15 ∷ 16 ∷ [])
      (transfer_bytes noise noise true 4 (2 ∷ 10 ∷ 11 ∷ []) (12 ∷ 13 ∷ 14 ∷ 15 ∷ 16 ∷ []))
transfer_bytes-IsPacketed_example =
    transfer_bytes-IsPacketed noise noise true 4 2 (10 ∷ 11 ∷ []) (12 ∷ 13 ∷ 14 ∷ 15 ∷ 16 ∷ [])
      (omega arith) (omega arith)

abbrev fresh : Display
fresh = record {
  max_packet_size = 64;
  firmware_version = 0x0104;
  status = record {
    packet_type = 0;
    display_status = 0x80;
    touch_status = 0;
    touch_x = pos 0;
    touch_y = pos 0;
  };
  enabled = true;
  working = true;
  status_updated_callback = true;
  updates = [];
  transfers = 0;
  wire = [];
  allocations = 0;
}

abbrev answers_all : ℕ → TransferAnswer
answers_all _ = ended completed

abbrev heap : ℕ → ℕ → ℕ
heap _ _ = 0xaa

fresh-IsSized : IsSized fresh
fresh-IsSized = record { at_least = omega arith; at_most = omega arith }

not_refused : answers_all 0 ≢ refused (pos 0)
not_refused h = cc

not_pending : answers_all 0 ≢ pending
not_pending h = cc

c_call_lem_example :
    (code : ℤ) × (d' : Display) × (c_call answers_all heap (fill_call 0xcb20) fresh
      ≡ some (code, d'))
    × Answers fresh d' (command_of fresh (fill_call 0xcb20)) code
c_call_lem_example =
    c_call_lem answers_all heap (fill_call 0xcb20) fresh fresh-IsSized tt not_refused refl
      not_pending

abbrev report : ℕ → ℕ
report i = if i == 2 then 1 else 0

abbrev fetches : List Fetch
fetches = completes noise ∷ stalls true ∷ ends ∷ completes report ∷ []

status_fetching_lem_example :
    status_fetching_worker fetches fresh
    ≡ returns (informed (reports fetches) (has_thrown fetches) fresh)
status_fetching_lem_example = status_fetching_lem fetches fresh refl (refl, tt)

-- The six pixels of the driver's run, as a buffer of the SDK.
abbrev picture : ℕ → ℕ
picture = write_at 0 (5 ∷ 6 ∷ 7 ∷ 9 ∷ 10 ∷ 11 ∷ []) blank

abbrev left_behind : Result → Display
left_behind (returns d) = d
left_behind (throws code d) = d
left_behind (waits d) = d
left_behind crashes = fresh

abbrev drawn : Result
drawn = bitblt answers_all heap 1 1 3 2 0 picture fresh

drawn_lem : drawn ≡ returns (left_behind drawn)
unfolding bitblt send_bitblt send_command finish_transfer read
drawn_lem = refl

place : IsPlace area 1 1 3 2
unfolding ◌+ℤ◌ ◌-ℤ◌
place = record { left = refl; top = refl; wide = refl; high = refl }

picture_lem : read (3 * 2) picture ≡ 5 ∷ 6 ∷ 7 ∷ 9 ∷ 10 ∷ 11 ∷ []
unfolding read write_at
picture_lem = refl

picture-IsPixel : All IsPixel (read (3 * 2) picture)
picture-IsPixel =
    rw picture_lem
      (omega arith, (omega arith, (omega arith, (omega arith, (omega arith, (omega arith, tt))))))

bitblt-Agrees_example : Agrees idle (left_by sent) fresh (left_behind drawn)
bitblt-Agrees_example =
    bitblt-Agrees takes_all blank memory area true idle (left_by sent) answers_all heap 1 1 3 2
      picture fresh (left_behind drawn) idle-IsUsable fresh-IsSized place (pixels ∙ sym picture_lem)
      refl (omega (arith, size)) (omega arith) (omega arith) picture-IsPixel succeeds drawn_lem

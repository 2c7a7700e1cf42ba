-- ===== src/Sdk/Rle.antt =====
-- `rleCompress` of drivers/usermode-sdk/rpusbdisp-drv/src/rle.cc: a second run-length encoder for the
-- same display. What was written before `sectionHeader` stands in `finished`, the byte at it in
-- `header`, and the pixels behind it, up to `encodingPos`, in `pixels`; a pixel is stored low byte
-- first, as on the processors that the SDK is built for. The two inner loops are one step: each is left
-- when the bit that `isCommonSection` reads has changed.
pub mod Holds
pub mod RoundTrip
pub mod Size
mod Runs
use rpusbdisp.Common.{ℕ, ◌+◌, ◌-◌, ◌/◌, List, [], ◌∷◌, ◌++◌, leb, ◌==◌, if◌then◌else◌, flat_map}
use rpusbdisp.Protocol.{le16}

pub record Output : Type 0 where
  pub finished : List ℕ
  pub header : ℕ
  pub pixels : List ℕ
  pub last_pixel_value : ℕ

-- The bytes up to `encodingPos`.
abbrev pub output_bytes : Output → List ℕ
output_bytes o = o.finished ++ o.header ∷ flat_map le16 o.pixels

-- `sectionHeader = encodingPos`, with a header byte and one pixel.
abbrev pub new_section : Output → ℕ → ℕ → Output
new_section o header pixel = record o {
  finished = output_bytes o;
  header = header;
  pixels = pixel ∷ [];
}

-- `encodingPos-=2`
abbrev pub but_last : List ℕ → List ℕ
but_last [] = []
but_last (x ∷ []) = []
but_last (x ∷ y ∷ ys) = x ∷ but_last (y ∷ ys)

unfoldable pub extend_common : Output → ℕ → Output
extend_common o pixel =
    if pixel == o.last_pixel_value
    then if o.header == 0xff then new_section o 0x80 pixel else record o { header = o.header + 1 }
    else record (new_section o 0 pixel) { last_pixel_value = pixel }

unfoldable pub extend_plain : Output → ℕ → Output
extend_plain o pixel =
    let shorter = record o { header = o.header - 1; pixels = but_last o.pixels } in
    if pixel == o.last_pixel_value
    then if o.header == 0 then record o { header = 0x81 } else new_section shorter 0x81 pixel
    else record (if o.header == 0x7f
        then new_section o 0 pixel
        else record o { header = o.header + 1; pixels = o.pixels ++ pixel ∷ [] }) {
          last_pixel_value = pixel;
        }

-- A byte has the bit of a common section exactly from 0x80 on.
unfoldable pub add_pixel : Output → ℕ → Output
add_pixel o pixel = if leb 0x80 o.header then extend_common o pixel else extend_plain o pixel

abbrev pub add_pixels : List ℕ → Output → Output
add_pixels [] o = o
add_pixels (p ∷ ps) o = add_pixels ps (add_pixel o p)

-- `estBufferSize`, for the size of the buffer in bytes.
abbrev pub est_buffer_size : ℕ → ℕ
est_buffer_size size = size + (size / 2 + 0x7f) / 128

-- The buffer has at least one pixel, which is the first.
unfoldable pub rle_compress : ℕ → List ℕ → List ℕ
rle_compress first others = output_bytes (
    add_pixels others
      (record { finished = []; header = 0; pixels = first ∷ []; last_pixel_value = first }))

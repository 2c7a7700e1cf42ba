-- ===== src/Usb/Rle.antt =====
-- The run-length encoder of usbhandlers.c (`struct rle_encoder_context`, `_rle_compress_init`,
-- `_rle_flush_section`, `_rle_compress_n_encode`) over the sink that takes its bytes. In the driver
-- the sink is `_bitblt_encode_n_transfer_data`; the child modules collect the bytes in a list.
pub mod Sections
pub mod Sink
pub mod Decode
pub mod RoundTrip
pub mod Size
pub mod Stream
use rpusbdisp.Common.{
  ℕ, ◌+◌, ◌-◌, ◌*◌, ◌<◌, bit_and, bit_or, Bool, true, false, ◌&&◌, not, List, [], ◌∷◌, ◌++◌, ltb,
  ◌==◌, if◌then◌else◌, flat_map,
}
use rpusbdisp.Common.Memory.{update, read}
use rpusbdisp.Common.Res.{Res, ok, abort, bug, stuck, ◌>>=◌}
use rpusbdisp.Protocol.{le16, rle_blockflag_common_bit, rle_blockflag_size_bit}

pub record Rle : Type 0 where
  pub is_common_section : Bool
  pub section_size : ℕ
  pub section_data : ℕ → ℕ

-- The array is not initialised: its entries are a parameter.
unfoldable pub rle_compress_init : (ℕ → ℕ) → Rle
rle_compress_init garbage = record {
  is_common_section = false;
  section_size = 0;
  section_data = garbage;
}

abbrev pub section_limit : ℕ
section_limit = rle_blockflag_size_bit + 1

-- The header byte of a section.
unfoldable pub section_header : Rle → ℕ
section_header r =
    let header = bit_and (r.section_size - 1) rle_blockflag_size_bit in
    if r.is_common_section then bit_or header rle_blockflag_common_bit else header

-- The bytes of `section_data` that are sent: one pixel of a common section, or all of them.
unfoldable pub section_bytes : Rle → List ℕ
section_bytes r =
    flat_map le16 (read (if r.is_common_section then 1 else r.section_size) r.section_data)

abbrev pub emptied : Rle → Rle
emptied r = record r { is_common_section = false; section_size = 0 }

abbrev pub unit_section : Rle → ℕ → Rle
unit_section r pixel = record r { section_size = 1; section_data = update r.section_data 0 pixel }

module _ {S : Type 0} (emit : List ℕ → S → Res S (Unit {0})) where
  unfoldable pub rle_flush_section : Rle → S → Res S Rle
  rle_flush_section r s =
      if ltb section_limit r.section_size
      then bug
      else if r.section_size == 0
      then ok r s
      else (emit (section_header r ∷ []) s >>= λ _ s'.
          emit (section_bytes r) s' >>= λ _ s''. ok (emptied r) s'')

  -- A pixel while a common section is open.
  unfoldable pub encode_common : Rle → ℕ → S → Res S Rle
  encode_common r pixel s =
      if r.section_size == 0
      then bug
      else if not (pixel == r.section_data 0)
      then (rle_flush_section r s >>= λ r' s'. ok (unit_section r' pixel) s')
      else if r.section_size == section_limit
      then (rle_flush_section r s >>= λ r' s'. ok (unit_section r' pixel) s')
      else ok (record r { section_size = r.section_size + 1 }) s

  -- The last pixel is equal to the new one: it leaves its section and begins a common one.
  unfoldable pub form_common : Rle → ℕ → S → Res S Rle
  form_common r pixel s =
      let shrunk = record r { section_size = r.section_size - 1 } in
      (if shrunk.section_size == 0 then ok shrunk s else rle_flush_section shrunk s) >>= λ r' s'.
      ok
        (record {
          is_common_section = true;
          section_size = 2;
          section_data = update r'.section_data 0 pixel;
        })
        s'

  -- The new pixel joins the section, which is flushed first if it is full.
  unfoldable pub include_pixel : Rle → ℕ → S → Res S Rle
  include_pixel r pixel s =
      (if r.section_size == section_limit then rle_flush_section r s else ok r s) >>= λ r' s'.
      ok
        (record r' {
          section_size = r'.section_size + 1;
          section_data = update r'.section_data r'.section_size pixel;
        })
        s'

  unfoldable pub rle_compress_n_encode : Rle → ℕ → S → Res S Rle
  rle_compress_n_encode r pixel s =
      if r.is_common_section
      then encode_common r pixel s
      else if not (r.section_size == 0) && (pixel == r.section_data (r.section_size - 1))
      then form_common r pixel s
      else include_pixel r pixel s

  -- The calls for the pixels of a list, in order.
  unfoldable pub rle_compress_all : List ℕ → Rle → S → Res S Rle
  rle_compress_all [] r s = ok r s
  rle_compress_all (p ∷ ps) r s = rle_compress_n_encode r p s >>= λ r' s'. rle_compress_all ps r' s'

  -- The part of `rpusbdisp_usb_try_send_image` that uses the encoder: all pixels, then the last
  -- section.
  unfoldable pub rle_encode : (ℕ → ℕ) → List ℕ → S → Res S Rle
  rle_encode garbage ps s =
      rle_compress_all ps (rle_compress_init garbage) s >>= λ r s'. rle_flush_section r s'

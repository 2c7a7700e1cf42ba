-- ===== src/Fb/Color.antt =====
-- `_display_setcolreg` of fbhandlers.c: the palette of 16 colours. A `u_int` has 32 bits.
use rpusbdisp.Common.{
  ℕ, ◌+◌, ◌-◌, ◌*◌, ◌/◌, ◌%◌, ◌^◌, ◌≤◌, bit_or, Bool, false, Option, none, some, ltb, if◌then◌else◌,
  arith,
}
use rpusbdisp.Common.Memory.{update}

-- `CNVT_TOHW`
unfoldable pub cnvt_tohw : ℕ → ℕ → ℕ
cnvt_tohw val width = (val * 2 ^ width + 0x7fff + 2 ^ 32 - val) % 2 ^ 32 / 2 ^ 16

-- The visual types that the function tells apart.
pub data Visual : Type 0 where
  truecolor pseudocolor : Visual

-- `var.red`, `var.green`, `var.blue` and `var.transp`: offset and length.
pub record Layout : Type 0 where
  pub red_offset : ℕ
  pub red_length : ℕ
  pub green_offset : ℕ
  pub green_length : ℕ
  pub blue_offset : ℕ
  pub blue_length : ℕ
  pub transp_offset : ℕ
  pub transp_length : ℕ
  pub grayscale : Bool

-- `_var_info`
abbrev pub var_info : Layout
var_info = record {
  red_offset = 0;
  red_length = 5;
  green_offset = 5;
  green_length = 6;
  blue_offset = 11;
  blue_length = 5;
  transp_offset = 0;
  transp_length = 0;
  grayscale = false;
}

abbrev pub shift_left : ℕ → ℕ → ℕ
shift_left v n = v * 2 ^ n % 2 ^ 32

abbrev pub gray : ℕ → ℕ → ℕ → ℕ
gray red green blue = (19595 * red + 38470 * green + 7471 * blue) % 2 ^ 32 / 2 ^ 16

-- The entry of the palette for a true colour.
unfoldable pub palette_value : Layout → ℕ → ℕ → ℕ → ℕ → ℕ
palette_value var red green blue transp =
    bit_or
      (bit_or
        (bit_or (shift_left (cnvt_tohw red var.red_length) var.red_offset)
          (shift_left (cnvt_tohw green var.green_length) var.green_offset))
        (shift_left (cnvt_tohw blue var.blue_length) var.blue_offset))
      (shift_left (cnvt_tohw transp var.transp_length) var.transp_offset)

-- `_display_setcolreg`: the palette, or none where the C function returns 1.
unfoldable pub display_setcolreg : Layout → Visual → (ℕ → ℕ) → ℕ → ℕ → ℕ → ℕ → ℕ → Option (ℕ → ℕ)
display_setcolreg var truecolor pal regno red green blue transp =
    if ltb regno 16
    then some (
        update pal regno (
          if var.grayscale
          then palette_value var (gray red green blue) (gray red green blue) (gray red green blue)
              transp
          else palette_value var red green blue transp))
    else none
display_setcolreg var pseudocolor pal regno red green blue transp = none

-- A component of 16 bits becomes a value of 5 bits for red and blue and of 6 bits for green, and 2^16
-- times the value differs from 31 times or 63 times the component by 2^15 at most.
pub cnvt_tohw_lem :
    (val : ℕ)
    → val ≤ 0xffff
    → (cnvt_tohw val 5 ≤ 31)
      × (cnvt_tohw val 6 ≤ 63)
      × (2 * (31 * val) ≤ 2 * (0x10000 * cnvt_tohw val 5) + 0x10000)
      × (2 * (0x10000 * cnvt_tohw val 5) ≤ 2 * (31 * val) + 0x10000)
      × (2 * (63 * val) ≤ 2 * (0x10000 * cnvt_tohw val 6) + 0x10000)
      × (2 * (0x10000 * cnvt_tohw val 6) ≤ 2 * (63 * val) + 0x10000)
unfolding cnvt_tohw
cnvt_tohw_lem val h = (omega arith, omega arith, omega arith, omega arith, omega arith, omega arith)

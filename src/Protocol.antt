-- ===== src/Protocol.antt =====
-- drivers/common/inc/protocol.h and drivers/linux-driver/src/inc/devconf.h, drvconf.h: the constants
-- of the wire protocol and the bytes of the packed command structures. A `_u16` is sent low byte
-- first; a C `int` that is stored in it keeps its low 16 bits.
use rpusbdisp.Common.{ℕ, ◌-◌, ◌*◌, ◌/◌, ◌%◌, bit_or, List, [], ◌∷◌, ◌++◌, Bool, if◌then◌else◌}
use rpusbdisp.Common.Int.{ℤ, pos, negsuc}

abbrev pub dispcmd_fill : ℕ
dispcmd_fill = 1

abbrev pub dispcmd_bitblt : ℕ
dispcmd_bitblt = 2

abbrev pub dispcmd_rect : ℕ
dispcmd_rect = 3

abbrev pub dispcmd_copy_area : ℕ
dispcmd_copy_area = 4

abbrev pub dispcmd_bitblt_rle : ℕ
dispcmd_bitblt_rle = 5

abbrev pub operation_copy : ℕ
operation_copy = 0

abbrev pub operation_xor : ℕ
operation_xor = 1

abbrev pub cmd_flag_cleardity : ℕ
cmd_flag_cleardity = 0x40

abbrev pub cmd_flag_start : ℕ
cmd_flag_start = 0x80

abbrev pub rle_blockflag_common_bit : ℕ
rle_blockflag_common_bit = 0x80

abbrev pub rle_blockflag_size_bit : ℕ
rle_blockflag_size_bit = 0x7f

abbrev pub status_type_normal : ℕ
status_type_normal = 0

abbrev pub display_status_dirty_flag : ℕ
display_status_dirty_flag = 0x80

abbrev pub touch_status_pressed : ℕ
touch_status_pressed = 1

abbrev pub default_height : ℕ
default_height = 240

abbrev pub default_width : ℕ
default_width = 320

abbrev pub default_pixel_bits : ℕ
default_pixel_bits = 16

abbrev pub feature_rle_fwversion : ℕ
feature_rle_fwversion = 0x0104

abbrev pub status_query_retry_count : ℕ
status_query_retry_count = 4

abbrev pub max_transfer_tickets_count : ℕ
max_transfer_tickets_count = 10

-- `PAGE_SIZE*16 - 512`
abbrev pub max_transfer_size : ℕ → ℕ
max_transfer_size page_size = page_size * 16 - 512

-- The low 16 bits of an `int`.
unfoldable pub to_u16 : ℤ → ℕ
to_u16 (pos n) = n % 0x10000
to_u16 (negsuc n) = 0xffff - n % 0x10000

-- The bytes of a `_u16` after `cpu_to_le16`.
abbrev pub le16 : ℕ → List ℕ
le16 v = v % 256 ∷ v / 256 % 256 ∷ []

abbrev pub le16_int : ℤ → List ℕ
le16_int v = le16 (to_u16 v)

abbrev pub sizeof_packet_header : ℕ
sizeof_packet_header = 1

abbrev pub sizeof_bitblt_packet : ℕ
sizeof_bitblt_packet = 10

abbrev pub sizeof_fillrect_packet : ℕ
sizeof_fillrect_packet = 12

abbrev pub sizeof_copyarea_packet : ℕ
sizeof_copyarea_packet = 13

-- `rpusbdisp_disp_fill_packet_t`
abbrev pub fill_packet : ℕ → ℕ → List ℕ
fill_packet cmd_flag color = cmd_flag ∷ le16 color

-- `rpusbdisp_disp_bitblt_packet_t`
abbrev pub bitblt_packet : ℕ → ℤ → ℤ → ℤ → ℤ → ℕ → List ℕ
bitblt_packet cmd_flag x y width height operation =
    cmd_flag ∷ (le16_int x ++ le16_int y ++ le16_int width ++ le16_int height ++ operation ∷ [])

-- `rpusbdisp_disp_fillrect_packet_t`
abbrev pub fillrect_packet : ℕ → ℤ → ℤ → ℤ → ℤ → ℕ → ℕ → List ℕ
fillrect_packet cmd_flag left top right bottom color operation =
    cmd_flag
    ∷ (le16_int left
        ++ le16_int top
        ++ le16_int right
        ++ le16_int bottom
        ++ le16 color
        ++ operation ∷ [])

-- `rpusbdisp_disp_copyarea_packet_t`
abbrev pub copyarea_packet : ℕ → ℤ → ℤ → ℤ → ℤ → ℤ → ℤ → List ℕ
copyarea_packet cmd_flag sx sy dx dy width height =
    cmd_flag
    ∷ (le16_int sx
        ++ le16_int sy
        ++ le16_int dx
        ++ le16_int dy
        ++ le16_int width
        ++ le16_int height)

-- `rlemode?RPUSBDISP_DISPCMD_BITBLT_RLE:RPUSBDISP_DISPCMD_BITBLT`
abbrev pub bitblt_cmd : Bool → ℕ
bitblt_cmd rlemode = if rlemode then dispcmd_bitblt_rle else dispcmd_bitblt

-- The flags of the first packet of a bitblt.
abbrev pub bitblt_start_flag : Bool → Bool → ℕ
bitblt_start_flag rlemode clear_dirty =
    let flag = bit_or (bitblt_cmd rlemode) cmd_flag_start in
    if clear_dirty then bit_or flag cmd_flag_cleardity else flag

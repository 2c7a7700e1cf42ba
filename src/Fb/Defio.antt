-- ===== src/Fb/Defio.antt =====
-- `_display_defio_handler` of fbhandlers.c. A page of the list is its physical address.
use rpusbdisp.Common.{
  ℕ, ◌+◌, ◌-◌, ◌/◌, ◌≤◌, not, List, [], ◌∷◌, ltb, leb, if◌then◌else◌, arith, ◌≡◌, refl, ◌∙◌, if_not,
  true, false, All,
}
use rpusbdisp.Common.Int.{ℤ, pos, ◌+ℤ◌, ◌-ℤ◌, ◌≤ℤ◌}
use rpusbdisp.Common.Res.{Res, ok}
use rpusbdisp.Protocol.{default_width, default_height}
use rpusbdisp.Usb.Device.{Submit}
use rpusbdisp.Fb.{DirtyRect, Fb, hint_none, grow_rect, is_empty, is_zero, display_update}
use rpusbdisp.Fb.Cases.{redrawn, nothing, sends, Try-cases, unbound, refreshes, grows, Update-cases}
use rpusbdisp.Fb.Pages.{page_size}

-- `fix.line_length`
abbrev pub line_length : ℕ
line_length = 640

pub record Rows : Type 0 where
  pub top : ℕ
  pub bottom : ℕ

-- `fix.mmio_start`, which nothing sets, and `fix.smem_len`
abbrev pub mmio_start : ℕ
mmio_start = 0

abbrev pub smem_len : ℕ
smem_len = 153600

-- The body of the loop.
unfoldable pub add_page : ℕ → Rows → Rows
add_page page_start r =
    let offset = page_start - mmio_start in
    let first = offset / line_length in
    let last = (offset + page_size + line_length - 1) / line_length in
    if ltb page_start mmio_start
    then r
    else if leb (mmio_start + smem_len) page_start
    then r
    else record {
      top = if ltb first r.top then first else r.top;
      bottom = if ltb r.bottom last then last else r.bottom;
    }

unfoldable pub add_pages : List ℕ → Rows → Rows
add_pages [] r = r
add_pages (p ∷ ps) r = add_pages ps (add_page p r)

-- The loop from its start, and the limit of the bottom.
unfoldable pub dirty_rows : List ℕ → Rows
dirty_rows ps =
    let r = add_pages ps (record { top = default_height; bottom = 0 }) in
    record r { bottom = if leb default_height r.bottom then default_height - 1 else r.bottom }

-- `_display_defio_handler`
unfoldable pub display_defio_handler :
    (ℕ → Submit) → (ℕ → ℕ) → (ℤ → ℕ) → List ℕ → Fb → Res Fb (Unit {0})
display_defio_handler usb_submit_urb garbage memory ps fb =
    let r = dirty_rows ps in
    if not fb.binded_usbdev
    then ok tt fb
    else display_update usb_submit_urb garbage memory fb (pos 0) (pos r.top) (pos default_width)
        (pos r.bottom -ℤ pos r.top +ℤ pos 1) hint_none

-- The pages lie behind the addresses that the handler takes for the framebuffer's.
abbrev pub AllBehind : List ℕ → Type 0
AllBehind ps = All (λ p. mmio_start + smem_len ≤ p) ps

add_pages_none : (ps : List ℕ) (r : Rows) → AllBehind ps → add_pages ps r ≡ r
unfolding add_pages add_page
add_pages_none [] r a = refl
add_pages_none (p ∷ ps) r (h, a) =
    let e : add_page p r ≡ r = ground (arith, h) in rw e (add_pages_none ps r a)

no_rows : (ps : List ℕ) → AllBehind ps → dirty_rows ps ≡ record { top = 240; bottom = 0 }
unfolding dirty_rows
no_rows ps a = rw (add_pages_none ps (record { top = default_height; bottom = 0 }) a) refl

-- No line of the screen is dirty.
pub record HasNoLine (r : DirtyRect) : Type 0 where
  pub top : r.top ≡ pos default_height
  pub bottom : r.bottom ≤ℤ pos 0

grown :
    (r : DirtyRect)
    → HasNoLine r
    → HasNoLine (grow_rect r (pos 0) (pos 240) (pos default_width) (pos 0 -ℤ pos 240 +ℤ pos 1))
unfolding grow_rect ◌-ℤ◌ ◌+ℤ◌
grown r n = record { top = ground (arith, n.top); bottom = ground (arith, n.bottom) }

empty : (r : DirtyRect) → HasNoLine r → is_empty r ≡ true
empty r n = ground (arith, n.top, n.bottom)

module _ (usb_submit_urb : ℕ → Submit) (garbage : ℕ → ℕ) (memory : ℤ → ℕ) where
  -- With pages that all lie behind the first 153600 bytes of the physical memory, on a bound framebuffer
  -- of which no line is dirty, while the display is not out of step: the handler sends nothing, and no
  -- line is dirty after it. What was written to the pages is not noticed, again and again.
  pub defio_misses :
      (ps : List ℕ) (p : Fb)
      → AllBehind ps
      → p.binded_usbdev ≡ true
      → is_zero (p.device.unsync_flag -ℤ pos 1) ≡ false
      → HasNoLine p.dirty_rect
      → (p' : Fb) × (display_defio_handler usb_submit_urb garbage memory ps p ≡ ok tt p')
        × (p'.device ≡ record p.device { unsync_flag = p.device.unsync_flag -ℤ pos 1 })
        × (p'.binded_usbdev ≡ true)
        × HasNoLine p'.dirty_rect
  unfolding display_defio_handler
  defio_misses ps p a b f n =
      let height = pos 0 -ℤ pos 240 +ℤ pos 1 in
      let r = grow_rect p.dirty_rect (pos 0) (pos 240) (pos default_width) height in
      let g = grown p.dirty_rect n in
      elim (Update-cases usb_submit_urb garbage memory p (pos 0) (pos 240) (pos default_width)
        height hint_none) [
          | unbound u q ↦ cc (u, b)
          | refreshes u full q ↦ cc (full, f)
          | grows u more q ↦
              elim (Try-cases usb_submit_urb garbage memory hint_none false (redrawn p r)) [
                | sends e t ↦ cc (e, empty r g)
                | nothing e t ↦ (
                  redrawn p r,
                  if_not p.binded_usbdev _ _ b ∙ rw (no_rows ps a) (q ∙ t),
                  refl,
                  b,
                  g,
                )
              ]
        ]

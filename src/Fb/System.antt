-- ===== src/Fb/System.antt =====
-- The framebuffer of fbhandlers.c with its device as a system of steps: drawing calls, the deferred
-- work, completions and status packets, in any order. Each is one step; what the bus answers and what
-- the memory holds may differ from step to step.
pub mod Bounded
pub mod Invariant
pub mod Reachable
pub mod Safety
pub mod Shown
pub mod Kept
pub mod Progress
use rpusbdisp.Common.{ℕ, ◌≡◌, ◌≤◌, ◌<◌, count}
use rpusbdisp.Common.Int.{ℤ, pos, ◌+ℤ◌, ◌-ℤ◌, ◌≤ℤ◌}
use rpusbdisp.Common.Res.{ok}
use rpusbdisp.Usb.Device.{Device, Submit, fbhandler_set_unsync_flag}
use rpusbdisp.Usb.Tickets.{complete, remove}
use rpusbdisp.Usb.Rle.Decode.{IsPixel}
use rpusbdisp.Fb.{Fb, Hint, display_update, fbhandler_on_all_transfer_done}

-- A region of the screen: of the callers, only `_display_write` and the deferred I/O compute it here.
pub record IsRegion (x y width height : ℤ) : Type 0 where
  pub from_left : pos 0 ≤ℤ x
  pub from_top : pos 0 ≤ℤ y
  pub to_right : width +ℤ x -ℤ pos 1 ≤ℤ pos 319
  pub to_bottom : height +ℤ y -ℤ pos 1 ≤ℤ pos 239

-- What stands in the memory is pixels.
abbrev pub AllPixels : (ℤ → ℕ) → Type 0
AllPixels memory = (at : ℤ) → IsPixel (memory at)

pub data Step : Fb → Fb → Type 0 where
  draws :
      {p p' : Fb} (usb_submit_urb : ℕ → Submit) (garbage : ℕ → ℕ) (memory : ℤ → ℕ)
      (x y width height : ℤ) (hint : Hint)
      → AllPixels memory
      → IsRegion x y width height
      → display_update usb_submit_urb garbage memory p x y width height hint ≡ ok tt p'
      → Step p p'
  works :
      {p p' : Fb} (usb_submit_urb : ℕ → Submit) (garbage : ℕ → ℕ) (memory : ℤ → ℕ)
      → AllPixels memory
      → fbhandler_on_all_transfer_done usb_submit_urb garbage memory p ≡ ok tt p'
      → Step p p'
  completes :
      {p p' : Fb} (t status : ℕ)
      → 1 ≤ count t p.device.in_flight
      → p' ≡ record p { device = complete p.device t (remove t p.device.in_flight) status }
      → Step p p'
  unsyncs : {p p' : Fb} → p' ≡ record p { device = fbhandler_set_unsync_flag p.device } → Step p p'

pub data Reach (start : Fb) : Fb → Type 0 where
  here : Reach start start
  next : {p p' : Fb} → Reach start p → Step p p' → Reach start p'

-- ===== src/Fb/Spec.antt =====
-- What fbhandlers.c and usbhandlers.c promise together, without tickets, URBs and encodings: a screen
-- with one dirty rectangle that is sent as one message or fails to be sent.
pub mod Sends
pub mod Updates
pub mod Refinement
use rpusbdisp.Common.{
  ℕ, ◌%◌, ◌^◌, ◌≡◌, Bool, true, false, not, ◌&&◌, ◌||◌, List, [], ◌∷◌, ◌++◌, ◌==◌, if◌then◌else◌,
}
use rpusbdisp.Common.Int.{ℤ, pos, ◌-ℤ◌}
use rpusbdisp.Protocol.{default_width, default_height, operation_copy, operation_xor}
use rpusbdisp.Usb.Commands.{copyarea_of, fillrect_of}
use rpusbdisp.Usb.Image.{Area, image_pixels}
use rpusbdisp.Usb.Image.Wire.{CarriesImage}
use rpusbdisp.Fb.{
  DirtyRect, Fb, Fillrect, Copyarea, Hint, hint_none, hint_bitblt, hint_fillrect, hint_copyarea,
  to_int, last_of, clear_dirty_rect, full_rect, grow_rect, is_empty, is_zero, area_of,
}

-- What is sent: a rectangle with its pixels, a fill, a copy, or a part of an image whose send failed.
pub data Message : Type 0 where
  image : Area → List ℕ → Message
  fill : Fillrect → Message
  move : Copyarea → Message
  torn : Message

pub record Spec : Type 0 where
  pub bound : Bool
  pub alive : Bool
  pub handle : Bool
  pub countdown : ℤ
  pub dirty : DirtyRect
  pub sent : List Message

-- Whether a send succeeds; a failure may put the screen out of step.
pub data Answer : Type 0 where
  succeeds : Answer
  fails : Bool → Answer

abbrev pub message_of : (ℤ → ℕ) → Hint → DirtyRect → Message
message_of memory hint_none rect = image (area_of rect) (image_pixels memory (area_of rect))
message_of memory hint_bitblt rect = image (area_of rect) (image_pixels memory (area_of rect))
message_of memory (hint_fillrect f) rect = fill f
message_of memory (hint_copyarea c) rect = move c

-- What a send that failed leaves on the wire: of an image some part, of a command nothing.
abbrev pub left_over : Message → List Message
left_over (image a ps) = torn ∷ []
left_over (fill f) = []
left_over (move c) = []
left_over torn = []

abbrev pub settle : Answer → Message → Spec → Spec
settle succeeds m s = record s { dirty = clear_dirty_rect s.dirty; sent = s.sent ++ m ∷ [] }
settle (fails marks) m s = record s {
  countdown = if marks then pos 1 else s.countdown;
  sent = s.sent ++ left_over m;
}

unfoldable pub spec_try : (ℤ → ℕ) → Answer → Hint → Spec → Spec
spec_try memory a hint s =
    if is_empty s.dirty
    then s
    else settle a (message_of memory hint s.dirty)
        (record s { dirty = record s.dirty { dirty_flag = true } })

unfoldable pub spec_update : (ℤ → ℕ) → Answer → Hint → ℤ → ℤ → ℤ → ℤ → Spec → Spec
spec_update memory a hint x y width height s =
    let counted = record s { countdown = s.countdown -ℤ pos 1 } in
    if not s.bound
    then s
    else if is_zero (s.countdown -ℤ pos 1)
    then spec_try memory a hint (record counted { dirty = full_rect s.dirty })
    else spec_try memory a hint (record counted { dirty = grow_rect s.dirty x y width height })

unfoldable pub spec_work : (ℤ → ℕ) → Answer → Spec → Spec
spec_work memory a s =
    if not s.handle
    then s
    else if s.dirty.dirty_flag || is_zero (s.countdown -ℤ pos 1)
    then spec_update memory a hint_none (pos 0) (pos 0) (pos default_width) (pos default_height) s
    else s

-- What happens to the screen: a drawing call and the deferred work, each with what the framebuffer holds
-- then, the end of a transfer with its status, and a report that the display lost its contents.
pub data Event : Type 0 where
  drawn : (ℤ → ℕ) → Hint → ℤ → ℤ → ℤ → ℤ → Event
  worked : (ℤ → ℕ) → Event
  ended : ℕ → Event
  lost : Event

abbrev pub spec_marks : Bool → Spec → Spec
spec_marks b s = record s { countdown = if b && s.handle then pos 1 else s.countdown }

-- The state after an event, for the answer to the send that it may lead to.
abbrev pub spec_step : Event → Answer → Spec → Spec
spec_step (drawn memory hint x y width height) a s = spec_update memory a hint x y width height s
spec_step (worked memory) a s = spec_work memory a s
spec_step (ended status) a s = spec_marks (not (status == 0) && s.alive) s
spec_step lost a s = spec_marks true s

-- The events in their order, from a first state on.
pub data Moves (start : Spec) : List Event → Spec → Type 0 where
  none_yet : Moves start [] start
  followed :
      {es : List Event} {s s' : Spec} (e : Event) (a : Answer)
      → Moves start es s
      → s' ≡ spec_step e a s
      → Moves start (es ++ e ∷ []) s'

-- The URBs that carry a message.
abbrev pub Means : ℕ → Bool → Message → List (List ℕ) → Type 0
Means max_size rlemode (image a ps) urbs = CarriesImage max_size rlemode a ps urbs
Means max_size rlemode (fill f) urbs =
    urbs
    ≡ fillrect_of (to_int f.dx) (to_int f.dy) (to_int (last_of f.dx f.width))
        (to_int (last_of f.dy f.height)) (f.color % 2 ^ 16)
        (if f.rop_xor then operation_xor else operation_copy)
      ∷ []
Means max_size rlemode (move c) urbs =
    (padding : ℕ) × (urbs
      ≡ (copyarea_of (to_int c.sx) (to_int c.sy) (to_int c.dx) (to_int c.dy) (to_int c.width)
            (to_int c.height)
          ++ padding ∷ [])
        ∷ [])
Means max_size rlemode torn urbs = Unit

-- The wire carries the messages, one after the other, behind what stood there before.
pub data Carries (max_size : ℕ) (rlemode : Bool) (before : List (List ℕ))
    : List Message → List (List ℕ) → Type 0 where
  nothing_yet : Carries max_size rlemode before [] before
  one_more :
      {ms : List Message} {wire : List (List ℕ)} (m : Message) (urbs : List (List ℕ))
      → Carries max_size rlemode before ms wire
      → Means max_size rlemode m urbs
      → Carries max_size rlemode before (ms ++ m ∷ []) (wire ++ urbs)

-- The abstract state of a framebuffer, with the messages that were sent.
abbrev pub spec_of : Fb → List Message → Spec
spec_of p ms = record {
  bound = p.binded_usbdev;
  alive = p.device.is_alive;
  handle = p.device.fb_handle;
  countdown = p.device.unsync_flag;
  dirty = p.dirty_rect;
  sent = ms;
}

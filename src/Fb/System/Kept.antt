-- ===== src/Fb/System/Kept.antt =====
-- No change of the screen is lost: over any sequence of steps of fbhandlers.c and usbhandlers.c, a
-- pixel that has to be sent stays dirty until an image with it is sent.
use rpusbdisp.Common.{ℕ, ◌≡◌, ◌∙◌, sym, ap, subst, ◌⊎◌, inl, inr, Bool, true, false}
use rpusbdisp.Common.Int.{ℤ, pos}
use rpusbdisp.Common.Res.{Res, ok, abort, bug, stuck, ok-injective}
use rpusbdisp.Protocol.{default_width, default_height}
use rpusbdisp.Usb.Device.{Device, Submit}
use rpusbdisp.Fb.{Fb, Hint, hint_none, full_rect, grow_rect, after_send, try_update, display_update}
use rpusbdisp.Fb.Cases.{
  redrawn, marked, nothing, sends, Try-cases, unbound, refreshes, grows, Update-cases, rests, tries,
  Work-cases,
}
use rpusbdisp.Fb.Dirty.{Contains, OnScreen, Pending, was_dirty, IsImage, plain}
use rpusbdisp.Fb.System.Shown.{ShownBy, display_update_keeps}
use rpusbdisp.Fb.System.Safety.{IsDisplay, display-IsWide, IsDisplay-of}
use rpusbdisp.Fb.System.Reachable.{Inv, Step-Inv, whole_screen}
use rpusbdisp.Fb.System.{IsRegion, AllPixels, Step, draws, works, completes, unsyncs}

-- Steps one after the other.
pub data Trace : Fb → Fb → Type 0 where
  stop : {p : Fb} → Trace p p
  step : {p p' p'' : Fb} → Step p p' → Trace p' p'' → Trace p p''

-- The step's hint sends the image.
abbrev pub SendsImages : {p p' : Fb} → Step p p' → Type 0
SendsImages (draws usb_submit_urb garbage memory x y width height hint k g h) = IsImage hint
SendsImages (works usb_submit_urb garbage memory k h) = Unit
SendsImages (completes t status l e) = Unit
SendsImages (unsyncs e) = Unit

abbrev pub AllImages : {p p' : Fb} → Trace p p' → Type 0
AllImages stop = Unit
AllImages (step s t) = SendsImages s × AllImages t

-- The step has put an image with the pixel on the wire.
abbrev pub ShowsAt : {p p' : Fb} → Step p p' → ℤ → ℤ → Type 0
ShowsAt {p} {p'} (draws usb_submit_urb garbage memory x y width height hint k g h) i j =
    ShownBy memory p.device p'.device i j
ShowsAt {p} {p'} (works usb_submit_urb garbage memory k h) i j =
    ShownBy memory p.device p'.device i j
ShowsAt (completes t status l e) i j = ⊥
ShowsAt (unsyncs e) i j = ⊥

abbrev pub SentIn : {p p' : Fb} → Trace p p' → ℤ → ℤ → Type 0
SentIn stop i j = ⊥
SentIn (step s t) i j = ShowsAt s i j ⊎ SentIn t i j

module _ (usb_submit_urb : ℕ → Submit) (garbage : ℕ → ℕ) (memory : ℤ → ℕ) where
  after_bound :
      (p p' : Fb) (r : Res Device (Unit {0}))
      → after_send usb_submit_urb garbage memory p r ≡ ok tt p'
      → p'.binded_usbdev ≡ p.binded_usbdev
  after_bound p p' (ok tt d) h = sym (ap (λ (x : Fb). x.binded_usbdev) (ok-injective h))
  after_bound p p' (abort d) h = sym (ap (λ (x : Fb). x.binded_usbdev) (ok-injective h))
  after_bound p p' bug h = cc
  after_bound p p' stuck h = cc

  try_bound :
      (hint : Hint) (clear_dirty : Bool) (p p' : Fb)
      → try_update usb_submit_urb garbage memory hint clear_dirty p ≡ ok tt p'
      → p'.binded_usbdev ≡ p.binded_usbdev
  try_bound hint clear_dirty p p' h =
      elim (Try-cases usb_submit_urb garbage memory hint clear_dirty p) [
        | nothing e q ↦ ap (λ (x : Fb). x.binded_usbdev) (sym (ok-injective (sym q ∙ h)))
        | sends e q ↦ after_bound (marked p) p' _ (sym q ∙ h)
      ]

  update_bound :
      (p p' : Fb) (x y width height : ℤ) (hint : Hint)
      → display_update usb_submit_urb garbage memory p x y width height hint ≡ ok tt p'
      → p'.binded_usbdev ≡ p.binded_usbdev
  update_bound p p' x y width height hint h =
      elim (Update-cases usb_submit_urb garbage memory p x y width height hint) [
        | unbound b q ↦ ap (λ (x : Fb). x.binded_usbdev) (sym (ok-injective (sym q ∙ h)))
        | refreshes b full q ↦
            try_bound hint true (redrawn p (full_rect p.dirty_rect)) p' (sym q ∙ h)
        | grows b grown q ↦
            try_bound hint false (redrawn p (grow_rect p.dirty_rect x y width height)) p'
              (sym q ∙ h)
      ]

pub Step-bound : {p p' : Fb} → Step p p' → p'.binded_usbdev ≡ p.binded_usbdev
Step-bound {p} {p'} (draws usb_submit_urb garbage memory x y width height hint k g h) =
    update_bound usb_submit_urb garbage memory p p' x y width height hint h
Step-bound {p} {p'} (works usb_submit_urb garbage memory k h) =
    elim (Work-cases usb_submit_urb garbage memory p) [
      | rests q ↦ ap (λ (x : Fb). x.binded_usbdev) (sym (ok-injective (sym q ∙ h)))
      | tries q ↦
          update_bound usb_submit_urb garbage memory p p' (pos 0) (pos 0) (pos default_width)
            (pos default_height) hint_none (sym q ∙ h)
    ]
Step-bound {p} {p'} (completes t status l e) = ap (λ (x : Fb). x.binded_usbdev) e
Step-bound {p} {p'} (unsyncs e) = ap (λ (x : Fb). x.binded_usbdev) e

module _ (d : Device) (v : IsDisplay d) (i j : ℤ) (o : OnScreen i j) where
  Step-keeps :
      {p p' : Fb} (s : Step p p')
      → Inv d p
      → SendsImages s
      → p.binded_usbdev ≡ true
      → Contains p.dirty_rect i j
      → Contains p'.dirty_rect i j ⊎ ShowsAt s i j
  Step-keeps {p} {p'} (draws usb_submit_urb garbage memory x y width height hint k g h) n im b c =
      display_update_keeps usb_submit_urb garbage memory k p p' x y width height i j hint im
        (IsDisplay-of d p.device n.sound.same v) n.sound.pool n.sound.bounded b g o (was_dirty c) h
  Step-keeps {p} {p'} (works usb_submit_urb garbage memory k h) n im b c =
      elim (Work-cases usb_submit_urb garbage memory p) [
        | rests q ↦ inl (subst (λ (q : Fb). Contains q.dirty_rect i j) (ok-injective (sym q ∙ h)) c)
        | tries q ↦
            display_update_keeps usb_submit_urb garbage memory k p p' (pos 0) (pos 0)
              (pos default_width) (pos default_height) i j hint_none plain
              (IsDisplay-of d p.device n.sound.same v) n.sound.pool n.sound.bounded b whole_screen o
              (was_dirty c) (sym q ∙ h)
      ]
  Step-keeps {p} {p'} (completes t status l e) n im b c =
      inl (subst (λ (q : Fb). Contains q.dirty_rect i j) (sym e) c)
  Step-keeps {p} {p'} (unsyncs e) n im b c =
      inl (subst (λ (q : Fb). Contains q.dirty_rect i j) (sym e) c)

  Trace-keeps :
      {p p' : Fb} (t : Trace p p')
      → Inv d p
      → AllImages t
      → p.binded_usbdev ≡ true
      → Contains p.dirty_rect i j
      → Contains p'.dirty_rect i j ⊎ SentIn t i j
  Trace-keeps stop n im b c = inl c
  Trace-keeps (step s t) n im b c = elim (Step-keeps s n im.0 b c) [
    | inr sent ↦ inr (inl sent)
    | inl kept ↦
        elim (Trace-keeps t (Step-Inv d (display-IsWide d v) s n) im.1 (Step-bound s ∙ b) kept) [
          | inl kept' ↦ inl kept'
          | inr sent ↦ inr (inr sent)
        ]
  ]

  -- On the display that the driver is made for, from a state that satisfies the invariant: after a
  -- drawing call on a bound device, for a region of the screen, with a pixel of the screen that has to
  -- be sent, and then any steps, where all hints send the image, the pixel is dirty, or the call or a
  -- later step has put on the wire, behind what it carried before, a rectangle of the screen that holds
  -- the pixel, with its pixels.
  pub drawn-Trace_keeps :
      (usb_submit_urb : ℕ → Submit) (garbage : ℕ → ℕ) (memory : ℤ → ℕ) (p p' p'' : Fb)
      (x y width height : ℤ) (hint : Hint) (t : Trace p' p'')
      → Inv d p
      → IsImage hint
      → AllImages t
      → p.binded_usbdev ≡ true
      → AllPixels memory
      → IsRegion x y width height
      → Pending p x y width height i j
      → display_update usb_submit_urb garbage memory p x y width height hint ≡ ok tt p'
      → Contains p''.dirty_rect i j ⊎ (ShownBy memory p.device p'.device i j ⊎ SentIn t i j)
  drawn-Trace_keeps usb_submit_urb garbage memory p p' p'' x y width height hint t v' im ims b k g n
        h =
      let first = draws usb_submit_urb garbage memory x y width height hint k g h in
      elim (display_update_keeps usb_submit_urb garbage memory k p p' x y width height i j hint im
        (IsDisplay-of d p.device v'.sound.same v) v'.sound.pool v'.sound.bounded b g o n h) [
          | inr sent ↦ inr (inl sent)
          | inl kept ↦
              elim (Trace-keeps t (Step-Inv d (display-IsWide d v) first v') ims
                (update_bound usb_submit_urb garbage memory p p' x y width height hint h ∙ b)
                kept) [ inl kept' ↦ inl kept' | inr sent ↦ inr (inr sent) ]
        ]

-- ===== src/Fb/System/Progress.antt =====
-- `_display_update` of fbhandlers.c shows what is pending, once the display is free and the bus takes
-- its URBs: from the drawing call to the bytes on the wire.
use rpusbdisp.Common.{
  ℕ, ◌≤◌, ◌≡◌, refl, ◌∙◌, ap, inl, inr, Bool, true, false, arith, not, if_not, if_yes, ◌||◌, ◌⊎◌,
  ◌+◌, ◌*◌,
}
use rpusbdisp.Usb.Image.Display.{IsOnScreen}
use rpusbdisp.Usb.Image.Rows.{lines_from, image_pixels_lem}
use rpusbdisp.Common.Int.{ℤ, pos, ◌+ℤ◌, ◌-ℤ◌}
use rpusbdisp.Common.Res.{Res, ok}
use rpusbdisp.Protocol.{default_width, default_height}
use rpusbdisp.Usb.Device.{Device, Submit}
use rpusbdisp.Usb.Image.{image_pixels}
use rpusbdisp.Usb.Image.Sending.{IsDelivered}
use rpusbdisp.Usb.Image.Transfer.{try_send_image_delivers}
use rpusbdisp.Usb.Image.Success.{TakesAll}
use rpusbdisp.Usb.Image.Screen.{display_succeeds, size_some}
use rpusbdisp.Usb.Pool.Held.{IsPool}
use rpusbdisp.Usb.Pool.Operations.{pool-IsUsable}
use rpusbdisp.Fb.{
  DirtyRect, Fb, Hint, hint_none, clear_dirty_rect, full_rect, grow_rect, is_empty, is_zero,
  area_of, after_send, try_update, display_update, fbhandler_on_all_transfer_done,
}
use rpusbdisp.Fb.Dirty.{
  Contains, OnScreen, Pending, changed, InRegion, IsImage, plain, full_covers, grown_covers,
  not_empty, image_sends,
}
use rpusbdisp.Fb.Cases.{redrawn, Update-cases, unbound, refreshes, grows}
use rpusbdisp.Fb.Marked.{IsMarked}
use rpusbdisp.Fb.System.{IsRegion, AllPixels, Reach}
use rpusbdisp.Fb.System.Bounded.{IsBounded, area-IsOnScreen, full-IsBounded, grow-IsBounded}
use rpusbdisp.Fb.System.Invariant.{image-All}
use rpusbdisp.Fb.System.Reachable.{Inv, whole_screen, Reach-Inv}
use rpusbdisp.Fb.System.Safety.{IsDisplay, display-IsWide, IsDisplay-of, IsPool-of}

-- The display can take an image: it is bound and alive, and has three tickets.
pub record IsIdle (p : Fb) : Type 0 where
  pub bound : p.binded_usbdev ≡ true
  pub alive : p.device.is_alive ≡ true
  pub free : 3 ≤ p.device.availiable_count

-- Between two states: the wire carries a rectangle with its pixels behind what it carried before, and
-- nothing is dirty any more.
pub record Shows (memory : ℤ → ℕ) (before : Device) (rect : DirtyRect) (p' : Fb) : Type 0 where
  pub delivered : IsDelivered before p'.device (area_of rect) (image_pixels memory (area_of rect))
  pub on_screen : IsOnScreen (area_of rect)
  pub placed :
      image_pixels memory (area_of rect)
      ≡ lines_from memory
          (on_screen.wide + 1)
          (on_screen.high + 1)
          (on_screen.top * 320 + on_screen.left)
  pub clean : is_empty p'.dirty_rect ≡ true
  pub unmarked : p'.dirty_rect.dirty_flag ≡ false

due :
    (p : Fb) (i j : ℤ)
    → IsMarked p
    → Contains p.dirty_rect i j ⊎ (p.device.unsync_flag ≡ pos 1)
    → (p.dirty_rect.dirty_flag || is_zero (p.device.unsync_flag -ℤ pos 1)) ≡ true
unfolding ◌-ℤ◌
due p i j m (inl c) = rw (m ∙ ap not (not_empty p.dirty_rect i j c)) refl
due p i j m (inr e) = rw e (ground arith)

everywhere_in :
    (i j : ℤ) → OnScreen i j → InRegion (pos 0) (pos 0) (pos default_width) (pos default_height) i j
unfolding ◌+ℤ◌ ◌-ℤ◌
everywhere_in i j o = record {
  from_left = o.column;
  to_right = o.column_below;
  from_top = o.row;
  to_bottom = o.row_below;
}

module _ (usb_submit_urb : ℕ → Submit) (garbage : ℕ → ℕ) (memory : ℤ → ℕ) (k : AllPixels memory)
    (all : TakesAll usb_submit_urb) where
  try-Shows :
      (hint : Hint) (clear_dirty : Bool) (p : Fb)
      → IsImage hint
      → IsDisplay p.device
      → IsPool p.device
      → IsBounded p.dirty_rect
      → is_empty p.dirty_rect ≡ false
      → p.device.is_alive ≡ true
      → 3 ≤ p.device.availiable_count
      → (p' : Fb) × (try_update usb_submit_urb garbage memory hint clear_dirty p ≡ ok tt p')
        × Shows memory p.device p.dirty_rect p'
  unfolding try_update clear_dirty_rect
  try-Shows hint clear_dirty p i s h b e alive free =
      let a = area_of p.dirty_rect in
      let u = pool-IsUsable p.device (display-IsWide p.device s) h in
      let o = area-IsOnScreen p.dirty_rect b e in
      let marked = record p { dirty_rect = record p.dirty_rect { dirty_flag = true } } in
      let (d', q) =
        display_succeeds usb_submit_urb garbage memory a clear_dirty p.device u s.packet s.packets o
          (image-All memory a k) all alive free in
      (
        record p { device = d'; dirty_rect = clear_dirty_rect marked.dirty_rect },
        rw e (
            ap (after_send usb_submit_urb garbage memory marked) (
              image_sends usb_submit_urb garbage memory hint marked.dirty_rect clear_dirty p.device
                i
              ∙ q)),
        record {
          delivered =
              try_send_image_delivers usb_submit_urb garbage memory a clear_dirty p.device u
                (image-All memory a k) d' (size_some a o) q;
          on_screen = o;
          placed = image_pixels_lem memory a o refl;
          clean = refl;
          unmarked = refl;
        },
      )

  -- The call sends a rectangle that holds every pixel that has to be sent.
  pub record Updates (p : Fb) (x y width height : ℤ) (result : Res Fb (Unit {0})) : Type 0 where
    pub after : Fb
    pub ends : result ≡ ok tt after
    pub rect : DirtyRect
    pub covers : (i j : ℤ) → OnScreen i j → Pending p x y width height i j → Contains rect i j
    pub shows : Shows memory p.device rect after

  updates :
      (p : Fb) (rect : DirtyRect) (x y width height : ℤ) (result tried : Res Fb (Unit {0}))
      → ((i j : ℤ) → OnScreen i j → Pending p x y width height i j → Contains rect i j)
      → result ≡ tried
      → ((p' : Fb) × (tried ≡ ok tt p') × Shows memory (redrawn p rect).device rect p')
      → Updates p x y width height result
  updates p rect x y width height result tried c e (p', q, s) = record {
    after = p';
    ends = e ∙ q;
    rect = rect;
    covers = c;
    shows = record {
      delivered = record { body = s.delivered.body; received = s.delivered.received };
      on_screen = s.on_screen;
      placed = s.placed;
      clean = s.clean;
      unmarked = s.unmarked;
    };
  }

  retries :
      (p : Fb) (result tried : Res Fb (Unit {0}))
      → result ≡ tried
      → Updates p (pos 0) (pos 0) (pos default_width) (pos default_height) tried
      → Updates p (pos 0) (pos 0) (pos default_width) (pos default_height) result
  retries p result tried e u = record {
    after = u.after;
    ends = e ∙ u.ends;
    rect = u.rect;
    covers = u.covers;
    shows = u.shows;
  }

  update_shows :
      (p : Fb) (x y width height i j : ℤ) (hint : Hint)
      → IsImage hint
      → IsDisplay p.device
      → IsPool p.device
      → IsBounded p.dirty_rect
      → IsIdle p
      → IsRegion x y width height
      → OnScreen i j
      → Pending p x y width height i j
      → Updates p x y width height
          (display_update usb_submit_urb garbage memory p x y width height hint)
  update_shows p x y width height i j hint im s h b l g o n =
      elim (Update-cases usb_submit_urb garbage memory p x y width height hint) [
        | unbound u q ↦ cc (u, l.bound)
        | refreshes u full q ↦
            let r = full_rect p.dirty_rect in
            let c = λ (u v : ℤ) (w : OnScreen u v) (z : Pending p x y width height u v).
              full_covers p.dirty_rect u v w in
            updates p r x y width height _ _ c q (
              try-Shows hint true (redrawn p r) im
                (record { packet = s.packet; packets = s.packets }) (IsPool-of p h)
                (full-IsBounded p.dirty_rect) (not_empty r i j (c i j o n)) l.alive l.free)
        | grows u grown q ↦
            let r = grow_rect p.dirty_rect x y width height in
            let c = λ (u v : ℤ) (w : OnScreen u v) (z : Pending p x y width height u v).
              grown_covers p x y width height u v grown z in
            updates p r x y width height _ _ c q (
              try-Shows hint false (redrawn p r) im
                (record { packet = s.packet; packets = s.packets }) (IsPool-of p h)
                (grow-IsBounded p.dirty_rect x y width height b g) (not_empty r i j (c i j o n))
                l.alive l.free)
      ]

  work_shows :
      (p : Fb) (i j : ℤ)
      → IsDisplay p.device
      → IsPool p.device
      → IsBounded p.dirty_rect
      → IsMarked p
      → IsIdle p
      → p.device.fb_handle ≡ true
      → OnScreen i j
      → Contains p.dirty_rect i j ⊎ (p.device.unsync_flag ≡ pos 1)
      → Updates p
          (pos 0)
          (pos 0)
          (pos default_width)
          (pos default_height)
          (fbhandler_on_all_transfer_done usb_submit_urb garbage memory p)
  unfolding fbhandler_on_all_transfer_done
  work_shows p i j s h b m l f o n =
      retries p _ _ (if_not p.device.fb_handle _ _ f ∙ if_yes _ _ _ (due p i j m n)) (
        update_shows p (pos 0) (pos 0) (pos default_width) (pos default_height) i j hint_none plain
          s h b l whole_screen o (changed (everywhere_in i j o)))

  -- On the display that the driver is made for, in every state that steps reach from one that satisfies
  -- the invariant, once the display is idle (bound, alive, three tickets free) and the bus takes every
  -- URB: a drawing call whose hint sends the image, on a region of the screen, with a pixel that has to
  -- be sent, ends. Behind what was sent before, the wire carries a rectangle with its pixels that holds
  -- every pixel that has to be sent, and nothing is dirty any more.
  pub display_update-Updates :
      (d : Device) (start p : Fb) (x y width height i j : ℤ) (hint : Hint)
      → IsDisplay d
      → Inv d start
      → Reach start p
      → IsIdle p
      → IsImage hint
      → IsRegion x y width height
      → OnScreen i j
      → Pending p x y width height i j
      → Updates p x y width height
          (display_update usb_submit_urb garbage memory p x y width height hint)
  display_update-Updates d start p x y width height i j hint s v r l im g o n =
      let k = Reach-Inv d (display-IsWide d s) v r in
      update_shows p x y width height i j hint im (IsDisplay-of d p.device k.sound.same s)
        k.sound.pool k.sound.bounded l g o n

  -- On the display that the driver is made for, in every state that steps reach from one that satisfies
  -- the invariant, once the display is idle (bound to its framebuffer, alive, three tickets free) and the
  -- bus takes every URB: if a pixel of the screen is dirty or the display is out of step, the deferred
  -- work ends. Behind what was sent before, the wire carries a rectangle with its pixels that holds every
  -- pixel of the screen, and nothing is dirty any more.
  pub all_transfer_done-Updates :
      (d : Device) (start p : Fb) (i j : ℤ)
      → IsDisplay d
      → Inv d start
      → Reach start p
      → IsIdle p
      → p.device.fb_handle ≡ true
      → OnScreen i j
      → Contains p.dirty_rect i j ⊎ (p.device.unsync_flag ≡ pos 1)
      → Updates p
          (pos 0)
          (pos 0)
          (pos default_width)
          (pos default_height)
          (fbhandler_on_all_transfer_done usb_submit_urb garbage memory p)
  all_transfer_done-Updates d start p i j s v r l f o n =
      let k = Reach-Inv d (display-IsWide d s) v r in
      work_shows p i j (IsDisplay-of d p.device k.sound.same s) k.sound.pool k.sound.bounded
        k.marked l f o n

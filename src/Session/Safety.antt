-- ===== src/Session/Safety.antt =====
-- A device of usbhandlers.c from its start on: the invariant of its pool and of the framebuffer, and
-- that no drawing call meets a `BUG_ON`.
use rpusbdisp.Common.{
  ℕ, ◌≡◌, ◌/◌, not, refl, ◌∙◌, sym, ap, subst, Bool, true, false, [], arith, Bool-cases, inl, inr,
}
use rpusbdisp.Common.Int.{ℤ}
use rpusbdisp.Usb.Device.{Device, Submit, fbhandler_set_unsync_flag, rpusbdisp_usb_set_fbhandle}
use rpusbdisp.Usb.Tickets.{Alloc, on_alloc_disp_tickets_pool}
use rpusbdisp.Usb.Pool.Held.{IsPool}
use rpusbdisp.Usb.Pool.Fresh.{alloc-IsPool}
use rpusbdisp.Fb.{
  DirtyRect, is_empty, Fb, Hint, display_update, fbhandler_on_new_device,
  fbhandler_on_all_transfer_done,
}
use rpusbdisp.Fb.Marked.{IsMarked}
use rpusbdisp.Fb.System.{IsRegion, AllPixels, Reach}
use rpusbdisp.Fb.System.Bounded.{IsBounded}
use rpusbdisp.Fb.System.Reachable.{Inv}
use rpusbdisp.Fb.System.Safety.{IsDisplay, IsSafe, Reach-IsSafe}
use rpusbdisp.Session.{Session, with_device, add_usbdev_to_list, start_device, on_new_usb_device}
use rpusbdisp.Session.Cycle.{started, refused_new}

-- The display that the driver is made for is plugged in: packets of 64 bytes, no transfer under way,
-- and a framebuffer whose rectangle is on the screen or empty, and marked exactly if it is not empty.
pub record IsFresh (s : Session) : Type 0 where
  pub packet : s.fb.device.disp_out_ep_max_size ≡ 64
  pub bus : s.fb.device.in_flight ≡ []
  pub unbound : s.fb.binded_usbdev ≡ false
  pub bounded : IsBounded s.fb.dirty_rect
  pub marked : IsMarked s.fb

-- What the start of a device keeps of a session.
record Keeps (d : Device) (p p' : Fb) : Type 0 where
  pub pool : IsPool d → IsPool p'.device
  pub size : p'.device.disp_out_ep_max_size ≡ d.disp_out_ep_max_size
  pub packets : p'.device.packet_size_factor ≡ d.packet_size_factor
  pub rect : p'.dirty_rect ≡ p.dirty_rect

start-Keeps :
    (bcd_device : ℕ) (ep : Bool) (answer : Submit) (s : Session)
    → s.fb.binded_usbdev ≡ false
    → Keeps s.fb.device s.fb (start_device bcd_device ep answer s).fb
unfolding start_device add_usbdev_to_list fbhandler_on_new_device fbhandler_set_unsync_flag
    rpusbdisp_usb_set_fbhandle
start-Keeps bcd_device ep answer s b = record {
  pool = λ h. rw b h;
  size = ground arith;
  packets = ground arith;
  rect = ground arith;
}

-- A start that succeeds leaves the invariant of the framebuffer and its device.
pub new_device-Inv :
    (memory : ℕ → Alloc) (bcd_device : ℕ) (ep : Bool) (answer : Submit) (s : Session)
    → IsFresh s
    → (on_new_usb_device true 4096 memory bcd_device ep answer s).1 ≡ true
    → let p = (on_new_usb_device true 4096 memory bcd_device ep answer s).0.fb in
      IsDisplay p.device × Inv p.device p
unfolding on_alloc_disp_tickets_pool
new_device-Inv memory bcd_device ep answer s f q =
    elim (Bool-cases (on_alloc_disp_tickets_pool 4096 memory s.fb.device).1) [
      | inr empty ↦ cc (q, refused_new memory bcd_device ep answer s empty)
      | inl filled ↦
          let s' = record (with_device s (on_alloc_disp_tickets_pool 4096 memory s.fb.device).0) {
            status_urb = true;
          } in
          let k = start-Keeps bcd_device ep answer s' f.unbound in
          let p = (start_device bcd_device ep answer s').fb in
          let h = alloc-IsPool memory s.fb.device (omega (arith, f.packet)) f.bus in
          subst (λ (r : Session × Bool). IsDisplay r.0.fb.device × Inv r.0.fb.device r.0.fb)
            (sym (started memory bcd_device ep answer s filled))
            (
              record {
                packet = k.size ∙ f.packet;
                packets = k.packets ∙ ap (λ n. 65024 / n) f.packet;
              },
              record {
                sound = record {
                  pool = k.pool h;
                  same = refl;
                  bounded = subst IsBounded (sym k.rect) f.bounded;
                };
                marked =
                    subst (λ (r : DirtyRect). r.dirty_flag ≡ not (is_empty r)) (sym k.rect)
                      f.marked;
              },
            )
    ]

-- The display that the driver is made for is plugged in, with pages of 4096 bytes, and its start
-- succeeds, whatever allocations of tickets fail: after any sequence of drawing calls on regions of the
-- screen, deferred work, completions and status packets, with any answers of the bus, the next such
-- drawing call and the next deferred work meet no `BUG_ON` and do not run out of fuel.
pub new_device-IsSafe :
    (pool : ℕ → Alloc) (bcd_device : ℕ) (ep : Bool) (answer : Submit) (s : Session) (p : Fb)
    (usb_submit_urb : ℕ → Submit) (garbage : ℕ → ℕ) (memory : ℤ → ℕ) (x y width height : ℤ)
    (hint : Hint)
    → IsFresh s
    → (on_new_usb_device true 4096 pool bcd_device ep answer s).1 ≡ true
    → Reach (on_new_usb_device true 4096 pool bcd_device ep answer s).0.fb p
    → AllPixels memory
    → IsRegion x y width height
    → IsSafe (display_update usb_submit_urb garbage memory p x y width height hint)
      × IsSafe (fbhandler_on_all_transfer_done usb_submit_urb garbage memory p)
new_device-IsSafe pool bcd_device ep answer s p usb_submit_urb garbage memory x y width height hint
      f q r k g =
    let (shown, v) = new_device-Inv pool bcd_device ep answer s f q in
    Reach-IsSafe usb_submit_urb garbage memory k _ _ p x y width height hint shown v r g

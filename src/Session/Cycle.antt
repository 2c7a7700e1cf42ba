-- ===== src/Session/Cycle.antt =====
-- A device of usbhandlers.c that comes and goes.
use rpusbdisp.Common.{
  ℕ, ◌≤◌, ◌≡◌, ◌∙◌, ap, Bool, true, false, [], some, arith, length, Bool-cases, inl, inr,
}
use rpusbdisp.Usb.Device.{Device, Submit, fbhandler_set_unsync_flag, rpusbdisp_usb_set_fbhandle}
use rpusbdisp.Usb.Tickets.{Alloc, on_alloc_disp_tickets_pool, on_release_disp_tickets_pool}
use rpusbdisp.Usb.Tickets.Allocation.{alloc_pool-IsAllocated}
use rpusbdisp.Usb.Tickets.Release.{release_rounds_ends}
use rpusbdisp.Fb.{fbhandler_on_new_device, fbhandler_on_remove_device}
use rpusbdisp.Session.{
  Session, with_device, add_usbdev_to_list, del_usbdev_from_list, start_device, on_new_usb_device,
  dying, on_del_usb_device, released,
}

-- What is left of the device before its tickets are waited for.
record Kept (d : Device) (s t : Session) : Type 0 where
  pub tickets : t.fb.device.tickets ≡ d.tickets
  pub number : t.fb.device.availiable_count ≡ d.availiable_count
  pub urbs : t.fb.device.disp_urb_count ≡ d.disp_urb_count
  pub listed : t.devlist_count ≡ s.devlist_count
  pub unbound : t.fb.binded_usbdev ≡ false

kept :
    (bcd_device : ℕ) (ep : Bool) (answer : Submit) (s : Session)
    → s.fb.binded_usbdev ≡ false
    → Kept s.fb.device s (dying (start_device bcd_device ep answer s))
unfolding start_device dying add_usbdev_to_list del_usbdev_from_list fbhandler_on_new_device
    fbhandler_on_remove_device fbhandler_set_unsync_flag rpusbdisp_usb_set_fbhandle
kept bcd_device ep answer s b = record {
  tickets = ground arith;
  number = ground arith;
  urbs = ground arith;
  listed = omega arith;
  unbound = ground arith;
}

release_done :
    (d : Device) (s t : Session)
    → Kept d s t
    → d.availiable_count ≡ length d.tickets
    → d.disp_urb_count ≡ d.availiable_count
    → (u : Session) × (released t (on_release_disp_tickets_pool [] t.fb.device) ≡ some u)
      × (u.devlist_count ≡ s.devlist_count)
      × (u.fb.binded_usbdev ≡ false)
unfolding on_release_disp_tickets_pool
release_done d s t k c a =
    let (d', freed, e, n) =
      release_rounds_ends t.fb.device.disp_urb_count [] t.fb.device []
        (omega (arith, k.number, ap length k.tickets, c)) (omega (arith, k.number, k.urbs, a)) in
    (_, ap (released t) e, k.listed, k.unbound)

pub started :
    (memory : ℕ → Alloc) (bcd_device : ℕ) (ep : Bool) (answer : Submit) (s : Session)
    → (on_alloc_disp_tickets_pool 4096 memory s.fb.device).1 ≡ true
    → on_new_usb_device true 4096 memory bcd_device ep answer s ≡ (
      start_device bcd_device ep answer
          (record (with_device s (on_alloc_disp_tickets_pool 4096 memory s.fb.device).0) {
            status_urb = true;
          }),
      true,
    )
unfolding on_new_usb_device
started memory bcd_device ep answer s h = rw h

pub refused_new :
    (memory : ℕ → Alloc) (bcd_device : ℕ) (ep : Bool) (answer : Submit) (s : Session)
    → (on_alloc_disp_tickets_pool 4096 memory s.fb.device).1 ≡ false
    → (on_new_usb_device true 4096 memory bcd_device ep answer s).1 ≡ false
unfolding on_new_usb_device
refused_new memory bcd_device ep answer s h = rw h

-- With pages of 4096 bytes, a packet size that is not 0 and a framebuffer that is not bound: a device
-- whose start succeeds and that then goes, with no transfer under way, ends its removal without
-- waiting; the device list is as long as before, and the framebuffer is not bound.
pub new_del_lem :
    (memory : ℕ → Alloc) (bcd_device : ℕ) (ep : Bool) (answer : Submit) (s : Session)
    → 1 ≤ s.fb.device.disp_out_ep_max_size
    → s.fb.binded_usbdev ≡ false
    → (on_new_usb_device true 4096 memory bcd_device ep answer s).1 ≡ true
    → (u : Session) × (on_del_usb_device []
          (on_new_usb_device true 4096 memory bcd_device ep answer s).0
        ≡ some u)
      × (u.devlist_count ≡ s.devlist_count)
      × (u.fb.binded_usbdev ≡ false)
unfolding on_del_usb_device
new_del_lem memory bcd_device ep answer s h b q =
    elim (Bool-cases (on_alloc_disp_tickets_pool 4096 memory s.fb.device).1) [
      | inr empty ↦ cc (q, refused_new memory bcd_device ep answer s empty)
      | inl filled ↦
          let d = (on_alloc_disp_tickets_pool 4096 memory s.fb.device).0 in
          let s' = record (with_device s d) { status_urb = true } in
          let k = alloc_pool-IsAllocated memory s.fb.device h in
          let (u, e, n, f) =
            release_done d s' (dying (start_device bcd_device ep answer s'))
              (kept bcd_device ep answer s' b) k.counted k.all_in in
          (
            u,
            ap (λ r. on_del_usb_device [] r.0) (started memory bcd_device ep answer s filled) ∙ e,
            n,
            f,
          )
    ]

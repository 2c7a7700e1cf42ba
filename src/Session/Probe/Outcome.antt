-- ===== src/Session/Probe/Outcome.antt =====
-- What the probe and the disconnect of usbhandlers.c leave behind.
use rpusbdisp.Common.{
  ℕ, ◌+◌, ◌≤◌, ◌≡◌, refl, ◌∙◌, sym, ap, ◌≢◌, inl, inr, Bool, true, false, List, [], ◌∷◌, none, some,
  Option-cases, Bool-cases, arith,
}
use rpusbdisp.Usb.Device.{Submit}
use rpusbdisp.Usb.Probe.{
  Endpoint, Endpoints, no_endpoints, check_endpoint, scan_endpoints, probe_endpoints,
}
use rpusbdisp.Usb.Tickets.{Alloc, on_alloc_disp_tickets_pool}
use rpusbdisp.Session.{Session, on_new_usb_device}
use rpusbdisp.Session.Cycle.{new_del_lem}
use rpusbdisp.Session.Probe.{
  Interface, attach, detached, rpusbdisp_disconnect, rpusbdisp_probe, with_endpoints,
}

-- An output endpoint that was found has a packet size that is not 0.
abbrev Sized : Endpoints → Type 0
Sized s = s.disp_out_ep_addr ≢ 0 → 1 ≤ s.disp_out_ep_max_size

check-Sized : (p : Endpoint) (s : Endpoints) → Sized s → Sized (check_endpoint p s)
unfolding check_endpoint
check-Sized p s h = ground (arith, h)

scan-Sized : (ps : List Endpoint) (s : Endpoints) → Sized s → Sized (scan_endpoints ps s)
unfolding scan_endpoints
scan-Sized [] s h = h
scan-Sized (p ∷ ps) s h = scan-Sized ps (check_endpoint p s) (check-Sized p s h)

probe-Sized :
    (ps : List Endpoint) (e : Endpoints) → probe_endpoints ps ≡ some e → 1 ≤ e.disp_out_ep_max_size
unfolding probe_endpoints
probe-Sized ps e h = ground (arith, h, scan-Sized ps no_endpoints (λ a. absurd (a refl)))

-- The ways through a probe.
data Probed (ps : List Endpoint) (start : Session → Session × Bool) (i : Interface)
    (r : Interface × Bool) : Type 0 where
  no_device : r ≡ (i, false) → Probed ps start i r
  no_endpoint :
      probe_endpoints ps ≡ none
      → r ≡ (record i { dev = false; udev_refs = i.udev_refs + 1 }, false)
      → Probed ps start i r
  attached :
      (e : Endpoints)
      → probe_endpoints ps ≡ some e
      → r
        ≡ attach
            (start (with_endpoints e i.session))
            (record i { dev = true; udev_refs = i.udev_refs + 1 })
      → Probed ps start i r

probed :
    (kzalloc : Bool) (ps : List Endpoint) (urb_ok : Bool) (page_size : ℕ) (memory : ℕ → Alloc)
    (bcd_device : ℕ) (ep : Bool) (answer : Submit) (i : Interface)
    → Probed ps
        (on_new_usb_device urb_ok page_size memory bcd_device ep answer)
        i
        (rpusbdisp_probe kzalloc ps urb_ok page_size memory bcd_device ep answer i)
unfolding rpusbdisp_probe
probed false ps urb_ok page_size memory bcd_device ep answer i = no_device refl
probed true ps urb_ok page_size memory bcd_device ep answer i =
    elim (Option-cases (probe_endpoints ps)) [
      | inl e ↦ no_endpoint e (rw e refl)
      | inr (s, e) ↦ attached s e (rw e refl)
    ]

-- A start that fails leaves the device list and the binding as they were.
new_device_fails :
    (urb_ok : Bool) (page_size : ℕ) (memory : ℕ → Alloc) (bcd_device : ℕ) (ep : Bool)
    (answer : Submit) (s : Session)
    → let r = on_new_usb_device urb_ok page_size memory bcd_device ep answer s in
      r.1 ≡ false
      → (r.0.devlist_count ≡ s.devlist_count) × (r.0.fb.binded_usbdev ≡ s.fb.binded_usbdev)
unfolding on_new_usb_device
new_device_fails urb_ok page_size memory bcd_device ep answer s h = elim (Bool-cases urb_ok) [
  | inr n ↦ rw n (refl, refl)
  | inl y ↦ elim (Bool-cases (on_alloc_disp_tickets_pool page_size memory s.fb.device).1) [
    | inr n ↦ rw (y, n) (refl, refl)
    | inl z ↦ cc (h, y, z)
  ]
]

-- Whatever fails: a probe that fails holds no memory of the device, and leaves the number of devices and
-- the framebuffer's binding as before.
pub probe_fails_lem :
    (kzalloc : Bool) (ps : List Endpoint) (urb_ok : Bool) (page_size : ℕ) (memory : ℕ → Alloc)
    (bcd_device : ℕ) (ep : Bool) (answer : Submit) (i : Interface)
    → i.dev ≡ false
    → (rpusbdisp_probe kzalloc ps urb_ok page_size memory bcd_device ep answer i).1 ≡ false
    → let i' = (rpusbdisp_probe kzalloc ps urb_ok page_size memory bcd_device ep answer i).0 in
      (i'.dev ≡ false)
      × (i'.session.devlist_count ≡ i.session.devlist_count)
      × (i'.session.fb.binded_usbdev ≡ i.session.fb.binded_usbdev)
probe_fails_lem kzalloc ps urb_ok page_size memory bcd_device ep answer i d h =
    elim (probed kzalloc ps urb_ok page_size memory bcd_device ep answer i) [
      | no_device q ↦ rw q (d, refl, refl)
      | no_endpoint e q ↦ rw q (refl, refl, refl)
      | attached e s q ↦
          let f =
            new_device_fails urb_ok page_size memory bcd_device ep answer
              (with_endpoints e i.session) (sym (ap (λ r. r.1) q) ∙ h) in
          rw q (sym (ap (λ r. r.1) q) ∙ h, f.0, f.1)
    ]

-- With pages of 4096 bytes and a framebuffer that is not bound: a probe that succeeds, and then a
-- disconnect with no transfer under way, ends without waiting and leaves the device freed, the interface
-- without it, the number of devices as before and the framebuffer unbound; but the reference that the
-- probe took to the USB device is never put back.
pub probe_disconnect_lem :
    (kzalloc : Bool) (ps : List Endpoint) (memory : ℕ → Alloc) (bcd_device : ℕ) (ep : Bool)
    (answer : Submit) (i : Interface)
    → i.session.fb.binded_usbdev ≡ false
    → (rpusbdisp_probe kzalloc ps true 4096 memory bcd_device ep answer i).1 ≡ true
    → (i' : Interface) × (rpusbdisp_disconnect []
          (rpusbdisp_probe kzalloc ps true 4096 memory bcd_device ep answer i).0
        ≡ some i')
      × (i'.dev ≡ false)
      × (i'.intfdata ≡ false)
      × (i'.session.devlist_count ≡ i.session.devlist_count)
      × (i'.session.fb.binded_usbdev ≡ false)
      × (i'.udev_refs ≡ i.udev_refs + 1)
unfolding rpusbdisp_disconnect
probe_disconnect_lem kzalloc ps memory bcd_device ep answer i b h =
    elim (probed kzalloc ps true 4096 memory bcd_device ep answer i) [
      | no_device q ↦ cc (ap (λ r. r.1) q, h)
      | no_endpoint e q ↦ cc (ap (λ r. r.1) q, h)
      | attached e s q ↦
          let (u, g, n, f) =
            new_del_lem memory bcd_device ep answer (with_endpoints e i.session)
              (probe-Sized ps e s) b (sym (ap (λ r. r.1) q) ∙ h) in
          let freed : Interface = record {
            session = u;
            dev = false;
            intfdata = false;
            udev_refs = i.udev_refs + 1;
          } in
          (
            freed,
            ap (λ r. rpusbdisp_disconnect [] r.0) q
                ∙ ap (detached (record i { dev = true; udev_refs = i.udev_refs + 1 })) g,
            refl,
            refl,
            n,
            f,
            refl,
          )
    ]

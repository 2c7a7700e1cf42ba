-- ===== src/Session/ProbeRuns.antt =====
-- A display that is plugged in and goes, and an interface that lacks an endpoint.
use rpusbdisp.Common.{◌+◌, ◌≡◌, refl, Bool, true, false, List, [], ◌∷◌, some}
use rpusbdisp.Usb.Device.{accepted}
use rpusbdisp.Usb.Tickets.{alloc_rounds, on_alloc_disp_tickets_pool}
use rpusbdisp.Usb.Probe.{Endpoint, check_endpoint, scan_endpoints, probe_endpoints}
use rpusbdisp.Session.{on_new_usb_device}
use rpusbdisp.Session.Probe.{Interface, rpusbdisp_probe, rpusbdisp_disconnect}
use rpusbdisp.Session.Probe.Outcome.{probe_fails_lem, probe_disconnect_lem}
use rpusbdisp.Session.Runs.{before, memory}

abbrev input : Endpoint
input = record { address = 0x81; is_int_in = true; is_bulk_out = false; max_packet_size = 32 }

abbrev output : Endpoint
output = record { address = 1; is_int_in = false; is_bulk_out = true; max_packet_size = 64 }

abbrev port : Interface
port = record { session = before; dev = false; intfdata = false; udev_refs = 1 }

abbrev probing : List Endpoint → Interface × Bool
probing ps = rpusbdisp_probe true ps true 4096 memory 0x0104 true accepted port

probes : (probing (input ∷ output ∷ [])).1 ≡ true
unfolding rpusbdisp_probe probe_endpoints scan_endpoints check_endpoint on_new_usb_device
    on_alloc_disp_tickets_pool alloc_rounds
probes = refl

lacks : (probing (output ∷ [])).1 ≡ false
unfolding rpusbdisp_probe probe_endpoints scan_endpoints check_endpoint
lacks = refl

probe_fails_lem_example :
    let i' = (probing (output ∷ [])).0 in
    (i'.dev ≡ false) × (i'.session.devlist_count ≡ 0) × (i'.session.fb.binded_usbdev ≡ false)
probe_fails_lem_example =
    probe_fails_lem true (output ∷ []) true 4096 memory 0x0104 true accepted port refl lacks

probe_disconnect_lem_example :
    (i' : Interface) × (rpusbdisp_disconnect [] (probing (input ∷ output ∷ [])).0 ≡ some i')
    × (i'.dev ≡ false)
    × (i'.intfdata ≡ false)
    × (i'.session.devlist_count ≡ 0)
    × (i'.session.fb.binded_usbdev ≡ false)
    × (i'.udev_refs ≡ 1 + 1)
probe_disconnect_lem_example =
    probe_disconnect_lem true (input ∷ output ∷ []) memory 0x0104 true accepted port refl probes

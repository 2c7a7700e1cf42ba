-- ===== src/Fb/Runs.antt =====
-- Runs of fbhandlers.c on a device with two tickets.
use rpusbdisp.Common.{
  ℕ, ◌+◌, ◌*◌, ◌/◌, ◌≤◌, ◌≡◌, refl, Bool, true, false, [], ◌∷◌, some, arith, ◌%◌, ◌^◌, ltb,
  if◌then◌else◌,
}
use rpusbdisp.Common.Int.{ℤ, pos, negsuc, ◌-ℤ◌}
use rpusbdisp.Common.Res.{ok, abort, stuck}
use rpusbdisp.Usb.Device.{Submit, accepted}
use rpusbdisp.Fb.{Fb}
use rpusbdisp.Fb.Color.{cnvt_tohw, cnvt_tohw_lem}
use rpusbdisp.Fb.Defio.{display_defio_handler, HasNoLine, defio_misses}
use rpusbdisp.Fb.Creation.{
  Answers, nothing, on_create_new_fb, on_release_fb, left_over, create_release_lem,
}
use rpusbdisp.Fb.Pages.{rpusbdisp_fb_mmap, rvmalloc, rvfree}
use rpusbdisp.Fb.Pages.Loops.{pages, rvfree_clears, mappings, fb_mmap_stops, fb_mmap_runs_on}

abbrev blank : ℕ → ℕ
blank _ = 0

abbrev black : ℤ → ℕ
black _ = 0

abbrev takes_all : ℕ → Submit
takes_all _ = accepted

rvfree_clears_example :
    (rvmalloc 40 4096 153600 ≡ some (pages 4096 ((153600 + 4095) / 4096) []))
    × (rvfree 40 4096 153600 ≡ some (pages 4096 ((153600 + 4095) / 4096) []))
rvfree_clears_example = rvfree_clears 40 4096 153600 (omega arith) (omega arith) (omega arith)

-- The pages that belong to the memory: those below an address.
abbrev bounded : ℕ → ℕ → Bool
bounded vm_start virt = ltb virt 12288

-- The length of the driver's own framebuffer: 240 lines of 640 bytes.
fb_mmap_stops_example :
    rpusbdisp_fb_mmap bounded 50 65536 4096 153600 0
    ≡ abort (mappings 65536 ((4096 + 0 * 4096) % 2 ^ 64) 2 [])
fb_mmap_stops_example =
    fb_mmap_stops bounded 2 50 65536 4096 153600 0 (omega arith) (omega arith) (omega arith)
      (omega arith) (refl, (refl, refl))

abbrev remaps : ℕ → ℕ → Bool
remaps _ _ = true

fb_mmap_runs_on_example : rpusbdisp_fb_mmap remaps 50 65536 4096 153600 0 ≡ stuck
fb_mmap_runs_on_example =
    fb_mmap_runs_on remaps 50 65536 4096 153600 0 (λ _ _. refl) (omega arith) (omega arith)
      (omega arith)

cnvt_tohw_lem_example :
    (cnvt_tohw 40000 5 ≤ 31)
    × (cnvt_tohw 40000 6 ≤ 63)
    × (2 * (31 * 40000) ≤ 2 * (0x10000 * cnvt_tohw 40000 5) + 0x10000)
    × (2 * (0x10000 * cnvt_tohw 40000 5) ≤ 2 * (31 * 40000) + 0x10000)
    × (2 * (63 * 40000) ≤ 2 * (0x10000 * cnvt_tohw 40000 6) + 0x10000)
    × (2 * (0x10000 * cnvt_tohw 40000 6) ≤ 2 * (63 * 40000) + 0x10000)
cnvt_tohw_lem_example = cnvt_tohw_lem 40000 (omega arith)

-- A bound framebuffer that is clean and in step.
abbrev clean : Fb
clean = record {
  dirty_rect = record {
    left = pos 320;
    top = pos 240;
    right = negsuc 0;
    bottom = negsuc 0;
    dirty_flag = false;
  };
  binded_usbdev = true;
  device = record {
    is_alive = true;
    disp_out_ep_max_size = 64;
    device_fwver = 0x0104;
    fb_handle = true;
    unsync_flag = pos 0;
    tickets = [];
    availiable_count = 0;
    disp_urb_count = 2;
    packet_size_factor = 2;
    completion_work = false;
    transfer_buffer = λ _ _. 0;
    transfer_buffer_length = λ _. 128;
    urb_status = λ _. 0;
    submits = 2;
    in_flight = 0 ∷ 1 ∷ [];
    wire = [];
  };
}

defio_misses_example :
    (p' : Fb) × (display_defio_handler takes_all blank black (1048576 ∷ []) clean ≡ ok tt p')
    × (p'.device ≡ record clean.device { unsync_flag = clean.device.unsync_flag -ℤ pos 1 })
    × (p'.binded_usbdev ≡ true)
    × HasNoLine p'.dirty_rect
unfolding ◌-ℤ◌
defio_misses_example =
    defio_misses takes_all blank black (1048576 ∷ []) clean (omega arith, tt) refl refl
      (record { top = refl; bottom = omega arith })

-- The registration fails.
abbrev not_registered : Answers
not_registered = record {
  framebuffer_alloc = true;
  rvmalloc_ok = true;
  fb_alloc_cmap = true;
  kzalloc = true;
  register_framebuffer = false;
}

create_release_lem_example :
    let r = on_create_new_fb not_registered in
    (if r.1 then on_release_fb r.0 else r.0) ≡ (if r.1 then nothing else left_over not_registered)
create_release_lem_example = create_release_lem not_registered

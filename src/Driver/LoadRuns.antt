-- ===== src/Driver/LoadRuns.antt =====
-- Runs of the module's entry and exit, with and without a framebuffer.
use rpusbdisp.Common.{◌≡◌, refl, true, false, Bool, []}
use rpusbdisp.Common.Res.{ok, abort}
use rpusbdisp.Fb.Creation.{nothing, on_create_new_fb}
use rpusbdisp.Driver.Whole.{
  System, Kernel, Loaded, load, unload, unloaded, succeeds, load_unload_lem, load_fails_lem,
}

abbrev empty : System
empty = record {
  touch = record { default_input_dev = false; live_flag = false; events = [] };
  default_fb = nothing;
  usbdisp_driver = false;
  working_flag = false;
}

abbrev answering : Bool → Kernel
answering cmap = record {
  input_allocate_device = true;
  input_register_device = true;
  fb = record {
    framebuffer_alloc = true;
    rvmalloc_ok = true;
    fb_alloc_cmap = cmap;
    kzalloc = true;
    register_framebuffer = true;
  };
  usb_register = true;
}

all_right : succeeds (answering true) ≡ true
unfolding on_create_new_fb
all_right = refl

no_cmap : succeeds (answering false) ≡ false
unfolding on_create_new_fb
no_cmap = refl

load_unload_lem_example :
    (s' : System) × (load (answering true) empty ≡ ok tt s')
    × Loaded s'
    × (unload s' ≡ unloaded empty.touch)
load_unload_lem_example = load_unload_lem (answering true) empty all_right

load_fails_lem_example :
    (s' : System) × (load (answering false) empty ≡ abort s')
    × (s'.touch.default_input_dev ≡ true)
    × (s'.touch.live_flag ≡ true)
load_fails_lem_example = load_fails_lem (answering false) empty refl refl no_cmap

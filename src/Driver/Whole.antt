-- ===== src/Driver/Whole.antt =====
-- main.c over the handlers that it registers: touchhandlers.c, fbhandlers.c and usbhandlers.c.
use rpusbdisp.Common.{
  ◌≡◌, refl, ◌∙◌, sym, Bool, true, false, ◌&&◌, inl, inr, Bool-cases, if_yes, if◌then◌else◌, arith,
}
use rpusbdisp.Common.Res.{Res, ok, abort, bug, stuck, ◌>>=◌}
use rpusbdisp.Touch.{Touch, register_touch_handler, unregister_touch_handler, on_create_input_dev}
use rpusbdisp.Fb.Creation.{
  Held, nothing, Answers, on_create_new_fb, on_release_fb, create_release_lem,
}

-- What the module has registered: `_default_input_dev`, `_default_fb`, the USB driver, and
-- `_working_flag` of usbhandlers.c.
pub record System : Type 0 where
  pub touch : Touch
  pub default_fb : Held
  pub usbdisp_driver : Bool
  pub working_flag : Bool

-- What the kernel answers.
pub record Kernel : Type 0 where
  pub input_allocate_device : Bool
  pub input_register_device : Bool
  pub fb : Answers
  pub usb_register : Bool

abbrev touch_handler : Kernel → System → Res System (Unit {0})
touch_handler k s =
    elim (register_touch_handler k.input_allocate_device k.input_register_device s.touch) [
      | ok _ t ↦ ok tt (record s { touch = t })
      | abort t ↦ abort (record s { touch = t })
      | bug ↦ bug
      | stuck ↦ stuck
    ]

unfoldable pub register_fb_handlers : Answers → System → Res System (Unit {0})
register_fb_handlers a s =
    let (held, created) = on_create_new_fb a in
    if created
    then ok tt (record s { default_fb = held })
    else abort (record s { default_fb = held })

unfoldable pub unregister_fb_handlers : System → System
unregister_fb_handlers s =
    if s.default_fb.info then record s { default_fb = on_release_fb s.default_fb } else s

unfoldable pub register_usb_handlers : Bool → System → Res System (Unit {0})
register_usb_handlers answer s =
    let working = record s { working_flag = true } in
    if answer then ok tt (record working { usbdisp_driver = true }) else abort working

unfoldable pub unregister_usb_handlers : System → System
unregister_usb_handlers s = record s { working_flag = false; usbdisp_driver = false }

-- `usb_disp_init`: the first handler that fails ends the entry.
unfoldable pub load : Kernel → System → Res System (Unit {0})
load k s = touch_handler k s >>= λ _ s₁.
    register_fb_handlers k.fb s₁ >>= λ _ s₂. register_usb_handlers k.usb_register s₂

-- `usb_disp_exit`
unfoldable pub unload : System → System
unload s =
    let s₁ = unregister_fb_handlers (unregister_usb_handlers s) in
    record s₁ { touch = unregister_touch_handler s₁.touch }

-- Every answer is a success.
abbrev pub succeeds : Kernel → Bool
succeeds k =
    k.input_allocate_device
    && k.input_register_device
    && (on_create_new_fb k.fb).1
    && k.usb_register

-- Nothing is registered; the events that were reported stay.
abbrev pub unloaded : Touch → System
unloaded t = record {
  touch = record t { default_input_dev = false; live_flag = false };
  default_fb = nothing;
  usbdisp_driver = false;
  working_flag = false;
}

-- Everything is registered.
pub record Loaded (s : System) : Type 0 where
  pub input : s.touch.default_input_dev ≡ true
  pub live : s.touch.live_flag ≡ true
  pub screen : s.default_fb.info ≡ true
  pub driver : s.usbdisp_driver ≡ true
  pub working : s.working_flag ≡ true

created_info : (a : Answers) → (on_create_new_fb a).1 ≡ true → (on_create_new_fb a).0.info ≡ true
unfolding on_create_new_fb
created_info a h = ground (arith, h)

released :
    (a : Answers) → (on_create_new_fb a).1 ≡ true → on_release_fb (on_create_new_fb a).0 ≡ nothing
released a h = sym (if_yes _ _ _ h) ∙ create_release_lem a ∙ if_yes _ _ _ h

abbrev with_input : System → Touch
with_input s = record s.touch { default_input_dev = true; live_flag = true }

touch_registers :
    (k : Kernel) (s : System)
    → k.input_allocate_device ≡ true
    → k.input_register_device ≡ true
    → touch_handler k s ≡ ok tt (record s { touch = with_input s })
unfolding register_touch_handler on_create_input_dev
touch_registers k s a r = rw (a, r) refl

-- When every answer is a success, the entry succeeds with the touch input, the framebuffer and the USB
-- driver registered, and the exit after it leaves nothing registered.
pub load_unload_lem :
    (k : Kernel) (s : System)
    → succeeds k ≡ true
    → (s' : System) × (load k s ≡ ok tt s') × Loaded s' × (unload s' ≡ unloaded s.touch)
unfolding load unload register_fb_handlers register_usb_handlers unregister_fb_handlers
    unregister_usb_handlers unregister_touch_handler
load_unload_lem k s h =
    let a : k.input_allocate_device ≡ true = ground (arith, h) in
    let r : k.input_register_device ≡ true = ground (arith, h) in
    let c : (on_create_new_fb k.fb).1 ≡ true = ground (arith, h) in
    let u : k.usb_register ≡ true = ground (arith, h) in
    (
      record {
        touch = with_input s;
        default_fb = (on_create_new_fb k.fb).0;
        usbdisp_driver = true;
        working_flag = true;
      },
      rw (touch_registers k s a r, c, u) refl,
      record {
        input = refl;
        live = refl;
        screen = created_info k.fb c;
        driver = refl;
        working = refl;
      },
      rw (created_info k.fb c, released k.fb c) refl,
    )

-- When the touch input is registered and the framebuffer or the USB driver then is not, the entry fails
-- and leaves the touch input registered.
pub load_fails_lem :
    (k : Kernel) (s : System)
    → k.input_allocate_device ≡ true
    → k.input_register_device ≡ true
    → succeeds k ≡ false
    → (s' : System) × (load k s ≡ abort s')
      × (s'.touch.default_input_dev ≡ true)
      × (s'.touch.live_flag ≡ true)
unfolding load register_fb_handlers register_usb_handlers
load_fails_lem k s a r h = elim (Bool-cases (on_create_new_fb k.fb).1) [
  | inr c ↦ (
    record s { touch = with_input s; default_fb = (on_create_new_fb k.fb).0 },
    rw (touch_registers k s a r, c) refl,
    refl,
    refl,
  )
  | inl c ↦
      let u : k.usb_register ≡ false = ground (arith, h, a, r, c) in
      (
        record s {
          touch = with_input s;
          default_fb = (on_create_new_fb k.fb).0;
          working_flag = true;
        },
        rw (touch_registers k s a r, c, u) refl,
        refl,
        refl,
      )
]

-- ===== src/Driver.antt =====
-- main.c: the module's entry and exit. The three handlers' own functions stand in the modules of their
-- parts; here only what they answer and in which order they are called.
pub mod Whole
mod LoadRuns
use rpusbdisp.Common.{
  ℕ, ◌≡◌, Bool, true, false, ◌&&◌, List, [], ◌∷◌, ◌++◌, Option, none, some, ◌==◌, if◌then◌else◌,
  arith,
}
use rpusbdisp.Common.Int.{ℤ, pos, negsuc}

pub data Handler : Type 0 where
  touch fb usb : Handler

-- `fps`, the handlers that are registered, in order, and the result.
pub record Module : Type 0 where
  pub fps : ℤ
  pub registered : List Handler
  pub result : ℤ

abbrev pub is_zero : ℤ → Bool
is_zero (pos n) = n == 0
is_zero (negsuc n) = false

-- The rate that is used if none is given: the kernel's configuration, or 16.
abbrev pub default_fps : Option ℤ → ℤ
default_fps (some config_fps) = config_fps
default_fps none = pos 16

-- A step of the `do` block: a handler that answers 0 is registered, any other answer ends the block.
abbrev register : Handler → ℤ → Module → Module
register h answer m =
    if is_zero m.result
    then (if is_zero answer
        then record m { registered = m.registered ++ h ∷ []; result = answer }
        else record m { result = answer })
    else m

-- `usb_disp_init`, for the answers of `register_touch_handler`, `register_fb_handlers` and
-- `register_usb_handlers`.
unfoldable pub usb_disp_init : Option ℤ → ℤ → ℤ → ℤ → ℤ → Module
usb_disp_init config_fps fps touch_answer fb_answer usb_answer =
    let m : Module = record {
      fps = if is_zero fps then default_fps config_fps else fps;
      registered = [];
      result = pos 0;
    } in
    register usb usb_answer (register fb fb_answer (register touch touch_answer m))

-- `usb_disp_exit`: what it unregisters, in order.
unfoldable pub usb_disp_exit : List Handler
usb_disp_exit = usb ∷ fb ∷ touch ∷ []

abbrev pub reversed : List Handler → List Handler
reversed [] = []
reversed (h ∷ hs) = reversed hs ++ h ∷ []

-- The entry results in 0 exactly if all three handlers answer 0; and if it does, its exit unregisters
-- what it registered, in the opposite order.
pub init_exit_lem :
    (config_fps : Option ℤ) (fps touch_answer fb_answer usb_answer : ℤ)
    → let m = usb_disp_init config_fps fps touch_answer fb_answer usb_answer in
      (is_zero m.result ≡ (is_zero touch_answer && is_zero fb_answer && is_zero usb_answer))
      × ((if is_zero m.result then reversed m.registered else usb_disp_exit) ≡ usb_disp_exit)
unfolding usb_disp_init usb_disp_exit
init_exit_lem config_fps fps touch_answer fb_answer usb_answer = (ground arith, ground arith)

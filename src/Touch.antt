-- ===== src/Touch.antt =====
-- touchhandlers.c: the one input device and the events it reports. What the input core keeps of them
-- is a log.
pub mod Reports
use rpusbdisp.Common.{ℕ, Bool, true, false, not, ◌||◌, List, [], ◌∷◌, ◌++◌, if◌then◌else◌}
use rpusbdisp.Common.Int.{ℤ}
use rpusbdisp.Common.Res.{Res, ok, abort, bug}

pub data Event : Type 0 where
  abs_x abs_y : ℤ → Event
  abs_pressure btn_touch : ℕ → Event
  sync : Event

-- `_default_input_dev` (whether it is not NULL), `_live_flag`, and the log.
pub record Touch : Type 0 where
  pub default_input_dev : Bool
  pub live_flag : Bool
  pub events : List Event

-- `_on_create_input_dev`: what `input_allocate_device` and `input_register_device` answer. The test
-- of the allocation looks at the wrong pointer, so that NULL is written through (`bug`).
unfoldable pub on_create_input_dev : Bool → Bool → Touch → Res Touch (Unit {0})
on_create_input_dev false registered t = bug
on_create_input_dev true false t = abort (record t { default_input_dev = true })
on_create_input_dev true true t = ok tt (record t { default_input_dev = true })

abbrev set_live : Res Touch (Unit {0}) → Res Touch (Unit {0})
set_live (ok _ t) = ok tt (record t { live_flag = true })
set_live r = r

unfoldable pub register_touch_handler : Bool → Bool → Touch → Res Touch (Unit {0})
register_touch_handler allocated registered t =
    set_live (on_create_input_dev allocated registered t)

unfoldable pub unregister_touch_handler : Touch → Touch
unregister_touch_handler t = record t { live_flag = false; default_input_dev = false }

-- `touchhandler_send_ts_event`
unfoldable pub touchhandler_send_ts_event : Touch → ℤ → ℤ → Bool → Touch
touchhandler_send_ts_event t x y touch =
    if not t.default_input_dev || not t.live_flag
    then t
    else if touch
    then record t {
      events = t.events ++ (abs_x x ∷ abs_y y ∷ abs_pressure 1 ∷ btn_touch 1 ∷ sync ∷ []);
    }
    else record t { events = t.events ++ (abs_pressure 0 ∷ btn_touch 0 ∷ sync ∷ []) }

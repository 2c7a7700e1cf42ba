-- ===== src/Touch/Reports.antt =====
-- What the input core makes of the events that touchhandlers.c reports.
use rpusbdisp.Common.{
  ℕ, ◌≡◌, refl, ◌∙◌, ap, Bool, true, if◌then◌else◌, Bool-cases, inl, inr, List, [], ◌∷◌, ◌++◌,
  arith,
}
use rpusbdisp.Common.Int.{ℤ}
use rpusbdisp.Touch.{
  Event, abs_x, abs_y, abs_pressure, btn_touch, sync, Touch, touchhandler_send_ts_event,
}

-- The axes and the button of a touch screen.
pub record Screen : Type 0 where
  pub x : ℤ
  pub y : ℤ
  pub pressure : ℕ
  pub button : ℕ

-- Readers of the device see the values up to the last `sync`; those behind it are pending.
pub record Reader : Type 0 where
  pub pending : Screen
  pub seen : Screen

abbrev pub read_event : Event → Reader → Reader
read_event (abs_x v) r = record r { pending = record r.pending { x = v } }
read_event (abs_y v) r = record r { pending = record r.pending { y = v } }
read_event (abs_pressure v) r = record r { pending = record r.pending { pressure = v } }
read_event (btn_touch v) r = record r { pending = record r.pending { button = v } }
read_event sync r = record r { seen = r.pending }

abbrev pub read_events : List Event → Reader → Reader
read_events [] r = r
read_events (e ∷ es) r = read_events es (read_event e r)

-- Nothing is pending.
abbrev pub IsSynced : Reader → Type 0
IsSynced r = r.pending ≡ r.seen

-- A touch as it is reported: where, and whether the screen is pressed.
pub record Report : Type 0 where
  pub at_x : ℤ
  pub at_y : ℤ
  pub pressed : Bool

abbrev pub send_reports : List Report → Touch → Touch
send_reports [] t = t
send_reports (r ∷ rs) t = send_reports rs (touchhandler_send_ts_event t r.at_x r.at_y r.pressed)

-- The screen that a report shows: a release keeps the place of the last touch.
abbrev pub shown : Report → Screen → Screen
shown r s =
    if r.pressed
    then record { x = r.at_x; y = r.at_y; pressure = 1; button = 1 }
    else record s { pressure = 0; button = 0 }

abbrev pub all_shown : List Report → Screen → Screen
all_shown [] s = s
all_shown (r ∷ rs) s = all_shown rs (shown r s)

read-append :
    (xs ys : List Event) (r : Reader) → read_events (xs ++ ys) r ≡ read_events ys (read_events xs r)
read-append [] ys r = refl
read-append (x ∷ xs) ys r = read-append xs ys (read_event x r)

-- Readers that see `s`, with nothing pending.
abbrev pub showing : Screen → Reader
showing s = record { pending = s; seen = s }

one_report :
    (r : Report) (t : Touch) (start : Screen) (s : Screen)
    → t.default_input_dev ≡ true
    → t.live_flag ≡ true
    → read_events t.events (showing start) ≡ showing s
    → read_events (touchhandler_send_ts_event t r.at_x r.at_y r.pressed).events (showing start)
      ≡ showing (shown r s)
unfolding touchhandler_send_ts_event
one_report r t start s d l h = elim (Bool-cases r.pressed) [
  | inl p ↦
      rw (d, l, p)
        (read-append t.events _ (showing start)
          ∙ ap
              (read_events (abs_x r.at_x ∷ abs_y r.at_y ∷ abs_pressure 1 ∷ btn_touch 1 ∷ sync ∷ []))
              h)
  | inr p ↦
      rw (d, l, p)
        (read-append t.events _ (showing start)
          ∙ ap (read_events (abs_pressure 0 ∷ btn_touch 0 ∷ sync ∷ [])) h)
]

same_device :
    (r : Report) (t : Touch)
    → ((touchhandler_send_ts_event t r.at_x r.at_y r.pressed).default_input_dev
        ≡ t.default_input_dev)
      × ((touchhandler_send_ts_event t r.at_x r.at_y r.pressed).live_flag ≡ t.live_flag)
unfolding touchhandler_send_ts_event
same_device r t = (ground arith, ground arith)

-- On a registered input device, whose readers see the screen `s` and have nothing pending: after any
-- reports they see the place of the last touch (or that of `s`), pressed or not as the last report says
-- (or as `s` does), and have nothing pending.
pub send_reports_lem :
    (rs : List Report) (t : Touch) (start s : Screen)
    → t.default_input_dev ≡ true
    → t.live_flag ≡ true
    → read_events t.events (showing start) ≡ showing s
    → read_events (send_reports rs t).events (showing start) ≡ showing (all_shown rs s)
send_reports_lem [] t start s d l h = h
send_reports_lem (r ∷ rs) t start s d l h =
    let k = same_device r t in
    send_reports_lem rs (touchhandler_send_ts_event t r.at_x r.at_y r.pressed) start (shown r s)
      (k.0 ∙ d) (k.1 ∙ l) (one_report r t start s d l h)

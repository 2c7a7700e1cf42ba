-- ===== src/Usb/Status/Touches.antt =====
-- The touches that the status packets of usbhandlers.c report, as readers of the input device see them.
use rpusbdisp.Common.{
  ℕ, ◌≡◌, refl, ◌∙◌, ap, true, ◌==◌, if◌then◌else◌, List, [], ◌∷◌, arith, Bool-cases, inl, inr,
}
use rpusbdisp.Protocol.{status_type_normal, touch_status_pressed}
use rpusbdisp.Touch.{Touch, touchhandler_send_ts_event}
use rpusbdisp.Touch.Reports.{
  Screen, Report, read_events, send_reports, all_shown, showing, send_reports_lem,
}
use rpusbdisp.Usb.Status.{Poll, le32_at, on_parse_status_packet}

-- A packet that arrives: the buffer is filled and read.
abbrev pub receive : (ℕ → ℕ) → Poll → Poll
receive packet s = on_parse_status_packet (record s { status_in_buffer = packet })

abbrev pub receive_all : List (ℕ → ℕ) → Poll → Poll
receive_all [] s = s
receive_all (m ∷ ms) s = receive_all ms (receive m s)

-- The touch of a packet: a type, the display's status, the touch's, and two numbers of 32 bits.
abbrev pub report_of : (ℕ → ℕ) → Report
report_of m = record {
  at_x = le32_at m 3;
  at_y = le32_at m 7;
  pressed = m 2 == touch_status_pressed;
}

-- Only normal packets report.
abbrev pub reports_of : List (ℕ → ℕ) → List Report
reports_of [] = []
reports_of (m ∷ ms) =
    let rest = reports_of ms in if m 0 == status_type_normal then report_of m ∷ rest else rest

receive-touch :
    (m : ℕ → ℕ) (s : Poll)
    → (receive m s).touch ≡ (
        if m 0 == status_type_normal
        then touchhandler_send_ts_event s.touch
            (report_of m).at_x
            (report_of m).at_y
            (report_of m).pressed
        else s.touch)
unfolding on_parse_status_packet
receive-touch m s = ground arith

pub receive_all-touch :
    (ms : List (ℕ → ℕ)) (s : Poll) → (receive_all ms s).touch ≡ send_reports (reports_of ms) s.touch
receive_all-touch [] s = refl
receive_all-touch (m ∷ ms) s = elim (Bool-cases (m 0 == status_type_normal)) [
  | inl normal ↦
      receive_all-touch ms (receive m s)
      ∙ rw normal (ap (send_reports (reports_of ms)) (receive-touch m s ∙ rw normal))
  | inr other ↦
      receive_all-touch ms (receive m s)
      ∙ rw other (ap (send_reports (reports_of ms)) (receive-touch m s ∙ rw other))
]

-- On a registered input device, whose readers see the screen `start` and have nothing pending: after any
-- status packets they see the place of the last touch that a normal packet reports (or that of `start`),
-- pressed or not as the last normal packet says (or as `start` does), and have nothing pending.
pub receive_all_lem :
    (ms : List (ℕ → ℕ)) (s : Poll) (origin start : Screen)
    → s.touch.default_input_dev ≡ true
    → s.touch.live_flag ≡ true
    → read_events s.touch.events (showing origin) ≡ showing start
    → read_events (receive_all ms s).touch.events (showing origin)
      ≡ showing (all_shown (reports_of ms) start)
receive_all_lem ms s origin start d l h =
    ap (λ (t : Touch). read_events t.events (showing origin)) (receive_all-touch ms s)
    ∙ send_reports_lem (reports_of ms) s.touch origin start d l h

-- ===== src/Windows/Touch/Reports.antt =====
-- What a report of UsbTouchHidUmdf says of the packets that came from the display.
use rpusbdisp.Common.{
  ℕ, ◌+◌, ◌<◌, ◌≡◌, refl, ◌∙◌, ap, true, not, ◌||◌, ◌&&◌, List, [], ◌∷◌, ltb, ◌==◌, if◌then◌else◌,
  arith,
}
use rpusbdisp.Windows.Touch.{
  TouchContact, TouchData, no_contact, InterruptPacket, touch, status, other, active_count,
  usb_interrupt_completion, usb_device_d0_exit, HidTouchInputReport, read_report,
}

pub data Event : Type 0 where
  interrupt : ℕ → InterruptPacket → Event
  power_down : Event

abbrev pub step : Event → TouchData → TouchData
step (interrupt num_bytes packet) d = usb_interrupt_completion num_bytes packet d
step power_down d = usb_device_d0_exit d

abbrev pub run : List Event → TouchData → TouchData
run [] d = d
run (e ∷ es) d = run es (step e d)

-- The last whole packet for the contact `i` since the device was powered down, `c` before all.
abbrev pub latest : ℕ → TouchContact → List Event → TouchContact
latest i c [] = c
latest i c (interrupt n (touch t) ∷ es) =
    latest i (if not (ltb n 9) && (t.contact_id == i) then t else c) es
latest i c (interrupt n status ∷ es) = latest i c es
latest i c (interrupt n other ∷ es) = latest i c es
latest i c (power_down ∷ es) = latest i no_contact es

-- The count is that of the contacts that touch.
pub record IsCounted (d : TouchData) : Type 0 where
  pub count : d.contact_count ≡ active_count d.contacts 2

step-IsCounted : (e : Event) (d : TouchData) → IsCounted d → IsCounted (step e d)
unfolding usb_interrupt_completion usb_device_d0_exit
step-IsCounted (interrupt n (touch t)) d c = record { count = ground (arith, c.count) }
step-IsCounted (interrupt n status) d c = record { count = ground (arith, c.count) }
step-IsCounted (interrupt n other) d c = record { count = ground (arith, c.count) }
step-IsCounted power_down d c = record { count = omega arith }

run-IsCounted : (es : List Event) (d : TouchData) → IsCounted d → IsCounted (run es d)
run-IsCounted [] d c = c
run-IsCounted (e ∷ es) d c = run-IsCounted es (step e d) (step-IsCounted e d c)

run-latest :
    (es : List Event) (d : TouchData) (i : ℕ)
    → i < 2
    → (run es d).contacts i ≡ latest i (d.contacts i) es
unfolding usb_interrupt_completion usb_device_d0_exit
run-latest [] d i h = refl
run-latest (interrupt n (touch t) ∷ es) d i h =
    run-latest es (step (interrupt n (touch t)) d) i h ∙ ap (λ c. latest i c es) (ground arith)
run-latest (interrupt n status ∷ es) d i h =
    run-latest es (step (interrupt n status) d) i h ∙ ap (λ c. latest i c es) (ground arith)
run-latest (interrupt n other ∷ es) d i h =
    run-latest es (step (interrupt n other) d) i h ∙ ap (λ c. latest i c es) (ground arith)
run-latest (power_down ∷ es) d i h = run-latest es (step power_down d) i h

abbrev pub cleared : TouchData
cleared = record { contacts = λ _. no_contact; contact_count = 0 }

abbrev pub touching : TouchContact → ℕ
touching c = if c.tip_switch then 1 else 0

-- The contact that a report is about.
abbrev pub chosen : TouchContact → TouchContact → TouchContact
chosen a b =
    if a.tip_switch then a else if b.tip_switch then (if a.in_range then a else b) else no_contact

-- What a report says of the last packets for the two contacts.
pub record Reported (a b : TouchContact) (r : HidTouchInputReport) : Type 0 where
  pub count : r.reported_count ≡ touching a + touching b
  pub touches : r.contact.tip_switch ≡ (a.tip_switch || (b.tip_switch && not a.in_range))
  pub contact : r.contact ≡ chosen a b

report_of :
    (d : TouchData) (a b : TouchContact)
    → d.contact_count ≡ active_count d.contacts 2
    → d.contacts 0 ≡ a
    → d.contacts 1 ≡ b
    → Reported a b (read_report true d)
unfolding read_report
report_of d a b c e f = record {
  count = ground (arith, c, e, f);
  touches = ground (arith, c, e, f);
  contact = ground (arith, c, e, f);
}

-- From an empty table, after any packets and power-downs, with a transport driver that answers: the
-- report counts the contacts whose last packet touches; it is pressed exactly if the first contact
-- touches, or the second does and the first is not in range; and its contact is the first if that
-- touches, else the first again if the second touches but the first is in range, the second if it is
-- not, and none if no contact touches. With two contacts that touch it is about the first only,
-- with a count of 2.
pub read_report-Reported :
    (es : List Event)
    → Reported (latest 0 no_contact es) (latest 1 no_contact es) (read_report true (run es cleared))
read_report-Reported es =
    report_of (run es cleared) _ _ (run-IsCounted es cleared (record { count = omega arith })).count
      (run-latest es cleared 0 (omega arith)) (run-latest es cleared 1 (omega arith))

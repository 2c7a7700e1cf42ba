-- ===== src/Windows/Touch.antt =====
-- The touches of the Windows drivers: `UsbInterruptCompletion` and the power-down of
-- drivers/UsbTransportUmdf/Device.cpp, `IOCTL_RPUSB_GET_TOUCH_DATA` of Queue.cpp, and
-- `IOCTL_HID_READ_REPORT` of drivers/UsbTouchHidUmdf/Device.cpp. The spin lock makes each one step.
pub mod Reports
use rpusbdisp.Common.{
  ℕ, zero, suc, ◌+◌, Bool, true, false, not, ◌||◌, List, [], ◌∷◌, ltb, ◌==◌, if◌then◌else◌,
}
use rpusbdisp.Common.Memory.{update}

abbrev pub max_touch_contacts : ℕ
max_touch_contacts = 2

-- `rpusb::TouchContact`
pub record TouchContact : Type 0 where
  pub contact_id : ℕ
  pub tip_switch : Bool
  pub in_range : Bool
  pub at_x : ℕ
  pub at_y : ℕ

-- `TouchDataBuffer`
pub record TouchData : Type 0 where
  pub contacts : ℕ → TouchContact
  pub contact_count : ℕ

abbrev pub no_contact : TouchContact
no_contact = record { contact_id = 0; tip_switch = false; in_range = false; at_x = 0; at_y = 0 }

-- `rpusb::InterruptPacket`; a status packet is only logged.
pub data InterruptPacket : Type 0 where
  touch : TouchContact → InterruptPacket
  status : InterruptPacket
  other : InterruptPacket

abbrev pub sizeof_interrupt_packet : ℕ
sizeof_interrupt_packet = 9

-- The loop that counts the contacts below `n` whose `TipSwitch` is set.
abbrev pub active_count : (ℕ → TouchContact) → ℕ → ℕ
active_count contacts zero = 0
active_count contacts (suc i) = active_count contacts i + (if (contacts i).tip_switch then 1 else 0)

abbrev pub store_contact : TouchContact → TouchData → TouchData
store_contact c d =
    let contacts = update d.contacts c.contact_id c in
    if ltb c.contact_id max_touch_contacts
    then record { contacts = contacts; contact_count = active_count contacts max_touch_contacts }
    else d

abbrev pub on_packet : InterruptPacket → TouchData → TouchData
on_packet (touch c) d = store_contact c d
on_packet status d = d
on_packet other d = d

-- `UsbInterruptCompletion`, for the number of bytes that were transferred.
unfoldable pub usb_interrupt_completion : ℕ → InterruptPacket → TouchData → TouchData
usb_interrupt_completion num_bytes packet d =
    if ltb num_bytes sizeof_interrupt_packet then d else on_packet packet d

-- `UsbDeviceD0Exit` to D3
unfoldable pub usb_device_d0_exit : TouchData → TouchData
usb_device_d0_exit d = record { contacts = λ _. no_contact; contact_count = 0 }

-- `HID_TOUCH_INPUT_REPORT`
pub record HidTouchInputReport : Type 0 where
  pub report_id : ℕ
  pub contact : TouchContact
  pub reported_count : ℕ

-- The loop for the first contact that touches or hovers.
abbrev pub first_contact : TouchData → TouchContact
first_contact d =
    let a = d.contacts 0 in
    let b = d.contacts 1 in
    if a.tip_switch || a.in_range then a else if b.tip_switch || b.in_range then b else no_contact

-- `IOCTL_HID_READ_REPORT`, for whether the transport driver answers with its touch data.
unfoldable pub read_report : Bool → TouchData → HidTouchInputReport
read_report answered d =
    if not answered || d.contact_count == 0
    then record { report_id = 1; contact = no_contact; reported_count = 0 }
    else record { report_id = 1; contact = first_contact d; reported_count = d.contact_count }

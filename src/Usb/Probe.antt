-- ===== src/Usb/Probe.antt =====
-- The endpoint scan of `rpusbdisp_probe` of usbhandlers.c.
use rpusbdisp.Common.{
  ℕ, ◌≡◌, refl, ap, ◌≢◌, Bool, not, ◌&&◌, List, [], ◌∷◌, Option, none, some, ◌==◌, if◌then◌else◌,
  arith, All,
}

-- `struct usb_endpoint_descriptor`, as far as it is read, with its wMaxPacketSize converted.
pub record Endpoint : Type 0 where
  pub address : ℕ
  pub is_int_in : Bool
  pub is_bulk_out : Bool
  pub max_packet_size : ℕ

-- What the scan keeps in the device, which `kzalloc` cleared.
pub record Endpoints : Type 0 where
  pub status_in_ep_addr : ℕ
  pub disp_out_ep_addr : ℕ
  pub disp_out_ep_max_size : ℕ

abbrev pub no_endpoints : Endpoints
no_endpoints = record { status_in_ep_addr = 0; disp_out_ep_addr = 0; disp_out_ep_max_size = 0 }

-- The body of the loop.
unfoldable pub check_endpoint : Endpoint → Endpoints → Endpoints
check_endpoint p s =
    let found = s.status_in_ep_addr == 0 && p.is_int_in in
    let s' = if found then record s { status_in_ep_addr = p.address } else s in
    if s'.disp_out_ep_addr == 0 && p.is_bulk_out && not (p.max_packet_size == 0)
    then record s' { disp_out_ep_addr = p.address; disp_out_ep_max_size = p.max_packet_size }
    else s'

unfoldable pub scan_endpoints : List Endpoint → Endpoints → Endpoints
scan_endpoints [] s = s
scan_endpoints (p ∷ ps) s = scan_endpoints ps (check_endpoint p s)

-- The scan, and the test for both endpoints: none is -ENOMEM.
unfoldable pub probe_endpoints : List Endpoint → Option Endpoints
probe_endpoints ps =
    let s = scan_endpoints ps no_endpoints in
    if not (s.status_in_ep_addr == 0) && not (s.disp_out_ep_addr == 0) then some s else none

-- The first endpoint that passes a test.
abbrev pub first : (Endpoint → Bool) → List Endpoint → Option Endpoint
first test [] = none
first test (p ∷ ps) = if test p then some p else first test ps

abbrev pub address_of : Option Endpoint → ℕ
address_of none = 0
address_of (some p) = p.address

abbrev pub size_of : Option Endpoint → ℕ
size_of none = 0
size_of (some p) = p.max_packet_size

abbrev pub is_output : Endpoint → Bool
is_output p = p.is_bulk_out && not (p.max_packet_size == 0)

abbrev pub is_input : Endpoint → Bool
is_input p = p.is_int_in

abbrev pub IsNumbered : Endpoint → Type 0
IsNumbered p = p.address ≢ 0

scan_status :
    (ps : List Endpoint) (s : Endpoints)
    → All IsNumbered ps
    → (scan_endpoints ps s).status_in_ep_addr
      ≡ (if s.status_in_ep_addr == 0 then address_of (first is_input ps) else s.status_in_ep_addr)
unfolding scan_endpoints check_endpoint
scan_status [] s h = ground arith
scan_status (p ∷ ps) s h = ground (arith, scan_status ps (check_endpoint p s) h.1, h.0)

scan_output :
    (ps : List Endpoint) (s : Endpoints)
    → All IsNumbered ps
    → (scan_endpoints ps s).disp_out_ep_addr
      ≡ (if s.disp_out_ep_addr == 0 then address_of (first is_output ps) else s.disp_out_ep_addr)
unfolding scan_endpoints check_endpoint
scan_output [] s h = ground arith
scan_output (p ∷ ps) s h = ground (arith, scan_output ps (check_endpoint p s) h.1, h.0)

blank :
    (p : Endpoint) (s : Endpoints)
    → IsNumbered p
    → (s.disp_out_ep_addr ≡ 0 → s.disp_out_ep_max_size ≡ 0)
    → (check_endpoint p s).disp_out_ep_addr ≡ 0
    → (check_endpoint p s).disp_out_ep_max_size ≡ 0
unfolding check_endpoint
blank p s h k e = ground (arith, h, k)

scan_size :
    (ps : List Endpoint) (s : Endpoints)
    → All IsNumbered ps
    → (s.disp_out_ep_addr ≡ 0 → s.disp_out_ep_max_size ≡ 0)
    → (scan_endpoints ps s).disp_out_ep_max_size
      ≡ (if s.disp_out_ep_addr == 0 then size_of (first is_output ps) else s.disp_out_ep_max_size)
unfolding scan_endpoints check_endpoint
scan_size [] s h k = ground (arith, k)
scan_size (p ∷ ps) s h k =
    ground (arith, scan_size ps (check_endpoint p s) h.1 (blank p s h.0 k), h.0, k)

-- The first interrupt input, and the first bulk output whose packet size is not 0.
abbrev pub first_endpoints : List Endpoint → Endpoints
first_endpoints ps = record {
  status_in_ep_addr = address_of (first is_input ps);
  disp_out_ep_addr = address_of (first is_output ps);
  disp_out_ep_max_size = size_of (first is_output ps);
}

scan_lem :
    (ps : List Endpoint) → All IsNumbered ps → scan_endpoints ps no_endpoints ≡ first_endpoints ps
scan_lem ps h = cc (
  scan_status ps no_endpoints h,
  scan_output ps no_endpoints h,
  scan_size ps no_endpoints h (λ _. refl),
)

-- For endpoints whose addresses are not 0: the scan finds the first interrupt input and the first bulk
-- output with a packet size that is not 0, with that size, and fails exactly if one of them is missing.
pub probe_endpoints_lem :
    (ps : List Endpoint)
    → All IsNumbered ps
    → probe_endpoints ps ≡ (
        if not (address_of (first is_input ps) == 0) && not (address_of (first is_output ps) == 0)
        then some (first_endpoints ps)
        else none)
unfolding probe_endpoints
probe_endpoints_lem ps h =
    ap
      (λ s.
        if not (s.status_in_ep_addr == 0) && not (s.disp_out_ep_addr == 0) then some s else none)
      (scan_lem ps h)

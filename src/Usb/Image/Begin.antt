-- ===== src/Usb/Image/Begin.antt =====
-- `_bitblt_encoder_init` of usbhandlers.c: when it begins, with which tickets, and for how much.
use rpusbdisp.Common.{
  ℕ, suc, ◌+◌, ◌-◌, ◌*◌, ◌/◌, ◌^◌, ◌≤◌, ◌<◌, ◌≡◌, refl, ap, ◌⊎◌, inl, inr, Bool, true, false, not,
  ◌||◌, List, [], ◌∷◌, none, some, drop, take, length, ◌==◌, ltb, if◌then◌else◌, arith, Bool-cases,
  All, length-take,
}
use native.Mathlib.Nat.{mul_assoc}
use rpusbdisp.Common.Int.{ℤ}
use rpusbdisp.Protocol.{max_transfer_tickets_count}
use rpusbdisp.Usb.Device.{Device}
use rpusbdisp.Usb.Tickets.{sell_disp_tickets}
use rpusbdisp.Usb.Bitblt.{
  required_tickets, first_context, sold_context, bitblt_encoder_init, bitblt_encode_command_header,
}
use rpusbdisp.Usb.Bitblt.Capacity.{capacity, mul_step}
use rpusbdisp.Usb.Image.Start.{started}

-- The state in which an image may be sent: the count is the pool's, every ticket in the pool has its
-- full length, and a packet has room for the header of a bitblt and more.
pub record IsUsable (d : Device) : Type 0 where
  pub sized : d.disp_out_ep_max_size < 2 ^ 64
  pub wide : 10 < d.disp_out_ep_max_size
  pub packets : 1 ≤ d.packet_size_factor
  pub counted : d.availiable_count ≡ length d.tickets
  pub full_size :
      All
        (λ t. d.transfer_buffer_length t ≡ d.packet_size_factor * d.disp_out_ep_max_size)
        d.tickets

abbrev pub sold : Device → ℕ → Device
sold d n = record d { availiable_count = d.availiable_count - n; tickets = drop n d.tickets }

-- No tickets are sold and nothing changes, or the first of the pool are.
pub sale_cases :
    (d : Device) (n : ℕ)
    → (sell_disp_tickets d n ≡ (d, none))
      ⊎ (sell_disp_tickets d n ≡ (sold d n, some (take n d.tickets)))
unfolding sell_disp_tickets
sale_cases d n = elim (Bool-cases (not d.is_alive || ((n == 0) || ltb d.availiable_count n))) [
  | inl no_sale ↦ inl (ground arith)
  | inr sale ↦ inr (ground arith)
]

pub data Begins (d : Device) (size : ℕ) (rlemode : Bool) : Type 0 where
  declines : bitblt_encoder_init d size rlemode ≡ (d, none) → Begins d size rlemode
  grants :
      (t : ℕ) (ts : List ℕ)
      → take (required_tickets d size rlemode) d.tickets ≡ t ∷ ts
      → suc (length ts) ≡ required_tickets d size rlemode
      → bitblt_encoder_init d size rlemode
        ≡ (sold d (required_tickets d size rlemode), first_context rlemode (t ∷ ts))
      → Begins d size rlemode

module _ (d : Device) (size : ℕ) (rlemode : Bool) (u : IsUsable d) where
  abbrev n : ℕ
  n = required_tickets d size rlemode

  bundle :
      (ts : List ℕ)
      → take n d.tickets ≡ ts
      → 1 ≤ n
      → n ≤ d.availiable_count
      → bitblt_encoder_init d size rlemode ≡ (sold d n, first_context rlemode ts)
      → Begins d size rlemode
  bundle [] e l h q = absurd (omega (arith, ap length e, length-take n d.tickets, u.counted))
  bundle (t ∷ ts) e l h q =
      grants t ts e (omega (arith, ap length e, length-take n d.tickets, u.counted)) q

  pub sells :
      d.is_alive ≡ true
      → 1 ≤ n
      → n ≤ d.availiable_count
      → sell_disp_tickets d n ≡ (sold d n, some (take n d.tickets))
  unfolding sell_disp_tickets
  sells alive l h = ground arith

  refuses_sale :
      (not d.is_alive || (n == 0 || ltb d.availiable_count n)) ≡ true
      → sell_disp_tickets d n ≡ (d, none)
  unfolding sell_disp_tickets
  refuses_sale h = ground arith

  pub begins : Begins d size rlemode
  unfolding bitblt_encoder_init
  begins = elim (Bool-cases (ltb max_transfer_tickets_count n)) [
    | inl many ↦ declines (rw many)
    | inr few ↦ elim (Bool-cases (not d.is_alive || (n == 0 || ltb d.availiable_count n))) [
      | inl no_sale ↦ declines (rw few (ap (sold_context rlemode) (refuses_sale no_sale)))
      | inr sale ↦
          bundle (take n d.tickets) refl (ground arith) (ground arith) (
            rw few (ap (sold_context rlemode) (sells (ground arith) (ground arith) (ground arith))))
    ]
  ]

-- The least multiple of `b` that is not below `a`.
ceil_div : (a b : ℕ) → 1 ≤ b → a ≤ (a + b - 1) / b * b
ceil_div a b h = grind arith

mul_mono : (x y k : ℕ) → x ≤ y → x * k ≤ y * k
mul_mono x y k h = grind arith

ceil_twice : (a e f : ℕ) → 1 ≤ e → 1 ≤ f → a ≤ ((a + e - 1) / e + f - 1) / f * (f * e)
ceil_twice a e f he hf = omega (arith, ceil_div a e he, scaled, mul_assoc q f e)
  where
    c : ℕ
    c = (a + e - 1) / e

    q : ℕ
    q = (c + f - 1) / f

    scaled : c * e ≤ q * f * e
    scaled = mul_mono c (q * f) e (ceil_div c f hf)

-- With packets of more than ten bytes, and at least one in a ticket: the tickets asked for hold the
-- whole payload of the estimate, the rest of the command header included.
pub required_enough :
    (d : Device) (size : ℕ) (rlemode : Bool)
    → 10 < d.disp_out_ep_max_size
    → 1 ≤ d.packet_size_factor
    → 9 + size + (if rlemode then (size / 2 + 127) / 128 else 0)
      ≤ required_tickets d size rlemode * (d.packet_size_factor * (d.disp_out_ep_max_size - 1))
unfolding required_tickets
required_enough d size true w p =
    ceil_twice (9 + size + (size / 2 + 127) / 128) (d.disp_out_ep_max_size - 1) d.packet_size_factor
      (omega arith) p
required_enough d size false w p =
    omega (
      arith,
      ceil_twice (9 + size) (d.disp_out_ep_max_size - 1) d.packet_size_factor (omega arith) p,
    )

packets_of :
    (p l m : ℕ)
    → 10 < m
    → 1 ≤ p
    → m - 10 + (p - 1 - 0 + p * l) * (m - 1) + 9 ≡ suc l * (p * (m - 1))
packets_of p l m w h = omega (
  arith,
  mul_step (p + p * l) (p - 1 - 0 + p * l) (m - 1) (omega arith),
  mul_assoc (suc l) p (m - 1),
  ap (λ (t : ℕ). t * (m - 1)) (one_more p l),
)
  where
    one_more : (p l : ℕ) → p + p * l ≡ suc l * p
    one_more p l = omega arith

-- What the bundle takes behind the command header.
pub started-capacity :
    (rlemode : Bool) (d : Device) (t : ℕ) (ts : List ℕ) (x y right bottom : ℤ) (clear_dirty : Bool)
    → 10 < d.disp_out_ep_max_size
    → 1 ≤ d.packet_size_factor
    → capacity (started rlemode d t ts x y right bottom clear_dirty) + 9
      ≡ suc (length ts) * (d.packet_size_factor * (d.disp_out_ep_max_size - 1))
unfolding capacity bitblt_encode_command_header
started-capacity rlemode d t ts x y right bottom clear_dirty w p =
    packets_of d.packet_size_factor (length ts) d.disp_out_ep_max_size w p

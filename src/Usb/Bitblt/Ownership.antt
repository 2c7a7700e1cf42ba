-- ===== src/Usb/Bitblt/Ownership.antt =====
-- No ticket is lost or made up by the encoder of usbhandlers.c, but for those that a refused last URB
-- leaves behind.
use rpusbdisp.Common.{
  ℕ, ◌+◌, ◌≡◌, refl, ◌∙◌, ap, inl, inr, List, [], ◌∷◌, drop, arith, Bool-cases, count, count-append,
  ◌==◌,
}
use rpusbdisp.Common.Res.{Res, ok, abort, bug, stuck, ◌>>=◌}
use rpusbdisp.Usb.Device.{Device, Submit, take_urb, refuse_urb}
use rpusbdisp.Usb.Tickets.{return_disp_tickets}
use rpusbdisp.Usb.Tickets.Ownership.{owned, finished}
use rpusbdisp.Usb.Bitblt.{Encoder, copy, packet_full, return_all, bitblt_encoder_cleanup}
use rpusbdisp.Usb.Bitblt.Bytes.{put_byte, put_bytes}
use rpusbdisp.Usb.Bitblt.Full.{
  switched, refused_at, Full, inner, switches, exhausts, refuses, full_cases,
}
use rpusbdisp.Usb.Bitblt.Framing.{IsFramed}
use rpusbdisp.Usb.Bitblt.Framing.Growth.{put_byte-Grows}
use rpusbdisp.Usb.Bitblt.Flush.{last_urb, flushed, flush_aborted}

-- How often a ticket is in the pool, on the bus, or in the bundle from the current node on.
abbrev pub holds : ℕ → Encoder → ℕ
holds t e = owned t e.device + count t e.current_node

-- The state that a call leaves, whether it succeeds or not, holds the tickets that it held.
abbrev pub Keeps : (ℕ → ℕ) → Res Encoder (Unit {0}) → Type 0
Keeps before (ok _ e) = (t : ℕ) → holds t e ≡ before t
Keeps before (abort e) = (t : ℕ) → holds t e ≡ before t
Keeps before bug = Unit
Keeps before stuck = Unit

count-node :
    (e : Encoder)
    → e.current_node ≡ e.ticket ∷ drop 1 e.current_node
    → (t : ℕ) → count t e.current_node ≡ count t (e.ticket ∷ []) + count t (drop 1 e.current_node)
count-node e n t = ap (count t) n ∙ omega arith

switched-holds :
    (e : Encoder) (t : ℕ)
    → e.current_node ≡ e.ticket ∷ drop 1 e.current_node
    → (u : ℕ) → holds u (switched e t) ≡ holds u e
switched-holds e t f u = omega (arith, count-append u e.in_flight (e.ticket ∷ []), count-node e f u)

refused-holds :
    (e : Encoder) (status : ℕ)
    → e.current_node ≡ e.ticket ∷ drop 1 e.current_node
    → (u : ℕ) → holds u (refused_at e status) ≡ holds u e
refused-holds e status f u =
    let k = finished (refuse_urb e.device e.ticket status) e.ticket in
    omega (
      arith,
      ap (count u) k.pool,
      ap (count u) k.bus,
      count-append u e.tickets (e.ticket ∷ []),
      count-node e f u,
    )

module _ (usb_submit_urb : ℕ → Submit) where
  full_Keeps :
      (b : ℕ) (e : Encoder)
      → IsFramed e
      → Full usb_submit_urb (copy (b ∷ []) e)
      → Keeps (λ t. holds t e) (packet_full usb_submit_urb (copy (b ∷ []) e))
  full_Keeps b e f (inner l eq) = rw eq (λ t. refl)
  full_Keeps b e f (switches t ts l n a eq) = rw eq (λ u. switched-holds e t f.node u)
  full_Keeps b e f (exhausts l n a eq) = rw eq tt
  full_Keeps b e f (refuses status l a eq) =
      rw eq (λ u. refused-holds (copy (b ∷ []) e) status f.node u)

  put_byte-Keeps :
      (b : ℕ) (e : Encoder) → IsFramed e → Keeps (λ t. holds t e) (put_byte usb_submit_urb b e)
  unfolding put_byte
  put_byte-Keeps b e f = elim (Bool-cases (e.encoded_pos + 1 == e.disp_out_ep_max_size)) [
    | inr less ↦ rw less (λ t. refl)
    | inl full ↦ rw full (full_Keeps b e f (full_cases usb_submit_urb _))
  ]

  then_Keeps :
      (before : ℕ → ℕ) (bytes : List ℕ) (r : Res Encoder (Unit {0}))
      → Keeps before r
      → ((e : Encoder) → r ≡ ok tt e → Keeps (λ t. holds t e) (put_bytes usb_submit_urb bytes e))
      → Keeps before (r >>= λ _ e. put_bytes usb_submit_urb bytes e)
  then_Keeps before bytes (ok tt e) s k = more (put_bytes usb_submit_urb bytes e) (k e refl)
    where
      more : (r : Res Encoder (Unit {0})) → Keeps (λ t. holds t e) r → Keeps before r
      more (ok tt e') h = λ t. h t ∙ s t
      more (abort e') h = λ t. h t ∙ s t
      more bug h = tt
      more stuck h = tt
  then_Keeps before bytes (abort e) s k = s
  then_Keeps before bytes bug s k = tt
  then_Keeps before bytes stuck s k = tt

  pub put_bytes-Keeps :
      (bytes : List ℕ) (e : Encoder)
      → IsFramed e
      → Keeps (λ t. holds t e) (put_bytes usb_submit_urb bytes e)
  unfolding put_bytes
  put_bytes-Keeps [] e f = λ t. refl
  put_bytes-Keeps (b ∷ bytes) e f =
      then_Keeps (λ t. holds t e) bytes (put_byte usb_submit_urb b e) (put_byte-Keeps b e f)
        (λ e' h. put_bytes-Keeps bytes e' (put_byte-Grows usb_submit_urb b e e' f h).framed')

return_all-owned :
    (ts : List ℕ) (d : Device) (t : ℕ) → owned t (return_all ts d) ≡ owned t d + count t ts
unfolding return_all return_disp_tickets
return_all-owned [] d t = omega arith
return_all-owned (u ∷ ts) d t =
    omega
      (arith, return_all-owned ts (return_disp_tickets d u).0 t, count-append t d.tickets (u ∷ []))

-- The cleanup returns the rest of the bundle.
pub cleanup-owned : (e : Encoder) (t : ℕ) → owned t (bitblt_encoder_cleanup e).device ≡ holds t e
unfolding bitblt_encoder_cleanup
cleanup-owned e t = return_all-owned e.current_node e.device t

-- A last URB that is taken leaves every ticket of the bundle on the bus or in the pool.
pub flushed-owned : (e : Encoder) (t : ℕ) → IsFramed e → owned t (flushed e).device ≡ holds t e
flushed-owned e t f =
    cleanup-owned (record (last_urb e) { device = take_urb (last_urb e).device e.ticket }) t
    ∙ omega (arith, count-append t e.in_flight (e.ticket ∷ []), count-node e f.node t)

-- A last URB that is refused is back in the pool, and the tickets behind it are nowhere.
pub flush_aborted-owned :
    (e : Encoder) (status t : ℕ)
    → IsFramed e
    → owned t (flush_aborted e status).device + count t (drop 1 e.current_node) ≡ holds t e
flush_aborted-owned e status t f =
    let k = finished (refuse_urb (last_urb e).device e.ticket status) e.ticket in
    omega (
      arith,
      ap (count t) k.pool,
      ap (count t) k.bus,
      count-append t e.tickets (e.ticket ∷ []),
      count-node e f.node t,
    )

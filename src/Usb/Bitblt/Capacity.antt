-- ===== src/Usb/Bitblt/Capacity.antt =====
-- How many payload bytes the bundle of the encoder of usbhandlers.c still takes, and when
-- `_bitblt_encode_n_transfer_data` runs into its `BUG_ON`.
use rpusbdisp.Common.{
  ℕ, suc, ◌+◌, ◌-◌, ◌*◌, ◌≤◌, ◌<◌, ◌≡◌, refl, ◌∙◌, sym, subst, inl, inr, List, [], ◌∷◌, drop,
  length, ◌==◌, arith, Bool-cases, ==→eq, ==→ne,
}
use rpusbdisp.Common.Res.{Res, ok, abort, bug, stuck, ◌>>=◌}
use rpusbdisp.Usb.Device.{Submit}
use rpusbdisp.Usb.Bitblt.{Encoder, copy, packet_header, packet_full}
use rpusbdisp.Usb.Bitblt.Bytes.{put_byte, put_bytes}
use rpusbdisp.Usb.Bitblt.Full.{
  moved, switched, Full, inner, switches, exhausts, refuses, full_cases,
}
use rpusbdisp.Usb.Bitblt.Framing.{IsFramed}
use rpusbdisp.Usb.Bitblt.Framing.Growth.{copy-Grows, put_byte-Grows}

-- The packets after the current one.
abbrev pub later_packets : Encoder → ℕ
later_packets e =
    e.packet_size_factor - 1 - e.packet_pos + e.packet_size_factor * length (drop 1 e.current_node)

-- The payload bytes that the bundle takes from here on.
unfoldable pub capacity : Encoder → ℕ
capacity e = e.disp_out_ep_max_size - e.encoded_pos + later_packets e * (e.disp_out_ep_max_size - 1)

pub mul_step : (a a' k : ℕ) → a ≡ a' + 1 → a * k ≡ a' * k + k
mul_step a a' k h = rw h (omega arith)

mul_nothing : (a k : ℕ) → a ≡ 0 → a * k ≡ 0
mul_nothing a k h = rw h (omega arith)

module _ (e : Encoder) (b : ℕ) (f : IsFramed e) where
  copy-capacity :
      e.encoded_pos + 1 < e.disp_out_ep_max_size → capacity e ≡ capacity (copy (b ∷ []) e) + 1
  unfolding capacity
  copy-capacity h = omega arith

  moved-capacity :
      e.encoded_pos + 1 ≡ e.disp_out_ep_max_size
      → e.packet_pos + 1 < e.packet_size_factor
      → capacity e ≡ capacity (packet_header (moved (copy (b ∷ []) e))) + 1
  unfolding capacity
  moved-capacity h l = omega (
    arith,
    mul_step (later_packets e) (later_packets (moved e)) (e.disp_out_ep_max_size - 1) (omega arith),
  )

  switched-capacity :
      (t : ℕ) (ts : List ℕ)
      → e.encoded_pos + 1 ≡ e.disp_out_ep_max_size
      → e.packet_size_factor ≤ e.packet_pos + 1
      → drop 1 e.current_node ≡ t ∷ ts
      → capacity e ≡ capacity (packet_header (switched (copy (b ∷ []) e) t)) + 1
  unfolding capacity
  switched-capacity t ts h l n = omega (
    arith,
    mul_step (later_packets e) (later_packets (switched e t)) (e.disp_out_ep_max_size - 1) fewer,
  )
    where
      fewer : later_packets e ≡ later_packets (switched e t) + 1
      fewer = rw n (omega (arith, f.within))

  exhausted-capacity :
      e.encoded_pos + 1 ≡ e.disp_out_ep_max_size
      → e.packet_size_factor ≤ e.packet_pos + 1
      → drop 1 e.current_node ≡ []
      → capacity e ≡ 1
  unfolding capacity
  exhausted-capacity h l n =
      omega (arith, mul_nothing (later_packets e) (e.disp_out_ep_max_size - 1) (rw n (omega arith)))

-- What `n` payload bytes did to a bundle that took `c`: on success it takes `n` less; `BUG_ON` is met
-- only where the bundle takes no more than `n`; the loop does not run out of fuel.
abbrev pub Spends : ℕ → ℕ → Res Encoder (Unit {0}) → Type 0
Spends c n (ok _ e) = IsFramed e × (c ≡ capacity e + n) × (1 ≤ capacity e)
Spends c n (abort e) = Unit
Spends c n bug = c ≤ n
Spends c n stuck = ⊥

framed-capacity : (e : Encoder) → IsFramed e → 1 ≤ capacity e
unfolding capacity
framed-capacity e f = omega (arith, f.packing.room)

module _ (usb_submit_urb : ℕ → Submit) where
  full_Spends :
      (b : ℕ) (e : Encoder)
      → IsFramed e
      → e.encoded_pos + 1 ≡ e.disp_out_ep_max_size
      → (r : Res Encoder (Unit {0})) → ((e' : Encoder) → r ≡ ok tt e' → IsFramed e')
      → packet_full usb_submit_urb (copy (b ∷ []) e) ≡ r
      → Full usb_submit_urb (copy (b ∷ []) e)
      → Spends (capacity e) 1 r
  full_Spends b e f q r g h (inner l eq) =
      let s : ok tt (packet_header (moved (copy (b ∷ []) e))) ≡ r = sym eq ∙ h in
      subst (Spends (capacity e) 1) s
        (g _ (sym s), moved-capacity e b f q l, framed-capacity _ (g _ (sym s)))
  full_Spends b e f q r g h (switches t ts l n a eq) =
      let s : ok tt (packet_header (switched (copy (b ∷ []) e) t)) ≡ r = sym eq ∙ h in
      subst (Spends (capacity e) 1) s
        (g _ (sym s), switched-capacity e b f t ts q l n, framed-capacity _ (g _ (sym s)))
  full_Spends b e f q r g h (exhausts l n a eq) =
      subst (Spends (capacity e) 1) (sym eq ∙ h) (omega (arith, exhausted-capacity e b f q l n))
  full_Spends b e f q r g h (refuses status l a eq) = subst (Spends (capacity e) 1) (sym eq ∙ h) tt

  put_byte-Spends :
      (b : ℕ) (e : Encoder) → IsFramed e → Spends (capacity e) 1 (put_byte usb_submit_urb b e)
  unfolding put_byte
  put_byte-Spends b e f = elim (Bool-cases (e.encoded_pos + 1 == e.disp_out_ep_max_size)) [
    | inr less ↦
        let g = copy-Grows e b f (omega (arith, ==→ne _ _ less, f.packing.room)) in
        rw less (
          g.framed',
          copy-capacity e b f (omega (arith, ==→ne _ _ less, f.packing.room)),
          framed-capacity _ g.framed',
        )
    | inl full ↦ rw full (
        full_Spends b e f (==→eq _ _ full) _
          (λ e' h. (put_byte-Grows usb_submit_urb b e e' f (rw (full, put_byte) h)).framed') refl
          (full_cases usb_submit_urb _))
  ]

  then_Spends :
      (c n : ℕ) (bytes : List ℕ) (r : Res Encoder (Unit {0}))
      → Spends c 1 r
      → ((e : Encoder) → IsFramed e → Spends (capacity e) n (put_bytes usb_submit_urb bytes e))
      → Spends c (suc n) (r >>= λ _ e. put_bytes usb_submit_urb bytes e)
  then_Spends c n bytes (ok tt e) (f, h, l) k = more (put_bytes usb_submit_urb bytes e) (k e f)
    where
      more : (r : Res Encoder (Unit {0})) → Spends (capacity e) n r → Spends c (suc n) r
      more (ok tt e') (f', h', l') = (f', omega arith, l')
      more (abort e') s = tt
      more bug s = omega arith
      more stuck s = s
  then_Spends c n bytes (abort e) s k = tt
  then_Spends c n bytes bug s k = omega arith
  then_Spends c n bytes stuck s k = s

  pub put_bytes-Spends :
      (bytes : List ℕ) (e : Encoder)
      → IsFramed e
      → Spends (capacity e) (length bytes) (put_bytes usb_submit_urb bytes e)
  unfolding put_bytes
  put_bytes-Spends [] e f = (f, omega arith, framed-capacity e f)
  put_bytes-Spends (b ∷ bytes) e f =
      then_Spends (capacity e) (length bytes) bytes (put_byte usb_submit_urb b e)
        (put_byte-Spends b e f) (λ e' f'. put_bytes-Spends bytes e' f')

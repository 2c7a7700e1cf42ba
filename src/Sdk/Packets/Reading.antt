-- ===== src/Sdk/Packets/Reading.antt =====
-- The transfer buffer of rpusbdisp.cc, read packet by packet as the display reads it.
use native.Mathlib.Nat.{add-div_right, div-mul-le_self, lt-div-mul-add}
use rpusbdisp.Common.{
  ℕ, zero, suc, ◌+◌, ◌-◌, ◌*◌, ◌/◌, ◌%◌, ◌^◌, ◌≤◌, ◌<◌, ◌≡◌, refl, ◌∙◌, sym, ap, subst, Bool, List,
  [], ◌∷◌, ◌++◌, length, length-append, ltb, lt→ltb, le→ltb, ne→==, if◌then◌else◌, if_no, if_yes,
  arith,
}
use rpusbdisp.Common.Memory.{write_at, read, length-read, read-write_at}
use rpusbdisp.Usb.Bitblt.Packets.{payload, place, payload-append, place-append}
use rpusbdisp.Sdk.Packets.{
  effective_size, packet_count, overall_buffer, header_byte, put_packet, put_packets,
  transfer_bytes,
}
use rpusbdisp.Sdk.Packets.Places.{
  inside_payload, inside_headers, whole_place, headers, headers-append, mul_next, mul_suc,
  packet_bytes, packet_headers, read_split, read_tail,
}

-- `q` bytes of payload fit into a packet.
module _ (dirty : Bool) (q total : ℕ) (overall garbage : ℕ → ℕ) (lo : 1 ≤ q)
    (hi : q + 1 < 2 ^ 64) where
  abbrev after : ℕ → ℕ → ℕ
  after n = put_packets dirty (q + 1) total overall n garbage

  effective_lem : effective_size (q + 1) ≡ q
  effective_lem = omega arith

  -- A packet that takes `s` bytes.
  put_lem :
      (n s : ℕ)
      → (if ltb (total - (n * q + 1)) q then total - (n * q + 1) else q) ≡ s
      → read (n * (q + 1) + (1 + s)) (after (suc n))
        ≡ read (n * (q + 1)) (after n)
          ++ header_byte dirty (overall 0) n ∷ read s (λ i. overall (n * q + 1 + i))
  unfolding put_packets put_packet
  put_lem n s e =
      rw (effective_lem, e)
        (packet_bytes (n * (q + 1)) s (header_byte dirty (overall 0) n)
          (read s (λ i. overall (n * q + 1 + i))) (after n) (length-read s _))

  start_lem :
      (h : ℕ) (bs : List ℕ)
      → length bs ≤ q
      → (payload (q + 1) 0 (h ∷ bs) ≡ bs) × (headers (q + 1) 0 (h ∷ bs) ≡ h ∷ [])
  unfolding payload headers
  start_lem h bs l = rw (ne→== 1 (q + 1) (omega arith)) (
    inside_payload (q + 1) 1 bs (omega arith) (omega arith),
    ap (◌∷◌ h) (inside_headers (q + 1) 1 bs (omega arith) (omega arith)),
  )

  start_place : (h : ℕ) (bs : List ℕ) → length bs ≡ q → place (q + 1) 0 (h ∷ bs) ≡ 0
  unfolding place
  start_place h [] l = absurd (omega arith)
  start_place h (b ∷ bs) l =
      rw (ne→== 1 (q + 1) (omega arith)) (whole_place (q + 1) 1 b bs (omega arith) (omega arith))

  -- What the first `n` packets hold, with `s` bytes of the payload.
  record Holds (n s : ℕ) (bytes : List ℕ) : Type 0 where
    data_lem : payload (q + 1) 0 bytes ≡ read s (λ i. overall (1 + i))
    headers_lem : headers (q + 1) 0 bytes ≡ packet_headers dirty (overall 0) n

  behind :
      (n s : ℕ) (before : List ℕ)
      → Holds n (n * q) before
      → place (q + 1) 0 before ≡ 0
      → s ≤ q
      → Holds
          (suc n)
          (n * q + s)
          (before ++ header_byte dirty (overall 0) n ∷ read s (λ i. overall (n * q + 1 + i)))
  behind n s before w z l =
      let bs = read s (λ i. overall (n * q + 1 + i)) in
      let h = header_byte dirty (overall 0) n in
      let st = start_lem h bs (omega (arith, length-read s (λ i. overall (n * q + 1 + i)))) in
      record {
        data_lem =
            payload-append (q + 1) 0 before (h ∷ bs)
            ∙ rw (z, w.data_lem, st.0) (sym (read_tail (n * q) s overall));
        headers_lem = headers-append (q + 1) 0 before (h ∷ bs) ∙ rw (z, w.headers_lem, st.1);
      }

  -- As long as the packets are full.
  all_whole :
      (n : ℕ)
      → n * q + 1 ≤ total
      → Holds n (n * q) (read (n * (q + 1)) (after n))
        × (place (q + 1) 0 (read (n * (q + 1)) (after n)) ≡ 0)
  unfolding read payload headers place
  all_whole zero h =
      let z : 0 * (q + 1) ≡ 0 = omega arith in
      let y : 0 * q ≡ 0 = omega arith in
      rw (z, y) (record { data_lem = refl; headers_lem = refl }, refl)
  all_whole (suc n) h =
      let ih = all_whole n (omega (arith, mul_suc n q)) in
      let e : n * (q + 1) + (1 + q) ≡ suc n * (q + 1) = omega (arith, mul_suc n (q + 1)) in
      let f : n * q + q ≡ suc n * q = omega (arith, mul_suc n q) in
      let bytes =
        put_lem n q
          (if_no (ltb (total - (n * q + 1)) q) _ _ (le→ltb _ _ (omega (arith, mul_suc n q)))) in
      let b = behind n q (read (n * (q + 1)) (after n)) ih.0 ih.1 (omega arith) in
      let written = ap (λ k. read k (after (suc n))) (sym e) ∙ bytes in
      rw (written, sym f)
        (
          b,
          place-append (q + 1) 0 (read (n * (q + 1)) (after n)) _
              ∙ rw ih.1 (
                  start_place (header_byte dirty (overall 0) n)
                    (read q (λ i. overall (n * q + 1 + i)))
                    (length-read q (λ i. overall (n * q + 1 + i)))),
        )

  -- The last packet, which takes what is left.
  last_packet :
      (n s : ℕ)
      → n * q + s + 1 ≡ total
      → s < q
      → Holds (suc n) (n * q + s) (read (total + suc n - 1) (after (suc n)))
  last_packet n s e l =
      let w = all_whole n (omega arith) in
      let len : total + suc n - 1 ≡ n * (q + 1) + (1 + s) = omega (arith, mul_next n q) in
      let left : total - (n * q + 1) ≡ s = omega arith in
      let bytes =
        put_lem n s (if_yes (ltb (total - (n * q + 1)) q) _ _ (lt→ltb _ _ (omega arith)) ∙ left) in
      let written = ap (λ k. read k (after (suc n))) len ∙ bytes in
      rw written (behind n s (read (n * (q + 1)) (after n)) w.0 w.1 (omega arith))

module _ (garbage : ℕ → ℕ) (command : ℕ) (fields rest : List ℕ) where
  abbrev overall : ℕ → ℕ
  overall = overall_buffer garbage (command ∷ fields) rest

  overall_lem :
      overall 0 ∷ read (length fields + length rest) (λ i. overall (1 + i))
      ≡ command ∷ (fields ++ rest)
  unfolding read
  overall_lem =
      sym (read_split 1 (length fields + length rest) overall)
      ∙ read-write_at (suc (length fields)) (1 + (length fields + length rest)) rest
          (write_at 0 (command ∷ fields) garbage) (omega arith)
      ∙ ap (λ v. v ++ rest)
          (read-write_at 0 (suc (length fields)) (command ∷ fields) garbage (omega arith))

-- What the display reads from the bytes of a transfer: the payload of the packets, and their headers.
pub record IsPacketed (dirty : Bool) (max command : ℕ) (content bytes : List ℕ) : Type 0 where
  pub carries : payload max 0 bytes ≡ content
  pub marked : headers max 0 bytes ≡ packet_headers dirty command (length content / (max - 1) + 1)

packet_count_lem :
    (q t : ℕ) → 1 ≤ q → t + (q + 1) < 2 ^ 64 → packet_count (q + 1) (suc t) ≡ suc (t / q)
packet_count_lem q t lo hi =
    let e : effective_size (q + 1) ≡ q = omega arith in
    let f : (suc t - 1 + (q + 1) + 2 ^ 64 - 1) % 2 ^ 64 ≡ t + q = omega arith in
    ap (λ a. a / effective_size (q + 1)) f
    ∙ ap (λ b. (t + q) / b) e
    ∙ add-div_right t lo
    ∙ omega arith

module _ (garbage transfer_garbage : ℕ → ℕ) (dirty : Bool) (q command : ℕ) (fields rest : List ℕ)
    (lo : 1 ≤ q) (hi : length fields + length rest + (q + 1) < 2 ^ 64) where
  abbrev t : ℕ
  t = length fields + length rest

  transfer_lem :
      IsPacketed dirty
        (q + 1)
        command
        (fields ++ rest)
        (transfer_bytes garbage transfer_garbage dirty (q + 1) (command ∷ fields) rest)
  unfolding transfer_bytes
  transfer_lem =
      let n = t / q in
      let below : n * q ≤ t = div-mul-le_self t q in
      let above : t < n * q + q = lt-div-mul-add lo in
      let s = t - n * q in
      let o = overall garbage command fields rest in
      let h =
        last_packet dirty q (suc t) o transfer_garbage lo (omega arith) n s (omega arith)
          (omega arith) in
      let k = overall_lem garbage command fields rest in
      let c : o 0 ≡ command = cc k in
      let r : read t (λ i. o (1 + i)) ≡ fields ++ rest = cc k in
      let total : length (command ∷ fields) + length rest ≡ suc t = omega arith in
      let written =
        ap
          (λ v.
            read (v + packet_count (q + 1) v - 1)
              (put_packets dirty (q + 1) v o (packet_count (q + 1) v) transfer_garbage))
          total
        ∙ ap (λ v. read (suc t + v - 1) (put_packets dirty (q + 1) (suc t) o v transfer_garbage))
            (packet_count_lem q t lo hi) in
      let all : n * q + s ≡ t = omega arith in
      let less : q + 1 - 1 ≡ q = omega arith in
      let count : suc n ≡ n + 1 = omega arith in
      record {
        carries =
            ap (payload (q + 1) 0) written ∙ h.data_lem ∙ ap (λ v. read v (λ i. o (1 + i))) all ∙ r;
        marked =
            ap (headers (q + 1) 0) written
            ∙ h.headers_lem
            ∙ ap (λ v. packet_headers dirty v (suc n)) c
            ∙ ap (packet_headers dirty command) count
            ∙ rw (length-append fields rest, less);
      }

-- For packets of at least two bytes, and sizes that do not wrap around: whatever the memory held, the
-- transfer buffer is packets whose payload is that of the command with what follows it, and all of
-- whose headers are the command, the first with its flags.
pub transfer_bytes-IsPacketed :
    (garbage transfer_garbage : ℕ → ℕ) (dirty : Bool) (max command : ℕ) (fields rest : List ℕ)
    → 2 ≤ max
    → length fields + length rest + max < 2 ^ 64
    → IsPacketed dirty max command
        (fields ++ rest)
        (transfer_bytes garbage transfer_garbage dirty max (command ∷ fields) rest)
transfer_bytes-IsPacketed garbage transfer_garbage dirty max command fields rest lo hi =
    let m : max - 1 + 1 ≡ max = omega arith in
    subst
      (λ v.
        IsPacketed dirty v command (fields ++ rest)
          (transfer_bytes garbage transfer_garbage dirty v (command ∷ fields) rest))
      m
      (transfer_lem garbage transfer_garbage dirty (max - 1) command fields rest (omega arith)
        (omega arith))

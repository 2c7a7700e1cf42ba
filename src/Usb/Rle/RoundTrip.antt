-- ===== src/Usb/Rle/RoundTrip.antt =====
-- What a flush of the encoder of usbhandlers.c writes is read back as the pixels of its open section.
pub mod Encoding
use rpusbdisp.Common.{
  ℕ, suc, ◌+◌, ◌-◌, ◌%◌, ◌≤◌, ◌≡◌, refl, ap, sym, subst, inl, inr, append-nil, append_assoc, true,
  false, List, [], ◌∷◌, ◌++◌, ◌==◌, if◌then◌else◌, arith, flat_map, replicate, replicate_snoc, All,
  All-left, All-right, All-append, Bool-cases, ==→eq, ==→ne, ne→==,
}
use rpusbdisp.Common.Bits.{low_bits, set_top_bit}
use rpusbdisp.Common.Memory.{read, length-read, read-update_snoc}
use rpusbdisp.Protocol.{le16}
use rpusbdisp.Usb.Rle.{Rle, section_header, section_bytes, unit_section}
use rpusbdisp.Usb.Rle.Decode.{
  IsPixel, Reads, Reads-nil, Reads-append, plain_section, common_section,
}
use rpusbdisp.Usb.Rle.Sections.{
  IsOpen, flush_bytes, flush_next, shrunk, common_of, appended, Branch, breaks, overflows, repeats,
  forms, fills, joins, branch, step_bytes, step_next, all_bytes, all_next, step_next-IsOpen,
}

-- The pixels of the open section.
unfoldable pub pending : Rle → List ℕ
pending r =
    if r.is_common_section
    then replicate r.section_size (r.section_data 0)
    else read r.section_size r.section_data

flush_empty : (r : Rle) → (r.section_size == 0) ≡ true → flush_bytes r ≡ []
unfolding flush_bytes
flush_empty r z = rw z

header_value :
    (r : Rle)
    → 1 ≤ r.section_size
    → r.section_size ≤ 128
    → section_header r
      ≡ (if r.is_common_section then r.section_size - 1 + 128 else r.section_size - 1)
unfolding section_header
header_value r lo hi = elim (Bool-cases r.is_common_section) [
  | inl c ↦
      simp (c, low_bits (r.section_size - 1) (omega arith))
        (let e : (r.section_size - 1) % 128 ≡ r.section_size - 1 = omega arith in
          rw e (set_top_bit _ (omega arith)))
  | inr c ↦ simp (c, low_bits (r.section_size - 1) (omega arith)) (omega arith)
]

pending_plain :
    (r : Rle) → r.is_common_section ≡ false → pending r ≡ read r.section_size r.section_data
unfolding pending
pending_plain r c = simp c

pending_common :
    (r : Rle) → r.is_common_section ≡ true → pending r ≡ replicate r.section_size (r.section_data 0)
unfolding pending
pending_common r c = simp c

bytes_plain :
    (r : Rle)
    → r.is_common_section ≡ false
    → (r.section_size == 0) ≡ false
    → r.section_size ≤ 128
    → flush_bytes r ≡ (r.section_size - 1) ∷ flat_map le16 (read r.section_size r.section_data)
unfolding flush_bytes section_bytes
bytes_plain r c z h = simp (z, header_value r (omega (arith, ==→ne _ _ z)) h) (simp c)

bytes_common :
    (r : Rle)
    → r.is_common_section ≡ true
    → 1 ≤ r.section_size
    → r.section_size ≤ 128
    → flush_bytes r ≡ (r.section_size - 1 + 128) ∷ (le16 (r.section_data 0) ++ [])
unfolding flush_bytes section_bytes read
bytes_common r c l h = simp (ne→== r.section_size 0 (omega arith), header_value r l h) (simp c)

flush_plain :
    (r : Rle)
    → r.is_common_section ≡ false
    → r.section_size ≤ 128
    → All IsPixel (pending r)
    → Reads (flush_bytes r) (pending r)
flush_plain r c h a = elim (Bool-cases (r.section_size == 0)) [
  | inl z ↦ rw (flush_empty r z, pending_plain r c, ==→eq _ _ z) (unfold read in Reads-nil)
  | inr z ↦
      rw (bytes_plain r c z h, pending_plain r c)
        (plain_section _ _ (omega (arith, ==→ne _ _ z))
          (omega (arith, length-read r.section_size r.section_data, ==→ne _ _ z))
          (rw (pending_plain r c) at a))
]

flush_common :
    (r : Rle)
    → r.is_common_section ≡ true
    → 1 ≤ r.section_size
    → r.section_size ≤ 128
    → All IsPixel (pending r)
    → Reads (flush_bytes r) (pending r)
flush_common r c l h a =
    let e : r.section_size ≡ suc (r.section_size - 1) = omega arith in
    let b : All IsPixel (replicate (suc (r.section_size - 1)) (r.section_data 0)) =
      rw (pending_common r c, e) at a in
    rw (bytes_common r c l h, pending_common r c)
      (subst
        (λ n.
          Reads ((r.section_size - 1 + 128) ∷ (le16 (r.section_data 0) ++ []))
            (replicate n (r.section_data 0)))
        (sym e) (common_section (r.section_size - 1) (r.section_data 0) b.0))

-- A flush writes the open section, whichever it is.
pub flush_Reads : (r : Rle) → IsOpen r → All IsPixel (pending r) → Reads (flush_bytes r) (pending r)
flush_Reads r o a = elim (Bool-cases r.is_common_section) [
  | inl c ↦ flush_common r c (omega (arith, o.repeated c)) o.limited a
  | inr c ↦ flush_plain r c o.limited a
]

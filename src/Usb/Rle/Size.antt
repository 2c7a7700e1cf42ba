-- ===== src/Usb/Rle/Size.antt =====
-- How many bytes the encoder of usbhandlers.c hands over at most, for the worst case that
-- `_bitblt_encoder_init` reckons with.
use rpusbdisp.Common.{
  ℕ, ◌+◌, ◌-◌, ◌*◌, ◌/◌, ◌≤◌, ◌≡◌, refl, inl, inr, false, List, [], ◌∷◌, ◌++◌, ◌==◌, if◌then◌else◌,
  arith, length, length-append, flat_map, Bool-cases,
}
use rpusbdisp.Common.Memory.{read, length-read}
use rpusbdisp.Protocol.{le16}
use rpusbdisp.Usb.Rle.{Rle, section_bytes}
use rpusbdisp.Usb.Rle.Sections.{
  IsOpen, flush_bytes, flush_next, shrunk, Branch, breaks, overflows, repeats, forms, fills, joins,
  branch, step_bytes, step_next, all_bytes, all_next, step_next-IsOpen,
}

pub length-le16 : (ps : List ℕ) → length (flat_map le16 ps) ≡ 2 * length ps
length-le16 [] = refl
length-le16 (p ∷ ps) = omega (arith, length-le16 ps)

length-section_bytes :
    (r : Rle) → length (section_bytes r) ≡ (if r.is_common_section then 2 else 2 * r.section_size)
unfolding section_bytes
length-section_bytes r = elim (Bool-cases r.is_common_section) [
  | inl c ↦
      simp c (omega (arith, length-le16 (read 1 r.section_data), length-read 1 r.section_data))
  | inr c ↦ simp c (
      omega (
        arith,
        length-le16 (read r.section_size r.section_data),
        length-read r.section_size r.section_data,
      ))
]

length-flush :
    (r : Rle)
    → length (flush_bytes r) ≡ (
        if r.section_size == 0
        then 0
        else if r.is_common_section
        then 3
        else 2 * r.section_size + 1)
unfolding flush_bytes
length-flush r = ground (arith, length-section_bytes r)

-- `n` pixels were taken and `bytes` bytes handed over. Those that left the open section cost two
-- bytes each, and one for each 128; a common section may owe one byte more, which it gives back.
pub record Fits (r : Rle) (n bytes : ℕ) : Type 0 where
  pub left : ℕ
  pub total : left + r.section_size ≡ n
  pub bound : bytes ≤ 2 * left + left / 128 + (if r.is_common_section then 1 else 0)

module _ {r : Rle} {p n bytes : ℕ} (o : IsOpen r) (f : Fits r n bytes) where
  step-Fits : (b : Branch r p) → Fits (step_next b) (n + 1) (bytes + length (step_bytes b))
  unfolding step_next step_bytes flush_next
  step-Fits (breaks c e) = record {
    left = n;
    total = ground arith;
    bound = ground (arith, length-flush r);
  }
  step-Fits (overflows c e g) = record {
    left = n;
    total = ground arith;
    bound = ground (arith, length-flush r);
  }
  step-Fits (repeats c e g) = record { left = f.left; total = ground arith; bound = ground (arith) }
  step-Fits (forms c e g) = record {
    left = n - 1;
    total = ground arith;
    bound = ground (arith, length-flush (shrunk r));
  }
  step-Fits (fills c e g) = record {
    left = n;
    total = ground arith;
    bound = ground (arith, length-flush r);
  }
  step-Fits (joins c e g) = record { left = f.left; total = ground arith; bound = ground (arith) }

all-Fits :
    (ps : List ℕ) (r : Rle) (n bytes : ℕ)
    → IsOpen r
    → Fits r n bytes
    → Fits (all_next ps r) (n + length ps) (bytes + length (all_bytes ps r))
unfolding all_bytes all_next
all-Fits [] r n bytes o f = record { left = f.left; total = omega arith; bound = omega arith }
all-Fits (p ∷ ps) r n bytes o f =
    let b = branch r p in
    let g =
      all-Fits ps (step_next b) (n + 1) (bytes + length (step_bytes b)) (step_next-IsOpen b o)
        (step-Fits {p = p} o f b) in
    record {
      left = g.left;
      total = omega arith;
      bound = omega (arith, length-append (step_bytes b) (all_bytes ps (step_next b)));
    }

-- With the last flush: two bytes for each pixel, and one for each 128 pixels begun.
pub length-encoded :
    (ps : List ℕ) (r : Rle)
    → r.section_size ≡ 0
    → r.is_common_section ≡ false
    → IsOpen (all_next ps r)
    → length (all_bytes ps r ++ flush_bytes (all_next ps r))
      ≤ 2 * length ps + (length ps + 127) / 128
length-encoded ps r z c o =
    let start : Fits r 0 0 = record { left = 0; total = omega arith; bound = omega arith } in
    let opened : IsOpen r = record { limited = omega arith; repeated = λ e. ground arith } in
    let f = all-Fits ps r 0 0 opened start in
    ground (
      arith,
      length-append (all_bytes ps r) (flush_bytes (all_next ps r)),
      length-flush (all_next ps r),
      f.total,
      f.bound,
    )

-- ===== src/Sdk/Rle/Size.antt =====
-- The output of the SDK's encoder of rle.cc stays inside the buffer that it allocates.
use rpusbdisp.Common.{
  ℕ, suc, ◌+◌, ◌-◌, ◌*◌, ◌<◌, ◌≤◌, ◌≡◌, refl, inl, inr, List, [], ◌∷◌, length, length-append, ◌==◌,
  arith, Bool-cases, ==→eq, ==→ne, flat_map,
}
use rpusbdisp.Protocol.{le16}
use rpusbdisp.Usb.Rle.Size.{length-le16}
use rpusbdisp.Sdk.Rle.{
  Output, output_bytes, but_last, extend_common, extend_plain, add_pixel, add_pixels,
  est_buffer_size, rle_compress,
}
use rpusbdisp.Sdk.Rle.Holds.{high_plain, high_common}

-- What is finished, in 128ths of a byte, is paid for by the `n` pixels that were read and do not stand
-- in the open section: 257 for a pixel.
data Fits (o : Output) (n : ℕ) : Type 0 where
  plain :
      o.header < 128
      → length o.pixels ≡ o.header + 1
      → 128 * length o.finished + 257 * (o.header + 1) ≤ 257 * n
      → Fits o n
  common :
      (k : ℕ)
      → o.header ≡ k + 128
      → k < 128
      → length o.pixels ≡ 1
      → 128 * length o.finished + 385 + k ≤ 257 * n
      → Fits o n

length-but_last : (x : ℕ) (xs : List ℕ) → length (but_last (x ∷ xs)) ≡ length xs
length-but_last x [] = refl
length-but_last x (y ∷ xs) = omega (arith, length-but_last y xs)

shorter_lem : (xs : List ℕ) → 1 ≤ length xs → length (but_last xs) + 1 ≡ length xs
shorter_lem [] h = absurd (omega arith)
shorter_lem (x ∷ xs) h = omega (arith, length-but_last x xs)

length-output : (o : Output) → length (output_bytes o) ≡ length o.finished + 1 + 2 * length o.pixels
length-output o =
    omega
      (arith, length-append o.finished (o.header ∷ flat_map le16 o.pixels), length-le16 o.pixels)

plain-Fits :
    (o : Output) (n p : ℕ)
    → o.header < 128
    → length o.pixels ≡ o.header + 1
    → 128 * length o.finished + 257 * (o.header + 1) ≤ 257 * n
    → Fits (extend_plain o p) (n + 1)
unfolding extend_plain
plain-Fits o n p l e h = elim (Bool-cases (p == o.last_pixel_value)) [
  | inl same ↦ elim (Bool-cases (o.header == 0)) [
    | inl z ↦
        let q = ==→eq o.header 0 z in
        rw (same, z) (common 1 refl (omega arith) (omega (arith, q)) (omega arith))
    | inr nz ↦
        let q = ==→ne o.header 0 nz in
        let shorter : Output = record o { header = o.header - 1; pixels = but_last o.pixels } in
        rw (same, nz)
          (common 1 refl (omega arith) refl
            (omega (arith, q, length-output shorter, shorter_lem o.pixels (omega arith))))
  ]
  | inr other ↦ elim (Bool-cases (o.header == 0x7f)) [
    | inl full ↦
        rw (other, full)
          (plain (omega arith) refl (omega (arith, ==→eq o.header 0x7f full, length-output o)))
    | inr room ↦
        rw (other, room)
          (plain (omega (arith, ==→ne o.header 0x7f room))
            (omega (arith, length-append o.pixels (p ∷ []))) (omega arith))
  ]
]

common-Fits :
    (o : Output) (n p k : ℕ)
    → o.header ≡ k + 128
    → k < 128
    → length o.pixels ≡ 1
    → 128 * length o.finished + 385 + k ≤ 257 * n
    → Fits (extend_common o p) (n + 1)
unfolding extend_common
common-Fits o n p k e l len h = elim (Bool-cases (p == o.last_pixel_value)) [
  | inl same ↦ elim (Bool-cases (o.header == 0xff)) [
    | inl full ↦
        rw (same, full)
          (common 0 refl (omega arith) refl
            (omega (arith, ==→eq o.header 0xff full, length-output o)))
    | inr room ↦
        rw (same, room)
          (common (k + 1) (omega arith) (omega (arith, ==→ne o.header 0xff room)) len (omega arith))
  ]
  | inr other ↦ rw other (plain (omega arith) refl (omega (arith, length-output o)))
]

add_pixel-Fits : (o : Output) (n p : ℕ) → Fits o n → Fits (add_pixel o p) (n + 1)
unfolding add_pixel
add_pixel-Fits o n p (plain l e h) = rw (high_plain o.header l) (plain-Fits o n p l e h)
add_pixel-Fits o n p (common k e l len h) =
    rw (high_common o.header k e) (common-Fits o n p k e l len h)

add_pixels-Fits :
    (ps : List ℕ) (o : Output) (n : ℕ) → Fits o n → Fits (add_pixels ps o) (n + length ps)
add_pixels-Fits [] o n f = let e : n + 0 ≡ n = omega arith in rw e f
add_pixels-Fits (p ∷ ps) o n f =
    let e : n + suc (length ps) ≡ n + 1 + length ps = omega arith in
    rw e (add_pixels-Fits ps (add_pixel o p) (n + 1) (add_pixel-Fits o n p f))

within_lem : (o : Output) (n : ℕ) → Fits o n → length (output_bytes o) ≤ est_buffer_size (2 * n)
within_lem o n (plain l e h) = omega (arith, length-output o)
within_lem o n (common k e l len h) = omega (arith, length-output o)

-- For any pixels, at least one: what `rleCompress` has written after the last of them is no longer than
-- the buffer that it allocates for them. Since the pixels are any, this is so after each of them too.
pub rle_compress_fits :
    (first : ℕ) (others : List ℕ)
    → length (rle_compress first others) ≤ est_buffer_size (2 * length (first ∷ others))
unfolding rle_compress
rle_compress_fits first others =
    let start : Output = record {
      finished = [];
      header = 0;
      pixels = first ∷ [];
      last_pixel_value = first;
    } in
    let e : length (first ∷ others) ≡ 1 + length others = omega arith in
    rw e (
      within_lem (add_pixels others start) (1 + length others)
        (add_pixels-Fits others start 1 (plain (omega arith) refl (omega arith))))

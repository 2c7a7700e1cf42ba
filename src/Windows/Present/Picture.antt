-- ===== src/Windows/Present/Picture.antt =====
-- What the pixels of a surface are in 16 bits, said without the loops of Pipeline.cpp, and that its
-- conversion gives them.
use rpusbdisp.Common.{
  ℕ, zero, suc, ◌+◌, ◌-◌, ◌*◌, ◌/◌, ◌%◌, ◌^◌, ◌≤◌, ◌<◌, ◌≡◌, refl, bit_and, bit_or, List, [], ◌∷◌,
  ltb, ◌==◌, if◌then◌else◌, arith, append-nil, flat_map, flat_map-append, ==→eq,
}
use rpusbdisp.Common.Bits.{everywhere, everywhere_lem}
use rpusbdisp.Common.Memory.{read}
use rpusbdisp.Windows.Transport.{ChunkHeader}
use rpusbdisp.Windows.Present.{Surface, to_rgb565, convert_bgra_to_rgb565, convert_rows}

-- The five upper bits of red, the six of green and the five of blue of the pixel in column `x` and row
-- `y`, which are the third, the second and the first byte of four.
abbrev pub pixel_of : Surface → ℕ → ℕ → ℕ
pixel_of s y x =
    s.bits (y * s.pitch + x * 4 + 2) / 8 * 2048
    + s.bits (y * s.pitch + x * 4 + 1) / 4 * 32
    + s.bits (y * s.pitch + x * 4) / 8

abbrev same : ℕ → ℕ
same y = y

-- The pixels row by row.
abbrev pub picture : Surface → List ℕ
picture s = flat_map (λ y. read s.columns (pixel_of s y)) (read s.rows same)

-- The header of the chunk `n` of the frame `id`.
abbrev pub header_of : ℕ → Surface → ℕ → ChunkHeader
header_of id s n =
    let bytes = s.columns * s.rows * 2 in
    record {
      frame_id = id;
      chunk_index = n;
      total_chunks = (bytes + 16351) / 16352;
      chunk_bytes = if ltb (bytes - n * 16352) 16352 then bytes - n * 16352 else 16352;
      width = s.columns;
      height = s.rows;
      pixel_format = 0;
      total_bytes = bytes;
    }

red_bits : (r : ℕ) → r < 256 → bit_and r 0xf8 ≡ r / 8 * 8
unfolding everywhere
red_bits r h = ==→eq _ _ (everywhere_lem (λ v. bit_and v 0xf8 == v / 8 * 8) 256 r h refl)

green_bits : (g : ℕ) → g < 256 → bit_and g 0xfc ≡ g / 4 * 4
unfolding everywhere
green_bits g h = ==→eq _ _ (everywhere_lem (λ v. bit_and v 0xfc == v / 4 * 4) 256 g h refl)

join_upper : (x y : ℕ) → x < 32 → y < 64 → bit_or (x * 2048) (y * 32) ≡ x * 2048 + y * 32
unfolding everywhere
join_upper x y h k = ==→eq _ _ (
    everywhere_lem (λ v. bit_or (x * 2048) (v * 32) == x * 2048 + v * 32) 64 y k
      (everywhere_lem (λ u. everywhere (λ v. bit_or (u * 2048) (v * 32) == u * 2048 + v * 32) 64) 32
        x h refl))

join_lower : (x y : ℕ) → x < 2048 → y < 32 → bit_or (x * 32) y ≡ x * 32 + y
unfolding everywhere
join_lower x y h k = ==→eq _ _ (
    everywhere_lem (λ v. bit_or (x * 32) v == x * 32 + v) 32 y k
      (everywhere_lem (λ u. everywhere (λ v. bit_or (u * 32) v == u * 32 + v) 32) 2048 x h refl))

to_rgb565_lem :
    (b g r : ℕ) → b < 256 → g < 256 → r < 256 → to_rgb565 b g r ≡ r / 8 * 2048 + g / 4 * 32 + b / 8
unfolding to_rgb565
to_rgb565_lem b g r hb hg hr =
    let e : r / 8 * 8 * 256 ≡ r / 8 * 2048 = omega arith in
    let f : g / 4 * 4 * 8 ≡ g / 4 * 32 = omega arith in
    let u : r / 8 * 2048 + g / 4 * 32 ≡ (r / 8 * 64 + g / 4) * 32 = omega arith in
    let l : bit_or ((r / 8 * 64 + g / 4) * 32) (b / 8) ≡ (r / 8 * 64 + g / 4) * 32 + b / 8 =
      join_lower (r / 8 * 64 + g / 4) (b / 8) (omega arith) (omega arith) in
    rw
      (
        red_bits r hr,
        green_bits g hg,
        e,
        f,
        join_upper (r / 8) (g / 4) (omega arith) (omega arith),
        u,
        l,
      )
      (omega arith)

read-same : {A : Type 0} (n : ℕ) (f g : ℕ → A) → ((i : ℕ) → i < n → f i ≡ g i) → read n f ≡ read n g
unfolding read
read-same zero f g h = refl
read-same (suc n) f g h = rw (h n (omega arith), read-same n f g (λ i k. h i (omega arith)))

module _ (s : Surface) (bytes : (at : ℕ) → s.bits at < 256) (wide : s.columns * 4 ≤ s.pitch) where
  row_lem :
      (y : ℕ)
      → y * s.pitch + s.pitch < 2 ^ 32
      → convert_bgra_to_rgb565 s.bits (y * s.pitch % 2 ^ 32) s.columns
        ≡ read s.columns (pixel_of s y)
  unfolding convert_bgra_to_rgb565
  row_lem y h = read-same s.columns _ _ λ x k.
      let e : y * s.pitch % 2 ^ 32 ≡ y * s.pitch = omega arith in
      let f : x * 4 % 2 ^ 32 ≡ x * 4 = omega (arith, wide) in
      rw (e, f) (to_rgb565_lem _ _ _ (bytes _) (bytes _) (bytes _))

  pub rows_lem :
      (rows : ℕ)
      → rows * s.pitch < 2 ^ 32
      → convert_rows s.bits s.pitch s.columns rows
        ≡ flat_map (λ y. read s.columns (pixel_of s y)) (read rows same)
  unfolding convert_rows read
  rows_lem zero h = refl
  rows_lem (suc rows) h =
      let e : suc rows * s.pitch ≡ rows * s.pitch + s.pitch = grind arith in
      rw (
        rows_lem rows (omega arith),
        row_lem rows (omega arith),
        flat_map-append (λ y. read s.columns (pixel_of s y)) (read rows same) (rows ∷ []),
        append-nil,
      )

-- ===== src/Usb/Rle/Decode.antt =====
-- How a stream of RLE sections is read, after the section format of drivers/common/inc/protocol.h:
-- a header byte with the number of pixels less one in its low 7 bits, then one pixel to repeat if
-- RPUSBDISP_RLE_BLOCKFLAG_COMMON_BIT is set, else that many pixels, low byte first. The firmware that
-- reads it is not part of the repository; this is the description that the encoder is held to.
use rpusbdisp.Common.{
  ℕ, zero, suc, ◌+◌, ◌-◌, ◌*◌, ◌/◌, ◌%◌, ◌<◌, ◌≡◌, refl, ◌∙◌, ap, sym, append-nil, List, [], ◌∷◌,
  ◌++◌, ltb, if◌then◌else◌, arith, length, flat_map, replicate, All, append_assoc, lt→ltb, le→ltb,
}
use rpusbdisp.Protocol.{le16}

-- What the next byte is: a header, or a byte of the pixel before `n` more.
pub data Reading : Type 0 where
  header : Reading
  common : ℕ → Reading
  common_high : ℕ → ℕ → Reading
  pixels : ℕ → Reading
  pixels_high : ℕ → ℕ → Reading

abbrev pub after_pixel : ℕ → Reading
after_pixel zero = header
after_pixel (suc n) = pixels n

unfoldable pub decoded : Reading → List ℕ → List ℕ
decoded st [] = []
decoded header (b ∷ bs) = decoded (if ltb b 128 then pixels b else common (b - 128)) bs
decoded (common n) (b ∷ bs) = decoded (common_high n b) bs
decoded (common_high n low) (b ∷ bs) = replicate (suc n) (low + 256 * b) ++ decoded header bs
decoded (pixels n) (b ∷ bs) = decoded (pixels_high n b) bs
decoded (pixels_high n low) (b ∷ bs) = (low + 256 * b) ∷ decoded (after_pixel n) bs

unfoldable pub finish : Reading → List ℕ → Reading
finish st [] = st
finish header (b ∷ bs) = finish (if ltb b 128 then pixels b else common (b - 128)) bs
finish (common n) (b ∷ bs) = finish (common_high n b) bs
finish (common_high n low) (b ∷ bs) = finish header bs
finish (pixels n) (b ∷ bs) = finish (pixels_high n b) bs
finish (pixels_high n low) (b ∷ bs) = finish (after_pixel n) bs

pub decoded-append :
    (st : Reading) (xs ys : List ℕ)
    → decoded st (xs ++ ys) ≡ decoded st xs ++ decoded (finish st xs) ys
unfolding decoded finish
decoded-append st [] ys = refl
decoded-append header (b ∷ xs) ys = decoded-append _ xs ys
decoded-append (common n) (b ∷ xs) ys = decoded-append _ xs ys
decoded-append (common_high n low) (b ∷ xs) ys =
    ap (◌++◌ (replicate (suc n) (low + 256 * b))) (decoded-append header xs ys)
    ∙ sym (append_assoc (replicate (suc n) (low + 256 * b)) (decoded header xs) _)
decoded-append (pixels n) (b ∷ xs) ys = decoded-append _ xs ys
decoded-append (pixels_high n low) (b ∷ xs) ys =
    ap (◌∷◌ (low + 256 * b)) (decoded-append (after_pixel n) xs ys)

pub finish-append :
    (st : Reading) (xs ys : List ℕ) → finish st (xs ++ ys) ≡ finish (finish st xs) ys
unfolding finish
finish-append st [] ys = refl
finish-append header (b ∷ xs) ys = finish-append _ xs ys
finish-append (common n) (b ∷ xs) ys = finish-append _ xs ys
finish-append (common_high n low) (b ∷ xs) ys = finish-append header xs ys
finish-append (pixels n) (b ∷ xs) ys = finish-append _ xs ys
finish-append (pixels_high n low) (b ∷ xs) ys = finish-append (after_pixel n) xs ys

abbrev pub IsPixel : ℕ → Type 0
IsPixel p = p < 0x10000

le16_value : (p : ℕ) → IsPixel p → p % 256 + 256 * (p / 256 % 256) ≡ p
le16_value p h = omega arith

pub decoded-common : (n p : ℕ) → IsPixel p → decoded (common n) (le16 p ++ []) ≡ replicate (suc n) p
unfolding decoded
decoded-common n p h = rw (le16_value p h) (append-nil _)

pub decoded-pixels :
    (n : ℕ) (ps : List ℕ)
    → length ps ≡ suc n
    → All IsPixel ps
    → (decoded (pixels n) (flat_map le16 ps) ≡ ps) × (finish (pixels n) (flat_map le16 ps) ≡ header)
unfolding decoded finish
decoded-pixels n [] e h = absurd (omega arith)
decoded-pixels zero (p ∷ []) e h = (rw (le16_value p h.0), refl)
decoded-pixels zero (p ∷ q ∷ ps) e h = absurd (omega arith)
decoded-pixels (suc n) (p ∷ ps) e h =
    let ih = decoded-pixels n ps (omega arith) h.1 in
    (rw (le16_value p h.0) (ap (◌∷◌ p) ih.0), ih.1)

abbrev after_header : ℕ → Reading
after_header b = if ltb b 128 then pixels b else common (b - 128)

after_header_plain : (b : ℕ) → b < 128 → after_header b ≡ pixels b
after_header_plain b h = rw (lt→ltb b 128 h)

after_header_common : (k : ℕ) → after_header (k + 128) ≡ common k
after_header_common k =
    let e : k + 128 - 128 ≡ k = omega arith in rw (le→ltb (k + 128) 128 (omega arith), e)

-- Bytes that are whole sections, and the pixels that they hold.
pub record Reads (bytes out : List ℕ) : Type 0 where
  pub gives : decoded header bytes ≡ out
  pub ends : finish header bytes ≡ header

pub Reads-nil : Reads [] []
unfolding decoded finish
Reads-nil = record { gives = refl; ends = refl }

pub Reads-append : {bs cs xs ys : List ℕ} → Reads bs xs → Reads cs ys → Reads (bs ++ cs) (xs ++ ys)
Reads-append {bs} {cs} {xs} {ys} p q = record {
  gives = decoded-append header bs cs ∙ rw (p.gives, p.ends, q.gives);
  ends = finish-append header bs cs ∙ rw (p.ends, q.ends);
}

pub plain_section :
    (k : ℕ) (ps : List ℕ)
    → k < 128
    → length ps ≡ suc k
    → All IsPixel ps
    → Reads (k ∷ flat_map le16 ps) ps
unfolding decoded finish
plain_section k ps h e a =
    let d = decoded-pixels k ps e a in
    let s = after_header_plain k h in
    record {
      gives = ap (λ st. decoded st (flat_map le16 ps)) s ∙ d.0;
      ends = ap (λ st. finish st (flat_map le16 ps)) s ∙ d.1;
    }

pub common_section :
    (k p : ℕ) → IsPixel p → Reads ((k + 128) ∷ (le16 p ++ [])) (replicate (suc k) p)
unfolding decoded finish
common_section k p a =
    let s = after_header_common k in
    record {
      gives = ap (λ st. decoded st (le16 p ++ [])) s ∙ decoded-common k p a;
      ends = ap (λ st. finish st (le16 p ++ [])) s;
    }

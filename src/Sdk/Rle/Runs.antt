-- ===== src/Sdk/Rle/Runs.antt =====
-- A run of the SDK's encoder: two pixels alone, three that are equal, and one more.
use rpusbdisp.Common.{◌≡◌, refl, [], ◌∷◌, arith}
use rpusbdisp.Usb.Rle.Decode.{Reads}
use rpusbdisp.Sdk.Rle.{extend_common, extend_plain, add_pixel, rle_compress}
use rpusbdisp.Sdk.Rle.RoundTrip.{rle_compress-Reads}

-- Sections of two pixels, of three equal ones, and of one.
compresses :
    rle_compress 1 (2 ∷ 5 ∷ 5 ∷ 5 ∷ 7 ∷ []) ≡ 1 ∷ 1 ∷ 0 ∷ 2 ∷ 0 ∷ 0x82 ∷ 5 ∷ 0 ∷ 0 ∷ 7 ∷ 0 ∷ []
unfolding rle_compress add_pixel extend_plain extend_common
compresses = refl

rle_compress-Reads_example :
    Reads (rle_compress 1 (2 ∷ 5 ∷ 5 ∷ 5 ∷ 7 ∷ [])) (1 ∷ 2 ∷ 5 ∷ 5 ∷ 5 ∷ 7 ∷ [])
rle_compress-Reads_example =
    rle_compress-Reads 1 (2 ∷ 5 ∷ 5 ∷ 5 ∷ 7 ∷ [])
      (omega arith, (omega arith, (omega arith, (omega arith, (omega arith, (omega arith, tt))))))

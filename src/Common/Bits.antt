-- ===== src/Common/Bits.antt =====
-- Masks on one byte as arithmetic, by a table of all bytes.
use Prim.Native.Nat.{ℕ, zero, suc, ◌+◌, ◌%◌, ◌<◌, bit_and, bit_or}
use mathlib.Core.Path.{◌≡◌, refl}
use mathlib.Core.Bool.{Bool, true, ◌&&◌}
use native.Mathlib.Omega.{arith}
use rpusbdisp.Common.Tests.{◌==◌, ==→eq}

-- Whether a test holds of every number below a limit.
unfoldable pub everywhere : (test : ℕ → Bool) (limit : ℕ) → Bool
everywhere test zero = true
everywhere test (suc top) = everywhere test top && test top

pub everywhere_lem :
    (test : ℕ → Bool) (limit v : ℕ) → v < limit → everywhere test limit ≡ true → test v ≡ true
unfolding everywhere
everywhere_lem test zero v below ok = absurd (omega arith)
everywhere_lem test (suc top) v below ok = ground (arith, everywhere_lem test top v)

pub low_bits : (b : ℕ) → b < 256 → bit_and b 0x7f ≡ b % 128
unfolding everywhere
low_bits b h = ==→eq _ _ (everywhere_lem (λ v. bit_and v 0x7f == v % 128) 256 b h refl)

pub set_top_bit : (b : ℕ) → b < 128 → bit_or b 0x80 ≡ b + 128
unfolding everywhere
set_top_bit b h = ==→eq _ _ (everywhere_lem (λ v. bit_or v 0x80 == v + 128) 128 b h refl)

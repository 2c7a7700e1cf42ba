-- ===== src/Usb/Bitblt/Packets.antt =====
-- What the device reads out of the URBs of a bitblt: each URB is cut into packets of
-- `disp_out_ep_max_size` bytes, and each packet begins with a header byte. The description is that of
-- drivers/common/inc/protocol.h; the device's firmware is not part of the repository.
use rpusbdisp.Common.{ℕ, ◌+◌, ◌≡◌, refl, arith, List, [], ◌∷◌, ◌++◌, ◌==◌, if◌then◌else◌}

abbrev pub next_pos : ℕ → ℕ → ℕ
next_pos max p = if p + 1 == max then 0 else p + 1

-- The payload of bytes that begin at the place `p` of a packet, and the place after them.
unfoldable pub payload : ℕ → ℕ → List ℕ → List ℕ
payload max p [] = []
payload max p (b ∷ bytes) =
    let rest = payload max (next_pos max p) bytes in if p == 0 then rest else b ∷ rest

unfoldable pub place : ℕ → ℕ → List ℕ → ℕ
place max p [] = p
place max p (b ∷ bytes) = place max (next_pos max p) bytes

pub payload-append :
    (max p : ℕ) (xs ys : List ℕ)
    → payload max p (xs ++ ys) ≡ payload max p xs ++ payload max (place max p xs) ys
unfolding payload place
payload-append max p [] ys = refl
payload-append max p (b ∷ xs) ys = ground (arith, payload-append max (next_pos max p) xs ys)

pub place-append :
    (max p : ℕ) (xs ys : List ℕ) → place max p (xs ++ ys) ≡ place max (place max p xs) ys
unfolding place
place-append max p [] ys = refl
place-append max p (b ∷ xs) ys = place-append max (next_pos max p) xs ys

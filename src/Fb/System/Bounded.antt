-- ===== src/Fb/System/Bounded.antt =====
-- The dirty rectangle of fbhandlers.c stays on the screen.
use rpusbdisp.Common.{◌+◌, ◌-◌, ◌≡◌, true, false, if◌then◌else◌, arith}
use rpusbdisp.Common.Int.{ℤ, pos, pos_part, ◌+ℤ◌, ◌-ℤ◌, ◌≤ℤ◌, ltb_ℤ}
use rpusbdisp.Usb.Image.Display.{IsOnScreen}
use rpusbdisp.Fb.{DirtyRect, clear_dirty_rect, full_rect, grow_rect, is_empty, area_of}
use rpusbdisp.Fb.System.{IsRegion}

-- On the screen, or empty.
pub record IsBounded (r : DirtyRect) : Type 0 where
  pub left_in : pos 0 ≤ℤ r.left
  pub top_in : pos 0 ≤ℤ r.top
  pub right_in : r.right ≤ℤ pos 319
  pub bottom_in : r.bottom ≤ℤ pos 239

pub clear-IsBounded : (r : DirtyRect) → IsBounded (clear_dirty_rect r)
unfolding clear_dirty_rect
clear-IsBounded r = omega arith

pub full-IsBounded : (r : DirtyRect) → IsBounded (full_rect r)
unfolding ◌-ℤ◌
full-IsBounded r = omega arith

pick_le : (a b c : ℤ) → c ≤ℤ a → c ≤ℤ b → c ≤ℤ (if ltb_ℤ b a then b else a)
pick_le a b c h k = ground arith

le_pick : (a b c : ℤ) → a ≤ℤ c → b ≤ℤ c → (if ltb_ℤ a b then b else a) ≤ℤ c
le_pick a b c h k = ground arith

pub grow-IsBounded :
    (r : DirtyRect) (x y width height : ℤ)
    → IsBounded r
    → IsRegion x y width height
    → IsBounded (grow_rect r x y width height)
unfolding grow_rect
grow-IsBounded r x y width height b k = record {
  left_in = pick_le r.left x (pos 0) b.left_in k.from_left;
  top_in = pick_le r.top y (pos 0) b.top_in k.from_top;
  right_in = le_pick r.right (width +ℤ x -ℤ pos 1) (pos 319) b.right_in k.to_right;
  bottom_in = le_pick r.bottom (height +ℤ y -ℤ pos 1) (pos 239) b.bottom_in k.to_bottom;
}

positive : (a : ℤ) → pos 0 ≤ℤ a → a ≡ pos (pos_part a)
positive a h = ground arith

between :
    (a b : ℤ) → pos 0 ≤ℤ a → ltb_ℤ b a ≡ false → b ≡ pos (pos_part a + (pos_part b - pos_part a))
between a b h k = ground arith

-- A rectangle that is not empty is one of the screen.
pub area-IsOnScreen : (r : DirtyRect) → IsBounded r → is_empty r ≡ false → IsOnScreen (area_of r)
area-IsOnScreen r b e = record {
  left = pos_part r.left;
  top = pos_part r.top;
  wide = pos_part r.right - pos_part r.left;
  high = pos_part r.bottom - pos_part r.top;
  x_left = positive r.left b.left_in;
  y_top = positive r.top b.top_in;
  right_at = between r.left r.right b.left_in (ground arith);
  bottom_at = between r.top r.bottom b.top_in (ground arith);
  columns = ground (arith, b.left_in, b.right_in, e);
  lines = ground (arith, b.top_in, b.bottom_in, e);
}

pub flag-IsBounded : (r : DirtyRect) → IsBounded r → IsBounded (record r { dirty_flag = true })
flag-IsBounded r b = record {
  left_in = b.left_in;
  top_in = b.top_in;
  right_in = b.right_in;
  bottom_in = b.bottom_in;
}

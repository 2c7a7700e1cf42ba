-- ===== src/Fb/Marked.antt =====
-- The flag of the dirty rectangle of fbhandlers.c, by which `fbhandler_on_all_transfer_done` decides
-- to try again.
use rpusbdisp.Common.{
  ℕ, ◌≡◌, refl, ◌∙◌, sym, ap, subst, inl, inr, Bool, true, false, not, if◌then◌else◌, arith,
  Bool-cases,
}
use rpusbdisp.Common.Int.{ℤ, pos, ◌+ℤ◌, ◌-ℤ◌, ltb_ℤ}
use rpusbdisp.Common.Res.{Res, ok, abort, bug, stuck, ok-injective}
use rpusbdisp.Usb.Device.{Device, Submit}
use rpusbdisp.Fb.Cases.{
  redrawn, marked, nothing, sends, Try-cases, unbound, refreshes, grows, Update-cases,
}
use rpusbdisp.Fb.{
  DirtyRect, Fb, Hint, clear_dirty_rect, reset_fb_private, full_rect, grow_rect, is_empty,
  after_send, try_update, display_update,
}

-- The flag is set exactly when the rectangle is not empty.
abbrev pub IsMarked : Fb → Type 0
IsMarked p = p.dirty_rect.dirty_flag ≡ not (is_empty p.dirty_rect)

pub reset-IsMarked : (p : Fb) → IsMarked (reset_fb_private p)
unfolding reset_fb_private clear_dirty_rect
reset-IsMarked p = refl

shrinks :
    (a b c d : ℤ)
    → ltb_ℤ (if ltb_ℤ b d then d else b) (if ltb_ℤ c a then c else a) ≡ true
    → ltb_ℤ b a ≡ true
shrinks a b c d h = ground arith

grow-is_empty :
    (r : DirtyRect) (x y w h : ℤ) → is_empty (grow_rect r x y w h) ≡ true → is_empty r ≡ true
unfolding grow_rect
grow-is_empty r x y w h e =
    elim (Bool-cases (ltb_ℤ (grow_rect r x y w h).bottom (grow_rect r x y w h).top)) [
      | inl v ↦ rw (shrinks r.top r.bottom y (h +ℤ y -ℤ pos 1) v)
      | inr v ↦ rw (shrinks r.left r.right x (w +ℤ x -ℤ pos 1) (ground arith)) (ground arith)
    ]

flag_false :
    (p : Fb) (x y width height : ℤ)
    → IsMarked p
    → is_empty (grow_rect p.dirty_rect x y width height) ≡ true
    → (grow_rect p.dirty_rect x y width height).dirty_flag ≡ false
unfolding grow_rect
flag_false p x y width height m e = m ∙ ap not (grow-is_empty p.dirty_rect x y width height e)

module _ (usb_submit_urb : ℕ → Submit) (garbage : ℕ → ℕ) (memory : ℤ → ℕ) where
  after-IsMarked :
      (p p' : Fb) (r : Res Device (Unit {0}))
      → p.dirty_rect.dirty_flag ≡ true
      → is_empty p.dirty_rect ≡ false
      → after_send usb_submit_urb garbage memory p r ≡ ok tt p'
      → IsMarked p'
  unfolding clear_dirty_rect
  after-IsMarked p p' (ok tt d) f e h = subst IsMarked (ok-injective h) refl
  after-IsMarked p p' (abort d) f e h = subst IsMarked (ok-injective h) (f ∙ sym (ap not e))
  after-IsMarked p p' bug f e h = cc
  after-IsMarked p p' stuck f e h = cc

  try-IsMarked :
      (hint : Hint) (clear_dirty : Bool) (p p' : Fb)
      → (is_empty p.dirty_rect ≡ true → p.dirty_rect.dirty_flag ≡ false)
      → try_update usb_submit_urb garbage memory hint clear_dirty p ≡ ok tt p'
      → IsMarked p'
  try-IsMarked hint clear_dirty p p' m h =
      elim (Try-cases usb_submit_urb garbage memory hint clear_dirty p) [
        | nothing e q ↦ subst IsMarked {x = p} (ok-injective (sym q ∙ h)) (m e ∙ sym (ap not e))
        | sends e q ↦ after-IsMarked (marked p) p' _ refl e (sym q ∙ h)
      ]

  -- A call of `_display_update` with any hint keeps the flag true to the rectangle: what is not sent
  -- stays marked, and what is sent or empty is not.
  pub display_update-IsMarked :
      (p p' : Fb) (x y width height : ℤ) (hint : Hint)
      → IsMarked p
      → display_update usb_submit_urb garbage memory p x y width height hint ≡ ok tt p'
      → IsMarked p'
  unfolding ◌-ℤ◌
  display_update-IsMarked p p' x y width height hint m h =
      elim (Update-cases usb_submit_urb garbage memory p x y width height hint) [
        | unbound b q ↦ subst IsMarked {x = p} (ok-injective (sym q ∙ h)) m
        | refreshes b full q ↦
            try-IsMarked hint true (redrawn p (full_rect p.dirty_rect)) p' (λ e. cc) (sym q ∙ h)
        | grows b grown q ↦
            try-IsMarked hint false (redrawn p (grow_rect p.dirty_rect x y width height)) p'
              (λ e. flag_false p x y width height m e) (sym q ∙ h)
      ]

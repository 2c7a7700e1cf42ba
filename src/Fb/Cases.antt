-- ===== src/Fb/Cases.antt =====
-- The ways through `_display_update` and `fbhandler_on_all_transfer_done` of fbhandlers.c.
use rpusbdisp.Common.{
  ℕ, ◌≡◌, ◌∙◌, if_yes, if_no, if_not, if_unless, inl, inr, Bool, true, false, ◌||◌, Bool-cases,
}
use rpusbdisp.Common.Int.{ℤ, pos, ◌-ℤ◌}
use rpusbdisp.Common.Res.{ok}
use rpusbdisp.Protocol.{default_width, default_height}
use rpusbdisp.Usb.Device.{Submit}
use rpusbdisp.Fb.{
  DirtyRect, Fb, Hint, hint_none, full_rect, grow_rect, is_empty, is_zero, send_update, after_send,
  try_update, display_update, fbhandler_on_all_transfer_done,
}

-- `atomic_dec` of the flag, and a new rectangle.
abbrev pub redrawn : Fb → DirtyRect → Fb
redrawn p rect = record p {
  device = record p.device { unsync_flag = p.device.unsync_flag -ℤ pos 1 };
  dirty_rect = rect;
}

abbrev pub marked : Fb → Fb
marked p = record p { dirty_rect = record p.dirty_rect { dirty_flag = true } }

module _ (usb_submit_urb : ℕ → Submit) (garbage : ℕ → ℕ) (memory : ℤ → ℕ) where
  pub data Try (hint : Hint) (clear_dirty : Bool) (p : Fb) : Type 0 where
    nothing :
        is_empty p.dirty_rect ≡ true
        → try_update usb_submit_urb garbage memory hint clear_dirty p ≡ ok tt p
        → Try hint clear_dirty p
    sends :
        is_empty p.dirty_rect ≡ false
        → try_update usb_submit_urb garbage memory hint clear_dirty p
          ≡ after_send usb_submit_urb garbage memory (marked p) (
              send_update usb_submit_urb garbage memory hint
                (marked p).dirty_rect
                clear_dirty
                p.device)
        → Try hint clear_dirty p

  pub Try-cases : (hint : Hint) (clear_dirty : Bool) (p : Fb) → Try hint clear_dirty p
  unfolding try_update
  Try-cases hint clear_dirty p = elim (Bool-cases (is_empty p.dirty_rect)) [
    | inl e ↦ nothing e (if_yes _ _ _ e)
    | inr e ↦ sends e (if_no _ _ _ e)
  ]

  pub data Update (p : Fb) (x y width height : ℤ) (hint : Hint) : Type 0 where
    unbound :
        p.binded_usbdev ≡ false
        → display_update usb_submit_urb garbage memory p x y width height hint ≡ ok tt p
        → Update p x y width height hint
    refreshes :
        p.binded_usbdev ≡ true
        → is_zero (p.device.unsync_flag -ℤ pos 1) ≡ true
        → display_update usb_submit_urb garbage memory p x y width height hint
          ≡ try_update usb_submit_urb garbage memory hint true (redrawn p (full_rect p.dirty_rect))
        → Update p x y width height hint
    grows :
        p.binded_usbdev ≡ true
        → is_zero (p.device.unsync_flag -ℤ pos 1) ≡ false
        → display_update usb_submit_urb garbage memory p x y width height hint
          ≡ try_update usb_submit_urb garbage memory hint false
              (redrawn p (grow_rect p.dirty_rect x y width height))
        → Update p x y width height hint

  pub Update-cases : (p : Fb) (x y width height : ℤ) (hint : Hint) → Update p x y width height hint
  unfolding display_update
  Update-cases p x y width height hint = elim (Bool-cases p.binded_usbdev) [
    | inr b ↦ unbound b (if_unless _ _ _ b)
    | inl b ↦ elim (Bool-cases (is_zero (p.device.unsync_flag -ℤ pos 1))) [
      | inl full ↦ refreshes b full (if_not _ _ _ b ∙ if_yes _ _ _ full)
      | inr grown ↦ grows b grown (if_not _ _ _ b ∙ if_no _ _ _ grown)
    ]
  ]

  pub data Work (p : Fb) : Type 0 where
    rests : fbhandler_on_all_transfer_done usb_submit_urb garbage memory p ≡ ok tt p → Work p
    tries :
        fbhandler_on_all_transfer_done usb_submit_urb garbage memory p
          ≡ display_update usb_submit_urb garbage memory p
              (pos 0)
              (pos 0)
              (pos default_width)
              (pos default_height)
              hint_none
        → Work p

  pub Work-cases : (p : Fb) → Work p
  unfolding fbhandler_on_all_transfer_done
  Work-cases p = elim (Bool-cases p.device.fb_handle) [
    | inr f ↦ rests (if_unless _ _ _ f)
    | inl f ↦
        elim (Bool-cases (p.dirty_rect.dirty_flag || is_zero (p.device.unsync_flag -ℤ pos 1))) [
          | inr idle ↦ rests (if_not _ _ _ f ∙ if_no _ _ _ idle)
          | inl due ↦ tries (if_not _ _ _ f ∙ if_yes _ _ _ due)
        ]
  ]

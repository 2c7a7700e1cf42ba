-- ===== src/Fb/System/Reachable.antt =====
-- The invariant of the framebuffer and its device in every state that steps of fbhandlers.c and
-- usbhandlers.c reach.
use rpusbdisp.Common.{ℕ, ◌≤◌, ◌<◌, ◌^◌, ◌≡◌, ◌∙◌, sym, subst, inl, inr, arith, Bool-cases}
use rpusbdisp.Common.Int.{ℤ, pos, ◌+ℤ◌, ◌-ℤ◌}
use rpusbdisp.Common.Res.{ok, ok-injective}
use rpusbdisp.Protocol.{default_width, default_height}
use rpusbdisp.Usb.Device.{Device, Submit, fbhandler_set_unsync_flag}
use rpusbdisp.Usb.Pool.Held.{IsPool, Same, Fixed}
use rpusbdisp.Usb.Pool.Operations.{IsWide, complete-Left}
use rpusbdisp.Fb.{Fb, Hint, hint_none, display_update, fbhandler_on_all_transfer_done}
use rpusbdisp.Fb.Cases.{rests, tries, Work-cases}
use rpusbdisp.Fb.Marked.{IsMarked, display_update-IsMarked}
use rpusbdisp.Fb.System.{
  IsRegion, AllPixels, Step, draws, works, completes, unsyncs, Reach, here, next,
}
use rpusbdisp.Fb.System.Invariant.{Sound, update_Sound}

-- The invariant, for the device `d` as it was set up.
pub record Inv (d : Device) (p : Fb) : Type 0 where
  pub sound : Sound d p
  pub marked : IsMarked p

pub IsWide-of : (d e : Device) → Same d e → IsWide d → IsWide e
IsWide-of d e s w = record {
  sized = subst (λ (g : Fixed). g.max_size < 2 ^ 64) (sym s) w.sized;
  wide = subst (λ (g : Fixed). 10 < g.max_size) (sym s) w.wide;
  packets = subst (λ (g : Fixed). 1 ≤ g.factor) (sym s) w.packets;
}

pub whole_screen : IsRegion (pos 0) (pos 0) (pos default_width) (pos default_height)
unfolding ◌+ℤ◌ ◌-ℤ◌
whole_screen = omega arith

unsync_lem :
    (d : Device)
    → (IsPool d → IsPool (fbhandler_set_unsync_flag d)) × Same d (fbhandler_set_unsync_flag d)
unfolding fbhandler_set_unsync_flag
unsync_lem d = elim (Bool-cases d.fb_handle) [
  | inl e ↦ (λ h. simp e h, rw e)
  | inr e ↦ (λ h. simp e h, rw e)
]

module _ (d : Device) (w : IsWide d) where
  update_Inv :
      (usb_submit_urb : ℕ → Submit) (garbage : ℕ → ℕ) (memory : ℤ → ℕ) (p p' : Fb)
      (x y width height : ℤ) (hint : Hint)
      → AllPixels memory
      → IsRegion x y width height
      → Inv d p
      → display_update usb_submit_urb garbage memory p x y width height hint ≡ ok tt p'
      → Inv d p'
  update_Inv usb_submit_urb garbage memory p p' x y width height hint k g v h = record {
    sound =
        update_Sound usb_submit_urb garbage memory d k p p' x y width height hint
          (IsWide-of d p.device v.sound.same w) g v.sound h;
    marked =
        display_update-IsMarked usb_submit_urb garbage memory p p' x y width height hint v.marked h;
  }

  work_Inv :
      (usb_submit_urb : ℕ → Submit) (garbage : ℕ → ℕ) (memory : ℤ → ℕ) (p p' : Fb)
      → AllPixels memory
      → Inv d p
      → fbhandler_on_all_transfer_done usb_submit_urb garbage memory p ≡ ok tt p'
      → Inv d p'
  work_Inv usb_submit_urb garbage memory p p' k v h =
      elim (Work-cases usb_submit_urb garbage memory p) [
        | rests q ↦ subst (Inv d) {x = p} (ok-injective (sym q ∙ h)) v
        | tries q ↦
            update_Inv usb_submit_urb garbage memory p p' (pos 0) (pos 0) (pos default_width)
              (pos default_height) hint_none k whole_screen v (sym q ∙ h)
      ]

  pub Step-Inv : {p p' : Fb} → Step p p' → Inv d p → Inv d p'
  Step-Inv {p} {p'} (draws usb_submit_urb garbage memory x y width height hint k g h) v =
      update_Inv usb_submit_urb garbage memory p p' x y width height hint k g v h
  Step-Inv {p} {p'} (works usb_submit_urb garbage memory k h) v =
      work_Inv usb_submit_urb garbage memory p p' k v h
  Step-Inv {p} {p'} (completes t status l e) v =
      let c = complete-Left p.device t status v.sound.pool l in
      subst (Inv d) (sym e) (record {
        sound = record { pool = c.0; same = c.1 ∙ v.sound.same; bounded = v.sound.bounded };
        marked = v.marked;
      })
  Step-Inv {p} {p'} (unsyncs e) v =
      let u = unsync_lem p.device in
      subst (Inv d) (sym e) (record {
        sound = record {
          pool = u.0 v.sound.pool;
          same = u.1 ∙ v.sound.same;
          bounded = v.sound.bounded;
        };
        marked = v.marked;
      })

  -- For a device with packets of more than ten bytes (and fewer than 2^64), at least one in a ticket: the
  -- invariant holds in every state that drawing calls, deferred work, completions and status packets
  -- reach from one that satisfies it. The pool's count is the number of its tickets, each ticket is in
  -- the pool or on the bus at most once, those in the pool have URBs of their full length, the dirty
  -- rectangle is on the screen or empty and marked exactly if it is not empty, and the device's
  -- parameters do not change.
  pub Reach-Inv : {start p : Fb} → Inv d start → Reach start p → Inv d p
  Reach-Inv v here = v
  Reach-Inv v (next r s) = Step-Inv s (Reach-Inv v r)

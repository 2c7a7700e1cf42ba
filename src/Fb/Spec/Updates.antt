-- ===== src/Fb/Spec/Updates.antt =====
-- `_display_update` of fbhandlers.c is `spec_update` of Fb.Spec, for some answer of the bus.
use rpusbdisp.Common.{
  ℕ, ◌≡◌, refl, ◌∙◌, sym, ap, subst, inl, inr, Bool, true, false, if_yes, if_no, if_not, if_unless,
  List, [], ◌∷◌, ◌++◌, if◌then◌else◌, leb, ◌||◌, Bool-cases, append-nil,
}
use rpusbdisp.Common.Int.{ℤ, pos, ◌-ℤ◌}
use rpusbdisp.Common.Res.{Res, ok, abort, bug, stuck, ok-injective}
use rpusbdisp.Protocol.{feature_rle_fwversion, default_width, default_height}
use rpusbdisp.Usb.Device.{Device, Submit}
use rpusbdisp.Usb.Image.Wire.{Quiet, Failed}
use rpusbdisp.Usb.Image.Rule.{Holds}
use rpusbdisp.Usb.Pool.Held.{IsPool, Fixed, fixed_of}
use rpusbdisp.Usb.Pool.Encoding.{Left}
use rpusbdisp.Fb.{
  DirtyRect, Fb, Hint, hint_none, hint_bitblt, hint_fillrect, hint_copyarea, clear_dirty_rect,
  full_rect, grow_rect, is_zero, send_update, after_send, try_update, display_update,
  fbhandler_on_all_transfer_done,
}
use rpusbdisp.Fb.Cases.{
  redrawn, marked, nothing, sends, Try-cases, unbound, refreshes, grows, Update-cases,
}
use rpusbdisp.Fb.System.{IsRegion, AllPixels}
use rpusbdisp.Fb.System.Bounded.{IsBounded, flag-IsBounded, full-IsBounded, grow-IsBounded}
use rpusbdisp.Fb.System.Invariant.{send_Left}
use rpusbdisp.Fb.System.Reachable.{whole_screen}
use rpusbdisp.Fb.System.Safety.{IsDisplay, display-IsWide, IsPool-of}
use rpusbdisp.Fb.Spec.{
  Message, image, fill, move, torn, left_over, Spec, Answer, succeeds, fails, message_of, settle,
  spec_try, spec_update, spec_work, Carries, one_more, spec_of,
}
use rpusbdisp.Fb.Spec.Sends.{Gone, Untouched, Unsent, send_Gone, send_Unsent, send_Holds}

-- The messages on the wire of a device, behind the wire `w`.
abbrev pub Log : Fixed → List (List ℕ) → List Message → List (List ℕ) → Type 0
Log g w ms wire = Carries g.max_size (leb feature_rle_fwversion g.version) w ms wire

-- The state after a step is that of the abstract screen.
pub record Refines (w : List (List ℕ)) (p' : Fb) (moved : Answer → Spec) : Type 0 where
  pub answer : Answer
  pub messages : List Message
  pub log : Log (fixed_of p'.device) w messages p'.device.wire
  pub spec : spec_of p' messages ≡ moved answer

module _ (usb_submit_urb : ℕ → Submit) (garbage : ℕ → ℕ) (memory : ℤ → ℕ) (w : List (List ℕ))
    (ms : List Message) where
  left-Log :
      (g : Fixed) (m : Message) (d e : Device) (urbs : List (List ℕ))
      → e.wire ≡ d.wire ++ urbs
      → Untouched m d e
      → Log g w ms d.wire
      → Log g w (ms ++ left_over m) e.wire
  left-Log g (image a ps) d e urbs k u log =
      subst (λ x. Log g w (ms ++ torn ∷ []) x) (sym k) (one_more torn urbs log tt)
  left-Log g (fill f) d e urbs k u log = rw append-nil (subst (λ x. Log g w ms x) (sym u) log)
  left-Log g (move c) d e urbs k u log = rw append-nil (subst (λ x. Log g w ms x) (sym u) log)
  left-Log g torn d e urbs k u log = rw append-nil (subst (λ x. Log g w ms x) (sym u) log)

  after_Refines :
      (m : Message) (p p' : Fb) (r : Res Device (Unit {0}))
      → Log (fixed_of p.device) w ms p.device.wire
      → Left p.device r
      → Holds
          (Quiet p.device.wire p.device.unsync_flag)
          (Failed p.device.wire p.device.unsync_flag)
          r
      → Gone p.device m r
      → Unsent p.device m r
      → after_send usb_submit_urb garbage memory p r ≡ ok tt p'
      → Refines w p' (λ a. settle a m (spec_of p ms))
  after_Refines m p p' (ok tt e) log l h g u q =
      let (urbs, grown, means) = g e refl in
      subst (λ x. Refines w x (λ a. settle a m (spec_of p ms))) (ok-injective q)
        (record {
          answer = succeeds;
          messages = ms ++ m ∷ [];
          log =
              subst (λ x. Log (fixed_of e) w (ms ++ m ∷ []) x) (sym grown)
                (subst (λ x. Log x w (ms ++ m ∷ []) (p.device.wire ++ urbs)) (sym l.1)
                  (one_more m urbs log means));
          spec = λ i. record {
            bound = p.binded_usbdev;
            alive = (ap (λ (x : Fixed). x.alive) l.1) i;
            handle = (ap (λ (x : Fixed). x.handle) l.1) i;
            countdown = h.flag i;
            dirty = clear_dirty_rect p.dirty_rect;
            sent = ms ++ m ∷ [];
          };
        })
  after_Refines m p p' (abort e) log l h g u q =
      subst (λ x. Refines w x (λ a. settle a m (spec_of p ms))) (ok-injective q)
        (elim h.flag [ inl same ↦ failed false same | inr out ↦ failed true out ])
    where
      failed :
          (marks : Bool)
          → e.unsync_flag ≡ (if marks then pos 1 else p.device.unsync_flag)
          → Refines w (record p { device = e }) (λ a. settle a m (spec_of p ms))
      failed marks f = record {
        answer = fails marks;
        messages = ms ++ left_over m;
        log =
            subst (λ x. Log x w (ms ++ left_over m) e.wire) (sym l.1)
              (left-Log (fixed_of p.device) m p.device e h.wire_grows.0 h.wire_grows.1 (u e refl)
                log);
        spec = λ i. record {
          bound = p.binded_usbdev;
          alive = (ap (λ (x : Fixed). x.alive) l.1) i;
          handle = (ap (λ (x : Fixed). x.handle) l.1) i;
          countdown = f i;
          dirty = p.dirty_rect;
          sent = ms ++ left_over m;
        };
      }
  after_Refines m p p' bug log l h g u q = cc
  after_Refines m p p' stuck log l h g u q = cc

  settled :
      (p' : Fb) (f g : Answer → Spec) → ((a : Answer) → f a ≡ g a) → Refines w p' f → Refines w p' g
  settled p' f g e r = record {
    answer = r.answer;
    messages = r.messages;
    log = r.log;
    spec = r.spec ∙ e r.answer;
  }

  stays :
      (p p' : Fb)
      → p ≡ p'
      → Log (fixed_of p.device) w ms p.device.wire
      → Refines w p' (λ _. spec_of p ms)
  stays p p' e log =
      subst (λ x. Refines w x (λ _. spec_of p ms)) e
        (record { answer = succeeds; messages = ms; log = log; spec = refl })

  module _ (k : AllPixels memory) where
    try_Refines :
        (hint : Hint) (clear_dirty : Bool) (p p' : Fb)
        → IsDisplay p.device
        → IsPool p.device
        → IsBounded p.dirty_rect
        → Log (fixed_of p.device) w ms p.device.wire
        → try_update usb_submit_urb garbage memory hint clear_dirty p ≡ ok tt p'
        → Refines w p' (λ a. spec_try memory a hint (spec_of p ms))
    unfolding spec_try
    try_Refines hint clear_dirty p p' s h b log q =
        elim (Try-cases usb_submit_urb garbage memory hint clear_dirty p) [
          | nothing e t ↦
              settled p' _ _ (λ a. sym (if_yes _ _ _ e)) (stays p p' (ok-injective (sym t ∙ q)) log)
          | sends e t ↦
              settled p' _ _ (λ a. sym (if_no _ _ _ e))
                (after_Refines (message_of memory hint p.dirty_rect) (marked p) p' _ log
                  (send_Left usb_submit_urb garbage memory k hint (marked p).dirty_rect clear_dirty
                    p.device (display-IsWide p.device s) h)
                  (send_Holds usb_submit_urb garbage memory k hint (marked p).dirty_rect clear_dirty
                    p.device s h)
                  (subst
                    (λ (m : Message). Gone p.device m (
                      send_update usb_submit_urb garbage memory hint (marked p).dirty_rect
                        clear_dirty p.device))
                    (same_message hint p.dirty_rect)
                    (send_Gone usb_submit_urb garbage memory k hint (marked p).dirty_rect
                      clear_dirty p.device s h (flag-IsBounded p.dirty_rect b) e))
                  (subst
                    (λ (m : Message). Unsent p.device m (
                      send_update usb_submit_urb garbage memory hint (marked p).dirty_rect
                        clear_dirty p.device))
                    (same_message hint p.dirty_rect)
                    (send_Unsent usb_submit_urb garbage memory k hint (marked p).dirty_rect
                      clear_dirty p.device s h))
                  (sym t ∙ q))
        ]
      where
        same_message :
            (hint : Hint) (r : DirtyRect)
            → message_of memory hint (record r { dirty_flag = true }) ≡ message_of memory hint r
        same_message hint_none r = refl
        same_message hint_bitblt r = refl
        same_message (hint_fillrect f) r = refl
        same_message (hint_copyarea c) r = refl

    pub update_Refines :
        (p p' : Fb) (x y width height : ℤ) (hint : Hint)
        → IsDisplay p.device
        → IsRegion x y width height
        → IsPool p.device
        → IsBounded p.dirty_rect
        → Log (fixed_of p.device) w ms p.device.wire
        → display_update usb_submit_urb garbage memory p x y width height hint ≡ ok tt p'
        → Refines w p' (λ a. spec_update memory a hint x y width height (spec_of p ms))
    unfolding spec_update
    update_Refines p p' x y width height hint s g h b log q =
        elim (Update-cases usb_submit_urb garbage memory p x y width height hint) [
          | unbound u t ↦
              settled p' _ _ (λ a. sym (if_unless _ _ _ u))
                (stays p p' (ok-injective (sym t ∙ q)) log)
          | refreshes u full t ↦
              settled p' _ _ (λ a. sym (if_not _ _ _ u ∙ if_yes _ _ _ full))
                (try_Refines hint true (redrawn p (full_rect p.dirty_rect)) p'
                  (record { packet = s.packet; packets = s.packets }) (IsPool-of p h)
                  (full-IsBounded p.dirty_rect) log (sym t ∙ q))
          | grows u grown t ↦
              settled p' _ _ (λ a. sym (if_not _ _ _ u ∙ if_no _ _ _ grown))
                (try_Refines hint false (redrawn p (grow_rect p.dirty_rect x y width height)) p'
                  (record { packet = s.packet; packets = s.packets }) (IsPool-of p h)
                  (grow-IsBounded p.dirty_rect x y width height b g) log (sym t ∙ q))
        ]

    pub work_Refines :
        (p p' : Fb)
        → IsDisplay p.device
        → IsPool p.device
        → IsBounded p.dirty_rect
        → Log (fixed_of p.device) w ms p.device.wire
        → fbhandler_on_all_transfer_done usb_submit_urb garbage memory p ≡ ok tt p'
        → Refines w p' (λ a. spec_work memory a (spec_of p ms))
    unfolding spec_work fbhandler_on_all_transfer_done
    work_Refines p p' s h b log q = elim (Bool-cases p.device.fb_handle) [
      | inr f ↦
          settled p' _ _ (λ a. sym (if_unless _ _ _ f))
            (stays p p' (ok-injective (sym (if_unless _ _ _ f) ∙ q)) log)
      | inl f ↦
          elim (Bool-cases (p.dirty_rect.dirty_flag || is_zero (p.device.unsync_flag -ℤ pos 1))) [
            | inr idle ↦
                settled p' _ _ (λ a. sym (if_not _ _ _ f ∙ if_no _ _ _ idle))
                  (stays p p' (ok-injective (sym (if_not _ _ _ f ∙ if_no _ _ _ idle) ∙ q)) log)
            | inl due ↦
                settled p' _ _ (λ a. sym (if_not _ _ _ f ∙ if_yes _ _ _ due))
                  (update_Refines p p' (pos 0) (pos 0) (pos default_width) (pos default_height)
                    hint_none s whole_screen h b log (sym (if_not _ _ _ f ∙ if_yes _ _ _ due) ∙ q))
          ]
    ]

-- ===== src/Fb/Spec/Refinement.antt =====
-- The framebuffer of fbhandlers.c with its device refines the screen of Fb.Spec.
use rpusbdisp.Common.{ℕ, ◌≡◌, List, [], ◌∷◌, ◌++◌}
use rpusbdisp.Usb.Device.{Device}
use rpusbdisp.Usb.Pool.Held.{fixed_of}
use rpusbdisp.Fb.{Fb}
use rpusbdisp.Fb.System.{Step, draws, works, completes, unsyncs, Reach, here, next}
use rpusbdisp.Fb.Spec.{Message, Answer, Event, drawn, worked, ended, lost, spec_step, spec_of}
use rpusbdisp.Fb.Spec.Updates.{Log}

-- The event that a step is.
abbrev pub event_of : {p p' : Fb} → Step p p' → Event
event_of (draws usb_submit_urb garbage memory x y width height hint k g h) =
    drawn memory hint x y width height
event_of (works usb_submit_urb garbage memory k h) = worked memory
event_of (completes t status l e) = ended status
event_of (unsyncs e) = lost

abbrev pub events_of : {start p : Fb} → Reach start p → List Event
events_of here = []
events_of (next r s) = events_of r ++ event_of s ∷ []

-- What a step has done: the move for its event, and the messages on the wire.
record Moved (w : List (List ℕ)) (ms : List Message) (p p' : Fb) (e : Event) : Type 0 where
  messages : List Message
  answer : Answer
  spec : spec_of p' messages ≡ spec_step e answer (spec_of p ms)
  log : Log (fixed_of p'.device) w messages p'.device.wire

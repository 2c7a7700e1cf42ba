-- ===== src/Sdk/Device/Status.antt =====
-- The thread that fetches the status of the display, `statusFetchingWorker_` of rpusbdisp.cc, and the
-- calls that go with it. What each transfer meets is a list of fetches, one for each round.
use rpusbdisp.Common.{
  ℕ, ◌≡◌, refl, ◌∙◌, ap, sym, Bool, true, false, not, List, [], ◌∷◌, ◌++◌, if◌then◌else◌,
  append-nil, append_assoc, if_yes, if_no,
}
use rpusbdisp.Usb.Status.{le32_at}
use rpusbdisp.Sdk.Device.{StatusPacket, Display, Result, returns, crashes, then_do}

-- One round: the transfer cannot be submitted or waited for, or it completes with the bytes of its buffer,
-- or it stalls, and libusb can clear the halt or not, or it ends in another way.
pub data Fetch : Type 0 where
  throws : Fetch
  completes : (ℕ → ℕ) → Fetch
  stalls : Bool → Fetch
  ends : Fetch

-- `decodeAs<rpusbdisp_status_normal_packet_t>`
unfoldable pub decode_as : (ℕ → ℕ) → StatusPacket
decode_as m = record {
  packet_type = m 0;
  display_status = m 1;
  touch_status = m 2;
  touch_x = le32_at m 3;
  touch_y = le32_at m 7;
}

-- `status_ = status`, and the callback.
abbrev pub set_status : StatusPacket → Display → Display
set_status packet d = record d {
  status = packet;
  updates = if d.status_updated_callback then d.updates ++ packet ∷ [] else d.updates;
}

-- One round of the loop; nothing catches what `clearEndpointHalt` throws, which ends the program.
unfoldable pub status_round : Fetch → Display → Result
status_round throws d = returns (record d { working = false })
status_round (completes m) d = returns (set_status (decode_as m) d)
status_round (stalls true) d = returns d
status_round (stalls false) d = crashes
status_round ends d = returns d

unfoldable pub status_fetching_worker : List Fetch → Display → Result
status_fetching_worker [] d = returns d
status_fetching_worker (p ∷ ps) d =
    if d.working then then_do (status_round p d) (status_fetching_worker ps) else returns d

-- The packets that arrive before a transfer cannot be submitted.
abbrev pub reports : List Fetch → List StatusPacket
reports [] = []
reports (throws ∷ ps) = []
reports (completes m ∷ ps) = decode_as m ∷ reports ps
reports (stalls b ∷ ps) = reports ps
reports (ends ∷ ps) = reports ps

abbrev pub has_thrown : List Fetch → Bool
has_thrown [] = false
has_thrown (throws ∷ ps) = true
has_thrown (completes m ∷ ps) = has_thrown ps
has_thrown (stalls b ∷ ps) = has_thrown ps
has_thrown (ends ∷ ps) = has_thrown ps

-- Every halt before that can be cleared.
abbrev pub AllClear : List Fetch → Type 0
AllClear [] = Unit
AllClear (throws ∷ ps) = Unit
AllClear (completes m ∷ ps) = AllClear ps
AllClear (stalls b ∷ ps) = (b ≡ true) × AllClear ps
AllClear (ends ∷ ps) = AllClear ps

abbrev pub newest : StatusPacket → List StatusPacket → StatusPacket
newest s [] = s
newest s (r ∷ rs) = newest r rs

-- What the display knows after some reports.
abbrev pub informed : List StatusPacket → Bool → Display → Display
informed rs thrown d = record d {
  status = newest d.status rs;
  updates = if d.status_updated_callback then d.updates ++ rs else d.updates;
  working = not thrown;
}

calls_nil : (b : Bool) (us : List StatusPacket) → (if b then us ++ [] else us) ≡ us
calls_nil true us = append-nil us
calls_nil false us = refl

calls_cons :
    (b : Bool) (us rs : List StatusPacket) (r : StatusPacket)
    → (let vs = if b then us ++ r ∷ [] else us in if b then vs ++ rs else vs)
      ≡ (if b then us ++ r ∷ rs else us)
calls_cons true us rs r = append_assoc us (r ∷ []) rs
calls_cons false us rs r = refl

stopped :
    (ps : List Fetch) (d : Display) → d.working ≡ false → status_fetching_worker ps d ≡ returns d
unfolding status_fetching_worker
stopped [] d w = refl
stopped (p ∷ ps) d w = if_no d.working _ _ w

no_news :
    (d : Display) (b : Bool) → returns (record d { working = b }) ≡ returns (informed [] (not b) d)
no_news d true = sym (
    ap (λ u. returns (record d { working = true; updates = u }))
      (calls_nil d.status_updated_callback d.updates))
no_news d false = sym (
    ap (λ u. returns (record d { working = false; updates = u }))
      (calls_nil d.status_updated_callback d.updates))

-- While the thread works and every halt can be cleared: whatever the transfers meet, the status is the
-- last that arrived before one could not be submitted, the callback was called with each of them in
-- order, the thread works on exactly if all were submitted, and nothing else has changed.
pub status_fetching_lem :
    (ps : List Fetch) (d : Display)
    → d.working ≡ true
    → AllClear ps
    → status_fetching_worker ps d ≡ returns (informed (reports ps) (has_thrown ps) d)
unfolding status_fetching_worker status_round
status_fetching_lem [] d w c = ap (λ b. returns (record d { working = b })) w ∙ no_news d true
status_fetching_lem (throws ∷ ps) d w c =
    if_yes d.working _ _ w ∙ stopped ps (record d { working = false }) refl ∙ no_news d false
status_fetching_lem (completes m ∷ ps) d w c =
    if_yes d.working _ _ w
    ∙ status_fetching_lem ps (set_status (decode_as m) d) w c
    ∙ ap
        (λ u. returns (record d {
          status = newest (decode_as m) (reports ps);
          updates = u;
          working = not (has_thrown ps);
        }))
        (calls_cons d.status_updated_callback d.updates (reports ps) (decode_as m))
status_fetching_lem (stalls true ∷ ps) d w c =
    if_yes d.working _ _ w ∙ status_fetching_lem ps d w c.1
status_fetching_lem (stalls false ∷ ps) d w c = cc c.0
status_fetching_lem (ends ∷ ps) d w c = if_yes d.working _ _ w ∙ status_fetching_lem ps d w c

-- ===== src/Usb/Status/Polling.antt =====
-- The polling of the display: what the end of a status query does, in every case.
use rpusbdisp.Common.{
  ℕ, ◌+◌, ◌≡◌, refl, ap, bit_and, Bool, true, false, not, ◌&&◌, ltb, ◌==◌, ◌||◌, if◌then◌else◌,
  arith,
}
use rpusbdisp.Common.Int.{pos}
use rpusbdisp.Protocol.{status_type_normal, display_status_dirty_flag, status_query_retry_count}
use rpusbdisp.Usb.Device.{Submit, accepted, refused, fbhandler_set_unsync_flag}
use rpusbdisp.Usb.Status.{
  Poll, epipe, on_parse_status_packet, on_status_query_finished, status_start_querying,
  submit_query,
}

abbrev pub takes : Submit → Bool
takes accepted = true
takes (refused status) = false

-- Whether the bus answers with -EPIPE.
abbrev pub stalls : Submit → Bool
stalls accepted = false
stalls (refused status) = status == epipe

-- What a query does to the state `s` of the polling; it is submitted if `goes`.
record Started (goes : Bool) (answer : Submit) (s t : Poll) : Type 0 where
  querying : t.querying ≡ (s.querying || (goes && takes answer))
  errors :
      t.urb_status_fail_count
      ≡ s.urb_status_fail_count + (if goes && not (takes answer) then 1 else 0)
  cleared : t.halts_cleared ≡ s.halts_cleared + (if goes && stalls answer then 1 else 0)
  woken : t.wakeups ≡ s.wakeups
  device : t.device ≡ s.device

submit_lem : (a : Submit) (s : Poll) → Started true a s (submit_query a s)
submit_lem accepted s = record {
  querying = ground arith;
  errors = omega arith;
  cleared = omega arith;
  woken = refl;
  device = refl;
}
submit_lem (refused status) s = record {
  querying = ground arith;
  errors = omega arith;
  cleared = ground arith;
  woken = refl;
  device = refl;
}

-- Whether `_status_start_querying` submits the query.
abbrev may_query : Bool → Poll → Bool
may_query ep s = s.device.is_alive && ltb s.urb_status_fail_count status_query_retry_count && ep

start_lem :
    (ep : Bool) (answer : Submit) (s : Poll)
    → Started (may_query ep s) answer s (status_start_querying ep answer s)
unfolding status_start_querying
start_lem ep answer s =
    let u = submit_lem answer s in
    record {
      querying = ground (arith, u.querying);
      errors = ground (arith, u.errors);
      cleared = ground (arith, u.cleared);
      woken = ground (arith, u.woken);
      device = ground (arith, u.device);
    }

-- Whether the packet says that the display lost its contents.
abbrev pub is_dirty : Poll → Bool
is_dirty s =
    (s.status_in_buffer 0 == status_type_normal)
    && not (bit_and (s.status_in_buffer 1) display_status_dirty_flag == 0)

-- What `_on_parse_status_packet` keeps, and the work that it schedules.
record Parsed (s t : Poll) : Type 0 where
  querying : t.querying ≡ s.querying
  errors : t.urb_status_fail_count ≡ s.urb_status_fail_count
  alive : t.device.is_alive ≡ s.device.is_alive
  cleared : t.halts_cleared ≡ s.halts_cleared
  woken : t.wakeups ≡ s.wakeups
  work : t.device.completion_work ≡ (s.device.completion_work || is_dirty s)
  unsync :
      t.device.unsync_flag
      ≡ (if is_dirty s && s.device.fb_handle then pos 1 else s.device.unsync_flag)

parse_lem : (s : Poll) → Parsed s (on_parse_status_packet s)
unfolding on_parse_status_packet fbhandler_set_unsync_flag
parse_lem s = record {
  querying = ground arith;
  errors = ground arith;
  alive = ground arith;
  cleared = ground arith;
  woken = ground arith;
  work = ground arith;
  unsync = ground arith;
}

-- What the end of a query does to the state `s` of the polling.
pub record Finished (status : ℕ) (ep : Bool) (answer : Submit) (s t : Poll) : Type 0 where
  pub querying : t.querying ≡ (
      s.device.is_alive
      && (status == 0)
      && ltb s.urb_status_fail_count status_query_retry_count
      && ep
      && takes answer)
  pub woken : t.wakeups ≡ s.wakeups + (if s.device.is_alive && (status == 0) then 1 else 0)
  pub work :
      t.device.completion_work
      ≡ (s.device.completion_work || (s.device.is_alive && (status == 0) && is_dirty s))
  pub unsync : t.device.unsync_flag ≡ (
      if s.device.is_alive && (status == 0) && is_dirty s && s.device.fb_handle
      then pos 1
      else s.device.unsync_flag)
  pub errors : t.urb_status_fail_count ≡ (
      if s.device.is_alive
      then if status == 0
        then if ltb s.urb_status_fail_count status_query_retry_count && ep && not (takes answer)
          then s.urb_status_fail_count + 1
          else s.urb_status_fail_count
        else status_query_retry_count
      else s.urb_status_fail_count)
  pub cleared :
      t.halts_cleared
      ≡ s.halts_cleared
        + (if s.device.is_alive
              && (status == 0)
              && ltb s.urb_status_fail_count status_query_retry_count
              && ep
              && stalls answer
            then 1
            else 0)

-- When a query is finished, another one is on the bus exactly if the device is alive, the query
-- succeeded, fewer than four errors were counted, the endpoint is found and the bus takes the URB; the
-- waiters are woken exactly if the device is alive and the query succeeded, and if its packet then says
-- that the display is dirty, the work is scheduled and a bound framebuffer marked; a query that failed
-- counts as four errors, and a URB that is refused as one; the halt of the endpoint is cleared exactly if the
-- next URB is refused with -EPIPE.
pub status_query_lem :
    (status actual_length : ℕ) (ep : Bool) (answer : Submit) (s : Poll)
    → s.querying ≡ false
    → Finished status ep answer s (on_status_query_finished status actual_length ep answer s)
unfolding on_status_query_finished
status_query_lem status actual_length ep answer s h =
    let r = record s { status_in_buffer_recvsize = actual_length } in
    let k = parse_lem r in
    let p = on_parse_status_packet r in
    let q = start_lem ep answer (record p { wakeups = p.wakeups + 1 }) in
    record {
      querying = ground (arith, h, k.querying, k.errors, k.alive, q.querying);
      woken = ground (arith, k.errors, k.woken, q.woken);
      work = ground (arith, k.errors, k.work, ap (λ d. d.completion_work) q.device);
      unsync = ground (arith, k.errors, k.unsync, ap (λ d. d.unsync_flag) q.device);
      errors = ground (arith, k.errors, k.alive, q.errors);
      cleared = ground (arith, k.errors, k.alive, k.cleared, q.cleared);
    }

-- ===== src/Usb/Tickets/Release.antt =====
-- When the loop of `_on_release_disp_tickets_pool` of usbhandlers.c ends.
use rpusbdisp.Common.{
  ℕ, zero, suc, ◌+◌, ◌≤◌, ◌<◌, ◌≡◌, refl, ap, inl, inr, List, [], ◌∷◌, ◌++◌, none, some, take,
  length, ◌==◌, arith, Bool-cases, length-append, length-drop, length-take, ==→ne, ne→==,
}
use rpusbdisp.Common.Memory.{update}
use rpusbdisp.Usb.Device.{Device}
use rpusbdisp.Usb.Tickets.{
  Wakeup, completes, times_out, wake, complete, remove, free_first, release_rounds,
}
use rpusbdisp.Usb.Tickets.Ownership.{IsCounted, finished}

-- The tickets that come back in a list of events.
abbrev pub completions : List Wakeup → ℕ
completions [] = 0
completions (completes t status ∷ events) = suc (completions events)
completions (times_out ∷ events) = completions events

abbrev wakes : Wakeup → ℕ
wakes (completes t status) = 1
wakes times_out = 0

completions_cons :
    (e : Wakeup) (events : List Wakeup) → completions (e ∷ events) ≡ wakes e + completions events
completions_cons (completes t status) events = omega arith
completions_cons times_out events = omega arith

wake_counts :
    (e : Wakeup) (d : Device)
    → IsCounted d
    → IsCounted (wake e d) × ((wake e d).availiable_count ≡ d.availiable_count + wakes e)
unfolding wake complete
wake_counts (completes t status) d c =
    let f =
      finished
        (record d { in_flight = remove t d.in_flight; urb_status = update d.urb_status t status })
        t in
    (omega (arith, f.number, ap length f.pool, length-append d.tickets (t ∷ []), c), f.number)
wake_counts times_out d c = (c, omega arith)

free_counts :
    (d : Device)
    → IsCounted d
    → 1 ≤ d.availiable_count
    → IsCounted (free_first d) × (length (take 1 d.tickets) ≡ 1)
free_counts d c h =
    (omega (arith, length-drop 1 d.tickets, c), length-take 1 d.tickets (omega (arith, c)))

-- If the count is the pool's, and as many tickets are in the pool or come back as the loop has to free,
-- the loop ends and has freed that many.
pub release_rounds_ends :
    (n : ℕ) (events : List Wakeup) (d : Device) (freed : List ℕ)
    → IsCounted d
    → n ≤ d.availiable_count + completions events
    → (d' : Device) × (all : List ℕ) × (release_rounds n events d freed ≡ some (d', all))
      × (length all ≡ length freed + n)
unfolding release_rounds
release_rounds_ends zero events d freed c h = (d, freed, refl, omega arith)
release_rounds_ends (suc n) [] d freed c h =
    let k = free_counts d c (omega arith) in
    let (d', all, e, l) =
      release_rounds_ends n [] (free_first d) (freed ++ take 1 d.tickets) k.0 (omega arith) in
    (
      d',
      all,
      rw (ne→== d.availiable_count 0 (omega arith)) e,
      omega (arith, length-append freed (take 1 d.tickets), k.1),
    )
release_rounds_ends (suc n) (e ∷ events) d freed c h = elim (Bool-cases (d.availiable_count == 0)) [
  | inl none_left ↦
      let w = wake_counts e d c in
      let (d', all, q, l) =
        release_rounds_ends (suc n) events (wake e d) freed w.0
          (omega (arith, w.1, completions_cons e events)) in
      (d', all, rw none_left q, l)
  | inr left ↦
      let k = free_counts d c (omega (arith, ==→ne _ _ left)) in
      let (d', all, q, l) =
        release_rounds_ends n (e ∷ events) (free_first d) (freed ++ take 1 d.tickets) k.0
          (omega arith) in
      (d', all, rw left q, omega (arith, length-append freed (take 1 d.tickets), k.1))
]

-- If the count is the pool's, and fewer tickets are in the pool or come back than the loop has to free,
-- it still waits when all events have passed.
pub release_rounds_waits :
    (n : ℕ) (events : List Wakeup) (d : Device) (freed : List ℕ)
    → IsCounted d
    → d.availiable_count + completions events < n
    → release_rounds n events d freed ≡ none
unfolding release_rounds
release_rounds_waits zero events d freed c h = absurd (omega arith)
release_rounds_waits (suc n) [] d freed c h = elim (Bool-cases (d.availiable_count == 0)) [
  | inl none_left ↦ rw none_left
  | inr left ↦ rw left (
      release_rounds_waits n [] (free_first d) (freed ++ take 1 d.tickets)
        (free_counts d c (omega (arith, ==→ne _ _ left))).0 (omega (arith, ==→ne _ _ left)))
]
release_rounds_waits (suc n) (e ∷ events) d freed c h =
    elim (Bool-cases (d.availiable_count == 0)) [
      | inl none_left ↦
          let w = wake_counts e d c in
          rw none_left (
            release_rounds_waits (suc n) events (wake e d) freed w.0
              (omega (arith, w.1, completions_cons e events)))
      | inr left ↦ rw left (
          release_rounds_waits n (e ∷ events) (free_first d) (freed ++ take 1 d.tickets)
            (free_counts d c (omega (arith, ==→ne _ _ left))).0 (omega (arith, ==→ne _ _ left)))
    ]

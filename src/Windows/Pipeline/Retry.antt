-- ===== src/Windows/Pipeline/Retry.antt =====
-- `SendIoctlWithRetry` of Pipeline.cpp: which chunks arrive, and how long it may take.
use rpusbdisp.Common.{
  ℕ, zero, suc, ◌+◌, ◌≤◌, ◌≡◌, refl, ◌∙◌, inl, inr, Bool, false, ◌&&◌, ◌||◌, List, [], ◌∷◌, ◌++◌,
  leb, ◌==◌, if◌then◌else◌, arith, Bool-cases, if_yes, if_no,
}
use rpusbdisp.Windows.Transport.{Chunk, Transport, count_chunk, push_frame_chunk}
use rpusbdisp.Windows.Pipeline.{
  Attempt, Pipeline, next_delay, send_round, send_rounds, send_ioctl_with_retry,
}

-- A chunk that the transport driver does not refuse.
abbrev pub IsValid : Chunk → Type 0
IsValid c =
    (c.chunk_header.chunk_bytes == 0
      || c.chunk_header.total_chunks == 0
      || leb c.chunk_header.total_chunks c.chunk_header.chunk_index)
    ≡ false

-- The transport driver when the pipe has taken a chunk.
abbrev pub taken : Chunk → Transport → Transport
taken c t = record t {
  statistics = count_chunk c.chunk_header t.statistics;
  wire = t.wire ++ c ∷ [];
}

-- Whether an attempt gets the chunk to the pipe, with the target open or not.
abbrev pub delivers : Bool → Attempt → Bool
delivers target a = (target || a.opens) && (a.reaches && (a.retrieved && a.written))

-- Whether one of the attempts from `n` on does; the target is open at most for the first.
abbrev pub some_delivers : (ℕ → Attempt) → ℕ → Bool → ℕ → Bool
some_delivers env zero target n = false
some_delivers env (suc left) target n =
    delivers target (env n) || some_delivers env left false (n + 1)

abbrev pub sum : List ℕ → ℕ
sum [] = 0
sum (x ∷ xs) = x + sum xs

sum-append : (xs ys : List ℕ) → sum (xs ++ ys) ≡ sum xs + sum ys
sum-append [] ys = omega arith
sum-append (x ∷ xs) ys = omega (arith, sum-append xs ys)

-- The most that the rounds wait, from one that would wait `delay`.
abbrev longest : ℕ → ℕ → ℕ
longest zero delay = 0
longest (suc left) delay = (if left == 0 then 0 else delay) + longest left (next_delay delay)

module _ (env : ℕ → Attempt) (c : Chunk) (v : IsValid c) where
  -- What one round does.
  record Round (left delay : ℕ) (p : Pipeline) : Type 0 where
    result : (send_round env left delay c p).0 ≡ delivers p.transport_target (env p.attempts)
    transport : (send_round env left delay c p).1.transport ≡ (
        if delivers p.transport_target (env p.attempts) then taken c p.transport else p.transport)
    counted : (send_round env left delay c p).1.attempts ≡ p.attempts + 1
    closed :
        (send_round env left delay c p).0 ≡ false
        → (send_round env left delay c p).1.transport_target ≡ false
    waits :
        sum (send_round env left delay c p).1.delays
        ≤ sum p.delays + (if left == 0 then 0 else delay)

  round_lem : (left delay : ℕ) (p : Pipeline) → Round left delay p
  unfolding send_round push_frame_chunk
  round_lem left delay p = record {
    result = ground (arith, v);
    transport = ground (arith, v);
    counted = ground (arith, v);
    closed = ground (arith, v);
    waits = ground (arith, v, sum-append p.delays (delay ∷ []));
  }

  -- What all rounds do.
  record Tried (left delay : ℕ) (p : Pipeline) : Type 0 where
    result :
        (send_rounds env left delay c p).0 ≡ some_delivers env left p.transport_target p.attempts
    transport : (send_rounds env left delay c p).1.transport ≡ (
        if some_delivers env left p.transport_target p.attempts
        then taken c p.transport
        else p.transport)
    counted : (send_rounds env left delay c p).1.attempts ≤ p.attempts + left
    waits : sum (send_rounds env left delay c p).1.delays ≤ sum p.delays + longest left delay

  tried_lem : (left delay : ℕ) (p : Pipeline) → Tried left delay p
  unfolding send_rounds
  tried_lem zero delay p = record {
    result = refl;
    transport = refl;
    counted = omega arith;
    waits = omega arith;
  }
  tried_lem (suc left) delay p =
      let r = round_lem left delay p in
      let q = (send_round env left delay c p).1 in
      let ih = tried_lem left (next_delay delay) q in
      elim (Bool-cases (delivers p.transport_target (env p.attempts))) [
        | inl good ↦
            let e = r.result ∙ good in
            record {
              result = rw (e, good);
              transport = rw (e, good) (r.transport ∙ if_yes _ _ _ good);
              counted = rw e (omega (arith, r.counted));
              waits = rw e (omega (arith, r.waits));
            }
        | inr bad ↦
            let e = r.result ∙ bad in
            let kept = r.transport ∙ if_no _ _ _ bad in
            record {
              result = rw (e, bad) (ih.result ∙ rw (r.closed e, r.counted));
              transport = rw (e, bad) (ih.transport ∙ rw (r.closed e, r.counted, kept));
              counted = rw e (omega (arith, r.counted, ih.counted));
              waits = rw e (omega (arith, r.waits, ih.waits));
            }
      ]

-- What `SendIoctlWithRetry` does with the chunk `c`.
pub record Retried (env : ℕ → Attempt) (c : Chunk) (p : Pipeline) (r : Bool × Pipeline)
    : Type 0 where
  pub result : r.0 ≡ some_delivers env 4 p.transport_target p.attempts
  pub transport : r.1.transport ≡ (if r.0 then taken c p.transport else p.transport)
  pub counted : r.1.attempts ≤ p.attempts + 4
  pub waits : sum r.1.delays ≤ sum p.delays + 700

-- For a chunk that the transport driver does not refuse: it succeeds exactly if one of four attempts
-- gets the chunk to the pipe, where only the first may find the target open; the chunk is then on the
-- wire once, and else the transport driver is as before. There are at most four attempts, and they wait
-- for at most 700 ms.
pub send_ioctl_with_retry_lem :
    (env : ℕ → Attempt) (c : Chunk) (p : Pipeline)
    → IsValid c
    → Retried env c p (send_ioctl_with_retry env c p)
unfolding send_ioctl_with_retry
send_ioctl_with_retry_lem env c p v =
    let t = tried_lem env c v 4 100 p in
    record {
      result = t.result;
      transport = rw t.result t.transport;
      counted = t.counted;
      waits = t.waits;
    }

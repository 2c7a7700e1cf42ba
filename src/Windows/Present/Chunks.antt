-- ===== src/Windows/Present/Chunks.antt =====
-- The chunks of a frame in Pipeline.cpp: together they are the frame, and what arrives of them.
use rpusbdisp.Common.{
  ℕ, zero, suc, ◌+◌, ◌-◌, ◌*◌, ◌/◌, ◌%◌, ◌^◌, ◌≤◌, ◌<◌, ◌≡◌, refl, ◌∙◌, ap, sym, inl, inr, Bool,
  true, false, List, [], ◌∷◌, ◌++◌, take, drop, length, ltb, ◌==◌, if◌then◌else◌, arith, Bool-cases,
  if_yes, if_no, append-nil, append_assoc, flat_map, flat_map-append, ne→==, length-drop, ltb→lt,
}
use rpusbdisp.Windows.Transport.{Chunk, Transport, Statistics, count_chunk}
use rpusbdisp.Windows.Pipeline.{Attempt, Pipeline, send_ioctl_with_retry}
use rpusbdisp.Windows.Pipeline.Retry.{IsValid, send_ioctl_with_retry_lem}
use rpusbdisp.Windows.Present.{chunk_data_size, Frame, chunks_of, make_chunk, send_chunks}

-- The first `n` chunks of a frame.
abbrev pub first_chunks : Frame → ℕ → List Chunk
first_chunks f zero = []
first_chunks f (suc n) = first_chunks f n ++ make_chunk f n ∷ []

take_more : {A : Type 0} (a b : ℕ) (xs : List A) → take a xs ++ take b (drop a xs) ≡ take (a + b) xs
take_more zero b xs = let e : 0 + b ≡ b = omega arith in rw e refl
take_more (suc a) zero [] = let e : suc a + 0 ≡ suc (a + 0) = omega arith in rw e refl
take_more (suc a) (suc b) [] = let e : suc a + suc b ≡ suc (a + suc b) = omega arith in rw e refl
take_more (suc a) b (x ∷ xs) =
    let e : suc a + b ≡ suc (a + b) = omega arith in rw e (ap (◌∷◌ x) (take_more a b xs))

take_all : {A : Type 0} (n : ℕ) (xs : List A) → length xs ≤ n → take n xs ≡ xs
take_all zero [] h = refl
take_all zero (x ∷ xs) h = absurd (omega arith)
take_all (suc n) [] h = refl
take_all (suc n) (x ∷ xs) h = ap (◌∷◌ x) (take_all n xs (omega arith))

-- A frame with some bytes, as many as its header says, and few enough for a UINT32.
pub record IsFrame (f : Frame) : Type 0 where
  pub some_bytes : 1 ≤ f.payload_bytes
  pub bounded : f.payload_bytes + chunk_data_size < 2 ^ 32
  pub counted : length f.pixel_data ≡ f.payload_bytes

module _ (f : Frame) (w : IsFrame f) where
  size_of : ℕ → ℕ
  size_of n =
      if ltb (f.payload_bytes - n * chunk_data_size) chunk_data_size
      then f.payload_bytes - n * chunk_data_size
      else chunk_data_size

  content_lem :
      (n : ℕ)
      → n < chunks_of f.payload_bytes
      → ((make_chunk f n).chunk_header.chunk_bytes ≡ size_of n)
        × ((make_chunk f n).content ≡ take (size_of n) (drop (n * chunk_data_size) f.pixel_data))
  unfolding make_chunk size_of
  content_lem n h =
      let o : (n * chunk_data_size) % 2 ^ 32 ≡ n * chunk_data_size = omega (arith, w.bounded) in
      let r : (f.payload_bytes + 2 ^ 32 - n * chunk_data_size) % 2 ^ 32
          ≡ f.payload_bytes - n * chunk_data_size =
        omega (arith, w.bounded) in
      let e : n * chunk_data_size / 2 * 2 ≡ n * chunk_data_size = omega arith in
      rw (o, r, e) (refl, refl)

  size_take :
      (n : ℕ)
      → take (size_of n) (drop (n * chunk_data_size) f.pixel_data)
        ≡ take chunk_data_size (drop (n * chunk_data_size) f.pixel_data)
  unfolding size_of
  size_take n = elim (Bool-cases (ltb (f.payload_bytes - n * chunk_data_size) chunk_data_size)) [
    | inr whole ↦ rw whole
    | inl part ↦
        let rest = drop (n * chunk_data_size) f.pixel_data in
        let len : length rest ≡ f.payload_bytes - n * chunk_data_size =
          omega (arith, length-drop (n * chunk_data_size) f.pixel_data, w.counted) in
        rw part (
          take_all _ rest (omega (arith, len))
          ∙ sym (take_all chunk_data_size rest (omega (arith, len, ltb→lt _ _ part))))
  ]

  -- The first chunks hold the first bytes of the frame.
  pub covered :
      (n : ℕ)
      → n ≤ chunks_of f.payload_bytes
      → flat_map (λ c. c.content) (first_chunks f n) ≡ take (n * chunk_data_size) f.pixel_data
  covered zero h = refl
  covered (suc n) h =
      let e : suc n * chunk_data_size ≡ n * chunk_data_size + chunk_data_size = omega arith in
      flat_map-append (λ c. c.content) (first_chunks f n) (make_chunk f n ∷ [])
      ∙ rw (covered n (omega arith), append-nil, (content_lem n (omega arith)).1, size_take n, e)
          (take_more (n * chunk_data_size) chunk_data_size f.pixel_data)

  -- All chunks together hold the frame.
  pub all_covered :
      flat_map (λ c. c.content) (first_chunks f (chunks_of f.payload_bytes)) ≡ f.pixel_data
  all_covered =
      covered (chunks_of f.payload_bytes) (omega arith)
      ∙ take_all _ f.pixel_data (omega (arith, w.counted, w.bounded))

  header_lem :
      (n : ℕ)
      → ((make_chunk f n).chunk_header.chunk_index ≡ n)
        × ((make_chunk f n).chunk_header.total_chunks ≡ chunks_of f.payload_bytes)
        × ((make_chunk f n).chunk_header.total_bytes ≡ f.payload_bytes)
  unfolding make_chunk
  header_lem n = (refl, refl, refl)

  make_chunk-IsValid : (n : ℕ) → n < chunks_of f.payload_bytes → IsValid (make_chunk f n)
  unfolding size_of
  make_chunk-IsValid n h =
      let t = header_lem n in
      let c = (content_lem n h).0 in rw (c, t.0, t.1) (ground (arith, w.bounded))

  -- The counters after a frame.
  abbrev pub counted : Statistics → Statistics
  counted s = record {
    frames_submitted = (s.frames_submitted + 1) % 2 ^ 64;
    bytes_transferred = (s.bytes_transferred + f.payload_bytes) % 2 ^ 64;
  }

  -- The last chunk counts the frame, and no other does.
  count_lem :
      (left n : ℕ) (s : Statistics)
      → n + suc left ≡ chunks_of f.payload_bytes
      → count_chunk (make_chunk f n).chunk_header s ≡ (if left == 0 then counted s else s)
  count_lem left n s e =
      let t = header_lem n in
      let m : (chunks_of f.payload_bytes + 2 ^ 32 - 1) % 2 ^ 32 ≡ n + left =
        omega (arith, w.bounded) in
      rw (t.0, t.1, t.2, m) (ground arith)

  -- What has arrived of the frame, behind what was there before.
  abbrev pub Arrived : Transport → Bool × Pipeline → Type 0
  Arrived t (true, q) =
      (q.transport.wire ≡ t.wire ++ first_chunks f (chunks_of f.payload_bytes))
      × (q.transport.statistics ≡ counted t.statistics)
  Arrived t (false, q) =
      (k : ℕ) × (k < chunks_of f.payload_bytes)
      × (q.transport.wire ≡ t.wire ++ first_chunks f k)
      × (q.transport.statistics ≡ t.statistics)

  module _ (env : ℕ → Attempt) (allocates : ℕ → Bool) (t : Transport) where
    loop :
        (left n : ℕ) (p : Pipeline)
        → n + left ≡ chunks_of f.payload_bytes
        → p.transport.wire ≡ t.wire ++ first_chunks f n
        → p.transport.statistics ≡ (if left == 0 then counted t.statistics else t.statistics)
        → Arrived t (send_chunks env allocates f left n p)
    unfolding send_chunks
    loop zero n p e wire stats =
        let m : n ≡ chunks_of f.payload_bytes = omega arith in
        (wire ∙ ap (λ k. t.wire ++ first_chunks f k) m, stats)
    loop (suc left) n p e wire stats =
        let less : n < chunks_of f.payload_bytes = omega arith in
        let old = stats ∙ if_no (suc left == 0) _ _ (ne→== (suc left) 0 (omega arith)) in
        let next : suc n ≡ n + 1 = omega arith in
        let r = send_ioctl_with_retry env (make_chunk f n) p in
        let b = send_ioctl_with_retry_lem env (make_chunk f n) p (make_chunk-IsValid n less) in
        elim (Bool-cases (allocates n)) [
          | inr none_left ↦ rw none_left (n, less, wire, old)
          | inl there ↦ elim (Bool-cases r.0) [
            | inr lost ↦
                let kept = b.transport ∙ if_no _ _ _ lost in
                rw (there, lost) (n, less, rw kept wire, rw kept old)
            | inl sent ↦
                let gone = b.transport ∙ if_yes _ _ _ sent in
                rw (there, sent)
                  (loop left (n + 1) r.1 (omega arith)
                    (ap (λ x. x.wire) gone
                      ∙ ap (λ v. v ++ make_chunk f n ∷ []) wire
                      ∙ append_assoc t.wire (first_chunks f n) (make_chunk f n ∷ [])
                      ∙ ap (λ k. t.wire ++ first_chunks f k) next)
                    (ap (λ x. x.statistics) gone
                      ∙ count_lem left n p.transport.statistics e
                      ∙ ap (λ v. if left == 0 then counted v else v) old))
          ]
        ]

    pub all_sent :
        (p : Pipeline)
        → p.transport ≡ t
        → Arrived t (send_chunks env allocates f (chunks_of f.payload_bytes) 0 p)
    all_sent p e =
        loop (chunks_of f.payload_bytes) 0 p (omega arith)
          (ap (λ x. x.wire) e ∙ sym (append-nil t.wire))
          (ap (λ x. x.statistics) e
            ∙ sym (
                if_no (chunks_of f.payload_bytes == 0) _ _
                  (ne→== (chunks_of f.payload_bytes) 0 (omega (arith, w.some_bytes, w.bounded)))))

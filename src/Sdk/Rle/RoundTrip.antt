-- ===== src/Sdk/Rle/RoundTrip.antt =====
-- The SDK's encoder writes sections that are read back as the pixels, as those of the driver are.
use rpusbdisp.Common.{
  ℕ, ◌+◌, ◌-◌, ◌<◌, ◌≤◌, ◌≡◌, refl, ◌∙◌, sym, ap, subst, inl, inr, List, [], ◌∷◌, ◌++◌, append-nil,
  append_assoc, length, length-append, ◌==◌, arith, All, All-append, All-left, All-right,
  Bool-cases, ==→eq, ==→ne, flat_map, replicate,
}
use rpusbdisp.Protocol.{le16}
use rpusbdisp.Usb.Rle.Decode.{IsPixel, Reads, Reads-nil, Reads-append, plain_section}
use rpusbdisp.Sdk.Rle.{
  Output, new_section, but_last, extend_plain, add_pixel, add_pixels, rle_compress,
}
use rpusbdisp.Sdk.Rle.Holds.{
  plain, common, Holds, Section, but_last-append, common_Holds, grows, high_common, high_plain,
  opens, output_bytes-Reads, two_more,
}

-- The first two pixels of a section are equal.
pair :
    (o : Output) (init : List ℕ) (p : ℕ)
    → p ≡ o.last_pixel_value
    → o.pixels ≡ init ++ o.last_pixel_value ∷ []
    → 0 ≡ length init
    → Section (record o { header = 0x81 }) ((init ++ o.last_pixel_value ∷ []) ++ p ∷ [])
pair o [] p q e z =
    subst (Section (record o { header = 0x81 })) (two_more 0 p o.last_pixel_value q)
      (common 1 e refl (omega arith))
pair o (x ∷ init) p q e z = absurd (omega arith)

module _ (o : Output) (given : List ℕ) (p : ℕ) (init : List ℕ) (h : Holds o given)
    (a : All IsPixel given) (e : o.pixels ≡ init ++ o.last_pixel_value ∷ [])
    (hk : o.header ≡ length init) (l : o.header < 128)
    (n : h.now ≡ init ++ o.last_pixel_value ∷ []) where
  -- The last pixel leaves its section and begins a common one.
  forms :
      p ≡ o.last_pixel_value
      → 1 ≤ o.header
      → Holds
          (new_section (record o { header = o.header - 1; pixels = but_last o.pixels }) 0x81 p)
          (given ++ p ∷ [])
  forms q some_left =
      let b : All IsPixel (h.before ++ h.now) = rw h.all a in
      let c : All IsPixel h.now = All-right IsPixel h.before h.now b in
      let ps = All-left IsPixel init (o.last_pixel_value ∷ []) (subst (All IsPixel) n c) in
      let kept : but_last o.pixels ≡ init =
        ap but_last e ∙ but_last-append init o.last_pixel_value in
      record {
        before = h.before ++ init;
        now = replicate 2 o.last_pixel_value;
        reads = Reads-append h.reads (
            subst (λ v. Reads ((o.header - 1) ∷ flat_map le16 v) init) (sym kept)
              (plain_section (o.header - 1) init (omega arith) (omega (arith, hk)) ps));
        open_section = common 1 (ap (λ x. x ∷ []) q) refl (omega arith);
        all =
            append_assoc h.before init (replicate 2 o.last_pixel_value)
            ∙ ap (λ v. h.before ++ v)
                (ap (λ v. init ++ v) (ap (λ x. o.last_pixel_value ∷ x ∷ []) (sym q))
                  ∙ sym (append_assoc init (o.last_pixel_value ∷ []) (p ∷ [])))
            ∙ sym (append_assoc h.before (init ++ o.last_pixel_value ∷ []) (p ∷ []))
            ∙ ap (λ v. (h.before ++ v) ++ p ∷ []) (sym n)
            ∙ ap (λ v. v ++ p ∷ []) h.all;
      }

  plain_Holds : Holds (extend_plain o p) (given ++ p ∷ [])
  unfolding extend_plain
  plain_Holds = elim (Bool-cases (p == o.last_pixel_value)) [
    | inl same ↦
        let q = ==→eq p o.last_pixel_value same in
        elim (Bool-cases (o.header == 0)) [
          | inl first ↦
              rw (same, first)
                (grows o (record o { header = 0x81 }) given (init ++ o.last_pixel_value ∷ []) p h n
                  refl (pair o init p q e (omega (arith, hk, ==→eq o.header 0 first))))
          | inr later ↦ rw (same, later) (forms q (omega (arith, ==→ne o.header 0 later)))
        ]
    | inr other ↦ elim (Bool-cases (o.header == 0x7f)) [
      | inl full ↦ rw (other, full) (opens o _ given p h a refl (plain [] refl refl (omega arith)))
      | inr room ↦
          rw (other, room)
            (grows o
              (record o {
                header = o.header + 1;
                pixels = o.pixels ++ p ∷ [];
                last_pixel_value = p;
              })
              given (init ++ o.last_pixel_value ∷ []) p h n refl
              (plain (init ++ o.last_pixel_value ∷ []) (ap (λ v. v ++ p ∷ []) e)
                (omega (arith, hk, length-append init (o.last_pixel_value ∷ [])))
                (omega (arith, ==→ne o.header 0x7f room))))
    ]
  ]

step_Holds :
    (o : Output) (given now : List ℕ) (p : ℕ) (h : Holds o given)
    → All IsPixel given
    → h.now ≡ now
    → Section o now
    → Holds (add_pixel o p) (given ++ p ∷ [])
unfolding add_pixel
step_Holds o given now p h a n (plain init e hk l) =
    rw (high_plain o.header l) (plain_Holds o given p init h a e hk l n)
step_Holds o given now p h a n (common k e hk l) =
    rw (high_common o.header k hk) (common_Holds o given p k h a e hk l n)

All-Holds :
    (ps : List ℕ) (o : Output) (given : List ℕ)
    → Holds o given
    → All IsPixel given
    → All IsPixel ps
    → Holds (add_pixels ps o) (given ++ ps)
All-Holds [] o given h a b = subst (Holds o) (sym (append-nil given)) h
All-Holds (p ∷ ps) o given h a b =
    subst (Holds (add_pixels ps (add_pixel o p))) (append_assoc given (p ∷ []) ps) (
      All-Holds ps (add_pixel o p) (given ++ p ∷ [])
        (step_Holds o given h.now p h a refl h.open_section)
        (All-append IsPixel given (p ∷ []) a (b.0, tt)) b.1)

-- For pixels of 16 bits, at least one: what the SDK's `rleCompress` writes is whole sections, which are
-- read back, as the sections of the driver are, as exactly these pixels.
pub rle_compress-Reads :
    (first : ℕ) (others : List ℕ)
    → All IsPixel (first ∷ others)
    → Reads (rle_compress first others) (first ∷ others)
unfolding rle_compress
rle_compress-Reads first others a =
    let start : Output = record {
      finished = [];
      header = 0;
      pixels = first ∷ [];
      last_pixel_value = first;
    } in
    let h : Holds start (first ∷ []) = record {
      before = [];
      now = first ∷ [];
      reads = Reads-nil;
      open_section = plain [] refl refl (omega arith);
      all = refl;
    } in
    output_bytes-Reads (add_pixels others start) (first ∷ others)
      (All-Holds others start (first ∷ []) h (a.0, tt) a.1) a

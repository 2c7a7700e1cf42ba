-- ===== src/Sdk/Rle/Holds.antt =====
-- What the open section of the SDK encoder of rle.cc holds, and what one pixel more in a common section
-- adds.
use rpusbdisp.Common.{
  ℕ, suc, ◌+◌, ◌<◌, ◌≡◌, refl, ◌∙◌, sym, ap, subst, inl, inr, true, false, List, [], ◌∷◌, ◌++◌,
  append_assoc, length, length-append, leb, ◌==◌, arith, All, All-right, Bool-cases, ==→eq, ==→ne,
  flat_map, replicate, replicate_snoc,
}
use rpusbdisp.Protocol.{le16}
use rpusbdisp.Usb.Rle.Decode.{IsPixel, Reads, Reads-append, plain_section, common_section}
use rpusbdisp.Sdk.Rle.{Output, output_bytes, new_section, but_last, extend_common}

pub but_last-append : (xs : List ℕ) (z : ℕ) → but_last (xs ++ z ∷ []) ≡ xs
but_last-append [] z = refl
but_last-append (x ∷ []) z = refl
but_last-append (x ∷ y ∷ xs) z = ap (◌∷◌ x) (but_last-append (y ∷ xs) z)

-- The pixels of the open section.
pub data Section (o : Output) : List ℕ → Type 0 where
  plain :
      (init : List ℕ)
      → o.pixels ≡ init ++ o.last_pixel_value ∷ []
      → o.header ≡ length init
      → o.header < 128
      → Section o (init ++ o.last_pixel_value ∷ [])
  common :
      (k : ℕ)
      → o.pixels ≡ o.last_pixel_value ∷ []
      → o.header ≡ k + 128
      → k < 128
      → Section o (replicate (suc k) o.last_pixel_value)

pub high_plain : (n : ℕ) → n < 128 → leb 0x80 n ≡ false
high_plain n h = ground arith

pub high_common : (n k : ℕ) → n ≡ k + 128 → leb 0x80 n ≡ true
high_common n k h = ground arith

-- What was given is what the finished sections hold, and the open one.
pub record Holds (o : Output) (given : List ℕ) : Type 0 where
  pub before : List ℕ
  pub now : List ℕ
  pub reads : Reads o.finished before
  pub open_section : Section o now
  pub all : before ++ now ≡ given

pub Section-Reads :
    (o : Output) (now : List ℕ)
    → Section o now
    → All IsPixel now
    → Reads (o.header ∷ flat_map le16 o.pixels) now
Section-Reads o now (plain init e h l) a = rw e (
    plain_section o.header (init ++ o.last_pixel_value ∷ []) l
      (omega (arith, length-append init (o.last_pixel_value ∷ []), h)) a)
Section-Reads o now (common k e h l) a = rw (e, h) (common_section k o.last_pixel_value a.0)

pub output_bytes-Reads :
    (o : Output) (given : List ℕ) → Holds o given → All IsPixel given → Reads (output_bytes o) given
output_bytes-Reads o given h a =
    let a' : All IsPixel (h.before ++ h.now) = rw h.all a in
    subst (Reads (output_bytes o)) h.all (
      Reads-append h.reads
        (Section-Reads o h.now h.open_section (All-right IsPixel h.before h.now a')))

-- A section of one pixel behind what was written.
pub opens :
    (o o' : Output) (given : List ℕ) (p : ℕ)
    → Holds o given
    → All IsPixel given
    → o'.finished ≡ output_bytes o
    → Section o' (p ∷ [])
    → Holds o' (given ++ p ∷ [])
opens o o' given p h a f s = record {
  before = given;
  now = p ∷ [];
  reads = rw f (output_bytes-Reads o given h a);
  open_section = s;
  all = refl;
}

-- The open section takes one pixel more.
pub grows :
    (o o' : Output) (given now : List ℕ) (p : ℕ) (h : Holds o given)
    → h.now ≡ now
    → o'.finished ≡ o.finished
    → Section o' (now ++ p ∷ [])
    → Holds o' (given ++ p ∷ [])
grows o o' given now p h n f s = record {
  before = h.before;
  now = now ++ p ∷ [];
  reads = rw f h.reads;
  open_section = s;
  all =
      sym (append_assoc h.before now (p ∷ []))
      ∙ ap (λ l. (h.before ++ l) ++ p ∷ []) (sym n)
      ∙ ap (λ l. l ++ p ∷ []) h.all;
}

-- The same pixel again, in a common section of `k + 1`.
pub two_more :
    (k p last : ℕ) → p ≡ last → replicate (suc (suc k)) last ≡ replicate (suc k) last ++ p ∷ []
two_more k p last e =
    sym (replicate_snoc (suc k) last) ∙ ap (λ x. replicate (suc k) last ++ x ∷ []) (sym e)

pub common_Holds :
    (o : Output) (given : List ℕ) (p k : ℕ) (h : Holds o given)
    → All IsPixel given
    → o.pixels ≡ o.last_pixel_value ∷ []
    → o.header ≡ k + 128
    → k < 128
    → h.now ≡ replicate (suc k) o.last_pixel_value
    → Holds (extend_common o p) (given ++ p ∷ [])
unfolding extend_common
common_Holds o given p k h a e hk l n = elim (Bool-cases (p == o.last_pixel_value)) [
  | inr other ↦ rw other (opens o _ given p h a refl (plain [] refl refl (omega arith)))
  | inl same ↦
      let q = ==→eq p o.last_pixel_value same in
      elim (Bool-cases (o.header == 0xff)) [
        | inl full ↦
            rw (same, full)
              (opens o (new_section o 0x80 p) given p h a refl (
                subst (Section (new_section o 0x80 p)) (ap (λ x. x ∷ []) (sym q))
                  (common 0 (ap (λ x. x ∷ []) q) refl (omega arith))))
        | inr room ↦
            rw (same, room)
              (grows o (record o { header = o.header + 1 }) given
                (replicate (suc k) o.last_pixel_value) p h n refl
                (subst (Section (record o { header = o.header + 1 }))
                  (two_more k p o.last_pixel_value q)
                  (common (suc k) e (omega (arith, hk))
                    (omega (arith, hk, ==→ne o.header 0xff room)))))
      ]
]

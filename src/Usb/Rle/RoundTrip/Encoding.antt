-- ===== src/Usb/Rle/RoundTrip/Encoding.antt =====
-- What one pixel, and then a list of pixels, adds to what the encoder of usbhandlers.c has handed over.
use rpusbdisp.Common.{
  ℕ, suc, ◌+◌, ◌-◌, ◌≤◌, ◌≡◌, refl, ap, sym, subst, append-nil, append_assoc, true, false, List, [],
  ◌∷◌, ◌++◌, ◌==◌, arith, replicate_snoc, All, All-left, All-right, All-append, ==→eq, ==→ne, ne→==,
}
use rpusbdisp.Common.Memory.{read, read-update_snoc}
use rpusbdisp.Usb.Rle.{Rle, unit_section}
use rpusbdisp.Usb.Rle.Decode.{IsPixel, Reads, Reads-nil, Reads-append}
use rpusbdisp.Usb.Rle.Sections.{
  IsOpen, flush_bytes, flush_next, shrunk, common_of, appended, Branch, breaks, overflows, repeats,
  forms, fills, joins, branch, step_bytes, step_next, all_bytes, all_next, step_next-IsOpen,
}
use rpusbdisp.Usb.Rle.RoundTrip.{flush_Reads, pending}

-- One pixel more: what its branch writes, and what it leaves open.
pub record Carries (r next : Rle) (bytes : List ℕ) (p : ℕ) : Type 0 where
  pub out : List ℕ
  pub reads : Reads bytes out
  pub splits : out ++ pending next ≡ pending r ++ p ∷ []

pending_unit : (r : Rle) (p : ℕ) → r.is_common_section ≡ false → pending (unit_section r p) ≡ p ∷ []
unfolding pending read
pending_unit r p c = simp c

pending-appended :
    (r : Rle) (p : ℕ) → r.is_common_section ≡ false → pending (appended r p) ≡ pending r ++ p ∷ []
unfolding pending
pending-appended r p c =
    let e : r.section_size + 1 ≡ suc r.section_size = omega arith in
    simp (c, e) (read-update_snoc r.section_size p r.section_data)

flush_next_plain : (r : Rle) → IsOpen r → (flush_next r).is_common_section ≡ false
unfolding flush_next
flush_next_plain r o = ground arith

pending_flushed : (r : Rle) → 1 ≤ r.section_size → pending (flush_next r) ≡ []
unfolding flush_next pending read
pending_flushed r h = simp (ne→== r.section_size 0 (omega arith))

last_pixel :
    (r : Rle)
    → r.is_common_section ≡ false
    → (r.section_size == 0) ≡ false
    → pending r ≡ pending (shrunk r) ++ r.section_data (r.section_size - 1) ∷ []
unfolding pending read
last_pixel r c z =
    let e : r.section_size ≡ suc (r.section_size - 1) = omega (arith, ==→ne _ _ z) in
    simp c (ap (λ n. read n r.section_data) e)

shrunk-IsOpen : (r : Rle) → r.is_common_section ≡ false → IsOpen r → IsOpen (shrunk r)
shrunk-IsOpen r c o = ground arith

pending_repeat :
    (r : Rle) (p : ℕ)
    → r.is_common_section ≡ true
    → p ≡ r.section_data 0
    → pending (record r { section_size = r.section_size + 1 }) ≡ pending r ++ p ∷ []
unfolding pending
pending_repeat r p c e =
    let more : r.section_size + 1 ≡ suc r.section_size = omega arith in
    rw e (simp (c, more) (sym (replicate_snoc r.section_size (r.section_data 0))))

pending-common_of : (r : Rle) (p : ℕ) → pending (common_of r p) ≡ p ∷ p ∷ []
unfolding pending
pending-common_of r p = refl

step_Carries :
    {r : Rle} {p : ℕ} (b : Branch r p)
    → IsOpen r
    → All IsPixel (pending r)
    → Carries r (step_next b) (step_bytes b) p
unfolding step_next step_bytes
step_Carries {r} {p} (breaks c e) o a = record {
  out = pending r;
  reads = flush_Reads r o a;
  splits = rw (pending_unit (flush_next r) p (flush_next_plain r o));
}
step_Carries {r} {p} (overflows c e f) o a = record {
  out = pending r;
  reads = flush_Reads r o a;
  splits = rw (pending_unit (flush_next r) p (flush_next_plain r o));
}
step_Carries {r} {p} (repeats c e f) o a = record {
  out = [];
  reads = Reads-nil;
  splits = pending_repeat r p c (==→eq _ _ e);
}
step_Carries {r} {p} (forms c e f) o a = record {
  out = pending (shrunk r);
  reads =
      flush_Reads (shrunk r) (shrunk-IsOpen r c o)
        (All-left IsPixel (pending (shrunk r)) _ (rw (last_pixel r c e) at a));
  splits =
      rw (
        pending-common_of (flush_next (shrunk r)) p,
        last_pixel r c e,
        ← ==→eq _ _ f,
        append_assoc,
      );
}
step_Carries {r} {p} (fills c e f) o a = record {
  out = pending r;
  reads = flush_Reads r o a;
  splits = rw (
    pending-appended (flush_next r) p (flush_next_plain r o),
    pending_flushed r (omega (arith, ==→eq _ _ f)),
  );
}
step_Carries {r} {p} (joins c e f) o a = record {
  out = [];
  reads = Reads-nil;
  splits = pending-appended r p c;
}

-- The pixels of a list: their bytes up to the last flush, and what is open then.
pub record CarriesAll (r : Rle) (ps : List ℕ) : Type 0 where
  pub out : List ℕ
  pub reads : Reads (all_bytes ps r) out
  pub splits : out ++ pending (all_next ps r) ≡ pending r ++ ps
  pub opened : IsOpen (all_next ps r)

pub All-Carries :
    (ps : List ℕ) (r : Rle) → IsOpen r → All IsPixel (pending r) → All IsPixel ps → CarriesAll r ps
unfolding all_bytes all_next
All-Carries [] r o a h = record {
  out = [];
  reads = Reads-nil;
  splits = sym (append-nil _);
  opened = o;
}
All-Carries (p ∷ ps) r o a (hp, hs) =
    let b = branch r p in
    let c = step_Carries b o a in
    let a' : All IsPixel (c.out ++ pending (step_next b)) =
      rw c.splits (All-append IsPixel (pending r) (p ∷ []) a (hp, tt)) in
    let rest =
      All-Carries ps (step_next b) (step_next-IsOpen b o)
        (All-right IsPixel c.out (pending (step_next b)) a') hs in
    record {
      out = c.out ++ rest.out;
      reads = Reads-append c.reads rest.reads;
      splits = rw (append_assoc, rest.splits, ← append_assoc, c.splits, append_assoc);
      opened = rest.opened;
    }

-- From an empty section, with the last flush: the bytes are whole sections that hold the pixels.
pub encoded_Reads :
    (ps : List ℕ) (r : Rle)
    → IsOpen r
    → pending r ≡ []
    → All IsPixel ps
    → IsOpen (all_next ps r) × Reads (all_bytes ps r ++ flush_bytes (all_next ps r)) ps
encoded_Reads ps r o e h =
    let c = All-Carries ps r o (rw e tt) h in
    let s : c.out ++ pending (all_next ps r) ≡ ps = rw e at c.splits in
    let a : All IsPixel (c.out ++ pending (all_next ps r)) = rw s h in
    (
      c.opened,
      subst (Reads _) s (
          Reads-append c.reads
            (flush_Reads (all_next ps r) c.opened (All-right IsPixel c.out _ a))),
    )

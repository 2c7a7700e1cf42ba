-- ===== src/Usb/Rle/Sections.antt =====
-- The encoder of usbhandlers.c with its sink taken away: the bytes that each call hands over and the
-- context that it leaves. Over every sink that takes bytes in pieces, the encoder's calls are one
-- call of the sink with these bytes.
use rpusbdisp.Common.{
  ℕ, ◌+◌, ◌-◌, ◌≤◌, ◌≡◌, inl, inr, true, false, ◌&&◌, not, List, [], ◌∷◌, ◌++◌, ◌==◌, if◌then◌else◌,
  arith, Bool-cases,
}
use rpusbdisp.Common.Memory.{update}
use rpusbdisp.Usb.Rle.{Rle, section_limit, section_header, section_bytes, emptied, unit_section}

-- A context between two calls: a common section has two pixels at least.
pub record IsOpen (r : Rle) : Type 0 where
  pub limited : r.section_size ≤ 128
  pub repeated : r.is_common_section ≡ true → 2 ≤ r.section_size

unfoldable pub flush_bytes : Rle → List ℕ
flush_bytes r = if r.section_size == 0 then [] else section_header r ∷ section_bytes r

unfoldable pub flush_next : Rle → Rle
flush_next r = if r.section_size == 0 then r else emptied r

abbrev pub shrunk : Rle → Rle
shrunk r = record r { section_size = r.section_size - 1 }

abbrev pub common_of : Rle → ℕ → Rle
common_of r pixel = record {
  is_common_section = true;
  section_size = 2;
  section_data = update r.section_data 0 pixel;
}

abbrev pub appended : Rle → ℕ → Rle
appended r pixel = record r {
  section_size = r.section_size + 1;
  section_data = update r.section_data r.section_size pixel;
}

-- Which branch a pixel takes, with what the branch knows.
pub data Branch (r : Rle) (pixel : ℕ) : Type 0 where
  breaks : r.is_common_section ≡ true → (pixel == r.section_data 0) ≡ false → Branch r pixel
  overflows :
      r.is_common_section ≡ true
      → (pixel == r.section_data 0) ≡ true
      → (r.section_size == section_limit) ≡ true
      → Branch r pixel
  repeats :
      r.is_common_section ≡ true
      → (pixel == r.section_data 0) ≡ true
      → (r.section_size == section_limit) ≡ false
      → Branch r pixel
  forms :
      r.is_common_section ≡ false
      → (r.section_size == 0) ≡ false
      → (pixel == r.section_data (r.section_size - 1)) ≡ true
      → Branch r pixel
  fills :
      r.is_common_section ≡ false
      → (not (r.section_size == 0) && (pixel == r.section_data (r.section_size - 1))) ≡ false
      → (r.section_size == section_limit) ≡ true
      → Branch r pixel
  joins :
      r.is_common_section ≡ false
      → (not (r.section_size == 0) && (pixel == r.section_data (r.section_size - 1))) ≡ false
      → (r.section_size == section_limit) ≡ false
      → Branch r pixel

Branch-common : (r : Rle) (p : ℕ) → r.is_common_section ≡ true → Branch r p
Branch-common r p c = elim (Bool-cases (p == r.section_data 0)) [
  | inr ne ↦ breaks c ne
  | inl eq ↦ elim (Bool-cases (r.section_size == section_limit)) [
    | inl full ↦ overflows c eq full
    | inr room ↦ repeats c eq room
  ]
]

Branch-plain : (r : Rle) (p : ℕ) → r.is_common_section ≡ false → Branch r p
Branch-plain r p c =
    elim (Bool-cases (not (r.section_size == 0) && (p == r.section_data (r.section_size - 1)))) [
      | inl same ↦ forms c (ground arith) (ground arith)
      | inr other ↦ elim (Bool-cases (r.section_size == section_limit)) [
        | inl full ↦ fills c other full
        | inr room ↦ joins c other room
      ]
    ]

pub branch : (r : Rle) (p : ℕ) → Branch r p
branch r p = elim (Bool-cases r.is_common_section) [
  | inl c ↦ Branch-common r p c
  | inr c ↦ Branch-plain r p c
]

unfoldable pub step_bytes : {r : Rle} {p : ℕ} → Branch r p → List ℕ
step_bytes {r} (breaks c e) = flush_bytes r
step_bytes {r} (overflows c e f) = flush_bytes r
step_bytes (repeats c e f) = []
step_bytes {r} (forms c e f) = flush_bytes (shrunk r)
step_bytes {r} (fills c e f) = flush_bytes r
step_bytes (joins c e f) = []

unfoldable pub step_next : {r : Rle} {p : ℕ} → Branch r p → Rle
step_next {r} {p} (breaks c e) = unit_section (flush_next r) p
step_next {r} {p} (overflows c e f) = unit_section (flush_next r) p
step_next {r} {p} (repeats c e f) = record r { section_size = r.section_size + 1 }
step_next {r} {p} (forms c e f) = common_of (flush_next (shrunk r)) p
step_next {r} {p} (fills c e f) = appended (flush_next r) p
step_next {r} {p} (joins c e f) = appended r p

-- The bytes for a list of pixels up to the last flush, and the context left.
unfoldable pub all_bytes : List ℕ → Rle → List ℕ
all_bytes [] r = []
all_bytes (p ∷ ps) r = step_bytes (branch r p) ++ all_bytes ps (step_next (branch r p))

unfoldable pub all_next : List ℕ → Rle → Rle
all_next [] r = r
all_next (p ∷ ps) r = all_next ps (step_next (branch r p))

pub step_next-IsOpen : {r : Rle} {p : ℕ} (b : Branch r p) → IsOpen r → IsOpen (step_next b)
unfolding step_next flush_next
step_next-IsOpen (breaks c e) o = ground arith
step_next-IsOpen (overflows c e f) o = ground arith
step_next-IsOpen (repeats c e f) o = ground arith
step_next-IsOpen (forms c e f) o = ground arith
step_next-IsOpen (fills c e f) o = ground arith
step_next-IsOpen (joins c e f) o = ground arith

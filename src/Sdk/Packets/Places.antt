-- ===== src/Sdk/Packets/Places.antt =====
-- Bytes that stay inside a packet of the SDK, and the header bytes of its packets.
use rpusbdisp.Common.{
  ℕ, zero, suc, ◌+◌, ◌*◌, ◌≤◌, ◌≡◌, refl, ◌∙◌, ap, Bool, List, [], ◌∷◌, ◌++◌, length, append_assoc,
  append-nil, ◌==◌, ne→==, if◌then◌else◌, arith,
}
use mathlib.Core.Path.{fun_ext}
use rpusbdisp.Common.Memory.{update, write_at, read, read-update_snoc, read-write_at}
use rpusbdisp.Usb.Bitblt.Packets.{next_pos, payload, place}
use rpusbdisp.Sdk.Packets.{header_byte}

-- The header bytes of packets that begin at the place `p` of a packet.
unfoldable pub headers : ℕ → ℕ → List ℕ → List ℕ
headers max p [] = []
headers max p (b ∷ bytes) =
    let rest = headers max (next_pos max p) bytes in if p == 0 then b ∷ rest else rest

pub headers-append :
    (max p : ℕ) (xs ys : List ℕ)
    → headers max p (xs ++ ys) ≡ headers max p xs ++ headers max (place max p xs) ys
unfolding headers place
headers-append max p [] ys = refl
headers-append max p (b ∷ xs) ys = ground (arith, headers-append max (next_pos max p) xs ys)

-- Bytes that stay inside a packet.
module _ (max : ℕ) where
  pub inside_payload : (p : ℕ) (bs : List ℕ) → 1 ≤ p → p + length bs ≤ max → payload max p bs ≡ bs
  unfolding payload
  inside_payload p [] l h = refl
  inside_payload p (b ∷ []) l h = rw (ne→== p 0 (omega arith)) refl
  inside_payload p (b ∷ c ∷ bs) l h =
      rw (ne→== p 0 (omega arith), ne→== (p + 1) max (omega arith))
        (ap (◌∷◌ b) (inside_payload (p + 1) (c ∷ bs) (omega arith) (omega arith)))

  pub inside_headers : (p : ℕ) (bs : List ℕ) → 1 ≤ p → p + length bs ≤ max → headers max p bs ≡ []
  unfolding headers
  inside_headers p [] l h = refl
  inside_headers p (b ∷ []) l h = rw (ne→== p 0 (omega arith)) refl
  inside_headers p (b ∷ c ∷ bs) l h =
      rw (ne→== p 0 (omega arith), ne→== (p + 1) max (omega arith))
        (inside_headers (p + 1) (c ∷ bs) (omega arith) (omega arith))

  -- Bytes up to the end of the packet.
  pub whole_place :
      (p : ℕ) (b : ℕ) (bs : List ℕ) → 1 ≤ p → p + suc (length bs) ≡ max → place max p (b ∷ bs) ≡ 0
  unfolding place
  whole_place p b [] l h = ground arith
  whole_place p b (c ∷ bs) l h =
      rw (ne→== (p + 1) max (omega arith)) (whole_place (p + 1) c bs (omega arith) (omega arith))

pub read_split : (a b : ℕ) (m : ℕ → ℕ) → read (a + b) m ≡ read a m ++ read b (λ i. m (a + i))
unfolding read
read_split a zero m = let e : a + 0 ≡ a = omega arith in rw (e, append-nil)
read_split a (suc b) m =
    let e : a + suc b ≡ suc (a + b) = omega arith in
    rw e (
      ap (λ v. v ++ m (a + b) ∷ []) (read_split a b m)
      ∙ append_assoc (read a m) (read b (λ i. m (a + i))) (m (a + b) ∷ []))

-- The bytes of the payload behind the first `a`.
pub read_tail :
    (a b : ℕ) (m : ℕ → ℕ)
    → read (a + b) (λ i. m (1 + i)) ≡ read a (λ i. m (1 + i)) ++ read b (λ i. m (a + 1 + i))
read_tail a b m =
    read_split a b (λ i. m (1 + i))
    ∙ ap (λ f. read a (λ i. m (1 + i)) ++ read b f) (fun_ext λ i. ap m (omega arith))

pub mul_next : (n q : ℕ) → n * (q + 1) ≡ n * q + n
mul_next n q = grind arith

pub mul_suc : (n q : ℕ) → suc n * q ≡ n * q + q
mul_suc n q = grind arith

-- The header bytes of the packets before the `n`th.
abbrev pub packet_headers : Bool → ℕ → ℕ → List ℕ
packet_headers dirty command zero = []
packet_headers dirty command (suc n) =
    packet_headers dirty command n ++ header_byte dirty command n ∷ []

-- One packet behind what is written, with `s` bytes.
pub packet_bytes :
    (at s h : ℕ) (bs : List ℕ) (m : ℕ → ℕ)
    → length bs ≡ s
    → read (at + (1 + s)) (write_at (at + 1) bs (update m at h)) ≡ read at m ++ h ∷ bs
packet_bytes at s h bs m e =
    let f : at + 1 ≡ suc at = omega arith in
    read-write_at (at + 1) (at + (1 + s)) bs (update m at h) (omega arith)
    ∙ ap (λ v. v ++ bs) (rw f (read-update_snoc at h m))
    ∙ append_assoc (read at m) (h ∷ []) bs

-- ===== src/Usb/Rle/Sink.antt =====
-- The encoder of usbhandlers.c over any sink that takes bytes in pieces.
use rpusbdisp.Common.{
  ℕ, ◌-◌, ◌≤◌, ◌≡◌, refl, ◌∙◌, sym, ap, true, false, List, [], ◌∷◌, ◌++◌, ◌==◌, arith, inl, inr,
  Bool-cases, le→ltb, ne→==,
}
use rpusbdisp.Common.Res.{Res, ok, abort, bug, stuck, ◌>>=◌, >>=_assoc}
use rpusbdisp.Usb.Rle.{
  Rle, section_limit, section_header, section_bytes, emptied, unit_section, rle_flush_section,
  encode_common, form_common, include_pixel, rle_compress_n_encode, rle_compress_all,
}
use rpusbdisp.Usb.Rle.Sections.{
  IsOpen, flush_bytes, flush_next, shrunk, common_of, appended, Branch, breaks, overflows, repeats,
  forms, fills, joins, branch, step_bytes, step_next, all_bytes, all_next, step_next-IsOpen,
}

-- What the encoder asks of its sink, in the states where `P` holds.
pub record IsSink {S : Type 0} (emit : List ℕ → S → Res S (Unit {0})) (P : S → Type 0)
    : Type 0 where
  pub emit_nil : (s : S) → emit [] s ≡ ok tt s
  pub emit_append :
      (xs ys : List ℕ) (s : S) → P s → emit (xs ++ ys) s ≡ (emit xs s >>= λ _ s'. emit ys s')
  pub emit_keeps : (xs : List ℕ) (s s' : S) → P s → emit xs s ≡ ok tt s' → P s'

-- Two continuations that agree where `P` holds give the same after a call that keeps `P`.
pub bind_cong :
    {S A : Type 0} (P : S → Type 0) (r : Res S (Unit {0})) (f g : Unit {0} → S → Res S A)
    → ((s : S) → r ≡ ok tt s → P s)
    → ((s : S) → P s → f tt s ≡ g tt s)
    → (r >>= f) ≡ (r >>= g)
bind_cong P (ok tt s) f g keep h = h s (keep s refl)
bind_cong P (abort s) f g keep h = refl
bind_cong P bug f g keep h = refl
bind_cong P stuck f g keep h = refl

flush_bytes_empty : (r : Rle) → (r.section_size == 0) ≡ true → flush_bytes r ≡ []
unfolding flush_bytes
flush_bytes_empty r z = rw z

flush_next_empty : (r : Rle) → (r.section_size == 0) ≡ true → flush_next r ≡ r
unfolding flush_next
flush_next_empty r z = simp z

module _ {S : Type 0} (emit : List ℕ → S → Res S (Unit {0})) (P : S → Type 0)
    (k : IsSink emit P) where
  pub rle_flush_section_lem :
      (r : Rle) (s : S)
      → r.section_size ≤ 128
      → P s
      → rle_flush_section emit r s ≡ (emit (flush_bytes r) s >>= λ _ s'. ok (flush_next r) s')
  unfolding rle_flush_section flush_bytes flush_next
  rle_flush_section_lem r s h p = elim (Bool-cases (r.section_size == 0)) [
    | inl e ↦ rw (le→ltb section_limit r.section_size h, e, k.emit_nil s)
    | inr e ↦
        rw (le→ltb section_limit r.section_size h, e)
          (sym (>>=_assoc (emit (section_header r ∷ []) s) _ _)
            ∙ ap (λ m. m >>= λ _ s'. ok (emptied r) s')
                (sym (k.emit_append (section_header r ∷ []) (section_bytes r) s p)))
  ]

  flush_then :
      (g : Rle → Rle) (r : Rle) (s : S)
      → r.section_size ≤ 128
      → P s
      → (rle_flush_section emit r s >>= λ r' s'. ok (g r') s')
        ≡ (emit (flush_bytes r) s >>= λ _ s'. ok (g (flush_next r)) s')
  flush_then g r s h p =
      ap (λ m. m >>= λ r' s'. ok (g r') s') (rle_flush_section_lem r s h p)
      ∙ >>=_assoc (emit (flush_bytes r) s) _ _

  form_common_lem :
      (r : Rle) (pixel : ℕ) (s : S)
      → r.section_size - 1 ≤ 128
      → P s
      → form_common emit r pixel s ≡ (
          emit (flush_bytes (shrunk r)) s >>= λ _ s'.
          ok (common_of (flush_next (shrunk r)) pixel) s')
  unfolding form_common
  form_common_lem r pixel s h p = elim (Bool-cases (r.section_size - 1 == 0)) [
    | inl z ↦ rw (z, flush_bytes_empty (shrunk r) z, flush_next_empty (shrunk r) z, k.emit_nil s)
    | inr z ↦ rw z (flush_then (λ r'. common_of r' pixel) (shrunk r) s h p)
  ]

  takes_form_common :
      (r : Rle) (pixel : ℕ) (s : S)
      → r.is_common_section ≡ false
      → (r.section_size == 0) ≡ false
      → (pixel == r.section_data (r.section_size - 1)) ≡ true
      → rle_compress_n_encode emit r pixel s ≡ form_common emit r pixel s
  unfolding rle_compress_n_encode
  takes_form_common r pixel s c e f = simp (c, e, f)

  -- One pixel: its branch's bytes go to the sink, and its branch's context is left.
  rle_compress_n_encode_lem :
      (r : Rle) (p : ℕ) (s : S) (b : Branch r p)
      → IsOpen r
      → P s
      → rle_compress_n_encode emit r p s ≡ (emit (step_bytes b) s >>= λ _ s'. ok (step_next b) s')
  unfolding rle_compress_n_encode encode_common form_common include_pixel step_bytes step_next
  rle_compress_n_encode_lem r p s (breaks c e) o h =
      simp (c, ne→== r.section_size 0 (omega (arith, o.repeated c)), e)
        (flush_then (λ r'. unit_section r' p) r s o.limited h)
  rle_compress_n_encode_lem r p s (overflows c e f) o h =
      simp (c, ne→== r.section_size 0 (omega (arith, o.repeated c)), e, f)
        (flush_then (λ r'. unit_section r' p) r s o.limited h)
  rle_compress_n_encode_lem r p s (repeats c e f) o h =
      simp (c, ne→== r.section_size 0 (omega (arith, o.repeated c)), e, f, k.emit_nil s)
  rle_compress_n_encode_lem r p s (forms c e f) o h =
      takes_form_common r p s c e f ∙ form_common_lem r p s (omega (arith, o.limited)) h
  rle_compress_n_encode_lem r p s (fills c e f) o h =
      simp (c, e, f) (flush_then (λ r'. appended r' p) r s o.limited h)
  rle_compress_n_encode_lem r p s (joins c e f) o h = rw (c, e, f, k.emit_nil s)

  -- All calls for a list of pixels are one call of the sink.
  pub rle_compress_all_lem :
      (ps : List ℕ) (r : Rle) (s : S)
      → IsOpen r
      → P s
      → rle_compress_all emit ps r s ≡ (emit (all_bytes ps r) s >>= λ _ s'. ok (all_next ps r) s')
  unfolding rle_compress_all all_bytes all_next
  rle_compress_all_lem [] r s o h = rw (k.emit_nil s)
  rle_compress_all_lem (p ∷ ps) r s o h =
      ap (λ m. m >>= λ r' s'. rle_compress_all emit ps r' s')
        (rle_compress_n_encode_lem r p s (branch r p) o h)
      ∙ >>=_assoc (emit (step_bytes (branch r p)) s) _ _
      ∙ bind_cong P (emit (step_bytes (branch r p)) s) _ _ (λ s' e. k.emit_keeps _ s s' h e)
          (λ s' p'. rle_compress_all_lem ps _ s' (step_next-IsOpen (branch r p) o) p')
      ∙ sym (>>=_assoc (emit (step_bytes (branch r p)) s) _ _)
      ∙ ap (λ m. m >>= λ _ s'. ok (all_next ps (step_next (branch r p))) s')
          (sym
            (k.emit_append (step_bytes (branch r p)) (all_bytes ps (step_next (branch r p))) s h))

-- ===== src/Usb/Rle/Stream.antt =====
-- The encoder of usbhandlers.c as a whole: what it does to any sink, and what the sink was given.
use rpusbdisp.Common.{
  ℕ, ◌+◌, ◌*◌, ◌/◌, ◌≤◌, ◌≡◌, refl, ◌∙◌, ap, sym, List, [], ◌++◌, arith, length, All,
}
use rpusbdisp.Common.Res.{Res, ok, ◌>>=◌, >>=_assoc}
use rpusbdisp.Common.Memory.{read}
use rpusbdisp.Usb.Rle.{Rle, rle_compress_init, rle_flush_section, rle_compress_all, rle_encode}
use rpusbdisp.Usb.Rle.Decode.{IsPixel, Reads}
use rpusbdisp.Usb.Rle.RoundTrip.{pending}
use rpusbdisp.Usb.Rle.RoundTrip.Encoding.{encoded_Reads}
use rpusbdisp.Usb.Rle.Sections.{IsOpen, flush_bytes, flush_next, all_bytes, all_next}
use rpusbdisp.Usb.Rle.Sink.{IsSink, bind_cong, rle_flush_section_lem, rle_compress_all_lem}
use rpusbdisp.Usb.Rle.Size.{length-encoded}

-- A run of the encoder over a sink is one call of the sink with the stream.
pub record Encodes {S : Type 0} (emit : List ℕ → S → Res S (Unit {0})) (ps : List ℕ) (s : S)
    (run : Res S Rle) : Type 0 where
  pub stream : List ℕ
  pub last : Rle
  pub sent : run ≡ (emit stream s >>= λ _ s'. ok last s')
  pub reads : Reads stream ps
  pub short : length stream ≤ 2 * length ps + (length ps + 127) / 128

init-IsOpen : (garbage : ℕ → ℕ) → IsOpen (rle_compress_init garbage)
unfolding rle_compress_init
init-IsOpen garbage = record { limited = omega arith; repeated = λ e. cc }

init-pending : (garbage : ℕ → ℕ) → pending (rle_compress_init garbage) ≡ []
unfolding rle_compress_init pending read
init-pending garbage = refl

module _ {S : Type 0} (emit : List ℕ → S → Res S (Unit {0})) (P : S → Type 0)
    (k : IsSink emit P) where
  encode_sent :
      (ps : List ℕ) (r : Rle) (s : S)
      → P s
      → IsOpen r
      → IsOpen (all_next ps r)
      → (rle_compress_all emit ps r s >>= λ r' s'. rle_flush_section emit r' s') ≡ (
          emit (all_bytes ps r ++ flush_bytes (all_next ps r)) s >>= λ _ s'.
          ok (flush_next (all_next ps r)) s')
  encode_sent ps r s h o o' =
      ap (λ m. m >>= λ r' s'. rle_flush_section emit r' s')
        (rle_compress_all_lem emit P k ps r s o h)
      ∙ >>=_assoc (emit (all_bytes ps r) s) _ _
      ∙ bind_cong P (emit (all_bytes ps r) s) _ _ (λ s' e. k.emit_keeps _ s s' h e)
          (λ s' p'. rle_flush_section_lem emit P k (all_next ps r) s' o'.limited p')
      ∙ sym (>>=_assoc (emit (all_bytes ps r) s) _ _)
      ∙ ap (λ m. m >>= λ _ s'. ok (flush_next (all_next ps r)) s')
          (sym (k.emit_append (all_bytes ps r) (flush_bytes (all_next ps r)) s h))

  -- Over a sink that takes bytes in pieces, and for pixels of 16 bits: the run of the encoder on a list
  -- of pixels is one call of the sink with a stream that is read back as exactly these pixels, and
  -- has at most two bytes for each pixel and one for each 128 pixels begun.
  pub rle_encode-Encodes :
      (garbage : ℕ → ℕ) (ps : List ℕ) (s : S)
      → P s
      → All IsPixel ps
      → Encodes emit ps s (rle_encode emit garbage ps s)
  unfolding rle_encode
  rle_encode-Encodes garbage ps s h a =
      let r = rle_compress_init garbage in
      let (opened, reads) = encoded_Reads ps r (init-IsOpen garbage) (init-pending garbage) a in
      record {
        stream = all_bytes ps r ++ flush_bytes (all_next ps r);
        last = flush_next (all_next ps r);
        sent = encode_sent ps r s h (init-IsOpen garbage) opened;
        reads = reads;
        short =
            length-encoded ps r (unfold rle_compress_init in refl)
              (unfold rle_compress_init in refl) opened;
      }

-- ===== src/Common/Memory.antt =====
-- Byte buffers and C arrays as functions from an offset: what `memcpy` writes, and what is read back.
use rpusbdisp.Common.Tests.{◌==◌, if◌then◌else◌, Bool-cases, ==→eq}
use rpusbdisp.Common.Lists.{length}
use Prim.Native.Nat.{ℕ, zero, suc, ◌+◌, ◌≤◌}
use mathlib.Core.Path.{◌≡◌, refl, ap, ◌∙◌, fun_ext}
use mathlib.Core.Logic.{inl, inr}
use mathlib.Core.Bool.{false}
use mathlib.Core.List.{List, [], ◌∷◌, ◌++◌, append_assoc, append-nil}
use native.Mathlib.Omega.{arith}

module _ {ℓ} {A : Type ℓ} where
  abbrev pub update : (ℕ → A) → ℕ → A → ℕ → A
  update m i v j = if i == j then v else m j

  -- `memcpy(m + off, bytes, length)`
  unfoldable pub write_at : ℕ → List A → (ℕ → A) → ℕ → A
  write_at off [] m = m
  write_at off (b ∷ bs) m = write_at (off + 1) bs (update m off b)

  -- The first `n` entries.
  unfoldable pub read : ℕ → (ℕ → A) → List A
  read zero m = []
  read (suc n) m = read n m ++ m n ∷ []

  pub length-read : (n : ℕ) (m : ℕ → A) → length (read n m) ≡ n
  unfolding read
  length-read zero m = refl
  length-read (suc n) m =
      omega (arith, rpusbdisp.Common.Lists.length-append (read n m) (m n ∷ []), length-read n m)

  read-update : (n off : ℕ) (v : A) (m : ℕ → A) → n ≤ off → read n (update m off v) ≡ read n m
  unfolding read
  read-update zero off v m h = refl
  read-update (suc n) off v m h = ground (arith, read-update n off v m (omega arith))

  pub read-update_snoc :
      (n : ℕ) (v : A) (m : ℕ → A) → read (suc n) (update m n v) ≡ read n m ++ v ∷ []
  unfolding read
  read-update_snoc n v m = ground (arith, read-update n n v m (omega arith))

  -- What is written right behind the first `off` entries is read back behind them.
  pub read-write_at :
      (off n : ℕ) (bs : List A) (m : ℕ → A)
      → n ≡ off + length bs
      → read n (write_at off bs m) ≡ read off m ++ bs
  unfolding write_at
  read-write_at off n [] m h = let e : n ≡ off = omega arith in rw (e, append-nil)
  read-write_at off n (b ∷ bs) m h =
      read-write_at (off + 1) n bs (update m off b) (omega arith)
      ∙ ap (λ xs. xs ++ bs) step
      ∙ append_assoc (read off m) (b ∷ []) bs
    where
      step : read (off + 1) (update m off b) ≡ read off m ++ b ∷ []
      step = let e : off + 1 ≡ suc off = omega arith in rw e (read-update_snoc off b m)

  pub write_at-append :
      (off : ℕ) (xs ys : List A) (m : ℕ → A)
      → write_at off (xs ++ ys) m ≡ write_at (off + length xs) ys (write_at off xs m)
  unfolding write_at
  write_at-append off [] ys m = let e : off ≡ off + 0 = omega arith in ap (λ o. write_at o ys m) e
  write_at-append off (x ∷ xs) ys m =
      let e : off + 1 + length xs ≡ off + suc (length xs) = omega arith in
      write_at-append (off + 1) xs ys (update m off x)
      ∙ ap (λ o. write_at o ys (write_at (off + 1) xs (update m off x))) e

  pub update_self : (m : ℕ → A) (i : ℕ) (v : A) → update m i v i ≡ v
  update_self m i v = ground arith

  pub update_ne : (m : ℕ → A) (i j : ℕ) (v : A) → (i == j) ≡ false → update m i v j ≡ m j
  update_ne m i j v h = rw h

  pub update_twice : (m : ℕ → A) (i : ℕ) (v w : A) → update (update m i v) i w ≡ update m i w
  update_twice m i v w = fun_ext λ j. ground arith

  pub update_same : (m : ℕ → A) (i : ℕ) → update m i (m i) ≡ m
  update_same m i =
      fun_ext λ j. elim (Bool-cases (i == j)) [ inl e ↦ rw e (ap m (==→eq i j e)) | inr e ↦ rw e ]

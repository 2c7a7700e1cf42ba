-- ===== src/Common/Res.antt =====
-- What a C function of the display path does to the state `S`: it returns success with a value, it
-- returns failure, it runs into `BUG_ON`, or (of the model only) its fuel runs out.
use mathlib.Core.Path.{◌≡◌, refl}

pub data Res {ℓ} (S A : Type ℓ) : Type ℓ where
  ok : A → S → Res S A
  abort : S → Res S A
  bug stuck : Res S A

-- What follows a call that returns success.
infixl 5 ◌>>=◌
abbrev pub ◌>>=◌ {ℓ} : {S A B : Type ℓ} → Res S A → (A → S → Res S B) → Res S B
ok a s >>= f = f a s
abort s >>= f = abort s
bug >>= f = bug
stuck >>= f = stuck

pub >>=_assoc {ℓ} :
    {S A B C : Type ℓ} (r : Res S A) (f : A → S → Res S B) (g : B → S → Res S C)
    → ((r >>= f) >>= g) ≡ (r >>= λ a s. f a s >>= g)
>>=_assoc (ok a s) f g = refl
>>=_assoc (abort s) f g = refl
>>=_assoc bug f g = refl
>>=_assoc stuck f g = refl

pub >>=_ok {ℓ} : {S : Type ℓ} (r : Res S (Unit {ℓ})) → (r >>= λ _ s. ok tt s) ≡ r
>>=_ok (ok tt s) = refl
>>=_ok (abort s) = refl
>>=_ok bug = refl
>>=_ok stuck = refl

-- Two continuations that agree on the state that a call leaves give the same after it.
pub >>=_cong {ℓ} :
    {S A : Type ℓ} (r : Res S (Unit {ℓ})) (f g : Unit {ℓ} → S → Res S A)
    → ((s : S) → r ≡ ok tt s → f tt s ≡ g tt s)
    → (r >>= f) ≡ (r >>= g)
>>=_cong (ok tt s) f g h = h s refl
>>=_cong (abort s) f g h = refl
>>=_cong bug f g h = refl
>>=_cong stuck f g h = refl

pub ok-injective {ℓ} : {S A : Type ℓ} {a b : A} {s s' : S} → ok a s ≡ ok b s' → s ≡ s'
ok-injective h = cc

pub abort-injective {ℓ} : {S A : Type ℓ} {s s' : S} → Path (Res S A) (abort s) (abort s') → s ≡ s'
abort-injective h = cc

-- A sequence that returns success went through its first part.
pub >>=-eq-ok {ℓ} :
    {S A : Type ℓ} (r : Res S (Unit {ℓ})) (k : Unit {ℓ} → S → Res S A) {a : A} {s : S}
    → (r >>= k) ≡ ok a s
    → (s' : S) × (r ≡ ok tt s') × (k tt s' ≡ ok a s)
>>=-eq-ok (ok tt s') k h = (s', refl, h)
>>=-eq-ok (abort s') k h = cc
>>=-eq-ok bug k h = cc
>>=-eq-ok stuck k h = cc

-- ===== src/Usb/Pool/Held.antt =====
-- The invariant of the ticket pool of usbhandlers.c, with a bundle that an operation holds, and what
-- the steps of an operation do to it.
use rpusbdisp.Common.{
  ℕ, ◌+◌, ◌-◌, ◌*◌, ◌≤◌, ◌≡◌, refl, ◌∙◌, ap, Bool, true, false, List, [], ◌∷◌, ◌++◌, drop, take,
  length, count, count-append, ◌==◌, arith, All, All-append, All-left, All-right, length-append,
  length-drop, take-append-drop,
}
use rpusbdisp.Common.Memory.{update, update_ne, update_self}
use rpusbdisp.Usb.Device.{Device}

-- The count is the pool's, a ticket is in one place only, and those in the pool and in the bundle have
-- URBs of their full length.
pub record Held (number : ℕ) (pool bus bundle : List ℕ) (lengths : ℕ → ℕ) (full : ℕ) : Type 0 where
  pub counted : number ≡ length pool
  pub once : (t : ℕ) → count t pool + count t bus + count t bundle ≤ 1
  pub pool_size : All (λ t. lengths t ≡ full) pool
  pub bundle_size : All (λ t. lengths t ≡ full) bundle

-- The invariant for a device while an operation holds a bundle, and between operations.
abbrev pub HeldBy : Device → List ℕ → Type 0
HeldBy d bundle =
    Held d.availiable_count d.tickets d.in_flight bundle d.transfer_buffer_length
      (d.packet_size_factor * d.disp_out_ep_max_size)

abbrev pub IsPool : Device → Type 0
IsPool d = HeldBy d []

-- The lengths differ at the ticket `t` only.
abbrev pub AgreesOff : ℕ → (ℕ → ℕ) → (ℕ → ℕ) → Type 0
AgreesOff t m m' = (u : ℕ) → (t == u) ≡ false → m' u ≡ m u

pub update-AgreesOff : (t v : ℕ) (m : ℕ → ℕ) → AgreesOff t m (update m t v)
update-AgreesOff t v m u e = update_ne m t u v e

sizes_off :
    (t k : ℕ) (m m' : ℕ → ℕ) (ts : List ℕ)
    → AgreesOff t m m'
    → count t ts ≡ 0
    → All (λ u. m u ≡ k) ts
    → All (λ u. m' u ≡ k) ts
sizes_off t k m m' [] off c h = tt
sizes_off t k m m' (u ∷ ts) off c h =
    (off u (apart (t == u) refl) ∙ h.0, sizes_off t k m m' ts off (omega arith) h.1)
  where
    apart : (b : Bool) → (t == u) ≡ b → (t == u) ≡ false
    apart true e = absurd (ground (arith, c, e))
    apart false e = e

pub sizes_restored :
    (t k : ℕ) (m : ℕ → ℕ) (ts : List ℕ) → All (λ u. m u ≡ k) ts → All (λ u. update m t k u ≡ k) ts
sizes_restored t k m [] h = tt
sizes_restored t k m (u ∷ ts) h = (ground (arith, h.0), sizes_restored t k m ts h.1)

module _ {number : ℕ} {pool bus ts : List ℕ} {m : ℕ → ℕ} {full : ℕ} (t : ℕ)
    (h : Held number pool bus (t ∷ ts) m full) where
  only : count t pool + count t bus + count t ts ≡ 0
  only = ground (arith, h.once t)

  -- The head of the bundle goes to the bus, with any length.
  pub Held-taken : (m' : ℕ → ℕ) → AgreesOff t m m' → Held number pool (bus ++ t ∷ []) ts m' full
  Held-taken m' off = record {
    counted = h.counted;
    once = λ u. omega (arith, h.once u, count-append u bus (t ∷ []));
    pool_size = sizes_off t full m m' pool off (omega (arith, only)) h.pool_size;
    bundle_size = sizes_off t full m m' ts off (omega (arith, only)) h.bundle_size.1;
  }

  -- The head of the bundle goes back to the pool, with its full length again.
  pub Held-finished :
      (m' : ℕ → ℕ)
      → AgreesOff t m m'
      → Held (number + 1) (pool ++ t ∷ []) bus ts (update m' t full) full
  Held-finished m' off = record {
    counted = omega (arith, h.counted, length-append pool (t ∷ []));
    once = λ u. omega (arith, h.once u, count-append u pool (t ∷ []));
    pool_size =
        All-append _ pool (t ∷ [])
          (sizes_restored t full m' pool
            (sizes_off t full m m' pool off (omega (arith, only)) h.pool_size))
          (update_self m' t full, tt);
    bundle_size =
        sizes_restored t full m' ts
          (sizes_off t full m m' ts off (omega (arith, only)) h.bundle_size.1);
  }

  -- The head of the bundle goes back to the pool as it is.
  pub Held-returned : Held (number + 1) (pool ++ t ∷ []) bus ts m full
  Held-returned = record {
    counted = omega (arith, h.counted, length-append pool (t ∷ []));
    once = λ u. omega (arith, h.once u, count-append u pool (t ∷ []));
    pool_size = All-append _ pool (t ∷ []) h.pool_size (h.bundle_size.0, tt);
    bundle_size = h.bundle_size.1;
  }

-- A bundle is sold.
pub Held-sold :
    {number : ℕ} {pool bus : List ℕ} {m : ℕ → ℕ} {full : ℕ} (n : ℕ)
    → Held number pool bus [] m full
    → Held (number - n) (drop n pool) bus (take n pool) m full
Held-sold {number} {pool} {bus} {m} {full} n h = record {
  counted = omega (arith, h.counted, length-drop n pool);
  once = λ t. omega (
    arith,
    h.once t,
    ap (count t) (take-append-drop n pool),
    count-append t (take n pool) (drop n pool),
  );
  pool_size = All-right (λ t. m t ≡ full) (take n pool) (drop n pool) (all);
  bundle_size = All-left (λ t. m t ≡ full) (take n pool) (drop n pool) (all);
}
  where
    all : All (λ t. m t ≡ full) (take n pool ++ drop n pool)
    all = rw (take-append-drop n pool) h.pool_size

-- A bundle that is forgotten.
pub Held-dropped :
    {number : ℕ} {pool bus bundle : List ℕ} {m : ℕ → ℕ} {full : ℕ}
    → Held number pool bus bundle m full
    → Held number pool bus [] m full
Held-dropped h = record {
  counted = h.counted;
  once = λ t. omega (arith, h.once t);
  pool_size = h.pool_size;
  bundle_size = tt;
}

-- What no operation of the display path changes.
pub record Fixed : Type 0 where
  pub alive : Bool
  pub max_size : ℕ
  pub factor : ℕ
  pub urbs : ℕ
  pub version : ℕ
  pub handle : Bool

abbrev pub fixed_of : Device → Fixed
fixed_of d = record {
  alive = d.is_alive;
  max_size = d.disp_out_ep_max_size;
  factor = d.packet_size_factor;
  urbs = d.disp_urb_count;
  version = d.device_fwver;
  handle = d.fb_handle;
}

abbrev pub Same : Device → Device → Type 0
Same d d' = fixed_of d' ≡ fixed_of d

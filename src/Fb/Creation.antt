-- ===== src/Fb/Creation.antt =====
-- `_on_create_new_fb` and `_on_release_fb` of fbhandlers.c: what a framebuffer holds, and the error
-- path that gives it back.
use rpusbdisp.Common.{◌≡◌, Bool, true, false, ◌&&◌, if◌then◌else◌, arith}

-- What is held: the fb_info, its memory, its colour map, the fb_deferred_io, its initialisation
-- (`fb_deferred_io_init`), and the registration.
pub record Held : Type 0 where
  pub info : Bool
  pub memory : Bool
  pub cmap : Bool
  pub fbdefio : Bool
  pub deferred_io : Bool
  pub registered : Bool

abbrev pub nothing : Held
nothing = record {
  info = false;
  memory = false;
  cmap = false;
  fbdefio = false;
  deferred_io = false;
  registered = false;
}

-- Whether each call that may fail succeeds.
pub record Answers : Type 0 where
  pub framebuffer_alloc : Bool
  pub rvmalloc_ok : Bool
  pub fb_alloc_cmap : Bool
  pub kzalloc : Bool
  pub register_framebuffer : Bool

-- The labels `failed_nofb`, `failed_nocmap`, `failed_nodefio` and `failed_on_reg`, each with what
-- follows it.
abbrev failed_nofb : Held → Held
failed_nofb h = record h { info = false }

abbrev failed_nocmap : Held → Held
failed_nocmap h = failed_nofb (record h { memory = false })

abbrev failed_nodefio : Held → Held
failed_nodefio h = failed_nocmap (record h { cmap = false })

abbrev failed_on_reg : Held → Held
failed_on_reg h = failed_nodefio (record h { fbdefio = false })

-- `_on_create_new_fb`: what is held afterwards, and whether it succeeded.
unfoldable pub on_create_new_fb : Answers → Held × Bool
on_create_new_fb a =
    let h₁ = record nothing { info = true } in
    let h₂ = record h₁ { memory = true } in
    let h₃ = record h₂ { cmap = true } in
    let h₄ = record h₃ { fbdefio = true; deferred_io = true } in
    if a.framebuffer_alloc
    then if a.rvmalloc_ok
      then if a.fb_alloc_cmap
        then if a.kzalloc
          then if a.register_framebuffer
            then (record h₄ { registered = true }, true)
            else (failed_on_reg h₄, false)
          else (failed_nodefio h₃, false)
        else (failed_nocmap h₂, false)
      else (failed_nofb h₁, false)
    else (nothing, false)

-- `_on_release_fb`, of a framebuffer that is not NULL.
unfoldable pub on_release_fb : Held → Held
on_release_fb h =
    let h₁ = record h { deferred_io = false } in
    let h₂ = record h₁ { registered = false } in
    let h₃ = record h₂ { fbdefio = false } in
    let h₄ = record h₃ { cmap = false } in
    let h₅ = record h₄ { memory = false } in record h₅ { info = false }

-- What the error path does not give back: the initialised deferred I/O, if the registration is what
-- fails.
abbrev pub left_over : Answers → Held
left_over a = record nothing {
  deferred_io = a.framebuffer_alloc && a.rvmalloc_ok && a.fb_alloc_cmap && a.kzalloc;
}

-- A framebuffer that was created and is released holds nothing more; a creation that fails holds
-- nothing, but for the initialised deferred I/O when only the registration failed.
pub create_release_lem :
    (a : Answers)
    → let r = on_create_new_fb a in
      (if r.1 then on_release_fb r.0 else r.0) ≡ (if r.1 then nothing else left_over a)
unfolding on_create_new_fb on_release_fb
create_release_lem a = ground arith

-- ===== src/Bufs/Plain.antt =====
-- ngxe_bufs.c without NGXE_READER_USE_BUFS, which is how ngxe_bufs.h leaves it, and the functions of
-- Engine.xs that hand its scalars to Perl code.
use nginx_engine.Base.{
  ℕ, ◌+◌, ◌==◌, Bool, true, false, ◌&&◌, not, Option, none, some, List, [], ◌∷◌, ◌≡◌, refl, arith,
  if◌then◌else◌, fun_ext,
}
use nginx_engine.Callback.{inc, dec, dec_all, update}
use nginx_engine.Api.{Globals}

-- What the functions change of a scalar: SvTYPE(sv) == SVt_PV, SvPVX, whose bytes are not modelled but
-- for SvCUR, SvLEN and SvOK.
pub record Scalar : Type 0 where
  pub is_pv : Bool
  pub has_string : Bool
  pub cur : ℕ
  pub len : ℕ
  pub ok : Bool

-- The scalars with their reference counts, and those that lose one at the end of the statement.
pub record Heap : Type 0 where
  pub refs : ℕ → ℕ
  pub mortals : List ℕ
  pub scalars : ℕ → Scalar

-- newSV(size), SvPOK_only, SvCUR_set(sv, 0). `given` is the SvLEN that newSV gives for that size.
abbrev pub empty_string : ℕ → Scalar
empty_string given = record { is_pv = true; has_string = true; cur = 0; len = given; ok = true }

-- The scalar `sv` is changed.
abbrev pub change_scalar : ℕ → (Scalar → Scalar) → Heap → Heap
change_scalar sv f h = record h { scalars = update h.scalars sv (f (h.scalars sv)) }

-- ngxe_buf. newSV gives the scalar `fresh`, which nothing refers to.
unfoldable pub plain_buf : ℕ → ℕ → Heap → ℕ × Heap
plain_buf given fresh h = (
  fresh,
  record h {
    refs = inc fresh (inc fresh h.refs);
    mortals = fresh ∷ h.mortals;
    scalars = update h.scalars fresh (empty_string given);
  },
)

-- SvPV_free, SvPV_set, SvLEN_set
abbrev pub free_string : Scalar → Scalar
free_string c =
    if c.is_pv && (c.has_string && not (c.len == 0))
    then record c { has_string = false; len = 0 }
    else c

-- ngxe_buffree
unfoldable pub plain_buffree : ℕ → Heap → Heap
plain_buffree sv h = record (change_scalar sv (λ c. record (free_string c) { ok = false }) h) {
  refs = dec sv h.refs;
}

-- ngxe_buf_cleanup
unfoldable pub buf_cleanup : ℕ → Heap → Heap
unfolding plain_buffree
buf_cleanup sv h = plain_buffree sv h

-- The end of a statement of the Perl program.
unfoldable pub end_statement : Heap → Heap
end_statement h = record h { refs = dec_all h.mortals h.refs; mortals = [] }

-- The ngxe_buf of Engine.xs: `none` for its `croak`, or the scalar that the new reference refers to. The
-- reference takes over the count of ngxe_buf (newRV_noinc).
unfoldable pub give_buf : Globals → ℕ → ℕ → Heap → Option (ℕ × Heap)
unfolding plain_buf
give_buf g given fresh h = if g.initialized then some (plain_buf given fresh h) else none

-- The ngxe_buffree of Engine.xs, of a reference `rv` to `sv`.
unfoldable pub take_back : ℕ → ℕ → Heap → Heap
unfolding plain_buffree
take_back rv sv h = change_scalar rv (λ c. record c { ok = false }) (plain_buffree sv h)

-- ngxe_newSV
unfoldable pub new_scalar : ℕ → ℕ → Heap → ℕ × Heap
new_scalar given fresh h = (
  fresh,
  record h { refs = inc fresh h.refs; scalars = update h.scalars fresh (empty_string given) },
)

-- With the library initialised and no temporary scalars: a scalar that ngxe_buf gives to Perl code has
-- one reference more than before when the statement has ended, and is an empty string; after
-- ngxe_buffree through a reference that is another scalar its memory is freed, it is not defined, and all
-- reference counts are those from before.
pub take_back-give_buf :
    (g : Globals) (given fresh rv : ℕ) (h : Heap)
    → g.initialized ≡ true
    → h.mortals ≡ []
    → (rv == fresh) ≡ false
    → (given == 0) ≡ false
    → (v : Heap) × (give_buf g given fresh h ≡ some (fresh, v))
      × ((end_statement v).refs fresh ≡ h.refs fresh + 1)
      × ((end_statement v).scalars fresh ≡ empty_string given)
      × ((take_back rv fresh (end_statement v)).refs ≡ h.refs)
      × (((take_back rv fresh (end_statement v)).scalars fresh).len ≡ 0)
      × (((take_back rv fresh (end_statement v)).scalars fresh).ok ≡ false)
unfolding give_buf plain_buf end_statement take_back plain_buffree dec_all
take_back-give_buf g given fresh rv h i m other size = (
  (plain_buf given fresh h).1,
  rw i refl,
  rw m (ground arith),
  ground arith,
  rw m (fun_ext λ a. ground arith),
  ground (arith, other, size),
  ground (arith, other, size),
)

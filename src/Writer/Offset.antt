-- ===== src/Writer/Offset.antt =====
-- `int writer_offset` of ngxe_session_t, as the 32 bits of the number, and what the code reads behind it.
use nginx_engine.Base.{
  ℕ, ◌-◌, ◌%◌, ◌^◌, ◌<◌, Bool, true, List, ◌++◌, ltb, if◌then◌else◌, length, drop, arith, ◌≡◌,
  if_true,
}
use nginx_engine.State.{Env}

-- The numbers below are those of the `int`; the others stand for the negative ones.
abbrev pub int_limit : ℕ
int_limit = 2 ^ 31

-- what an `int` keeps of a sum
abbrev pub to_int : ℕ → ℕ
to_int x = x % 2 ^ 32

-- `SvCUR(svbuf) - s->writer_offset > 0`
abbrev pub has_more : ℕ → List ℕ → Bool
has_more o b = if ltb o int_limit then ltb o (length b) else true

module _ {S : Type 0} (e : Env S) where
  -- `SvPV_nolen(svbuf) + s->writer_offset` for as many bytes as `SvCUR(svbuf) - s->writer_offset`: of a
  -- negative offset also the memory in front of the string.
  abbrev pub text_from : ℕ → List ℕ → List ℕ
  text_from o b = if ltb o int_limit then drop o b else e.bytes_before (2 ^ 32 - o) ++ b

  pub text_from-drop : (o : ℕ) (b : List ℕ) → o < int_limit → text_from o b ≡ drop o b
  text_from-drop o b h = if_true (ltb o int_limit) _ _ (ground (arith, h))

pub has_more-ltb : (o : ℕ) (b : List ℕ) → o < int_limit → has_more o b ≡ ltb o (length b)
has_more-ltb o b h = if_true (ltb o int_limit) _ _ (ground (arith, h))

pub to_int_small : (x : ℕ) → x < int_limit → to_int x ≡ x
to_int_small x h = omega (arith, h)

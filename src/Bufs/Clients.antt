-- ===== src/Bufs/Clients.antt =====
-- ngxe_bufs.c: what its clients see, over any sequence of calls.
use nginx_engine.Base.{
  ℕ, ◌^◌, ◌<◌, Bool, true, false, Option, some, List, [], ◌∷◌, ◌≡◌, refl, arith,
}
use mathlib.Core.Path.{subst}
use nginx_engine.Connection.Close.{◌∈◌}
use nginx_engine.Callback.{update}
use nginx_engine.Bufs.{Bufs, take_buf, buf, buffree, up, down}
use nginx_engine.Bufs.Reuse.{
  has, without, IsExclusive, IsFreeIfAny, buf_exclusive, buffree-IsExclusive,
}

-- The lists of structures that are not used yet.
abbrev pub IsUnused : Bufs → Type 0
IsUnused b = b.free_buf ≡ []

-- A run of the clients: which scalars they hold, and the lists. newSV gives a scalar that is neither
-- held nor kept, and a client frees what it holds.
pub data Run : List ℕ → Bufs → Type 0 where
  begins : (b : Bufs) → IsUnused b → Run [] b
  takes :
      (held : List ℕ) (b b' : Bufs) (memory : Bool) (fresh sv : ℕ)
      → Run held b
      → fresh ∈ held ≡ false
      → has fresh b.free_buf ≡ false
      → buf memory fresh b ≡ some (sv, b')
      → Run (sv ∷ held) b'
  frees :
      (held : List ℕ) (b : Bufs) (sv : ℕ)
      → Run held b
      → sv ∈ held ≡ true
      → Run (without sv held) (buffree sv b)

Run-IsExclusive : {held : List ℕ} {b : Bufs} → Run held b → IsExclusive held b
Run-IsExclusive (begins b unused) = record { apart = λ sv m. refl; once = rw unused tt }
Run-IsExclusive (takes held b b' memory fresh sv r fine new same) =
    (subst (IsFreeIfAny held) same
      (buf_exclusive held fresh fine memory b (Run-IsExclusive r) new)).1
Run-IsExclusive (frees held b sv r m) = buffree-IsExclusive held sv b (Run-IsExclusive r) m

-- Over any sequence of calls in which newSV gives scalars that are not in use and clients free what they
-- hold, in any order: a scalar that ngxe_buf gives is held by no other client.
pub Run-apart :
    (held : List ℕ) (b b' : Bufs) (memory : Bool) (fresh sv : ℕ)
    → Run held b
    → fresh ∈ held ≡ false
    → has fresh b.free_buf ≡ false
    → buf memory fresh b ≡ some (sv, b')
    → sv ∈ held ≡ false
Run-apart held b b' memory fresh sv r fine new same =
    (subst (IsFreeIfAny held) same
      (buf_exclusive held fresh fine memory b (Run-IsExclusive r) new)).0

up-down : (n : ℕ) → n < 2 ^ 64 → up (down n) ≡ n
up-down n h = omega (arith, h)

down-up : (n : ℕ) → n < 2 ^ 64 → down (up n) ≡ n
down-up n h = omega (arith, h)

-- When a structure is in use, and the counters fit into 64 bits: the scalar that is freed is the next
-- that ngxe_buf gives, no memory is asked for, and the lists and counters are as before, but that the
-- structure has that scalar, whose length is now 0.
pub buf-buffree :
    (memory : Bool) (fresh sv : ℕ) (x : Option ℕ) (rest : List (Option ℕ)) (b : Bufs)
    → b.inuse_buf ≡ x ∷ rest
    → b.free_bufs_n < 2 ^ 64
    → b.inuse_bufs_n < 2 ^ 64
    → buf memory fresh (buffree sv b)
      ≡ some (sv, record b { inuse_buf = some sv ∷ rest; cur = update b.cur sv 0 })
unfolding buf buffree take_buf
buf-buffree memory fresh sv x rest b h few room =
    rw (h, up-down b.inuse_bufs_n room, down-up b.free_bufs_n few) refl

-- ===== src/Bufs.antt =====
-- ngxe_bufs.c. With NGXE_READER_USE_BUFS scalars are kept for reuse, in two lists of structures; without
-- it, as ngxe_bufs.h has it, each is made by newSV and freed.
pub mod Counters
pub mod Reuse
pub mod Clients
pub mod Plain
use nginx_engine.Base.{
  ℕ, zero, suc, ℤ, ◌+◌, ◌-◌, ◌%◌, ◌^◌, Bool, Option, none, some, List, [], ◌∷◌, if◌then◌else◌,
}
use nginx_engine.Callback.{inc, update}

-- `ngxe_bufs_t`. A structure of one of the lists is the scalar in its `sv`, if it has one; `refs` are the
-- reference counts, `cur` the SvCUR of each scalar, `warned` the number of warnings.
pub record Bufs : Type 0 where
  pub free_buf : List (Option ℕ)
  pub free_bufs_n : ℕ
  pub inuse_buf : List (Option ℕ)
  pub inuse_bufs_n : ℕ
  pub svlen : ℤ
  pub refs : ℕ → ℕ
  pub cur : ℕ → ℕ
  pub warned : ℕ

-- `n++` and `n--` on an `ngx_int_t`, as the 64 bits that it has.
abbrev pub up : ℕ → ℕ
up n = (n + 1) % 2 ^ 64

abbrev pub down : ℕ → ℕ
down n = (n + (2 ^ 64 - 1)) % 2 ^ 64

-- ngxe_bufs_init
unfoldable pub bufs_init : ℤ → Bufs → Bufs
bufs_init svlen b = record b { svlen = svlen }

-- The loop over the structures that malloc gave.
unfoldable pub refill : ℕ → Bufs → Bufs
refill zero b = b
refill (suc n) b =
    refill n (record b { free_buf = none ∷ b.free_buf; free_bufs_n = up b.free_bufs_n })

-- A structure goes from the free ones to those in use; `sv` is the scalar that it has from then on.
abbrev pub hand_out : ℕ → List (Option ℕ) → Bufs → Bufs
hand_out sv rest b = record b {
  free_buf = rest;
  free_bufs_n = down b.free_bufs_n;
  inuse_buf = some sv ∷ b.inuse_buf;
  inuse_bufs_n = up b.inuse_bufs_n;
  cur = update b.cur sv 0;
}

-- ngxe_buf after the allocation. `fresh` is the scalar that newSV would give.
unfoldable pub take_buf : ℕ → List (Option ℕ) → Bufs → Option (ℕ × Bufs)
take_buf fresh [] b = none
take_buf fresh (some sv ∷ rest) b = some (sv, hand_out sv rest b)
take_buf fresh (none ∷ rest) b =
    some (fresh, hand_out fresh rest (record b { refs = inc fresh (inc fresh b.refs) }))

-- ngxe_buf with NGXE_READER_USE_BUFS: NULL, or the scalar. `memory` says whether malloc succeeds.
unfoldable pub buf : Bool → ℕ → Bufs → Option (ℕ × Bufs)
unfolding refill take_buf
buf memory fresh b = elim b.free_buf [
  | [] ↦ if memory then (let b' = refill 1024 b in take_buf fresh b'.free_buf b') else none
  | ◌∷◌ x rest ↦ take_buf fresh (x ∷ rest) b
]

-- ngxe_buffree with NGXE_READER_USE_BUFS. The structure is the one that was handed out last, whichever
-- scalar is freed.
unfoldable pub buffree : ℕ → Bufs → Bufs
buffree sv b = elim b.inuse_buf [
  | [] ↦ record b { warned = b.warned + 1 }
  | ◌∷◌ x rest ↦ record b {
    inuse_buf = rest;
    inuse_bufs_n = down b.inuse_bufs_n;
    free_buf = some sv ∷ b.free_buf;
    free_bufs_n = up b.free_bufs_n;
  }
]

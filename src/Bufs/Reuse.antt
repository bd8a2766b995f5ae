-- ===== src/Bufs/Reuse.antt =====
-- ngxe_bufs.c: a scalar is never handed out while it is held, and the one that was freed last is handed
-- out next.
use nginx_engine.Base.{
  ℕ, if◌then◌else◌, zero, suc, ◌==◌, Bool, true, false, Option, none, some, List, [], ◌∷◌, ◌≡◌,
  refl, arith, if_rule, Bool-cases, inl, inr, sym, ◌∙◌,
}
use mathlib.Core.Path.{subst}
use nginx_engine.Connection.Close.{◌∈◌}
use nginx_engine.Bufs.{Bufs, refill, take_buf, buf, buffree, up}

-- whether the scalar is in one of the structures
abbrev pub has : ℕ → List (Option ℕ) → Bool
has sv [] = false
has sv (none ∷ l) = has sv l
has sv (some x ∷ l) = if x == sv then true else has sv l

abbrev pub IsDistinct : List (Option ℕ) → Type 0
IsDistinct [] = Unit {0}
IsDistinct (none ∷ l) = IsDistinct l
IsDistinct (some x ∷ l) = (has x l ≡ false) × IsDistinct l

-- What the clients hold after one of them has given `sv` back.
abbrev pub without : ℕ → List ℕ → List ℕ
without sv [] = []
without sv (x ∷ l) = if x == sv then without sv l else x ∷ without sv l

-- No structure on the free list has a scalar that is held, and no two have the same.
pub record IsExclusive (held : List ℕ) (b : Bufs) : Type 0 where
  pub apart : (sv : ℕ) → has sv b.free_buf ≡ true → sv ∈ held ≡ false
  pub once : IsDistinct b.free_buf

without_lem : (sv : ℕ) (held : List ℕ) → sv ∈ without sv held ≡ false
without_lem sv [] = refl
without_lem sv (x ∷ held) = ground (arith, without_lem sv held)

without_keeps : (sv x : ℕ) (held : List ℕ) → x ∈ held ≡ false → x ∈ without sv held ≡ false
without_keeps sv x [] h = refl
without_keeps sv x (y ∷ held) h = ground (arith, without_keeps sv x held)

-- What ngxe_buf gives to the next client is held by no other.
abbrev pub IsFreeIfAny : List ℕ → Option (ℕ × Bufs) → Type 0
IsFreeIfAny held none = Unit {0}
IsFreeIfAny held (some (sv, b)) = (sv ∈ held ≡ false) × IsExclusive (sv ∷ held) b

module _ (held : List ℕ) (fresh : ℕ) (fine : fresh ∈ held ≡ false) where
  take_buf_exclusive :
      (l : List (Option ℕ)) (b : Bufs)
      → ((sv : ℕ) → has sv l ≡ true → sv ∈ held ≡ false)
      → IsDistinct l
      → has fresh l ≡ false
      → IsFreeIfAny held (take_buf fresh l b)
  unfolding take_buf
  take_buf_exclusive [] b apart once new = tt
  take_buf_exclusive (none ∷ rest) b apart once new =
      (fine, record { apart = λ x m. ground (arith, apart x m); once = once })
  take_buf_exclusive (some sv ∷ rest) b apart (other, once) new = (
    ground (arith, apart sv),
    record { apart = λ x m. ground (arith, apart x, other, m); once = once },
  )

  refill_exclusive :
      (n : ℕ) (b : Bufs)
      → ((sv : ℕ) → has sv (refill n b).free_buf ≡ has sv b.free_buf)
        × (IsDistinct b.free_buf → IsDistinct (refill n b).free_buf)
  unfolding refill
  refill_exclusive zero b = (λ sv. refl, λ d. d)
  refill_exclusive (suc n) b =
      refill_exclusive n (record b { free_buf = none ∷ b.free_buf; free_bufs_n = up b.free_bufs_n })

  pub buf_exclusive :
      (memory : Bool) (b : Bufs)
      → IsExclusive held b
      → has fresh b.free_buf ≡ false
      → IsFreeIfAny held (buf memory fresh b)
  unfolding buf
  buf_exclusive memory b h new = by_list b.free_buf refl
    where
      by_list :
          (l : List (Option ℕ))
          → l ≡ b.free_buf
          → IsFreeIfAny held (elim l [
            | [] ↦ if memory then take_buf fresh (refill 1024 b).free_buf (refill 1024 b) else none
            | ◌∷◌ x rest ↦ take_buf fresh (x ∷ rest) b
          ])
      by_list [] same =
          if_rule (IsFreeIfAny held) memory
            (take_buf_exclusive (refill 1024 b).free_buf (refill 1024 b)
              (λ sv m. h.apart sv (sym ((refill_exclusive 1024 b).0 sv) ∙ m))
              ((refill_exclusive 1024 b).1 h.once) ((refill_exclusive 1024 b).0 fresh ∙ new))
            tt
      by_list (x ∷ rest) same =
          take_buf_exclusive (x ∷ rest) b (λ sv m. h.apart sv (subst (λ l. has sv l ≡ true) same m))
            (subst IsDistinct (sym same) h.once) (subst (λ l. has fresh l ≡ false) (sym same) new)

pub buffree-IsExclusive :
    (held : List ℕ) (sv : ℕ) (b : Bufs)
    → IsExclusive held b
    → sv ∈ held ≡ true
    → IsExclusive (without sv held) (buffree sv b)
buffree-IsExclusive held sv b h m = by_list b.inuse_buf refl
  where
    new : has sv b.free_buf ≡ false
    new = elim (Bool-cases (has sv b.free_buf)) [
      | inl t ↦ absurd (ground (arith, h.apart sv t, m))
      | inr f ↦ f
    ]

    by_list : (l : List (Option ℕ)) → l ≡ b.inuse_buf → IsExclusive (without sv held) (buffree sv b)
    by_list [] same =
        unfold buffree in
        rw⁻¹ same (record { apart = λ x i. without_keeps sv x held (h.apart x i); once = h.once })
    by_list (x ∷ rest) same =
        unfold buffree in
        rw⁻¹ same (record {
          apart = λ y i. elim (Bool-cases (sv == y)) [
            | inl t ↦ ground (arith, without_lem sv held, t)
            | inr f ↦ without_keeps sv y held (h.apart y (ground (arith, i, f)))
          ];
          once = (new, h.once);
        })

-- ===== src/Bufs/Counters.antt =====
-- ngxe_bufs.c: the two counters are the lengths of the two lists.
use nginx_engine.Base.{
  ℕ, if◌then◌else◌, zero, suc, ◌+◌, ◌^◌, ◌<◌, Bool, Option, none, some, List, [], ◌∷◌, ◌≡◌, refl,
  length, arith, if_rule, sym, ap, ◌∙◌,
}
use mathlib.Core.Path.{subst}
use nginx_engine.Bufs.{Bufs, refill, take_buf, buf, buffree, up, down}

-- Both counters are right.
pub record IsCounted (b : Bufs) : Type 0 where
  pub free : b.free_bufs_n ≡ length b.free_buf
  pub inuse : b.inuse_bufs_n ≡ length b.inuse_buf

up_lem : (n : ℕ) → n + 1 < 2 ^ 64 → up n ≡ suc n
up_lem n h = omega (arith, h)

down_lem : (n : ℕ) → suc n < 2 ^ 64 → down (suc n) ≡ n
down_lem n h = omega (arith, h)

-- A structure that is put on the free list.
refill-IsCounted :
    (n : ℕ) (b : Bufs) → length b.free_buf + n < 2 ^ 64 → IsCounted b → IsCounted (refill n b)
unfolding refill
refill-IsCounted zero b room h = h
refill-IsCounted (suc n) b room h = refill-IsCounted n _ (omega (arith, room)) (record {
  free = ground (arith, h.free, up_lem (length b.free_buf) (omega (arith, room)));
  inuse = h.inuse;
})

length-refill :
    (n : ℕ) (b : Bufs)
    → (length (refill n b).free_buf ≡ length b.free_buf + n)
      × ((refill n b).inuse_buf ≡ b.inuse_buf)
unfolding refill
length-refill zero b = (omega arith, refl)
length-refill (suc n) b =
    let r =
      length-refill n (record b { free_buf = none ∷ b.free_buf; free_bufs_n = up b.free_bufs_n }) in
    (omega (arith, r.0), r.1)

abbrev IsCountedIfAny : Option (ℕ × Bufs) → Type 0
IsCountedIfAny none = Unit {0}
IsCountedIfAny (some (sv, b)) = IsCounted b

take_buf-IsCounted :
    (fresh : ℕ) (l : List (Option ℕ)) (b : Bufs)
    → l ≡ b.free_buf
    → length l < 2 ^ 64
    → length b.inuse_buf + 1 < 2 ^ 64
    → IsCounted b
    → IsCountedIfAny (take_buf fresh l b)
unfolding take_buf
take_buf-IsCounted fresh [] b same few room h = tt
take_buf-IsCounted fresh (none ∷ rest) b same few room h = record {
  free = rw (h.free ∙ ap length (sym same)) (down_lem (length rest) (omega (arith, few)));
  inuse = rw h.inuse (up_lem (length b.inuse_buf) room);
}
take_buf-IsCounted fresh (some sv ∷ rest) b same few room h = record {
  free = rw (h.free ∙ ap length (sym same)) (down_lem (length rest) (omega (arith, few)));
  inuse = rw h.inuse (up_lem (length b.inuse_buf) room);
}

buf_counted :
    (memory : Bool) (fresh : ℕ) (l : List (Option ℕ)) (b : Bufs)
    → l ≡ b.free_buf
    → length l + 1024 < 2 ^ 64
    → length b.inuse_buf + 1 < 2 ^ 64
    → IsCounted b
    → IsCountedIfAny (elim l [
      | [] ↦ if memory then take_buf fresh (refill 1024 b).free_buf (refill 1024 b) else none
      | ◌∷◌ x rest ↦ take_buf fresh (x ∷ rest) b
    ])
buf_counted memory fresh [] b same few room h =
    if_rule IsCountedIfAny memory
      (take_buf-IsCounted fresh (refill 1024 b).free_buf (refill 1024 b) refl
        (rw ((length-refill 1024 b).0, sym same) (omega arith)) (rw (length-refill 1024 b).1 room)
        (refill-IsCounted 1024 b (rw⁻¹ same (omega arith)) h))
      tt
buf_counted memory fresh (x ∷ rest) b same few room h =
    take_buf-IsCounted fresh (x ∷ rest) b same (omega (arith, few)) room h

-- ngxe_buf keeps the two counters equal to the lengths of the two lists, also when it takes new
-- structures from malloc, as long as the numbers of structures stay below 2⁶⁴.
pub buf-IsCounted :
    (memory : Bool) (fresh sv : ℕ) (b b' : Bufs)
    → length b.free_buf + 1024 < 2 ^ 64
    → length b.inuse_buf + 1 < 2 ^ 64
    → IsCounted b
    → buf memory fresh b ≡ some (sv, b')
    → IsCounted b'
unfolding buf
buf-IsCounted memory fresh sv b b' few room h same =
    subst IsCountedIfAny same (buf_counted memory fresh b.free_buf b refl few room h)

-- So does ngxe_buffree.
pub buffree-IsCounted :
    (sv : ℕ) (b : Bufs)
    → length b.free_buf + 1 < 2 ^ 64
    → length b.inuse_buf < 2 ^ 64
    → IsCounted b
    → IsCounted (buffree sv b)
buffree-IsCounted sv b few room h = by_list b.inuse_buf refl
  where
    by_list : (l : List (Option ℕ)) → l ≡ b.inuse_buf → IsCounted (buffree sv b)
    by_list [] same =
        unfold buffree in
        rw⁻¹ same (record { free = h.free; inuse = h.inuse ∙ ap length (sym same) })
    by_list (x ∷ rest) same =
        unfold buffree in
        rw⁻¹ same (record {
          free = rw h.free (up_lem (length b.free_buf) few);
          inuse =
              rw (h.inuse ∙ ap length (sym same))
                (down_lem (length rest) (subst (λ l. length l < 2 ^ 64) (sym same) room));
        })

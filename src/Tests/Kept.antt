-- ===== src/Tests/Kept.antt =====
-- The scalars that are kept for reuse.
use nginx_engine.Base.{ℕ, pos, true, false, some, none, Option, [], ◌∷◌, ◌≡◌, refl, arith}
use nginx_engine.Connection.Close.{◌∈◌}
use nginx_engine.Callback.{update}
use nginx_engine.Bufs.{Bufs, buf, buffree}
use nginx_engine.Bufs.Counters.{IsCounted, buf-IsCounted}
use nginx_engine.Bufs.Reuse.{without}
use nginx_engine.Bufs.Clients.{Run, begins, takes, frees, Run-apart, buf-buffree}
use nginx_engine.Bufs.Plain.{
  Heap, empty_string, give_buf, take_back, end_statement, take_back-give_buf,
}
use nginx_engine.Tests.Calls.{globals}

abbrev unused : Bufs
unused = record {
  free_buf = [];
  free_bufs_n = 0;
  inuse_buf = [];
  inuse_bufs_n = 0;
  svlen = pos 4080;
  refs = λ a. 0;
  cur = λ a. 0;
  warned = 0;
}

-- One scalar that is free, one that is in use.
abbrev some_kept : Bufs
some_kept = record unused {
  free_buf = some 5 ∷ none ∷ [];
  free_bufs_n = 2;
  inuse_buf = some 4 ∷ [];
  inuse_bufs_n = 1;
}

buf-IsCounted_example : IsCounted (record some_kept {
  free_buf = none ∷ [];
  free_bufs_n = 1;
  inuse_buf = some 5 ∷ some 4 ∷ [];
  inuse_bufs_n = 2;
  cur = update (λ a. 0) 5 0;
})
buf-IsCounted_example =
    buf-IsCounted true 9 5 some_kept _ (omega arith) (omega arith)
      (record { free = refl; inuse = refl }) (unfold buf in refl)

buf-buffree_example :
    buf true 9 (buffree 8 some_kept)
    ≡ some (8, record some_kept { inuse_buf = some 8 ∷ []; cur = update (λ a. 0) 8 0 })
buf-buffree_example = buf-buffree true 9 8 (some 4) [] some_kept refl (omega arith) (omega arith)

abbrev kept_of : Option (ℕ × Bufs) → ℕ × Bufs
kept_of none = (0, unused)
kept_of (some r) = r

abbrev first : ℕ × Bufs
first = kept_of (buf true 9 unused)

abbrev second : ℕ × Bufs
second = kept_of (buf true 8 first.1)

one_held : Run (8 ∷ 9 ∷ []) second.1
one_held =
    takes (9 ∷ []) first.1 second.1 true 8 8
      (takes [] unused first.1 true 9 9 (begins unused refl) refl refl (unfold buf in refl)) refl
      (unfold buf in refl) (unfold buf in refl)

Run-apart_example : 9 ∈ (without 9 (8 ∷ 9 ∷ [])) ≡ false
unfolding buf buffree
Run-apart_example =
    Run-apart (without 9 (8 ∷ 9 ∷ [])) (buffree 9 second.1)
      (kept_of (buf true 7 (buffree 9 second.1))).1 true 7 9
      (frees (8 ∷ 9 ∷ []) second.1 9 one_held refl) refl refl refl

abbrev heap : Heap
heap = record {
  refs = λ a. 1;
  mortals = [];
  scalars = λ a. record { is_pv = false; has_string = false; cur = 0; len = 0; ok = true };
}

take_back-give_buf_example :
    (v : Heap) × (give_buf globals 4080 9 heap ≡ some (9, v))
    × ((end_statement v).refs 9 ≡ 2)
    × ((end_statement v).scalars 9 ≡ empty_string 4080)
    × ((take_back 6 9 (end_statement v)).refs ≡ heap.refs)
    × (((take_back 6 9 (end_statement v)).scalars 9).len ≡ 0)
    × (((take_back 6 9 (end_statement v)).scalars 9).ok ≡ false)
take_back-give_buf_example = take_back-give_buf globals 4080 9 6 heap refl refl refl refl

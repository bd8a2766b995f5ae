-- ===== src/Api/Rules.antt =====
-- What every call of Engine.xs leaves is coherent: the rules for its steps.
use nginx_engine.Base.{String}
use nginx_engine.Base.{ℕ, zero, suc, ℤ, Option, none, some, List, [], ◌∷◌, if_rule, ◌≡◌, refl}
use nginx_engine.State.{World, Pointer, null, connection}
use nginx_engine.Connection.Close.{IsCoherent}
use nginx_engine.Api.{
  Globals, Reply, state_of, Supply, if_initialized, with_session, touch, returning, answering_one,
  warn_many,
}
use nginx_engine.Api.Creation.{extra_args, with_callback, with_args, first_args}

module _ {S : Type 0} where
  -- what a call leaves, if its writer has fuel enough, is coherent
  abbrev pub Fine : Option (Reply S) → Type 0
  Fine none = Unit {0}
  Fine (some r) = IsCoherent (state_of r)

  abbrev pub FineAfter : (World S → Option (Reply S)) → Type 0
  FineAfter next = (w : World S) → IsCoherent w → Fine (next w)

  pub returning_rule :
      (o : Option (World S)) → ((w : World S) → o ≡ some w → IsCoherent w) → Fine (returning o)
  returning_rule none h = tt
  returning_rule (some w) h = h w refl

  pub answering_one_rule :
      (o : Option (World S)) → ((w : World S) → o ≡ some w → IsCoherent w) → Fine (answering_one o)
  answering_one_rule none h = tt
  answering_one_rule (some w) h = h w refl

  pub warn_many-IsCoherent :
      (line : String) (args : List ℤ) (w : World S)
      → IsCoherent w
      → IsCoherent (warn_many line args w)
  warn_many-IsCoherent line [] w h = h
  warn_many-IsCoherent line (a ∷ []) w h = h
  warn_many-IsCoherent line (a ∷ b ∷ l) w h = record { pool = h.pool; once = h.once }

  module _ (g : Globals) where
    pub if_initialized_rule :
        (next : World S → Option (Reply S)) → FineAfter next → FineAfter (if_initialized g next)
    unfolding if_initialized
    if_initialized_rule next f w h = if_rule Fine g.initialized (f w h) h

    pub with_session_rule :
        (p : Pointer) (next : World S → Option (Reply S))
        → FineAfter next
        → FineAfter (with_session g p next)
    unfolding with_session
    with_session_rule null next f =
        if_initialized_rule _ λ w h. record { pool = h.pool; once = h.once }
    with_session_rule connection next f = if_initialized_rule _ λ w h.
        if_rule Fine w.has_pool
          (if_rule Fine w.has_session (f (touch w) (record { pool = h.pool; once = h.once }))
            (record { pool = h.pool; once = h.once }))
          (record { pool = h.pool; once = h.once })

  module _ (cb : ℕ) (s : Supply) where
    pub with_callback_rule :
        (next : World S → Option (Reply S)) → FineAfter next → FineAfter (with_callback cb s next)
    unfolding with_callback
    with_callback_rule next f w h =
        if_rule Fine (s.memory 0)
          (if_rule Fine (s.memory 1) (f _ (record { pool = h.pool; once = h.once }))
            (record { pool = h.pool; once = h.once }))
          (record { pool = h.pool; once = h.once })

    pub with_args_rule :
        (n : ℕ) (next : World S → Option (Reply S))
        → FineAfter next
        → FineAfter (with_args cb s n next)
    unfolding with_args
    with_args_rule n next f w h =
        if_rule Fine (s.memory 2) (f _ (record { pool = h.pool; once = h.once }))
          (record { pool = h.pool; once = h.once })

    pub extra_args-IsCoherent :
        (n : ℕ) (fresh : ℕ → ℕ) (w : World S) → IsCoherent w → IsCoherent (extra_args cb fresh n w)
    unfolding extra_args
    extra_args-IsCoherent zero fresh w h = h
    extra_args-IsCoherent (suc n) fresh w h =
        extra_args-IsCoherent n _ _ (record { pool = h.pool; once = h.once })

    pub first_args-IsCoherent : (w : World S) → IsCoherent w → IsCoherent (first_args cb s w)
    unfolding first_args
    first_args-IsCoherent w h = record { pool = h.pool; once = h.once }

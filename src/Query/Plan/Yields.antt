-- ===== src/Query/Plan/Yields.antt =====
-- A machine yields rows if pulling from it gives them one by one and then nothing; lists as sources, the
-- loop of a filter, projection, a limit, and the loop that gathers rows.
use quantum_database.Prelude.{
  ℕ, zero, suc, ◌<◌, ◌≡◌, subst, Bool, true, false, List, [], ◌∷◌, length, Option, none, some,
  if◌then◌else◌, arith,
}
use quantum_database.Query.Result.{Result, ok, bind-ok, ok_inj}
use quantum_database.Query.Plan.Tables.{filter_all}
use quantum_database.Query.Plan.{filter_next, drain}

pub data Yields {S R : Type 0} (next : S → Result (Option R × S)) : S → List R → Type 0 where
  done : {st st' : S} → next st ≡ ok (none, st') → Yields next st []
  more :
      {st st' : S} {r : R} {rs : List R}
      → next st ≡ ok (some r, st')
      → Yields next st' rs
      → Yields next st (r ∷ rs)

module _ {S R : Type 0} (next : S → Result (Option R × S)) where
  pub drain-Yields :
      (f : ℕ) {st : S} {rs : List R}
      → Yields next st rs
      → length rs < f
      → (st' : S) × (drain next f st ≡ ok (rs, st'))
  unfolding drain
  drain-Yields zero y h = absurd (omega arith)
  drain-Yields (suc f) (done {st} {st'} e) h = (st', rw e)
  drain-Yields (suc f) (more {st} {st'} {r} {rs} e y) h =
      let (last, d) = drain-Yields f y (omega arith) in (last, rw (e, d))

-- As `Yields`, with another pull for the first row.
data First {S R : Type 0} (first next : S → Result (Option R × S)) : S → List R → Type 0 where
  first_done : {st st' : S} → first st ≡ ok (none, st') → First first next st []
  first_more :
      {st st' : S} {r : R} {rs : List R}
      → first st ≡ ok (some r, st')
      → Yields next st' rs
      → First first next st (r ∷ rs)

First-Yields :
    {S R : Type 0} {next : S → Result (Option R × S)} {st : S} {rs : List R}
    → First next next st rs
    → Yields next st rs
First-Yields (first_done e) = done e
First-Yields (first_more e y) = more e y

module _ {S R : Type 0} (next : S → Result (Option R × S)) where
  module _ (p : R → Result Bool) where
    -- One turn of the loop.
    filter_next-turn :
        (f g : ℕ) (b : Bool) {st st' : S} {r : R} {out : List R}
        → next st ≡ ok (some r, st')
        → p r ≡ ok b
        → First (filter_next next p f) (filter_next next p g) st' out
        → Yields (filter_next next p g) st' out
        → First (filter_next next p (suc f)) (filter_next next p g) st (if b then r ∷ out else out)
    unfolding filter_next
    filter_next-turn f g true {st} {st'} e q rest later = first_more {st' = st'} (rw (e, q)) later
    filter_next-turn f g false e q (first_done {st'} d) later =
        first_done {st' = st'} (rw (e, q, d))
    filter_next-turn f g false e q (first_more {st'} d y) later =
        first_more {st' = st'} (rw (e, q, d)) y

    filter_next-First :
        (f g : ℕ) {st : S} {rs out : List R}
        → Yields next st rs
        → filter_all p rs ≡ ok out
        → length rs < f
        → length rs < g
        → First (filter_next next p f) (filter_next next p g) st out
    unfolding filter_next filter_all
    filter_next-First zero g y h l m = absurd (omega arith)
    filter_next-First (suc f) g {out = out} (done {st} {st'} e) h l m =
        subst (First (filter_next next p (suc f)) (filter_next next p g) st) (ok_inj h)
          (first_done {st' = st'} (rw e))
    filter_next-First (suc f) g {out = out} (more {st} {st'} {r} {rs} e y) h l m =
        let (b, q, h1) = bind-ok {r = p r} h in
        let (ys, q1, h2) = bind-ok {r = filter_all p rs} h1 in
        subst (First (filter_next next p (suc f)) (filter_next next p g) st) (ok_inj h2) (
          filter_next-turn f g b e q
            (filter_next-First f g y q1 (omega (arith, l)) (omega (arith, m)))
            (First-Yields (filter_next-First g g y q1 (omega (arith, m)) (omega (arith, m)))))

    pub filter_next-Yields :
        (f : ℕ) {st : S} {rs out : List R}
        → Yields next st rs
        → filter_all p rs ≡ ok out
        → length rs < f
        → Yields (filter_next next p f) st out
    filter_next-Yields f y h l = First-Yields (filter_next-First f f y h l l)

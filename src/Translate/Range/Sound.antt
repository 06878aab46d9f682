-- ===== src/Translate/Range/Sound.antt =====
-- What `reduce_range` returns is the set of values that the operator list admits.
use flowspec_vpp_agent.Prelude.{
  ℕ, ◌≤◌, ◌<◌, ◌^◌, ◌≡◌, refl, ◌∙◌, sym, ap, subst, Bool, true, false, ◌&&◌, ◌||◌, List, [], ◌∷◌,
  leb, Bool-cases, inl, inr, arith,
}
use flowspec_vpp_agent.Flowspec.{NumericOp}
use flowspec_vpp_agent.Semantics.Operators.{holds_from, ops_hold}
use flowspec_vpp_agent.Translate.Unsupported.{ok, >>=-eq-ok}
use flowspec_vpp_agent.Translate.Interval.{Interval, interval, normalize, intersect_sets, op_to_set}
use flowspec_vpp_agent.Translate.Interval.Covers.{
  covers, AllValid, covers-union_sets, covers-normalize,
}
use flowspec_vpp_agent.Translate.Interval.Canonical.{
  Canonical, covers-intersect_sets, intersect_sets-AllValid, union_sets-AllValid,
  normalize-Canonical,
}
use flowspec_vpp_agent.Translate.Interval.Operator.{op_to_set-AllValid, covers-op_to_set}
use flowspec_vpp_agent.Translate.Range.{
  Loop, loop_start, close_term, take_set, round, loop, single, reduce_range,
}

-- A loop state within an alternative, its sets in range.
pub record Started (limit : ℕ) (l : Loop) : Type 0 where
  pub started : l.cur_started ≡ true
  pub result_valid : AllValid limit l.result
  pub cur_valid : AllValid limit l.cur

-- The set that has been built, with the alternative under way.
abbrev pub built : Loop → ℕ → Bool
built l x = covers l.result x || covers l.cur x

module _ (limit : ℕ) (in_64 : limit < 2 ^ 64) where
  close_term-AllValid : (l : Loop) → Started limit l → AllValid limit (close_term l).result
  unfolding close_term
  close_term-AllValid l h =
      rw h.started (union_sets-AllValid limit l.result l.cur in_64 h.result_valid h.cur_valid)

  covers-close_term :
      (l : Loop) (x : ℕ) → Started limit l → covers (close_term l).result x ≡ built l x
  unfolding close_term
  covers-close_term l x h =
      rw h.started (covers-union_sets limit l.result l.cur x in_64 h.result_valid h.cur_valid)

  abbrev joined : List Interval → Loop → Loop
  joined set l = record { result = l.result; cur = intersect_sets l.cur set; cur_started = true }

  abbrev opened : List Interval → Loop → Loop
  opened set l = record { result = (close_term l).result; cur = set; cur_started = true }

  -- The loop body, once an alternative is under way.
  round-joined :
      (op : NumericOp) (set : List Interval) (l : Loop)
      → Started limit l
      → op.and ≡ true
      → round false op set l ≡ joined set l
  unfolding round take_set
  round-joined op set l h e = ground arith

  round-opened :
      (op : NumericOp) (set : List Interval) (l : Loop)
      → op.and ≡ false
      → round false op set l ≡ opened set l
  unfolding round take_set close_term
  round-opened op set l e = ground arith

  joined-Started :
      (set : List Interval) (l : Loop)
      → Started limit l
      → AllValid limit set
      → Started limit (joined set l)
  joined-Started set l h hs = record {
    started = refl;
    result_valid = h.result_valid;
    cur_valid = intersect_sets-AllValid limit l.cur set in_64 h.cur_valid hs;
  }

  opened-Started :
      (set : List Interval) (l : Loop)
      → Started limit l
      → AllValid limit set
      → Started limit (opened set l)
  opened-Started set l h hs = record {
    started = refl;
    result_valid = close_term-AllValid l h;
    cur_valid = hs;
  }

  -- The alternatives that the rest of the list adds to a state.
  loop-built :
      (ops : List NumericOp) (l l' : Loop) (x : ℕ)
      → x ≤ limit
      → Started limit l
      → loop limit false ops l ≡ ok l'
      → Started limit l' × (built l' x ≡ (covers l.result x || holds_from (covers l.cur x) ops x))
  unfolding loop holds_from
  loop-built [] l l' x hx h e = let p : l ≡ l' = cc in rw (← p) (h, refl)
  loop-built (op ∷ ops) l l' x hx h e =
      let (set, es, el) = >>=-eq-ok (op_to_set op limit) _ e in
      let hs = op_to_set-AllValid op limit es in
      let cs = covers-op_to_set op limit x es hx in
      elim (Bool-cases op.and) [
        | inl a ↦
            let q : loop limit false ops (joined set l) ≡ ok l' =
              subst (λ r. loop limit false ops r ≡ ok l') (round-joined op set l h a) el in
            let (st, b) = loop-built ops (joined set l) l' x hx (joined-Started set l h hs) q in
            (st, simp a (b ∙ rw (covers-intersect_sets limit l.cur set x in_64 h.cur_valid hs, cs)))
        | inr a ↦
            let q : loop limit false ops (opened set l) ≡ ok l' =
              subst (λ r. loop limit false ops r ≡ ok l') (round-opened op set l a) el in
            let (st, b) = loop-built ops (opened set l) l' x hx (opened-Started set l h hs) q in
            (st, simp a (b ∙ rw (covers-close_term l x h, cs) (ground arith)))
      ]

  -- The set whose shape `single` tests.
  abbrev pub final : Loop → List Interval
  final l = normalize (close_term l).result

  pub covers-final :
      (op : NumericOp) (ops : List NumericOp) (l : Loop) (x : ℕ)
      → x ≤ limit
      → loop limit true (op ∷ ops) loop_start ≡ ok l
      → Canonical limit (final l) × (covers (final l) x ≡ ops_hold (op ∷ ops) x)
  unfolding loop round take_set ops_hold
  covers-final op ops l x hx e =
      let (set, es, el) = >>=-eq-ok (op_to_set op limit) _ e in
      let hs = op_to_set-AllValid op limit es in
      let first : Loop = record { result = []; cur = set; cur_started = true } in
      let (st, b) =
        loop-built ops first l x hx (record { started = refl; result_valid = tt; cur_valid = hs })
          el in
      let valid = close_term-AllValid l st in
      (
        normalize-Canonical limit (close_term l).result in_64 valid,
        covers-normalize limit (close_term l).result x in_64 valid
            ∙ covers-close_term l x st
            ∙ b
            ∙ unfold covers in rw (covers-op_to_set op limit x es hx),
      )

single-eq-ok :
    (s : List Interval) (lo hi : ℕ) → single s ≡ ok (lo, hi) → s ≡ record { lo = lo; hi = hi } ∷ []
unfolding single
single-eq-ok [] lo hi e = cc
single-eq-ok (v ∷ []) lo hi e = ground arith
single-eq-ok (v ∷ w ∷ s) lo hi e = cc

covers_one : (lo hi x : ℕ) → covers (interval lo hi ∷ []) x ≡ (leb lo x && leb x hi)
unfolding covers
covers_one lo hi x = ground arith

-- When `reduce_range` accepts a list of operators over [0, limit], with a limit that a uint64 holds,
-- the range that it returns is not empty, lies within [0, limit], and contains exactly the values up
-- to the limit that the list admits.
pub reduce_range_exact :
    (ops : List NumericOp) (limit lo hi : ℕ)
    → limit < 2 ^ 64
    → reduce_range ops limit ≡ ok (lo, hi)
    → (lo ≤ hi) × (hi ≤ limit) × ((x : ℕ) → x ≤ limit → (leb lo x && leb x hi) ≡ ops_hold ops x)
unfolding reduce_range ops_hold
reduce_range_exact [] limit lo hi in_64 e = (ground arith, ground arith, λ x hx. ground arith)
reduce_range_exact (op ∷ ops) limit lo hi in_64 e =
    let (l, el, es) = >>=-eq-ok (loop limit true (op ∷ ops) loop_start) _ e in
    let shape = single-eq-ok (final limit in_64 l) lo hi es in
    let canonical = (covers-final limit in_64 op ops l 0 (omega arith) el).0 in
    let bounds = subst (Canonical limit) shape canonical in
    (
      bounds.1,
      bounds.2,
      λ x hx.
          sym (covers_one lo hi x)
          ∙ ap (λ s. covers s x) (sym shape)
          ∙ (covers-final limit in_64 op ops l x hx el).1,
    )

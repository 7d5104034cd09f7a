-- ===== src/Runner/Worker/Concurrent/Spaced.antt =====
-- That the workers together export no UID twice within the TTL.
use gpuid.Base.{
  ℕ, ◌≤◌, ◌≡◌, inl, inr, refl, ap, arith, Bool-cases, List, ◌∷◌, ◌++◌, none, some, Text, text_eq,
  text_eq_iff, set, lookup-set, set-IsMap,
}
use gpuid.Runner.Seen.{UidSet, add}
use gpuid.Runner.Worker.Concurrent.{
  update, Place, working, exported, ending, uid_of, System, Move, pass_over, look, seen, unknown,
  expired, fail, skip, export, mark, done, Step, tick, sweep_now, deliver, move, Reach, start,
  later,
}
use gpuid.Runner.Worker.Concurrent.Invariant.{
  Covered, pending, marked, old, IsSpaced, Inv, Inv-init, tick-Inv, sweep-Inv,
}
use gpuid.Runner.Worker.Concurrent.Moves.{
  update_cases, update_self, Unique-update, Unique-got, Covered-update, replace-Inv, calm-Inv,
  look-Inv, work-Inv,
}

module _ (key_of : Text → Text) where
  export-Inv :
      (s : System) (i : ℕ) (u : Text)
      → Inv key_of s
      → s.at i ≡ working u
      → Inv key_of (record s { exports = (u, s.now) ∷ s.exports; at = update s.at i (exported u) })
  export-Inv s i u v h = record {
    is_map = v.is_map;
    unique = Unique-update key_of s.at i _ v.unique (λ w e. cc (h, e));
    past = λ w t x. elim x [ inl e ↦ ground arith | inr x ↦ v.past w t x ];
    covered = λ w t x. elim x [
      | inl e ↦ pending i (cc (update_self s.at i (exported u), e))
      | inr x ↦ Covered-update key_of s i _ _ (λ y e. cc (h, e)) (v.covered w t x)
    ];
    known = λ j w e t q x. elim (update_cases s.at i (exported u) j) [
      | inl (same, is) ↦ cc (is, q)
      | inr (other, is) ↦ elim x [
        | inl n ↦ absurd (other (alone j w (cc (ap uid_of is, ap uid_of q)) (cc n)))
        | inr x ↦ v.known j w e t (cc (is, q)) x
      ]
    ];
    fresh = λ j w t q x. elim (update_cases s.at i (exported u) j) [
      | inl (same, is) ↦ cc (is, q)
      | inr (other, is) ↦ elim x [
        | inl n ↦ absurd (other (alone j w (cc (ap uid_of is, ap uid_of q)) (cc n)))
        | inr x ↦ v.fresh j w t (cc (is, q)) x
      ]
    ];
    spaced = (λ t x. v.fresh i u t h x, v.spaced);
  }
    where
      alone : (j : ℕ) (w : Text) → uid_of (s.at j) ≡ some w → u ≡ w → i ≡ j
      alone j w q e = v.unique i j u w (ap uid_of h) q (ap key_of e)

  mark-Inv :
      (s : System) (i : ℕ) (u : Text)
      → Inv key_of s
      → s.at i ≡ exported u
      → Inv key_of (record s { processed = add u s.now s.processed; at = update s.at i (ending u) })
  unfolding add
  mark-Inv s i u v h = record {
    is_map = set-IsMap u s.now s.processed v.is_map;
    unique = Unique-update key_of s.at i _ v.unique (λ w e. cc (h, e));
    past = v.past;
    covered = λ w t x. of_cover w t (v.past w t x) (v.covered w t x);
    known = λ j w e t q x. elim (update_cases s.at i (ending u) j) [
      | inl (same, is) ↦ cc (is, q)
      | inr (other, is) ↦ v.known j w e t (cc (is, q)) x
    ];
    fresh = λ j w t q x. elim (update_cases s.at i (ending u) j) [
      | inl (same, is) ↦ cc (is, q)
      | inr (other, is) ↦ v.fresh j w t (cc (is, q)) x
    ];
    spaced = v.spaced;
  }
    where
      of_cover :
          (w : Text) (t : ℕ)
          → t ≤ s.now
          → Covered s w t
          → Covered
              (record s { processed = set u s.now s.processed; at = update s.at i (ending u) })
              w
              t
      of_cover w t le (pending j e) = elim (update_cases s.at i (ending u) j) [
        | inl (same, is) ↦
            marked s.now
              (rw (lookup-set w u s.now s.processed, (text_eq_iff u w).1 (cc (h, e, same))) refl) le
        | inr (other, is) ↦ pending j (cc (is, e))
      ]
      of_cover w t le (marked m e le') = elim (Bool-cases (text_eq u w)) [
        | inl same ↦ marked s.now (rw (lookup-set w u s.now s.processed, same) refl) le
        | inr other ↦ marked m (rw (lookup-set w u s.now s.processed, other) e) le'
      ]
      of_cover w t le (old lt) = old lt

  move-Inv :
      (s : System) (i : ℕ) {p q : Place} {set : UidSet} {new : List (Text × ℕ)}
      → Inv key_of s
      → s.at i ≡ p
      → Move s.now s.processed p set new q
      → Inv key_of (record s { processed = set; exports = new ++ s.exports; at = update s.at i q })
  move-Inv s i v h pass_over = calm-Inv key_of s i _ v h (λ x e. cc) (λ u e. e) refl
  move-Inv s i v h look = look-Inv key_of s i _ v h
  move-Inv s i v h (seen le) = calm-Inv key_of s i _ v h (λ x e. cc) (λ u e. e) refl
  move-Inv s i v h unknown = work-Inv key_of s i _ none v h (λ m e. cc)
  move-Inv s i v h (expired {t = t} lt) = work-Inv key_of s i _ (some t) v h (λ m e. ground arith)
  move-Inv s i v h fail = calm-Inv key_of s i _ v h (λ x e. cc) (λ u e. e) refl
  move-Inv s i v h skip = calm-Inv key_of s i _ v h (λ x e. cc) (λ u e. e) refl
  move-Inv s i v h export = export-Inv s i _ v h
  move-Inv s i v h mark = mark-Inv s i _ v h
  move-Inv s i v h done = calm-Inv key_of s i _ v h (λ x e. cc) (λ u e. cc) refl

  Step-Inv : {s t : System} → Inv key_of s → Step key_of s t → Inv key_of t
  Step-Inv v (tick h) = tick-Inv key_of h v
  Step-Inv v sweep_now = sweep-Inv key_of v
  Step-Inv {s} v (deliver i u h apart) =
      replace-Inv key_of s i _ v (λ x e. cc (h, e)) (Unique-got key_of s.at i u v.unique apart)
        (λ u e t is x. cc) (λ u t is x. cc)
  Step-Inv {s} v (move i h m) = move-Inv s i v h m

  pub Reach-Inv : {s : System} → Reach key_of s → Inv key_of s
  Reach-Inv start = Inv-init key_of
  Reach-Inv (later r step) = Step-Inv (Reach-Inv r) step

  -- However the workers of do and the sweeper of the set interleave, two successful exports of one
  -- UID are more than the TTL apart. The work queue hands out no key again before its Done, and
  -- pods of one UID have one key.
  pub exports-IsSpaced : {s : System} → Reach key_of s → IsSpaced s.exports
  exports-IsSpaced r = (Reach-Inv r).spaced

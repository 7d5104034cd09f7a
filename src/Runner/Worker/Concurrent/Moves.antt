-- ===== src/Runner/Worker/Concurrent/Moves.antt =====
-- That the moves of a worker keep the invariant.
use gpuid.Base.{
  ℕ, ◌-◌, ◌<◌, ◌≡◌, ◌≢◌, ◌⊎◌, inl, inr, refl, ap, subst, arith, Bool, true, false, Bool-cases, List,
  ◌==◌, Option, some, Text, lookup,
}
use gpuid.Runner.Seen.{cache_ttl}
use gpuid.Runner.Worker.Concurrent.{update, Place, got, looked, working, exported, uid_of, System}
use gpuid.Runner.Worker.Concurrent.Invariant.{
  Exported, Covered, pending, marked, old, Known, by_entry, by_age, Unique, Inv,
}

pub update_cases :
    (at : ℕ → Place) (i : ℕ) (q : Place) (j : ℕ)
    → ((i ≡ j) × (update at i q j ≡ q)) ⊎ ((i ≢ j) × (update at i q j ≡ at j))
update_cases at i q j = elim (Bool-cases (i == j)) [
  | inl e ↦ inl (ground arith, rw e refl)
  | inr e ↦ inr (λ h. ground arith, rw e refl)
]

pub update_self : (at : ℕ → Place) (i : ℕ) (q : Place) → update at i q i ≡ q
update_self at i q = ground arith

module _ (key_of : Text → Text) where
  -- A worker keeps its pod, or gives it up.
  pub Unique-update :
      (at : ℕ → Place) (i : ℕ) (q : Place)
      → Unique key_of at
      → ((u : Text) → uid_of q ≡ some u → uid_of (at i) ≡ some u)
      → Unique key_of (update at i q)
  Unique-update at i q h kept j k u v hj hk e = h j k u v (held j u hj) (held k v hk) e
    where
      held : (j : ℕ) (u : Text) → uid_of (update at i q j) ≡ some u → uid_of (at j) ≡ some u
      held j u hj = elim (update_cases at i q j) [
        | inl (same, is) ↦ rw (← same) (kept u (cc (is, hj)))
        | inr (other, is) ↦ cc (is, hj)
      ]

  pub Unique-got :
      (at : ℕ → Place) (i : ℕ) (w : Text)
      → Unique key_of at
      → ((j : ℕ) (v : Text) → uid_of (at j) ≡ some v → key_of v ≢ key_of w)
      → Unique key_of (update at i (got w))
  Unique-got at i w h apart j k u v hj hk e = elim (update_cases at i (got w) j) [
    | inl (same, is) ↦ elim (update_cases at i (got w) k) [
      | inl (same', is') ↦ cc
      | inr (other', is') ↦ absurd (apart k v (cc (is', hk)) (cc (ap uid_of is, hj, e)))
    ]
    | inr (other, is) ↦ elim (update_cases at i (got w) k) [
      | inl (same', is') ↦ absurd (apart j u (cc (is, hj)) (cc (ap uid_of is', hk, e)))
      | inr (other', is') ↦ h j k u v (cc (is, hj)) (cc (is', hk)) e
    ]
  ]

  pub Covered-update :
      (s : System) {u : Text} {t : ℕ} (i : ℕ) (q : Place) (xs : List (Text × ℕ))
      → ((v : Text) → s.at i ≢ exported v)
      → Covered s u t
      → Covered (record s { exports = xs; at = update s.at i q }) u t
  Covered-update s {u} i q xs h (pending j e) = elim (update_cases s.at i q j) [
    | inl (same, is) ↦ absurd (h u (rw same e))
    | inr (other, is) ↦ pending j (cc (is, e))
  ]
  Covered-update s i q xs h (marked m e le) = marked m e le
  Covered-update s i q xs h (old lt) = old lt

  -- A move that changes only the place of the worker, and not from where Add follows.
  pub replace-Inv :
      (s : System) (i : ℕ) (q : Place)
      → Inv key_of s
      → ((v : Text) → s.at i ≢ exported v)
      → Unique key_of (update s.at i q)
      → ((u : Text) (e : Option ℕ) (t : ℕ) → q ≡ looked u e → Exported s u t → Known s.now e t)
      → ((u : Text) (t : ℕ) → q ≡ working u → Exported s u t → cache_ttl < s.now - t)
      → Inv key_of (record s { at = update s.at i q })
  replace-Inv s i q v free alone known' fresh' = record {
    is_map = v.is_map;
    unique = alone;
    past = v.past;
    covered = λ u t x. Covered-update s i q s.exports free (v.covered u t x);
    known = λ j u e t h x. elim (update_cases s.at i q j) [
      | inl (same, is) ↦ known' u e t (cc (is, h)) x
      | inr (other, is) ↦ v.known j u e t (cc (is, h)) x
    ];
    fresh = λ j u t h x. elim (update_cases s.at i q j) [
      | inl (same, is) ↦ fresh' u t (cc (is, h)) x
      | inr (other, is) ↦ v.fresh j u t (cc (is, h)) x
    ];
    spaced = v.spaced;
  }

  -- The place of a worker that has or gives up its pod, and is in no critical place.
  abbrev is_calm : Place → Bool
  is_calm (looked u e) = false
  is_calm (working u) = false
  is_calm _ = true

  pub calm-Inv :
      (s : System) (i : ℕ) {p : Place} (q : Place)
      → Inv key_of s
      → s.at i ≡ p
      → ((v : Text) → p ≢ exported v)
      → ((u : Text) → uid_of q ≡ some u → uid_of p ≡ some u)
      → is_calm q ≡ true
      → Inv key_of (record s { at = update s.at i q })
  calm-Inv s i q v h free kept calm =
      replace-Inv s i q v (λ x e. free x (cc (h, e)))
        (Unique-update s.at i q v.unique (λ u e. rw h (kept u e)))
        (λ u e t is x. absurd (cc (ap is_calm is, calm)))
        (λ u t is x. absurd (cc (ap is_calm is, calm)))

  -- Has reads the entry of the UID.
  pub look-Inv :
      (s : System) (i : ℕ) (u : Text)
      → Inv key_of s
      → s.at i ≡ got u
      → Inv key_of (record s { at = update s.at i (looked u (lookup u s.processed)) })
  look-Inv s i u v h =
      replace-Inv s i _ v (λ x e. cc (h, e)) (Unique-update s.at i _ v.unique (λ w e. cc (h, e)))
        (λ w e t is x. of_cover w e t is (v.covered w t x)) (λ w t is x. cc)
    where
      of_cover :
          (w : Text) (e : Option ℕ) (t : ℕ)
          → looked u (lookup u s.processed) ≡ looked w e
          → Covered s w t
          → Known s.now e t
      of_cover w e t is (pending j q) =
          let same : i ≡ j = v.unique i j u w (cc (ap uid_of h)) (cc (ap uid_of q)) (cc is) in
          absurd (cc (h, q, same))
      of_cover w e t is (marked m q le) = by_entry m (cc (is, q)) le
      of_cover w e t is (old lt) = by_age lt

  -- Has answers no.
  pub work-Inv :
      (s : System) (i : ℕ) (u : Text) (e : Option ℕ)
      → Inv key_of s
      → s.at i ≡ looked u e
      → ((m : ℕ) → e ≡ some m → cache_ttl < s.now - m)
      → Inv key_of (record s { at = update s.at i (working u) })
  work-Inv s i u e v h gone =
      replace-Inv s i _ v (λ x q. cc (h, q)) (Unique-update s.at i _ v.unique (λ w q. cc (h, q)))
        (λ w e t is x. cc)
        (λ w t is x. of_known t (v.known i u e t h (subst (λ y. Exported s y t) (cc is) x)))
    where
      of_known : (t : ℕ) → Known s.now e t → cache_ttl < s.now - t
      of_known t (by_entry m q le) = omega (arith, gone m q)
      of_known t (by_age lt) = lt

-- ===== src/Node/Update/Needs.antt =====
-- needsLabelUpdate answers no exactly if the labels of gpuid are the desired ones.
use gpuid.Base.{
  ◌≡◌, ◌≢◌, ◌↔◌, refl, sym, ap, subst, ◌∙◌, Bool, true, false, not, [], ◌∷◌, arith, none, some,
  is_some, exists, Text, text_eq, text_eq_iff, text_eq_refl, has_prefix, lookup, has_key, IsMap,
  Bool-cases, Option-cases, inl, inr, lookup-All,
}
use gpuid.Node.Labels.{Labels, label_ns}
use gpuid.Node.Labels.Values.{IsGoodLabel, AreGoodLabels}
use gpuid.Node.Sanitize.{label_value_regex}
use gpuid.Node.Update.{value_of, is_stale, needs_label_update}

-- In the namespace of gpuid the labels are the desired ones.
abbrev pub AreSynced : Labels → Labels → Type 0
AreSynced current desired =
    (k : Text) → has_prefix k label_ns ≡ true → lookup k current ≡ lookup k desired

-- No member passes a test that none of them passes, and back.
exists-lookup :
    (p : Text → Bool) (m : Labels) (k : Text) (v : Text)
    → exists (λ (e : Text × Text). p e.0) m ≡ false
    → lookup k m ≡ some v
    → p k ≡ false
unfolding lookup
exists-lookup p [] k v h e = cc
exists-lookup p ((j, w) ∷ m) k v h e = elim (Bool-cases (text_eq j k)) [
  | inl q ↦ subst (λ i. p i ≡ false) ((text_eq_iff j k).0 q) (ground arith)
  | inr q ↦ exists-lookup p m k v (ground arith) (ground arith)
]

differs-lookup :
    (current desired : Labels) (k v : Text)
    → exists (λ (e : Text × Text). not (text_eq (value_of e.0 current) e.1)) desired ≡ false
    → lookup k desired ≡ some v
    → value_of k current ≡ v
unfolding lookup
differs-lookup current [] k v h e = cc
differs-lookup current ((j, w) ∷ m) k v h e = elim (Bool-cases (text_eq j k)) [
  | inl q ↦
      let same : w ≡ v = ground arith in
      let here : value_of j current ≡ w = (text_eq_iff (value_of j current) w).0 (ground arith) in
      subst (λ i. value_of i current ≡ v) ((text_eq_iff j k).0 q) (here ∙ same)
  | inr q ↦ differs-lookup current m k v (ground arith) (ground arith)
]

valid-not_nil : (v : Text) → label_value_regex v ≡ true → v ≢ []
unfolding label_value_regex
valid-not_nil [] h = cc
valid-not_nil (c ∷ v) h = λ e. cc e

value_of-some : (k v : Text) (m : Labels) → v ≢ [] → value_of k m ≡ v → lookup k m ≡ some v
value_of-some k v m h e = elim (Option-cases (lookup k m)) [
  | inl q ↦ absurd (h (sym e ∙ rw (q, value_of) refl))
  | inr (w, q) ↦ q ∙ ap some (sym (rw (q, value_of) refl) ∙ e)
]

synced_of_no_update :
    (current desired : Labels)
    → AreGoodLabels desired
    → needs_label_update current desired ≡ false
    → AreSynced current desired
unfolding needs_label_update
synced_of_no_update current desired (_, good) h k p = elim (Option-cases (lookup k desired)) [
  | inl e ↦ elim (Option-cases (lookup k current)) [
    | inl q ↦ q ∙ sym e
    | inr (w, q) ↦
        cc (exists-lookup (is_stale desired) current k w (ground arith) q, stale k desired p e)
  ]
  | inr (v, e) ↦
      value_of-some k v current (valid-not_nil v (lookup-All IsGoodLabel k v desired good e).1)
        (differs-lookup current desired k v (ground arith) e)
      ∙ sym e
]
  where
    stale :
        (k : Text) (desired : Labels)
        → has_prefix k label_ns ≡ true
        → lookup k desired ≡ none
        → is_stale desired k ≡ true
    stale k desired p e = rw (p, e, is_some) refl

no_key_passes :
    (p : Text → Bool) (m : Labels)
    → ((k : Text) → has_key k m ≡ true → p k ≡ false)
    → exists (λ (e : Text × Text). p e.0) m ≡ false
unfolding lookup
no_key_passes p [] h = refl
no_key_passes p ((j, w) ∷ m) h = ground (
  arith,
  h j (rw (text_eq_refl j, lookup, is_some) refl),
  no_key_passes p m (λ k here. h k (ground arith)),
)

no_entry_differs :
    (current m : Labels)
    → IsMap m
    → ((k v : Text) → lookup k m ≡ some v → value_of k current ≡ v)
    → exists (λ (e : Text × Text). not (text_eq (value_of e.0 current) e.1)) m ≡ false
unfolding lookup
no_entry_differs current [] d h = refl
no_entry_differs current ((j, w) ∷ m) (absent, d) h = ground (
  arith,
  text_eq_iff (value_of j current) w,
  h j w (rw (text_eq_refl j, lookup) refl),
  no_entry_differs current m d (λ k v here. h k v (ground (arith, text_eq_iff j k))),
)

no_update_of_synced :
    (current desired : Labels)
    → AreGoodLabels desired
    → AreSynced current desired
    → needs_label_update current desired ≡ false
unfolding needs_label_update
no_update_of_synced current desired (d, good) synced = ground (
  arith,
  no_key_passes (is_stale desired) current (λ k here. elim (Bool-cases (has_prefix k label_ns)) [
    | inl p ↦ ground (arith, synced k p)
    | inr p ↦ ground arith
  ]),
  no_entry_differs current desired d (λ k v found.
      rw (synced k (lookup-All IsGoodLabel k v desired good found).0, found, value_of) refl),
)

-- For labels that gpuid desires: needsLabelUpdate answers no exactly if, in the namespace of gpuid,
-- the current labels are the desired ones.
pub needs_label_update_iff :
    (current desired : Labels)
    → AreGoodLabels desired
    → (needs_label_update current desired ≡ false) ↔ AreSynced current desired
needs_label_update_iff current desired h =
    (synced_of_no_update current desired h, no_update_of_synced current desired h)

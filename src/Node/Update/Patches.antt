-- ===== src/Node/Update/Patches.antt =====
-- What the patch of attemptLabelUpdate does under a strategic merge.
use gpuid.Base.{
  ◌≡◌, refl, subst, ◌∙◌, Bool, ◌&&◌, [], ◌∷◌, arith, if◌then◌else◌, Option, none, some, is_some,
  Text, text_eq, text_eq_iff, text_eq_refl, has_prefix, lookup, set, lookup-set, has_key, IsMap,
  Bool-cases, Option-cases, inl, inr, lookup-All,
}
use gpuid.Node.Labels.{Labels, label_ns}
use gpuid.Node.Labels.Values.{IsGoodLabel, AreGoodLabels}
use gpuid.Node.Update.{Patch, is_stale, put_desired, null_stale, patch_labels}

-- A strategic merge of one label: kept where the patch is silent, deleted by null, or set.
abbrev pub merge_label : Option (Option Text) → Option Text → Option Text
merge_label none old = old
merge_label (some none) old = none
merge_label (some (some v)) old = some v

lookup-put_desired :
    (k : Text) (desired : Labels) (patch : Patch)
    → IsMap desired
    → lookup k (put_desired desired patch)
      ≡ elim (lookup k desired) [ none ↦ lookup k patch | some v ↦ some (some v) ]
unfolding put_desired lookup
lookup-put_desired k [] patch h = refl
lookup-put_desired k ((j, v) ∷ desired) patch (absent, h) = ground (
  arith,
  lookup-put_desired k desired (set j (some v) patch) h,
  lookup-set k j (some v) patch,
  text_eq_iff j k,
)

lookup-null_one :
    (k j : Text) (stale : Text → Bool) (patch : Patch)
    → lookup k (if stale j then set j none patch else patch)
      ≡ (if text_eq j k && stale k then some none else lookup k patch)
lookup-null_one k j stale patch = elim (Bool-cases (text_eq j k)) [
  | inl e ↦
      subst
        (λ i.
          lookup i (if stale j then set j none patch else patch)
          ≡ (if text_eq j i && stale i then some none else lookup i patch))
        ((text_eq_iff j k).0 e) (ground (arith, lookup-set j j none patch, text_eq_refl j))
  | inr e ↦ ground (arith, lookup-set k j none patch, e)
]

lookup-null_stale :
    (k : Text) (desired current : Labels) (patch : Patch)
    → lookup k (null_stale desired current patch)
      ≡ (if has_key k current && is_stale desired k then some none else lookup k patch)
unfolding null_stale lookup
lookup-null_stale k desired [] patch = refl
lookup-null_stale k desired ((j, v) ∷ current) patch =
    lookup-null_stale k desired current (if is_stale desired j then set j none patch else patch)
    ∙ regroup (lookup-null_one k j (is_stale desired) patch)
  where
    regroup :
        {r : Option (Option Text)}
        → r ≡ (if text_eq j k && is_stale desired k then some none else lookup k patch)
        → (if has_key k current && is_stale desired k then some none else r) ≡ (
            if is_some (if text_eq j k then some v else lookup k current) && is_stale desired k
            then some none
            else lookup k patch)
    regroup {r} h = ground arith

-- Under a strategic merge the patch makes the labels of gpuid the desired ones, and leaves all
-- others as they are.
pub merge-patch_labels :
    (k : Text) (current desired : Labels)
    → AreGoodLabels desired
    → merge_label (lookup k (patch_labels current desired)) (lookup k current)
      ≡ (if has_prefix k label_ns then lookup k desired else lookup k current)
unfolding patch_labels lookup
merge-patch_labels k current desired (d, good) =
    rw
      (
        lookup-null_stale k desired current (put_desired desired []),
        lookup-put_desired k desired [] d,
      )
      (elim (Option-cases (lookup k desired)) [
        | inl e ↦ ground (arith, e)
        | inr (v, e) ↦ ground (arith, e, lookup-All IsGoodLabel k v desired good e)
      ])

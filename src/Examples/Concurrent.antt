-- ===== src/Examples/Concurrent.antt =====
-- Two workers on one pod: the second takes it up again after the TTL, and exports it again.
use gpuid.Base.{
  ℕ, ◌+◌, ◌≡◌, refl, ap, ◌==◌, Bool-cases, inl, inr, arith, [], ◌∷◌, Text, codes, set, lookup,
  text_eq,
}
use gpuid.Runner.Seen.{cache_ttl, add}
use gpuid.Runner.Worker.Concurrent.{
  System, uid_of, idle, look, unknown, expired, export, mark, done, init, Step, Reach, start, later,
  tick, deliver, move,
}
use gpuid.Runner.Worker.Concurrent.Invariant.{IsSpaced}
use gpuid.Runner.Worker.Concurrent.Spaced.{exports-IsSpaced}

abbrev pub key_of : Text → Text
key_of u = u

-- A state with the steps that lead to it.
abbrev pub Run : Type 0
Run = (s : System) × Reach key_of s

abbrev pub then : (r : Run) {t : System} → Step key_of r.0 t → Run
then r {t} step = (t, later r.1 step)

abbrev pub started : Run
started = (init key_of, start)

abbrev pod : Text
pod = codes "u1"

exported_once : Run
unfolding lookup set text_eq add
exported_once =
    let r0 = then started (tick {t = 5} (omega arith)) in
    let r1 = then r0 (deliver 0 pod refl (λ j v e. cc e)) in
    let r2 = then r1 (move 0 refl look) in
    let r3 = then r2 (move 0 refl unknown) in
    let r4 = then r3 (move 0 refl export) in
    let r5 = then r4 (move 0 refl mark) in then r5 (move 0 refl done)

all_idle : (j : ℕ) → exported_once.0.at j ≡ idle
unfolding exported_once
all_idle j = elim (Bool-cases (0 == j)) [ inl e ↦ rw e refl | inr e ↦ rw e refl ]

exported_twice : Run
unfolding exported_once lookup text_eq
exported_twice =
    let r0 = then exported_once (tick {t = cache_ttl + 6} (omega arith)) in
    let r1 = then r0 (deliver 1 pod refl (λ j v e. cc (ap uid_of (all_idle j), e))) in
    let r2 = then r1 (move 1 refl look) in
    let r3 = then r2 (move 1 refl (expired (omega arith))) in then r3 (move 1 refl export)

exports_test : exported_twice.0.exports ≡ (pod, cache_ttl + 6) ∷ (pod, 5) ∷ []
unfolding exported_twice exported_once
exports_test = refl

exports-IsSpaced_example : IsSpaced (exported_twice.0.exports)
exports-IsSpaced_example = exports-IsSpaced key_of exported_twice.1

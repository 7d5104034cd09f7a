-- ===== src/Examples/Seen.antt =====
-- The set of processed pods: two pods, a sweep in between.
use gpuid.Base.{◌≡◌, ◌*◌, arith, List, [], ◌∷◌, none, codes}
use gpuid.Runner.Seen.{minute, has}
use gpuid.Runner.Seen.History.{Event, added, swept, run, last_added, is_recent, has-run}

abbrev calls : List Event
calls = added (codes "a") (1 * minute) ∷ added (codes "b") (20 * minute) ∷ swept (35 * minute) ∷ []

has-run_example :
    has (codes "b") (40 * minute) (run calls [])
    ≡ is_recent (40 * minute) (last_added (codes "b") calls none)
has-run_example =
    has-run (codes "b") calls (40 * minute) (omega arith, (omega arith, (omega arith, omega arith)))

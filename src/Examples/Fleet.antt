-- ===== src/Examples/Fleet.antt =====
-- A worker on three keys, with the postgres exporter on a database in memory.
use gpuid.Base.{◌≡◌, refl, subst, arith, List, [], ◌∷◌, none, some, Text, codes, ok, false}
use gpuid.Node.Update.{Updater}
use gpuid.Node.Update.Backoff.{Backoff, poll}
use gpuid.Node.Provider.{Fetch}
use gpuid.Exporters.Postgres.{Row}
use gpuid.Runner.Export.Stored.{postgres_backend}
use gpuid.Runner.Worker.Process.{Services, State}
use gpuid.Runner.Worker.Loop.{Item, absent, cached, do_items}
use gpuid.Runner.Worker.Rows.{Exports}
use gpuid.Runner.Worker.Rows.Fleet.{Grows, do_items-Grows}
use gpuid.Examples.Gpu.{report, in_order}
use gpuid.Examples.Runner.{settings, pod}
use gpuid.Examples.Postgres.{Tables, memory, memory_laws}

abbrev labeler : Updater Tables
labeler = record {
  get_node = λ node w. (ok (some []), w);
  patch_node_labels = λ node p w. (none, w);
}

abbrev backoff : Backoff Tables
backoff = record {
  exponential_backoff = λ c condition w. poll c.steps condition w;
  checks = λ c condition w. (c.steps, omega arith, λ h. h, refl);
  checks_all = λ c condition w h. refl;
}

abbrev fetch : Fetch Tables
fetch node w = (ok (some (codes "aws:///us-west-2a/i-0ab")), w)

abbrev services : Services Tables
services = record {
  now = λ w. (8, w);
  wait_jitter = λ w. (false, w);
  query_smi = λ pod container w. (some report, w);
  iteration = in_order;
  labeler = labeler;
  backoff = backoff;
  clientset = some fetch;
  lower_table = λ c. c;
  exporter = some (postgres_backend memory (codes "gpu"));
}

same_fetch : (f : Fetch Tables) → services.clientset ≡ some f → fetch ≡ f
same_fetch f h = cc h

exports : Exports services memory memory_laws (codes "gpu")
exports = record {
  exporter_is = refl;
  ticks = λ w e. absurd (omega arith);
  clock_keeps = λ w. refl;
  jitter_keeps = λ w. refl;
  query_keeps = λ pod c w. refl;
  get_keeps = λ node w. refl;
  patch_keeps = λ node p w. refl;
  fetch_keeps = λ f h node w.
      subst (λ (g : Fetch Tables). ◌≡◌ {A = List Row} (g node w).1.0 w.0) (same_fetch f h) refl;
}

abbrev items : List (Text × Item)
items = (codes "a", cached pod) ∷ (codes "b", absent) ∷ (codes "a", cached pod) ∷ []

abbrev fresh : State Tables
fresh = record { processed = []; successes = []; failures = []; world = ([], []) }

do_items-Grows_example :
    Grows services settings (λ w. w.0) items [] [] (do_items services settings items fresh).1
do_items-Grows_example =
    do_items-Grows services settings memory memory_laws (codes "gpu") exports items fresh
      (refl, (tt, (refl, tt)))

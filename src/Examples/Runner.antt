-- ===== src/Examples/Runner.antt =====
-- The worker on one pod, with services that always succeed.
use gpuid.Base.{
  lookup, set, text_eq, Text, ℕ, suc, ◌≡◌, ◌⊎◌, refl, arith, true, false, List, [], ◌∷◌, none, some,
  ok, codes, is_blank, trim_space, trim_start, trim_end, is_space,
}
use gpuid.Gpu.Serials.{Serials}
use gpuid.Node.Update.{Updater}
use gpuid.Node.Update.Backoff.{Backoff, poll}
use gpuid.Runner.Pod.{Pod, running}
use gpuid.Runner.Seen.{add}
use gpuid.Runner.Export.{Backend}
use gpuid.Runner.Worker.Process.{Services, Settings, State, finished, process_pod}
use gpuid.Runner.Worker.Accounts.{Accounts, process_pod-Accounts}
use gpuid.Runner.Worker.Once.{process_pod-once}
use gpuid.Runner.Worker.Loop.{Item, cached, absent, do_items}
use gpuid.Runner.Worker.Loop.Counts.{Serves, do_items-Serves}
use gpuid.Examples.Gpu.{report, in_order}

-- The world is the time; every call takes one nanosecond.
abbrev backend : Backend ℕ
backend = record { write = λ r w. (false, suc w); now = λ w. (suc w, suc w) }

-- A node with no labels.
abbrev labeler : Updater ℕ
labeler = record {
  get_node = λ node w. (ok (some []), suc w);
  patch_node_labels = λ node p w. (none, suc w);
}

abbrev backoff : Backoff ℕ
backoff = record {
  exponential_backoff = λ c condition w. poll c.steps condition w;
  checks = λ c condition w. (c.steps, omega arith, λ h. h, refl);
  checks_all = λ c condition w h. refl;
}

abbrev pub services : Services ℕ
services = record {
  now = λ w. (suc w, suc w);
  wait_jitter = λ w. (false, suc w);
  query_smi = λ pod container w. (some report, suc w);
  iteration = in_order;
  labeler = labeler;
  backoff = backoff;
  clientset = some (λ node w. (ok (some (codes "aws:///us-west-2a/i-0ab")), suc w));
  lower_table = λ c. c;
  exporter = some backend;
}

abbrev pub settings : Settings
settings = record { cluster = codes "lab"; container = codes "nvidia-device-plugin" }

abbrev pub pod : Pod
pod = record {
  namespace = codes "gpu-operator";
  name = codes "plugin-x";
  uid = codes "u1";
  node_name = codes "n1";
  phase = running;
  containers = codes "nvidia-device-plugin" ∷ [];
  ready = true ∷ [];
}

abbrev pub idle : State ℕ
idle = record { processed = []; successes = []; failures = []; world = 5 }

abbrev marked : State ℕ
marked = record { processed = add pod.uid 7 []; successes = []; failures = []; world = 9 }

process_pod-Accounts_example :
    Accounts pod idle
      (process_pod services settings pod idle).0
      (process_pod services settings pod idle).1
process_pod-Accounts_example = process_pod-Accounts services settings pod idle

entry_found : lookup pod.uid marked.processed ≡ some 7
unfolding add lookup set text_eq
entry_found = refl

process_pod-once_example :
    (process_pod services settings pod marked ≡ (finished, marked))
    ⊎ (process_pod services settings pod marked
        ≡ (finished, record marked { world = (services.now marked.world).1 }))
process_pod-once_example = process_pod-once services settings pod marked 7 entry_found (omega arith)

abbrev unit : Serials
unit = record { chassis = codes "c1"; gpu = codes "g1" ∷ [] ∷ [] }

abbrev delivered : List (Text × Item)
delivered = (codes "a", absent) ∷ (codes "b", cached pod) ∷ []

do_items-Serves_example :
    Serves delivered
      (do_items services settings delivered idle).0
      idle
      (do_items services settings delivered idle).1
do_items-Serves_example = do_items-Serves services settings delivered idle

text : Unit {0}
unfolding is_blank trim_space trim_start trim_end is_space
text = tt

pub lab_not_blank : is_blank settings.cluster ≡ false
unfolding text
lab_not_blank = refl

pub machine_not_blank : is_blank (codes "i-0ab") ≡ false
unfolding text
machine_not_blank = refl

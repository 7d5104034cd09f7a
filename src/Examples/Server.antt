-- ===== src/Examples/Server.antt =====
-- The server with the handler of the metrics.
use gpuid.Base.{
  set, has_key, if◌then◌else◌, All, split_on, ◌≡◌, refl, List, [], ◌∷◌, none, some, ℕ, Text, codes,
  text_eq, text_eq_iff, subst, true, false, arith, lookup, IsMap, Bool-cases, inl, inr,
}
use gpuid.Server.{Handler, ok_func, given, ServeMux, build_handler}
use gpuid.Server.Routes.{
  is_clean, is_plain, dispatch, IsFree, over, IsServeMux, IsGiven, base_patterns,
  build_handler-serves,
}
use gpuid.Server.Serving.{
  Serving, waiting, listening, accept, cancel, Reach, start, later, IsOrderly, served-IsOrderly,
  Returns, served-Returns,
}

abbrev metrics : List (Text × ℕ)
metrics = (codes "/metrics", 1) ∷ []

metrics-IsMap : IsMap metrics
unfolding lookup
metrics-IsMap = (refl, tt)

-- A mux that knows plain patterns only, as the list of them.
abbrev lib : ServeMux ℕ (List (Text × Handler ℕ))
lib = record {
  new_mux = [];
  handle = λ p h mux. if has_key p mux then none else some (set p h mux);
  serve = dispatch;
}

lib-IsServeMux : IsServeMux lib
lib-IsServeMux = record {
  patterns = λ mux. mux;
  is_nil = λ h. false;
  new_empty = refl;
  handles_ok = λ p mux plain all new. (set p ok_func mux, rw new refl, refl);
  handles_given = λ p h mux plain there all new. (set p (given h) mux, rw new refl, refl);
  serves = λ mux path all clean. refl;
}

metrics-IsFree : IsFree metrics base_patterns
unfolding lookup text_eq
metrics-IsFree p h e = elim (Bool-cases (text_eq (codes "/metrics") p)) [
  | inl q ↦
      subst (λ p. lookup p (base_patterns {H = ℕ}) ≡ none) ((text_eq_iff (codes "/metrics") p).0 q)
        refl
  | inr q ↦ absurd (ground arith)
]

metrics-AreGiven : All (IsGiven lib lib-IsServeMux) metrics
unfolding is_plain split_on text_eq lib-IsServeMux
metrics-AreGiven = ((refl, refl), tt)

build_handler-serves_example :
    (mux : List (Text × Handler ℕ)) × (build_handler lib metrics ≡ some mux)
    × ((path : Text)
        → is_clean path ≡ true
        → dispatch mux path ≡ over (lookup path metrics) (some ok_func))
build_handler-serves_example =
    build_handler-serves lib lib-IsServeMux metrics metrics-IsMap metrics-AreGiven metrics-IsFree

-- A request has come, and then the signal.
abbrev busy : Serving ℕ
busy = record { canceled = true; closing = false; active = 1; watcher = waiting; place = listening }

busy-Reach : Reach busy
busy-Reach = later (later start (accept refl refl)) cancel

served-IsOrderly_example : IsOrderly busy
served-IsOrderly_example = served-IsOrderly busy-Reach

served-Returns_example : Returns busy
served-Returns_example = served-Returns busy busy-Reach refl refl

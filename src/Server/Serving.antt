-- ===== src/Server/Serving.antt =====
-- Serve of pkg/server/server.go after buildHandler, as a step relation: its steps interleave those of
-- ListenAndServe, of the goroutine that shuts the server down, and of the requests. The server of
-- net/http is used as it is documented: once Shutdown is called it accepts no request, ListenAndServe
-- ends with ErrServerClosed at once, and before that with another error only; Shutdown ends without an
-- error when no request is left, and with one when its time is over.
use gpuid.Base.{
  ℕ, suc, ◌≡◌, refl, ap, sym, arith, Bool, true, false, Bool-cases, inl, inr, Option, none,
}
use gpuid.Server.{failed, server_closed, serve}

-- The goroutine: it waits for the context; it is in Shutdown; Shutdown has ended, without an error or
-- with one.
pub data Watcher : Type 0 where
  waiting shutting completed timed_out : Watcher

-- Serve is in ListenAndServe, or has returned.
pub data Place (E : Type 0) : Type 0 where
  listening : Place E
  returned : Option E → Place E

pub record Serving (E : Type 0) : Type 0 where
  -- ctx.Err() != nil
  pub canceled : Bool
  -- Shutdown was called
  pub closing : Bool
  -- the requests that are being answered
  pub active : ℕ
  pub watcher : Watcher
  pub place : Place E

abbrev pub init : {E : Type 0} → Serving E
init = record {
  canceled = false;
  closing = false;
  active = 0;
  watcher = waiting;
  place = listening;
}

pub data Step {E : Type 0} (s : Serving E) : Serving E → Type 0 where
  -- a signal
  cancel : Step s (record s { canceled = true })
  accept : s.place ≡ listening → s.closing ≡ false → Step s (record s { active = suc s.active })
  answer : {n : ℕ} → s.active ≡ suc n → Step s (record s { active = n })
  -- <-ctx.Done(), and the call of Shutdown
  shut_down :
      s.watcher ≡ waiting
      → s.canceled ≡ true
      → Step s (record s { watcher = shutting; closing = true })
  -- Shutdown ends
  complete : s.watcher ≡ shutting → s.active ≡ 0 → Step s (record s { watcher = completed })
  time_out : s.watcher ≡ shutting → Step s (record s { watcher = timed_out })
  -- ListenAndServe ends, and Serve returns
  fail : (e : E) → s.place ≡ listening → Step s (record s { place = returned (serve (failed e)) })
  close :
      s.place ≡ listening
      → s.closing ≡ true
      → Step s (record s { place = returned (serve server_closed) })

pub data Reach {E : Type 0} : Serving E → Type 0 where
  start : Reach init
  later : {s t : Serving E} → Reach s → Step s t → Reach t

-- What holds in every reachable state.
pub record IsOrderly {E : Type 0} (s : Serving E) : Type 0 where
  -- Serve has returned nil only if the context is canceled
  pub answered : s.place ≡ returned none → s.canceled ≡ true
  -- Shutdown is called only if the context is canceled, and by the goroutine
  pub called : s.closing ≡ true → s.canceled ≡ true
  pub waits : s.watcher ≡ waiting → s.closing ≡ false
  pub waited : s.closing ≡ false → s.watcher ≡ waiting
  -- a shutdown that has completed leaves no request
  pub drained : s.watcher ≡ completed → s.active ≡ 0

Step-IsOrderly : {E : Type 0} {s t : Serving E} → IsOrderly s → Step s t → IsOrderly t
unfolding serve
Step-IsOrderly i cancel = grind arith
Step-IsOrderly i (accept h c) = grind arith
Step-IsOrderly i (answer h) = grind arith
Step-IsOrderly i (shut_down h c) = grind arith
Step-IsOrderly i (complete h c) = grind arith
Step-IsOrderly i (time_out h) = grind arith
Step-IsOrderly i (fail e h) = grind arith
Step-IsOrderly i (close h c) = grind arith

-- In every state that Serve comes to: it has returned nil only if the context is canceled; Shutdown
-- is called, by the goroutine, only if the context is canceled; and a shutdown that has completed
-- without an error leaves no request.
pub served-IsOrderly : {E : Type 0} {s : Serving E} → Reach s → IsOrderly s
served-IsOrderly start = grind arith
served-IsOrderly (later r step) = Step-IsOrderly (served-IsOrderly r) step

-- A run of steps.
pub data Steps {E : Type 0} : Serving E → Serving E → Type 0 where
  here : {s : Serving E} → Steps s s
  next : {s t u : Serving E} → Step s t → Steps t u → Steps s u

-- The goroutine, once it has called Shutdown.
abbrev pub shut : Watcher → Watcher
shut waiting = shutting
shut w = w

-- Serve can return nil from s, with the requests that are being answered still there, and with no step
-- of the goroutine but its call of Shutdown, if that is still to come.
pub record Returns {E : Type 0} (s : Serving E) : Type 0 where
  pub last : Serving E
  pub steps : Steps s last
  pub watched : last.watcher ≡ shut s.watcher
  pub done : last.place ≡ returned none
  pub untouched : last.active ≡ s.active

-- Once the context is canceled, a Serve that has not returned can return nil from where it is, with
-- as many requests still being answered as then, and with no step of the goroutine but its call of
-- Shutdown, if that is still to come: it does not wait for the shutdown.
pub served-Returns :
    {E : Type 0} (s : Serving E) → Reach s → s.canceled ≡ true → s.place ≡ listening → Returns s
served-Returns s r c h = elim (Bool-cases s.closing) [
  | inl e ↦ record {
    last = record s { place = returned (serve server_closed) };
    steps = next (close h e) here;
    watched = called s.watcher refl e;
    done = unfold serve in refl;
    untouched = refl;
  }
  | inr e ↦
      let waits = (served-IsOrderly r).waited e in
      record {
        last = record s {
          watcher = shutting;
          closing = true;
          place = returned (serve server_closed);
        };
        steps = next (shut_down waits c) (next (close h refl) here);
        watched = ap shut (sym waits);
        done = unfold serve in refl;
        untouched = refl;
      }
]
  where
    called : (w : Watcher) → s.watcher ≡ w → s.closing ≡ true → s.watcher ≡ shut s.watcher
    called waiting p e = absurd (cc ((served-IsOrderly r).waits p, e))
    called shutting p e = rw p refl
    called completed p e = rw p refl
    called timed_out p e = rw p refl

-- ===== src/Runner/Worker/Loop/Queue.antt =====
-- do with its queue: Get, the handling of the key, and Done, until Get reports the shutdown.
use gpuid.Base.{
  ℕ, zero, suc, ◌≤◌, ◌<◌, ◌≡◌, refl, arith, List, [], ◌∷◌, length, Option, none, some, Text,
}
use gpuid.Runner.Worker.Process.{Services, Settings, State}
use gpuid.Runner.Worker.Loop.{Item, QueueCall, done, handle_item, do_items}

-- The work queue and the indexer, over a state Q that others may change between the calls. Get
-- returns no key if the queue is shut down and empty.
pub record Queue (Q : Type 0) : Type 0 where
  pub get : Q → Option Text × Q
  pub call : QueueCall → Q → Q
  -- SplitMetaNamespaceKey, GetByKey and the type assertion
  pub item_of : Text → Q → Item

-- What ShutDownWithDrain is documented to do: a Get that returns a key takes it from those that wait,
-- and no call adds one.
pub record Drains {Q : Type 0} (queue : Queue Q) : Type 0 where
  pub waiting : Q → ℕ
  pub get_takes :
      (q : Q) (key : Text) → (queue.get q).0 ≡ some key → waiting (queue.get q).1 < waiting q
  pub call_adds_none : (c : QueueCall) (q : Q) → waiting (queue.call c q) ≤ waiting q

module _ {W Q : Type 0} (s : Services W) (cmd : Settings) (queue : Queue Q) where
  -- The calls after a key was handled, and the deferred Done.
  unfoldable pub finish : Text → QueueCall → Q → Q
  finish key call q = queue.call (done key) (queue.call call q)

  -- One round, with the rounds that follow.
  unfoldable pub after_get :
      (Q → State W → Option (Q × State W)) → Option Text × Q → State W → Option (Q × State W)
  unfolding finish
  after_get rest (none, q) st = some (q, st)
  after_get rest (some key, q) st =
      let (call, st') = handle_item s cmd key (queue.item_of key q) st in
      rest (finish key call q) st'

  -- do, with fuel for the rounds
  unfoldable pub do_worker : ℕ → Q → State W → Option (Q × State W)
  unfolding after_get
  do_worker zero q st = none
  do_worker (suc fuel) q st = after_get (do_worker fuel) (queue.get q) st

  -- The keys that Get has returned, each with what the indexer had for it, until the shutdown.
  pub data Served : Q → State W → List (Text × Item) → Q → Type 0 where
    stop : {q q' : Q} {st : State W} → queue.get q ≡ (none, q') → Served q st [] q'
    serve :
        {q q' q'' : Q} {st : State W} {key : Text} {items : List (Text × Item)}
        → queue.get q ≡ (some key, q')
        → Served
            (finish key (handle_item s cmd key (queue.item_of key q') st).0 q')
            (handle_item s cmd key (queue.item_of key q') st).1
            items
            q''
        → Served q st ((key, queue.item_of key q') ∷ items) q''

  -- A run that has ended.
  pub record Returns (fuel : ℕ) (q : Q) (st : State W) (limit : ℕ) : Type 0 where
    pub items : List (Text × Item)
    pub last : Q
    pub served : Served q st items last
    pub result : do_worker fuel q st ≡ some (last, (do_items s cmd items st).1)
    pub few : length items ≤ limit

  module _ (drains : Drains queue) where
    -- After a round fewer keys wait.
    finish-waiting :
        (q q' : Q) (key : Text) (call : QueueCall)
        → queue.get q ≡ (some key, q')
        → drains.waiting (finish key call q') < drains.waiting q
    unfolding finish
    finish-waiting q q' key call h = omega (
      arith,
      drains.call_adds_none call q',
      drains.call_adds_none (done key) (queue.call call q'),
      rw h at (drains.get_takes q key (rw h refl)),
    )

    round :
        (fuel : ℕ) (q : Q) (st : State W) (r : Option Text × Q)
        → queue.get q ≡ r
        → drains.waiting q < suc fuel
        → ((q' : Q) (st' : State W)
            → drains.waiting q' < fuel
            → Returns fuel q' st' (drains.waiting q'))
        → Returns (suc fuel) q st (drains.waiting q)
    unfolding do_worker do_items
    round fuel q st (none, q') h enough ih = record {
      items = [];
      last = q';
      served = stop h;
      result = rw h refl;
      few = omega arith;
    }
    round fuel q st (some key, q') h enough ih =
        let r = handle_item s cmd key (queue.item_of key q') st in
        let less = finish-waiting q q' key r.0 h in
        let rest = ih (finish key r.0 q') r.1 (omega arith) in
        record {
          items = (key, queue.item_of key q') ∷ rest.items;
          last = rest.last;
          served = serve h rest.served;
          result = rw h rest.result;
          few = omega (arith, less, rest.few);
        }

    do_worker-Returns :
        (fuel : ℕ) (q : Q) (st : State W)
        → drains.waiting q < fuel
        → Returns fuel q st (drains.waiting q)
    do_worker-Returns zero q st h = absurd (omega arith)
    do_worker-Returns (suc fuel) q st h =
        round fuel q st (queue.get q) refl h (do_worker-Returns fuel)

    -- do comes to its end once the queue drains: it serves at most the keys that wait, looks each
    -- of them up when it has got it, and leaves the state that they lead to one after another.
    -- Assumed: a Get that returns a key takes it from those that wait, and no call on the queue
    -- adds one, as ShutDownWithDrain is documented.
    pub do_worker_ends :
        (q : Q) (st : State W) → Returns (suc (drains.waiting q)) q st (drains.waiting q)
    do_worker_ends q st = do_worker-Returns (suc (drains.waiting q)) q st (omega arith)

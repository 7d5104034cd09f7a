-- ===== src/Runner/Worker/Rows/Fleet.antt =====
-- What do leaves in the table of the postgres exporter, over all the keys that it serves.
use gpuid.Base.{
  ◌≡◌, inl, inr, refl, ap, sym, ◌∙◌, Bool, true, false, List, [], ◌∷◌, ◌++◌, append-nil,
  append_assoc, Text, is_empty, All, if◌then◌else◌,
}
use gpuid.Exporters.Postgres.{Row, Database}
use gpuid.Exporters.Postgres.Atomic.{IsTransactional}
use gpuid.Runner.Pod.{Pod}
use gpuid.Runner.Worker.Process.{Services, Settings, State, counter_labels, process_pod}
use gpuid.Runner.Worker.Loop.{
  Item, bad_key, lookup_failed, absent, not_a_pod, cached, handle_item, do_items,
}
use gpuid.Runner.Worker.Rows.{Exports, IsBatch, Leaves, kept, added}
use gpuid.Runner.Worker.Rows.Stages.{process_pod-Leaves}

-- The rows of a report that were stored, and whether a success was counted for them.
pub record Batch {W : Type 0} (s : Services W) (cmd : Settings) : Type 0 where
  pub pod : Pod
  pub rows : List Row
  pub is_batch : IsBatch s cmd pod rows
  pub counted : Bool

module _ {W : Type 0} {s : Services W} {cmd : Settings} where
  abbrev pub all_rows : List (Batch s cmd) → List Row
  all_rows [] = []
  all_rows (b ∷ batches) = b.rows ++ all_rows batches

  -- The counter of successes after the batches.
  abbrev pub count : List (Batch s cmd) → List (Text × Text) → List (Text × Text)
  count [] successes = successes
  count (b ∷ batches) successes =
      count batches (if b.counted then counter_labels b.pod ∷ successes else successes)

  -- The batches are of pods among the items, in their order, and of each item one at most.
  pub data InOrder : List (Text × Item) → List (Batch s cmd) → Type 0 where
    none_left : InOrder [] []
    skip :
        {key : Text} {item : Item} {items : List (Text × Item)} {batches : List (Batch s cmd)}
        → InOrder items batches
        → InOrder ((key, item) ∷ items) batches
    take :
        {key : Text} {pod : Pod} {items : List (Text × Item)} {b : Batch s cmd}
        {batches : List (Batch s cmd)}
        → b.pod ≡ pod
        → InOrder items batches
        → InOrder ((key, cached pod) ∷ items) (b ∷ batches)

-- The pod of an item names a node.
abbrev pub NamesNode : Text × Item → Type 0
NamesNode (key, cached pod) = is_empty pod.node_name ≡ false
NamesNode (key, item) = Unit {0}

-- From a table and the successes so far, the items have added batches to both.
pub record Grows {W : Type 0} (s : Services W) (cmd : Settings) (stored : W → List Row)
    (items : List (Text × Item)) (l : List Row) (successes : List (Text × Text)) (st' : State W)
    : Type 0 where
  pub batches : List (Batch s cmd)
  pub in_order : InOrder items batches
  pub table : stored st'.world ≡ l ++ all_rows batches
  pub counter : st'.successes ≡ count batches successes

module _ {W : Type 0} (s : Services W) (cmd : Settings) (stored : W → List Row) where
  -- An item that leaves the table and the counter alone.
  grow_kept :
      (key : Text) (item : Item) (items : List (Text × Item)) (l : List Row)
      (successes : List (Text × Text)) (st' last : State W)
      → stored st'.world ≡ l
      → st'.successes ≡ successes
      → Grows s cmd stored items (stored st'.world) st'.successes last
      → Grows s cmd stored ((key, item) ∷ items) l successes last
  grow_kept key item items l successes st' last p q g = record {
    batches = g.batches;
    in_order = skip g.in_order;
    table = g.table ∙ ap (λ (m : List Row). m ++ all_rows g.batches) p;
    counter = g.counter ∙ ap (λ m. count g.batches m) q;
  }

  grow_added :
      (key : Text) (pod : Pod) (items : List (Text × Item)) (l rows : List Row) (counted : Bool)
      (successes : List (Text × Text)) (st' last : State W)
      → IsBatch s cmd pod rows
      → stored st'.world ≡ l ++ rows
      → st'.successes ≡ (if counted then counter_labels pod ∷ successes else successes)
      → Grows s cmd stored items (stored st'.world) st'.successes last
      → Grows s cmd stored ((key, cached pod) ∷ items) l successes last
  grow_added key pod items l rows counted successes st' last b p q g = record {
    batches = record { pod = pod; rows = rows; is_batch = b; counted = counted } ∷ g.batches;
    in_order = take refl g.in_order;
    table =
        g.table
        ∙ (ap (λ (m : List Row). m ++ all_rows g.batches) p
            ∙ append_assoc l rows (all_rows g.batches));
    counter = g.counter ∙ ap (λ m. count g.batches m) q;
  }

  grow_pod :
      (key : Text) (pod : Pod) (items : List (Text × Item)) (l : List Row)
      (successes : List (Text × Text)) (st' last : State W)
      → Leaves s cmd stored pod l successes st'
      → Grows s cmd stored items (stored st'.world) st'.successes last
      → Grows s cmd stored ((key, cached pod) ∷ items) l successes last
  grow_pod key pod items l successes st' last (kept p q) g =
      grow_kept key (cached pod) items l successes st' last p q g
  grow_pod key pod items l successes st' last (added {rows} b p (inl q)) g =
      grow_added key pod items l rows false successes st' last b p q g
  grow_pod key pod items l successes st' last (added {rows} b p (inr q)) g =
      grow_added key pod items l rows true successes st' last b p q g

module _ {W : Type 0} (s : Services W) (cmd : Settings) (db : Database W) (law : IsTransactional db)
    (table : Text) (x : Exports s db law table) where
  open law use {stored}

  of_item :
      (key : Text) (item : Item) (items : List (Text × Item)) (st last : State W)
      → NamesNode (key, item)
      → Grows s cmd stored items
          (stored (handle_item s cmd key item st).1.world)
          (handle_item s cmd key item st).1.successes
          last
      → Grows s cmd stored ((key, item) ∷ items) (stored st.world) st.successes last
  unfolding handle_item
  of_item key bad_key items st last h g = grow_kept s cmd stored key _ items _ _ st last refl refl g
  of_item key lookup_failed items st last h g =
      grow_kept s cmd stored key _ items _ _ st last refl refl g
  of_item key absent items st last h g = grow_kept s cmd stored key _ items _ _ st last refl refl g
  of_item key not_a_pod items st last h g =
      grow_kept s cmd stored key _ items _ _ st last refl refl g
  of_item key (cached pod) items st last h g =
      grow_pod s cmd stored key pod items (stored st.world) st.successes
        (process_pod s cmd pod st).1 last (process_pod-Leaves s cmd db law table x pod h st) g

  -- Whatever keys do serves, with the postgres exporter: the table gains the rows of some batches,
  -- in the order of the keys and at most one for each, and the counter of successes gains one for
  -- each batch that is counted, and no other. A batch is the rows of what a query of the pod of its
  -- key has answered: one row, complete, for each non-empty serial under a chassis, with the
  -- identifier that a read of the node of the pod has given, all of one time. Assumed: the database
  -- is transactional, no other call changes the table, its clock is past the zero time, and the
  -- pods name nodes.
  pub do_items-Grows :
      (items : List (Text × Item)) (st : State W)
      → All NamesNode items
      → Grows s cmd stored items (stored st.world) st.successes (do_items s cmd items st).1
  unfolding do_items
  do_items-Grows [] st h = record {
    batches = [];
    in_order = none_left;
    table = sym (append-nil (stored st.world));
    counter = refl;
  }
  do_items-Grows ((key, item) ∷ items) st (named, h) =
      of_item key item items st _ named (do_items-Grows items (handle_item s cmd key item st).1 h)

-- ===== src/Node/Update/Labeler.antt =====
-- Labeler of pkg/node/label.go: the Updater that calls the API server. The nodes of the clientset, and
-- the kinds of a patch, are arguments.
use gpuid.Base.{◌≡◌, refl, ok, err, some, none, Option, Result, Text, lookup, ◌⊎◌}
use gpuid.Node.Labels.{Labels}
use gpuid.Node.Update.{Patch, ApiError, Updater}
use gpuid.Node.Update.Patches.{merge_label}
use gpuid.Node.Update.Ensure.{IsApiServer}

-- client.CoreV1().Nodes(): Get, and Patch, which gives the node, or an error.
pub record Nodes (PatchType : Type 0) (W : Type 0) : Type 0 where
  pub get : Text → W → Result ApiError (Option Labels) × W
  pub patch : Text → PatchType → Patch → W → Result ApiError (Option Labels) × W

-- The error of a call that gives a value or an error.
abbrev pub error_of : {A : Type 0} → Result ApiError A → Option ApiError
error_of (ok a) = none
error_of (err e) = some e

ok_of : {A : Type 0} (r : Result ApiError A) → error_of r ≡ none → (a : A) × (r ≡ ok a)
ok_of (ok a) h = (a, refl)
ok_of (err e) h = cc h

err_of : {A : Type 0} (r : Result ApiError A) (e : ApiError) → error_of r ≡ some e → r ≡ err e
err_of (ok a) e h = cc h
err_of (err e') e h = cc h

module _ {PatchType : Type 0} (strategic_merge : PatchType) {W : Type 0} where
  -- NewLabelUpdater, with GetNode and PatchNodeLabels
  unfoldable pub new_label_updater : Nodes PatchType W → Updater W
  new_label_updater client = record {
    get_node = client.get;
    patch_node_labels =
        λ node p w. let (r, w') = client.patch node strategic_merge p w in (error_of r, w');
  }

  -- What the API server is documented to do with a strategic merge patch, as in IsApiServer.
  pub record Merges (client : Nodes PatchType W) : Type 0 where
    pub labels : W → Text → Text → Option Text
    pub get_reads :
        (node : Text) (w : W) (l : Labels)
        → (client.get node w).0 ≡ ok (some l)
        → (k : Text) → lookup k l ≡ labels w node k
    pub get_keeps :
        (node : Text) (w : W) (k : Text) → labels (client.get node w).1 node k ≡ labels w node k
    pub patch_merges :
        (node : Text) (p : Patch) (w : W) (answer : Option Labels)
        → (client.patch node strategic_merge p w).0 ≡ ok answer
        → (k : Text)
        → labels (client.patch node strategic_merge p w).1 node k
          ≡ merge_label (lookup k p) (labels w node k)
    pub patch_fails :
        (node : Text) (p : Patch) (w : W) (e : ApiError)
        → (client.patch node strategic_merge p w).0 ≡ err e
        → ((k : Text) → labels (client.patch node strategic_merge p w).1 node k ≡ labels w node k)
          ⊎ ((k : Text)
              → labels (client.patch node strategic_merge p w).1 node k
                ≡ merge_label (lookup k p) (labels w node k))

  -- Since PatchNodeLabels asks for a strategic merge, the Labeler is an updater as EnsureLabels
  -- assumes it.
  pub new_label_updater-IsApiServer :
      (client : Nodes PatchType W) → Merges client → IsApiServer (new_label_updater client)
  unfolding new_label_updater
  new_label_updater-IsApiServer client m = record {
    labels = m.labels;
    get_reads = m.get_reads;
    get_keeps = m.get_keeps;
    patch_merges = λ node p w h.
        let (answer, e) = ok_of (client.patch node strategic_merge p w).0 h in
        m.patch_merges node p w answer e;
    patch_fails = λ node p w e h.
        m.patch_fails node p w e (err_of (client.patch node strategic_merge p w).0 e h);
  }

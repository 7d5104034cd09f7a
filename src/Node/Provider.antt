-- ===== src/Node/Provider.antt =====
-- pkg/node/node.go: the provider and the instance identifier of a node.
pub mod Laws
pub mod Keeps
use gpuid.Base.{
  to_lower, ℕ, suc, ◌+◌, ◌<◌, Bool, true, false, ◌&&◌, List, [], ◌∷◌, ◌++◌, map, ltb, leb,
  if◌then◌else◌, Option, none, some, Result, ok, err, length, Text, codes, is_empty, is_blank,
  trim_prefix, split,
}

-- Info
pub record Info : Type 0 where
  pub provider : Text
  pub identifier : Text
  pub raw : Text

pub data NodeError : Type 0 where
  provider_id_empty invalid_format name_required clientset_nil node_nil : NodeError
  fetch_failed : NodeError

-- s[len(s)-1]; a split has at least one part
unfoldable pub last_part : List Text → Text
last_part [] = []
last_part (p ∷ []) = p
last_part (p ∷ q ∷ ps) = last_part (q ∷ ps)

unfoldable pub first_part : List Text → Text
first_part [] = []
first_part (p ∷ ps) = p

-- parseNodeInfo, over the lower case beyond ASCII
module _ (table : ℕ → ℕ) where
  unfoldable pub parse_node_info : Text → Result NodeError Info
  parse_node_info provider_id =
      if is_empty provider_id
      then err provider_id_empty
      else if ltb (length (split provider_id b':')) 2
      then err invalid_format
      else let provider = to_lower table (first_part (split provider_id b':')) in
        let details = trim_prefix provider_id (provider ++ codes "://") in
        if ltb (length (split details b'/')) 1
        then err invalid_format
        else ok (record {
          provider = provider;
          identifier = last_part (split details b'/');
          raw = provider_id;
        })

-- A node, as far as its provider is concerned: spec.providerID. The clientset may be nil, and so may
-- the node that it returns.
abbrev pub Fetch : Type 0 → Type 0
Fetch W = Text → W → Result NodeError (Option Text) × W

-- Get
unfoldable pub get : {W : Type 0} → Option (Fetch W) → Text → W → Result NodeError (Option Text) × W
get none node w = if is_blank node then (err name_required, w) else (err clientset_nil, w)
get (some fetch) node w = if is_blank node then (err name_required, w) else fetch node w

module _ (table : ℕ → ℕ) where
  unfoldable pub node_info : Result NodeError (Option Text) → Result NodeError Info
  node_info (err e) = err e
  node_info (ok none) = err node_nil
  node_info (ok (some provider_id)) =
      if is_empty provider_id then err provider_id_empty else parse_node_info table provider_id

  unfoldable pub get_node_provider_id :
      {W : Type 0} → Option (Fetch W) → Text → W → Result NodeError Info × W
  get_node_provider_id cs node w = let (r, w') = get cs node w in (node_info r, w')

-- ===== src/Node/Provider/Keeps.antt =====
-- What the read of the node keeps, GetNodeProviderID keeps.
use gpuid.Base.{ℕ, ◌≡◌, refl, Option, none, some, Text, is_blank, Bool-cases, inl, inr}
use gpuid.Node.Provider.{Fetch, get, get_node_provider_id}

pub get_node_provider_id-keeps :
    {W : Type 0} (P : W → Type 0) (table : ℕ → ℕ) (clientset : Option (Fetch W)) (node : Text)
    (w : W)
    → ((fetch : Fetch W) → clientset ≡ some fetch → (v : W) → P v → P (fetch node v).1)
    → P w
    → P (get_node_provider_id table clientset node w).1
unfolding get_node_provider_id get
get_node_provider_id-keeps P table none node w keeps h = elim (Bool-cases (is_blank node)) [
  | inl e ↦ rw e h
  | inr e ↦ rw e h
]
get_node_provider_id-keeps P table (some fetch) node w keeps h = elim (Bool-cases (is_blank node)) [
  | inl e ↦ rw e h
  | inr e ↦ rw e (keeps fetch refl w h)
]

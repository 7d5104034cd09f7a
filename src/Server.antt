-- ===== src/Server.antt =====
-- pkg/server/server.go: the options, the routes and the result of Serve, and in
-- Serving its steps. The mux of net/http is a parameter.
pub mod Routes
pub mod Serving
use gpuid.Base.{
  ℕ, ◌≡◌, ◌≢◌, ◌⊎◌, inl, inr, refl, arith, Bool, true, false, Bool-cases, List, [], ◌∷◌,
  if◌then◌else◌, Option, none, some, Text, codes, text_eq, text_eq_iff, lookup, set, lookup-set,
  has_key, ℤ, pos,
}

-- The server: its logger is the one that was given or none yet.
pub record Server (L : Type 0) : Type 0 where
  pub logger : Option L
  pub port : ℤ

pub data Setting (L : Type 0) : Type 0 where
  with_logger : Option L → Setting L
  with_port : ℤ → Setting L

module _ {L : Type 0} where
  unfoldable pub apply_option : Setting L → Server L → Server L
  apply_option (with_logger l) s = record s { logger = l }
  apply_option (with_port p) s = record s { port = p }

  unfoldable pub apply_options : List (Setting L) → Server L → Server L
  apply_options [] s = s
  apply_options (o ∷ opts) s = apply_options opts (apply_option o s)

  -- a logger of its own if none was given
  unfoldable pub with_default : L → Server L → Server L
  with_default own s = elim s.logger [ none ↦ record s { logger = some own } | some l ↦ s ]

  -- NewServer, given what NewProductionLogger makes of the empty configuration
  unfoldable pub new_server : L → List (Setting L) → Server L
  unfolding apply_option apply_options with_default
  new_server own opts =
      with_default own (apply_options opts (record { logger = none; port = pos 8080 }))

-- How ListenAndServe ends.
pub data Listened (E : Type 0) : Type 0 where
  no_error server_closed : Listened E
  failed : E → Listened E

-- Serve
unfoldable pub serve : {E : Type 0} → Listened E → Option E
serve (failed e) = some e
serve _ = none

pub data Handler (H : Type 0) : Type 0 where
  ok_func : Handler H
  given : H → Handler H

-- http.ServeMux, over its state M: NewServeMux, Handle, whose panic is `none`, and the handler that
-- answers a request for a path.
pub record ServeMux (H M : Type 0) : Type 0 where
  pub new_mux : M
  pub handle : Text → Handler H → M → Option M
  pub serve : M → Text → Option (Handler H)

abbrev pub ok_paths : List Text
ok_paths = codes "/healthz" ∷ codes "/readyz" ∷ codes "/" ∷ []

module _ {H M : Type 0} (lib : ServeMux H M) where
  -- mux.HandleFunc(path, okFunc), for some paths
  unfoldable pub handle_ok : List Text → M → Option M
  handle_ok [] mux = some mux
  handle_ok (path ∷ paths) mux = elim (lib.handle path ok_func mux) [
    | none ↦ none
    | some mux' ↦ handle_ok paths mux'
  ]

  -- the loop over the handlers, in the order of the list
  unfoldable pub handle_all : List (Text × H) → M → Option M
  handle_all [] mux = some mux
  handle_all ((path, h) ∷ handlers) mux = elim (lib.handle path (given h) mux) [
    | none ↦ none
    | some mux' ↦ handle_all handlers mux'
  ]

  -- buildHandler
  unfoldable pub build_handler : List (Text × H) → Option M
  unfolding handle_ok handle_all
  build_handler handlers = elim (handle_ok ok_paths lib.new_mux) [
    | none ↦ none
    | some mux ↦ handle_all handlers mux
  ]

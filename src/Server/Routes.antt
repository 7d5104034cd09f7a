-- ===== src/Server/Routes.antt =====
-- What buildHandler answers on each path, on a mux that does with plain patterns what net/http
-- documents.
use gpuid.Base.{
  ℕ, split_on, ◌≡◌, ◌⊎◌, ◌&&◌, ◌||◌, ◌==◌, inl, inr, refl, ap, sym, ◌∙◌, subst, arith, Bool, true,
  false, not, Bool-cases, List, [], ◌∷◌, Option, none, some, Text, codes, text_eq, text_eq_iff,
  text_eq_refl, is_empty, split, exists, lookup, set, set-All, lookup-set, IsMap, All,
}
use gpuid.Server.{Handler, ok_func, given, ServeMux, handle_ok, handle_all, ok_paths, build_handler}

-- No part of a path that is cleaned away.
abbrev is_part : Text → Bool
is_part s = not (is_empty s) && not (text_eq s (codes ".")) && not (text_eq s (codes ".."))

-- Parts, each behind a slash; the last one may be empty.
abbrev are_clean : List Text → Bool
are_clean [] = true
are_clean (s ∷ []) = is_empty s || is_part s
are_clean (s ∷ t ∷ parts) = is_part s && are_clean (t ∷ parts)

abbrev are_plain : List Text → Bool
are_plain [] = true
are_plain (s ∷ parts) = is_part s && are_plain parts

-- A path of a request, with nothing escaped in it, that the mux does not redirect.
unfoldable pub is_clean : Text → Bool
is_clean [] = false
is_clean (c ∷ s) = c == b'/' && not (exists (λ c. c == b'%') s) && are_clean (split s b'/')

-- A character of a method, of a wildcard or of an escape.
abbrev is_special : ℕ → Bool
is_special c = c == b' ' || c == 9 || c == b'{' || c == b'}' || c == b'%'

-- A pattern with no method, host or wildcard, that stands for its path alone; or "/".
unfoldable pub is_plain : Text → Bool
is_plain [] = false
is_plain (c ∷ s) =
    c == b'/' && (is_empty s || (not (exists is_special s) && are_plain (split s b'/')))

module _ {H : Type 0} where
  abbrev pub Plain : Text × Handler H → Type 0
  Plain e = is_plain e.0 ≡ true

  -- The handler of a path among plain patterns; "/" takes the paths that no other pattern takes.
  unfoldable pub dispatch : List (Text × Handler H) → Text → Option (Handler H)
  dispatch patterns path = elim (lookup path patterns) [
    | none ↦ lookup (codes "/") patterns
    | some h ↦ some h
  ]

  -- No handler is given for one of the patterns.
  abbrev pub IsFree : List (Text × H) → List (Text × Handler H) → Type 0
  IsFree handlers patterns =
      (p : Text) (h : H) → lookup p handlers ≡ some h → lookup p patterns ≡ none

  -- The handler that is given for a path, or another one.
  abbrev pub over : Option H → Option (Handler H) → Option (Handler H)
  over none old = old
  over (some h) old = some (given h)

  -- The patterns of buildHandler itself.
  abbrev pub base_patterns : List (Text × Handler H)
  base_patterns =
      (codes "/healthz", ok_func) ∷ (codes "/readyz", ok_func) ∷ (codes "/", ok_func) ∷ []

-- What a mux is documented to do with plain patterns: one that is not yet registered, with a handler
-- that is not nil, is registered, and a path that is clean is answered by its pattern or by "/".
pub record IsServeMux {H M : Type 0} (lib : ServeMux H M) : Type 0 where
  pub patterns : M → List (Text × Handler H)
  pub is_nil : H → Bool
  pub new_empty : patterns lib.new_mux ≡ []
  pub handles_ok :
      (p : Text) (mux : M)
      → is_plain p ≡ true
      → All Plain (patterns mux)
      → lookup p (patterns mux) ≡ none
      → (mux' : M) × (lib.handle p ok_func mux ≡ some mux')
        × (patterns mux' ≡ set p ok_func (patterns mux))
  pub handles_given :
      (p : Text) (h : H) (mux : M)
      → is_plain p ≡ true
      → is_nil h ≡ false
      → All Plain (patterns mux)
      → lookup p (patterns mux) ≡ none
      → (mux' : M) × (lib.handle p (given h) mux ≡ some mux')
        × (patterns mux' ≡ set p (given h) (patterns mux))
  pub serves :
      (mux : M) (path : Text)
      → All Plain (patterns mux)
      → is_clean path ≡ true
      → lib.serve mux path ≡ dispatch (patterns mux) path

module _ {H M : Type 0} (lib : ServeMux H M) (law : IsServeMux lib) where
  open law use {patterns, is_nil}

  -- Each handler is not nil, and for a plain pattern.
  abbrev pub IsGiven : Text × H → Type 0
  IsGiven e = (is_plain e.0 ≡ true) × (is_nil e.1 ≡ false)

  -- All handlers are registered.
  record IsRegistered (handlers : List (Text × H)) (mux : M) (r : Option M) : Type 0 where
    result : M
    done : r ≡ some result
    plain : All Plain (patterns result)
    routes :
        (path : Text)
        → lookup path (patterns result) ≡ over (lookup path handlers) (lookup path (patterns mux))

  -- A pattern that is registered is out of the way of the others.
  IsFree-set :
      (path : Text) (h : H) (handlers : List (Text × H)) (old : List (Text × Handler H))
      → lookup path handlers ≡ none
      → IsFree ((path, h) ∷ handlers) old
      → IsFree handlers (set path (given h) old)
  unfolding lookup
  IsFree-set path h handlers old absent free p h' found = elim (Bool-cases (text_eq path p)) [
    | inl e ↦ absurd (cc ((text_eq_iff path p).0 e, absent, found))
    | inr e ↦ rw (lookup-set p path (given h) old, e) (free p h' (rw e found))
  ]

  set-over :
      (path : Text) (h : H) (handlers : List (Text × H)) (old : List (Text × Handler H)) (p : Text)
      → lookup path handlers ≡ none
      → over (lookup p handlers) (lookup p (set path (given h) old))
        ≡ over (lookup p ((path, h) ∷ handlers)) (lookup p old)
  unfolding lookup
  set-over path h handlers old p absent = elim (Bool-cases (text_eq path p)) [
    | inl e ↦ rw (lookup-set p path (given h) old, e, ← (text_eq_iff path p).0 e, absent) refl
    | inr e ↦ rw (lookup-set p path (given h) old, e) refl
  ]

  handle_all-IsRegistered :
      (handlers : List (Text × H)) (mux : M)
      → IsMap handlers
      → All IsGiven handlers
      → All Plain (patterns mux)
      → IsFree handlers (patterns mux)
      → IsRegistered handlers mux (handle_all lib handlers mux)
  unfolding handle_all lookup
  handle_all-IsRegistered [] mux m ok plain free = record {
    result = mux;
    done = refl;
    plain = plain;
    routes = λ path. refl;
  }
  handle_all-IsRegistered ((path, h) ∷ handlers) mux (absent, m) ((is_path, set_h), ok) plain free =
      let new : lookup path (patterns mux) ≡ none = free path h (rw (text_eq_refl path) refl) in
      let (mux', registered, grown) = law.handles_given path h mux is_path set_h plain new in
      let rest =
        handle_all-IsRegistered handlers mux' m ok
          (subst (All Plain) (sym grown)
            (set-All Plain path (given h) (patterns mux) is_path plain))
          (subst (IsFree handlers) (sym grown)
            (IsFree-set path h handlers (patterns mux) absent free)) in
      record {
        result = rest.result;
        done = rw (registered, handle_all) rest.done;
        plain = rest.plain;
        routes = λ p.
            rest.routes p
            ∙ (ap (λ (l : List (Text × Handler H)). over (lookup p handlers) (lookup p l)) grown
                ∙ set-over path h handlers (patterns mux) p absent);
      }

  base-Plain : All (Plain {H = H}) base_patterns
  unfolding is_plain split_on text_eq
  base-Plain = (refl, (refl, (refl, tt)))

  -- One more of the patterns of buildHandler.
  register_ok :
      (path : Text) (old new : List (Text × Handler H)) (mux : M)
      → is_plain path ≡ true
      → patterns mux ≡ old
      → All Plain old
      → lookup path old ≡ none
      → set path ok_func old ≡ new
      → (mux' : M) × (lib.handle path ok_func mux ≡ some mux') × (patterns mux' ≡ new)
  register_ok path old new mux is_path same plain free grown =
      let (mux', registered, set_is) =
        law.handles_ok path mux is_path (subst (All Plain) (sym same) plain)
          (ap (lookup path) same ∙ free) in
      (mux', registered, set_is ∙ (ap (set path ok_func) same ∙ grown))

  base_registered :
      (mux : M) × (handle_ok lib ok_paths lib.new_mux ≡ some mux) × (patterns mux ≡ base_patterns)
  unfolding handle_ok lookup set text_eq is_plain split_on
  base_registered =
      let (m1, r1, p1) =
        register_ok (codes "/healthz") [] ((codes "/healthz", ok_func) ∷ []) lib.new_mux refl
          law.new_empty tt refl refl in
      let (m2, r2, p2) =
        register_ok (codes "/readyz") ((codes "/healthz", ok_func) ∷ [])
          ((codes "/healthz", ok_func) ∷ (codes "/readyz", ok_func) ∷ []) m1 refl p1 (refl, tt) refl
          refl in
      let (m3, r3, p3) =
        register_ok (codes "/") ((codes "/healthz", ok_func) ∷ (codes "/readyz", ok_func) ∷ [])
          base_patterns m2 refl p2 (refl, (refl, tt)) refl refl in
      (m3, rw (r1, handle_ok, r2, r3) refl, p3)

  base_cases :
      (path : Text)
      → (lookup path (base_patterns {H = H}) ≡ none)
        ⊎ (lookup path (base_patterns {H = H}) ≡ some ok_func)
  unfolding lookup
  base_cases path = ground arith

  dispatch-over :
      (l : List (Text × Handler H)) (path : Text) (o : Option H) (old : Option (Handler H))
      → lookup path l ≡ over o old
      → (old ≡ none) ⊎ (old ≡ some ok_func)
      → lookup (codes "/") l ≡ some ok_func
      → dispatch l path ≡ over o (some ok_func)
  unfolding dispatch
  dispatch-over l path (some h) old found _ slash = rw (found, dispatch) refl
  dispatch-over l path none old found (inl e) slash = rw (found ∙ e, dispatch) slash
  dispatch-over l path none old found (inr e) slash = rw (found ∙ e, dispatch) refl

  slash_free :
      (handlers : List (Text × H)) (o : Option H)
      → IsFree handlers base_patterns
      → lookup (codes "/") handlers ≡ o
      → over o (some ok_func) ≡ some ok_func
  unfolding lookup text_eq
  slash_free handlers none free e = refl
  slash_free handlers (some h) free e = absurd (cc (free (codes "/") h e))

  -- If the handlers are not nil, each for another pattern that stands for its path alone, and none
  -- for the three patterns of the server, buildHandler does not panic; and each path that is clean,
  -- with nothing escaped in it, is served by the handler that is given for it, or else by the
  -- answer 200. Assumed: the mux does with such patterns and paths what net/http documents.
  pub build_handler-serves :
      (handlers : List (Text × H))
      → IsMap handlers
      → All IsGiven handlers
      → IsFree handlers base_patterns
      → (mux : M) × (build_handler lib handlers ≡ some mux)
        × ((path : Text)
            → is_clean path ≡ true
            → lib.serve mux path ≡ over (lookup path handlers) (some ok_func))
  unfolding build_handler lookup text_eq
  build_handler-serves handlers m ok free =
      let (base, built, base_is) = base_registered in
      let rest =
        handle_all-IsRegistered handlers base m ok (subst (All Plain) (sym base_is) base-Plain)
          (subst (IsFree handlers) (sym base_is) free) in
      let routes : (path : Text)
          → lookup path (patterns rest.result)
            ≡ over (lookup path handlers) (lookup path base_patterns) =
        λ path.
          rest.routes path
          ∙ ap (λ (l : List (Text × Handler H)). over (lookup path handlers) (lookup path l))
              base_is in
      (
        rest.result,
        rw built rest.done,
        λ path clean.
            law.serves rest.result path rest.plain clean
            ∙ dispatch-over (patterns rest.result) path (lookup path handlers)
                (lookup path base_patterns) (routes path) (base_cases path)
                (routes (codes "/") ∙ slash_free handlers _ free refl),
      )

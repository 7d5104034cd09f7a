-- ===== src/Runner/Config/Env/Listed.antt =====
-- That NewCommandFromEnvVars reads the variables of ListEnvVars and no others.
use gpuid.Base.{◌≡◌, refl, All, Option, Result, ok, err, Text}
use gpuid.Runner.Config.{Float32}
use gpuid.Runner.Config.Env.{
  Environment, Parsers, LoadError, get_env, get_env_as, env_options, new_command_from_env_vars,
  list_env_vars, ◌>>=◌,
}

get_env_as-agree :
    {A : Type 0} (parse : Text → Option A) (env other : Environment) (name : Text) (default : A)
    → env name ≡ other name
    → get_env_as parse env name default ≡ get_env_as parse other name default
unfolding get_env_as get_env
get_env_as-agree parse env other name default h = rw (h, get_env_as, get_env) refl

bind-agree :
    {A B : Type 0} (m m' : Result LoadError A) {f g : A → Result LoadError B}
    → m ≡ m'
    → ((a : A) → f a ≡ g a)
    → (m >>= f) ≡ (m' >>= g)
bind-agree (ok a) m' h k = rw (← h) (k a)
bind-agree (err e) m' h k = rw (← h) refl

-- Environments that agree on the variables of ListEnvVars load the same command or fail with the same
-- error: no other variable is read.
pub new_command_from_env_vars-agree :
    (float : Float32) (parsers : Parsers) (env other : Environment)
    → All (λ name. env name ≡ other name) list_env_vars
    → new_command_from_env_vars float parsers env ≡ new_command_from_env_vars float parsers other
unfolding list_env_vars new_command_from_env_vars env_options get_env
new_command_from_env_vars-agree float parsers env other h =
    let (h1, r1) = h in
    let (h2, r2) = r1 in
    let (h3, r3) = r2 in
    let (h4, r4) = r3 in
    let (h5, r5) = r4 in
    let (h6, r6) = r5 in
    let (h7, r7) = r6 in
    let (h8, r8) = r7 in
    let (h9, r9) = r8 in
    let (h10, r10) = r9 in
    let (h11, r11) = r10 in
    let (h12, r12) = r11 in
    let (h13, r13) = r12 in
    let (h14, r14) = r13 in
    let (h15, r15) = r14 in
    let (h16, r16) = r15 in
    let (h17, r17) = r16 in
    let (h18, r18) = r17 in
    let (h19, r19) = r18 in
    let (h20, r20) = r19 in
    let (h21, r21) = r20 in
    bind-agree _ _ (get_env_as-agree _ env other _ _ h6) λ v0.
      bind-agree _ _ (get_env_as-agree _ env other _ _ h7) λ v1.
        bind-agree _ _ (get_env_as-agree _ env other _ _ h8) λ v2.
          bind-agree _ _ (get_env_as-agree _ env other _ _ h9) λ v3.
            bind-agree _ _ (get_env_as-agree _ env other _ _ h10) λ v4.
              bind-agree _ _ (get_env_as-agree _ env other _ _ h13) λ v5.
                bind-agree _ _ (get_env_as-agree _ env other _ _ h14) λ v6.
                  bind-agree _ _ (get_env_as-agree _ env other _ _ h17) λ v7.
                    bind-agree _ _ (get_env_as-agree _ env other _ _ h18) λ v8.
                      bind-agree _ _ (get_env_as-agree _ env other _ _ h19) λ v9.
                        rw (h1, env_options, get_env, h2, h3, h4, h5, h11, h12, h15, h16, h20, h21)
                          refl

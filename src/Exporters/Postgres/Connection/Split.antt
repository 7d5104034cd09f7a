-- ===== src/Exporters/Postgres/Connection/Split.antt =====
-- What the connection string says, if no value has a space.
use gpuid.Base.{
  ◌+◌, ◌≡◌, refl, ap, sym, ◌∙◌, Bool, true, [], ◌∷◌, ◌++◌, arith, ◌==◌, not, every, Text, codes,
  split, split_on, split_on_sep, split_on_other, append-nil, ℤ, pos, negsuc, decimal, decimal-every,
  is_digit, append_assoc,
}
use gpuid.Exporters.Postgres.{Config}
use gpuid.Exporters.Postgres.Connection.{print_int, connection_string}

abbrev pub no_space : Text → Bool
no_space s = every (λ c. not (c == b' ')) s

split_on-word :
    (cur s rest : Text)
    → no_space s ≡ true
    → split_on b' ' cur (s ++ b' ' ∷ rest) ≡ (cur ++ s) ∷ split_on b' ' [] rest
split_on-word cur [] rest h =
    split_on_sep b' ' cur rest b' ' refl
    ∙ ap (λ t. t ∷ split_on b' ' [] rest) (sym (append-nil cur))
split_on-word cur (c ∷ s) rest h =
    split_on_other b' ' cur (s ++ b' ' ∷ rest) c (ground arith)
    ∙ split_on-word (cur ++ c ∷ []) s rest (ground arith)
    ∙ ap (λ t. t ∷ split_on b' ' [] rest) (append_assoc cur (c ∷ []) s)

split_on-last : (cur s : Text) → no_space s ≡ true → split_on b' ' cur s ≡ (cur ++ s) ∷ []
split_on-last cur [] h = unfold split_on in ap (λ t. t ∷ []) (sym (append-nil cur))
split_on-last cur (c ∷ s) h =
    split_on_other b' ' cur s c (ground arith)
    ∙ split_on-last (cur ++ c ∷ []) s (ground arith)
    ∙ ap (λ t. t ∷ []) (append_assoc cur (c ∷ []) s)

no_space-digits : (s : Text) → every is_digit s ≡ true → no_space s ≡ true
no_space-digits [] h = refl
no_space-digits (c ∷ s) h = ground (arith, no_space-digits s)

no_space-print_int : (n : ℤ) → no_space (print_int n) ≡ true
no_space-print_int (pos n) = no_space-digits (decimal n) (decimal-every n)
no_space-print_int (negsuc n) = no_space-digits (decimal (n + 1)) (decimal-every (n + 1))

-- No text that is written has a space.
pub record HasNoSpaces (c : Config) : Type 0 where
  pub in_host : no_space c.host ≡ true
  pub in_database : no_space c.database ≡ true
  pub in_user : no_space c.user ≡ true
  pub in_password : no_space c.password ≡ true
  pub in_ssl_mode : no_space c.ssl_mode ≡ true

-- A connection string that is split at its spaces gives back the host, the port, the database, the
-- user, the password and the SSL mode, each behind its key, if none of these texts has a space.
pub split-connection_string :
    (c : Config)
    → HasNoSpaces c
    → split (connection_string c) b' '
      ≡ (codes "host=" ++ c.host)
        ∷ (codes "port=" ++ print_int c.port)
        ∷ (codes "dbname=" ++ c.database)
        ∷ (codes "user=" ++ c.user)
        ∷ (codes "password=" ++ c.password)
        ∷ (codes "sslmode=" ++ c.ssl_mode)
        ∷ []
unfolding connection_string
split-connection_string c h =
    split_on-word [] (codes "host=" ++ c.host) _ h.in_host
    ∙ ap (λ r. (codes "host=" ++ c.host) ∷ r)
        (split_on-word [] (codes "port=" ++ print_int c.port) _ (no_space-print_int c.port)
          ∙ ap (λ r. (codes "port=" ++ print_int c.port) ∷ r)
              (split_on-word [] (codes "dbname=" ++ c.database) _ h.in_database
                ∙ ap (λ r. (codes "dbname=" ++ c.database) ∷ r)
                    (split_on-word [] (codes "user=" ++ c.user) _ h.in_user
                      ∙ ap (λ r. (codes "user=" ++ c.user) ∷ r)
                          (split_on-word [] (codes "password=" ++ c.password) _ h.in_password
                            ∙ ap (λ r. (codes "password=" ++ c.password) ∷ r)
                                (split_on-last [] (codes "sslmode=" ++ c.ssl_mode)
                                  h.in_ssl_mode)))))

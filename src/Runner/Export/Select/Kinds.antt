-- ===== src/Runner/Export/Select/Kinds.antt =====
-- What GetExporter selects.
use gpuid.Base.{
  ◌*◌, ◌≡◌, ap, sym, subst, ◌∙◌, arith, if◌then◌else◌, Option, none, some, Result, ok, err, codes,
  text_eq, text_eq_iff, is_blank, ℤ, pos, leb_ℤ, ◌<ℤ◌, Bool-cases, inl, inr,
}
use gpuid.Runner.Export.Select.{
  ExporterConfig, Kind, stdout, s3, postgres, http, name_of, with_defaults, SelectError, Makers,
  Selected, select_made, select_backend, get_exporter,
}

-- A backend of one of the four kinds, the one that the configuration names, stdout if it names none;
-- and limits that are positive, those of the configuration if they are.
pub record IsSelected {B : Type 0} (c : ExporterConfig) (e : Selected B) : Type 0 where
  pub kind : Kind
  pub is_kind : e.config.kind ≡ name_of kind
  pub as_named : e.config.kind ≡ (if is_blank c.kind then codes "stdout" else c.kind)
  pub batch_positive : pos 0 <ℤ e.config.batch_size
  pub retries_positive : pos 0 <ℤ e.config.retry_count
  pub timeout_positive : pos 0 <ℤ e.config.timeout

module _ {B W : Type 0} (makers : Makers B W) where
  select_made-config :
      (c : ExporterConfig) (x : SelectError) (r : Option B × W) (e : Selected B)
      → (select_made makers c x r).0 ≡ ok e
      → e.config ≡ c
  unfolding select_made
  select_made-config c x (none, w) e h = cc
  select_made-config c x (some b, w) e h = sym (ap config_of h)
    where
      config_of : Result SelectError (Selected B) → ExporterConfig
      config_of (ok a) = a.config
      config_of (err a) = c

  select_backend-kind :
      (c : ExporterConfig) (w : W) (e : Selected B)
      → (select_backend makers c w).0 ≡ ok e
      → (e.config ≡ c) × ((k : Kind) × (c.kind ≡ name_of k))
  unfolding select_backend
  select_backend-kind c w e h = elim (Bool-cases (text_eq c.kind (name_of stdout))) [
    | inl q ↦ (
      (let k = rw (q, select_backend) at h in ground arith),
      (stdout, (text_eq_iff c.kind (name_of stdout)).0 q),
    )
    | inr q1 ↦ elim (Bool-cases (text_eq c.kind (name_of s3))) [
      | inl q ↦
          let k = rw (q1, q, select_backend) at h in
          (select_made-config c _ _ e k, (s3, (text_eq_iff c.kind (name_of s3)).0 q))
      | inr q2 ↦ elim (Bool-cases (text_eq c.kind (name_of postgres))) [
        | inl q ↦
            let k = rw (q1, q2, q, select_backend) at h in
            (select_made-config c _ _ e k, (postgres, (text_eq_iff c.kind (name_of postgres)).0 q))
        | inr q3 ↦ elim (Bool-cases (text_eq c.kind (name_of http))) [
          | inl q ↦
              let k = rw (q1, q2, q3, q, select_backend) at h in
              (select_made-config c _ _ e k, (http, (text_eq_iff c.kind (name_of http)).0 q))
          | inr q4 ↦ absurd (let k = rw (q1, q2, q3, q4, select_backend) at h in cc k)
        ]
      ]
    ]
  ]

  positive :
      (a b default : ℤ)
      → pos 0 <ℤ default
      → a ≡ (if leb_ℤ b (pos 0) then default else b)
      → pos 0 <ℤ a
  positive a b default h q = subst (λ x. pos 0 <ℤ x) (sym q) (limit b default h)
    where
      limit : (b default : ℤ) → pos 0 <ℤ default → pos 0 <ℤ (if leb_ℤ b (pos 0) then default else b)
      limit b default h = ground arith

  -- An exporter that GetExporter returns has a kind that is one of the four, is the one that the
  -- configuration names, or stdout if it names none, and limits that are positive.
  pub get_exporter-IsSelected :
      (c : ExporterConfig) (w : W) (e : Selected B)
      → (get_exporter makers c w).0 ≡ ok e
      → IsSelected c e
  unfolding get_exporter with_defaults
  get_exporter-IsSelected c w e h =
      let (q, (k, n)) = select_backend-kind (with_defaults c) w e h in
      record {
        kind = k;
        is_kind = ap (λ x. x.kind) q ∙ n;
        as_named = ap (λ x. x.kind) q;
        batch_positive = positive _ c.batch_size (pos 10) (omega arith) (ap (λ x. x.batch_size) q);
        retries_positive =
            positive _ c.retry_count (pos 2) (omega arith) (ap (λ x. x.retry_count) q);
        timeout_positive =
            positive _ c.timeout (pos (30 * 1_000_000_000)) (omega arith) (ap (λ x. x.timeout) q);
      }

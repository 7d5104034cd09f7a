-- ===== src/Exporters/Http/Delivery.antt =====
-- What a Write of the HTTP exporter without an error has delivered.
use gpuid.Base.{
  ℕ, ◌≤◌, ◌<◌, ◌≡◌, refl, ap, List, ◌∷◌, ◌++◌, arith, if◌then◌else◌, Option, none, some, Text,
  codes, text_eq, is_empty, lookup, set, decimal, length, Bool-cases, Option-cases, inl, inr,
}
use gpuid.Gpu.Reading.{SerialNumberReading}
use gpuid.Exporters.Http.{
  Exporter, Request, post, Client, authorize, write_headers, post_request, check_status,
  post_records, write,
}

-- The request that was answered with success: the records as JSON, their number, and the token, if
-- there is one and only then.
pub record IsDelivered {W : Type 0} (client : Client W) (e : Exporter)
    (records : List (Option SerialNumberReading)) (w : W) : Type 0 where
  pub request : Request
  pub status : ℕ
  pub sent_from : W
  pub sent : (client.send request sent_from).0 ≡ some status
  pub last_call : (write client e records w).1 ≡ (client.send request sent_from).1
  pub succeeded : (200 ≤ status) × (status < 300)
  pub is_post : request.method ≡ post
  pub to_endpoint : request.url ≡ e.endpoint
  pub as_json : client.marshal records ≡ some request.body
  pub counted : lookup (codes "X-Records-Count") request.headers ≡ some (decimal (length records))
  pub authorized :
      lookup (codes "Authorization") request.headers
      ≡ (if is_empty e.auth_token then none else some (codes "Bearer " ++ e.auth_token))

check_status-none :
    (s : Option ℕ) → check_status 300 s ≡ none → (n : ℕ) × (s ≡ some n) × (200 ≤ n) × (n < 300)
unfolding check_status
check_status-none none h = cc
check_status-none (some n) h = (n, refl, ground arith, ground arith)

headers-counted :
    (e : Exporter) (records : List (Option SerialNumberReading)) (t : Text)
    → lookup (codes "X-Records-Count") (write_headers e records t) ≡ some (decimal (length records))
unfolding write_headers authorize lookup set text_eq
headers-counted e records t = elim (Bool-cases (is_empty e.auth_token)) [
  | inl h ↦ rw h refl
  | inr h ↦ rw h refl
]

headers-authorized :
    (e : Exporter) (records : List (Option SerialNumberReading)) (t : Text)
    → lookup (codes "Authorization") (write_headers e records t)
      ≡ (if is_empty e.auth_token then none else some (codes "Bearer " ++ e.auth_token))
unfolding write_headers authorize lookup set text_eq
headers-authorized e records t = elim (Bool-cases (is_empty e.auth_token)) [
  | inl h ↦ rw h refl
  | inr h ↦ rw h refl
]

module _ {W : Type 0} (client : Client W) (e : Exporter) (r : Option SerialNumberReading)
    (records : List (Option SerialNumberReading)) (w : W) where
  written-posted :
      (write client e (r ∷ records) w).0 ≡ none
      → (json : Text) × (client.marshal (r ∷ records) ≡ some json)
        × (write client e (r ∷ records) w ≡ post_records client e (r ∷ records) json w)
  unfolding write
  written-posted h = elim (Option-cases (client.marshal (r ∷ records))) [
    | inl q ↦ absurd (let k = rw (q, write) at h in cc k)
    | inr (json, q) ↦ elim (Bool-cases (client.takes_url e.endpoint)) [
      | inl t ↦ (json, q, rw (q, t, write) refl)
      | inr t ↦ absurd (let k = rw (q, t, write) at h in cc k)
    ]
  ]

  posted-IsDelivered :
      (json : Text)
      → client.marshal (r ∷ records) ≡ some json
      → write client e (r ∷ records) w ≡ post_records client e (r ∷ records) json w
      → (post_records client e (r ∷ records) json w).0 ≡ none
      → IsDelivered client e (r ∷ records) w
  unfolding post_records post_request
  posted-IsDelivered json q p h =
      let t = (client.timestamp w).0 in
      let w' = (client.timestamp w).1 in
      let (n, answer, low, high) =
        check_status-none (client.send (post_request e (r ∷ records) json t) w').0 h in
      record {
        request = post_request e (r ∷ records) json t;
        status = n;
        sent_from = w';
        sent = answer;
        last_call = ap (λ x. x.1) p;
        succeeded = (low, high);
        is_post = refl;
        to_endpoint = refl;
        as_json = q;
        counted = headers-counted e (r ∷ records) t;
        authorized = headers-authorized e (r ∷ records) t;
      }

  -- A Write of the HTTP exporter of some records that reports no error has ended with a POST of
  -- them to the endpoint as JSON, with their number and, if there is a token, with it, that was
  -- answered with a status from 200 to 299.
  pub write-IsDelivered :
      (write client e (r ∷ records) w).0 ≡ none → IsDelivered client e (r ∷ records) w
  write-IsDelivered h =
      let (json, q, p) = written-posted h in let k = rw p at h in posted-IsDelivered json q p k

-- ===== src/Exporters/S3/Upload.antt =====
-- What a Write of the S3 exporter without an error has uploaded.
use gpuid.Base.{
  ◌≡◌, refl, ap, ◌∙◌, false, List, [], ◌∷◌, ◌++◌, append-nil, append_assoc, Option, none, some,
  Text, codes, length, decimal, lookup, text_eq, Option-cases, Bool-cases, inl, inr,
}
use gpuid.Gpu.Reading.{SerialNumberReading, slice}
use gpuid.Exporters.S3.{
  Exporter, Stamp, Put, Client, csv_lines, put_input, upload, generate_s3_key, write,
}

abbrev concat : List Text → Text
concat [] = []
concat (t ∷ ts) = t ++ concat ts

module _ {W : Type 0} (client : Client W) where
  -- The lines are those of the records that are not nil, in order.
  abbrev pub AreLines : List (Option SerialNumberReading) → List Text → Type 0
  AreLines [] [] = Unit
  AreLines [] (t ∷ ts) = ⊥
  AreLines (none ∷ records) ts = AreLines records ts
  AreLines (some r ∷ records) [] = ⊥
  AreLines (some r ∷ records) (t ∷ ts) =
      (client.csv_line (slice client.format_time r) ≡ some t) × AreLines records ts

  module _ (e : Exporter) where
    csv_lines-AreLines :
        (records : List (Option SerialNumberReading)) (buffer body : Text)
        → csv_lines client e records buffer ≡ some body
        → (ts : List Text) × AreLines records ts × (body ≡ buffer ++ concat ts)
    unfolding csv_lines
    csv_lines-AreLines [] buffer body h = ([], tt, cc (h, append-nil buffer))
    csv_lines-AreLines (none ∷ records) buffer body h = csv_lines-AreLines records buffer body h
    csv_lines-AreLines (some r ∷ records) buffer body h =
        elim (Option-cases (client.csv_line (slice client.format_time r))) [
          | inl q ↦ absurd (cc (rw (q, csv_lines) at h))
          | inr (t, q) ↦
              let (ts, lines, p) =
                csv_lines-AreLines records (buffer ++ t) body (rw (q, csv_lines) at h) in
              (t ∷ ts, (q, lines), p ∙ append_assoc buffer t (concat ts))
        ]

    -- The object that was put: under the key of the time, with the lines as CSV and their number.
    pub record IsUploaded (records : List (Option SerialNumberReading)) (w : W) : Type 0 where
      pub stamp : Stamp
      pub stamped : W
      pub now : client.now w ≡ (stamp, stamped)
      pub put : Put
      pub accepted : (client.put_object put stamped).0 ≡ false
      pub last_call : (write client e records w).1 ≡ (client.put_object put stamped).1
      pub in_bucket : put.bucket ≡ e.bucket
      pub under_key : put.key ≡ generate_s3_key e stamp
      pub lines : List Text
      pub are_lines : AreLines records lines
      pub body_lines : put.body ≡ concat lines
      pub counted : lookup (codes "record_count") put.metadata ≡ some (decimal (length records))

    upload-IsUploaded :
        (records : List (Option SerialNumberReading)) (w : W) (t : Stamp) (v : W)
        (body : Option Text)
        → client.now w ≡ (t, v)
        → csv_lines client e records [] ≡ body
        → (write client e records w ≡ upload client e records t body v)
        → (upload client e records t body v).0 ≡ none
        → IsUploaded records w
    unfolding upload put_input lookup text_eq
    upload-IsUploaded records w t v none n c run h = absurd (cc h)
    upload-IsUploaded records w t v (some body) n c run h =
        let (ts, lines, p) = csv_lines-AreLines records [] body c in
        record {
          stamp = t;
          stamped = v;
          now = n;
          put = put_input client e records t body;
          accepted = elim (Bool-cases (client.put_object (put_input client e records t body) v).0) [
            | inl f ↦ absurd (cc (rw f at h))
            | inr f ↦ f
          ];
          last_call = ap (λ r. r.1) run;
          in_bucket = refl;
          under_key = refl;
          lines = ts;
          are_lines = lines;
          body_lines = p;
          counted = refl;
        }

    -- A Write of the S3 exporter of some records that reports no error has put one object into the
    -- bucket, under the key of the time: the CSV lines of the records that are not nil, in order,
    -- and in its metadata the number of all records.
    pub write-IsUploaded :
        (r : Option SerialNumberReading) (records : List (Option SerialNumberReading)) (w : W)
        → (write client e (r ∷ records) w).0 ≡ none
        → IsUploaded (r ∷ records) w
    unfolding write
    write-IsUploaded r records w h =
        upload-IsUploaded (r ∷ records) w (client.now w).0 (client.now w).1
          (csv_lines client e (r ∷ records) []) refl refl refl h

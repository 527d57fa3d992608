-- ===== src/Cli/Report/Complete.antt =====
-- What `info` prints, beside what the other commands read.
use zchunk.Prelude.{◌≡◌, ◌∙◌, sym, ap, refl, List, [], ◌∷◌, ◌++◌, append-nil, append_assoc, flatten}
use zchunk.Go.Result
use zchunk.Go.Result.{Result, ok, err, panic, stuck}
use zchunk.Go.Reader.{Bytes, Ending}
use zchunk.Go.Writer.{Writer, buffer}
use zchunk.Lead.{read_lead}
use zchunk.Preface.{uncompressed_source, read_preface}
use zchunk.Index.{read_index}
use zchunk.Signatures.{read_signatures}
use zchunk.Cli.{Headers, read_headers}
use zchunk.Cli.Report.Layout.{report_text, lines-text}
use zchunk.Cli.Report.{
  print_all, lead_lines, preface_lines, index_lines, signature_lines, Printed, or_stop, report_lead,
}

print_all-buffer : (ps : List Bytes) (out : Bytes) → print_all buffer ps out ≡ out ++ flatten ps
unfolding print_all
print_all-buffer [] out = sym (append-nil out)
print_all-buffer (p ∷ ps) out = print_all-buffer ps (out ++ p) ∙ append_assoc out p (flatten ps)

-- `info` beside the other commands on the same file.
pub record Reports (name : Bytes) (end : Ending) (s out : Bytes) : Type 0 where
  pub same_result :
      (w : Writer)
      → (report_lead w name end s out).result ≡ Result.◌>>=◌ (read_headers end s) λ p. ok tt
  pub prints :
      (p : Headers × Bytes)
      → read_headers end s ≡ ok p
      → (report_lead buffer name end s out).out ≡ out ++ report_text name p.0

-- One stage of the report beside the same stage of `read_headers`.
module _ {ℓ κ} {A : Type ℓ} {B : Type κ} where
  stage-result :
      (r : Result A) (out : Bytes) (k : A → Printed) (m : A → Result B)
      → ((a : A) → (k a).result ≡ Result.◌>>=◌ (m a) λ p. ok tt)
      → (or_stop out r k).result ≡ Result.◌>>=◌ (Result.◌>>=◌ r m) λ p. ok tt
  stage-result (ok a) out k m h = h a
  stage-result (err e) out k m h = refl
  stage-result panic out k m h = refl
  stage-result stuck out k m h = refl

  stage-out :
      (r : Result A) (out last : Bytes) (k : A → Printed) (m : A → Result B) (b : B)
      → Result.◌>>=◌ r m ≡ ok b
      → ((a : A) → m a ≡ ok b → (k a).out ≡ last)
      → (or_stop out r k).out ≡ last
  stage-out (ok a) out last k m b e h = h a e
  stage-out (err x) out last k m b e h = cc
  stage-out panic out last k m b e h = cc
  stage-out stuck out last k m b e h = cc

report_lead-result :
    (w : Writer) (name : Bytes) (end : Ending) (s out : Bytes)
    → (report_lead w name end s out).result ≡ Result.◌>>=◌ (read_headers end s) λ p. ok tt
unfolding report_lead read_headers
report_lead-result w name end s out = stage-result (read_lead end s) _ _ _ λ l.
    stage-result (read_preface l.0.checksum_type end l.1) _ _ _ λ p.
      stage-result (read_index (uncompressed_source p.0) end p.1) _ _ _
        λ i. stage-result (read_signatures end i.1) _ _ _ λ g. refl

printed :
    (name : Bytes) (hs : Headers) (out : Bytes)
    → print_all buffer (index_lines hs.index) (
          print_all buffer
            (preface_lines hs.preface)
            (print_all buffer (lead_lines name hs.lead) out))
        ++ flatten (signature_lines hs.signatures)
      ≡ out ++ report_text name hs
printed name hs out = rw (← lines-text name hs) (simp (print_all-buffer, append_assoc))

report_lead-out :
    (name : Bytes) (end : Ending) (s out : Bytes) (q : Headers × Bytes)
    → read_headers end s ≡ ok q
    → (report_lead buffer name end s out).out ≡ out ++ report_text name q.0
unfolding report_lead read_headers
report_lead-out name end s out q h = stage-out (read_lead end s) _ _ _ _ q h λ l h₁.
    stage-out (read_preface l.0.checksum_type end l.1) _ _ _ _ q h₁ λ p h₂.
      stage-out (read_index (uncompressed_source p.0) end p.1) _ _ _ _ q h₂ λ i h₃.
        stage-out (read_signatures end i.1) _ _ _ _ q h₃ λ g h₄.
          print_all-buffer (signature_lines g.0) _
          ∙ printed name (record { lead = l.0; preface = p.0; index = i.0; signatures = g.0 }) out
          ∙ ap (λ (x : Headers × Bytes). out ++ report_text name x.0) (Result.ok-injective h₄)

-- What `info` prints and answers, for every file, well formed or not: it fails exactly as the other
-- commands do when they read the headers, whatever its output does; and where the headers can be read
-- it prints, on an output that never fails, one text: the name and the kind of the file, then a line
-- each for the checksum type, the header's size and checksum, the compression type, the flags with
-- their three lowest bits in words, the data checksum, the number of optional elements if there is one,
-- the checksum type of the chunks, the number of chunks with the two lengths of the first if there is
-- one, and the number of signatures.
pub report_lead-Reports : (name : Bytes) (end : Ending) (s out : Bytes) → Reports name end s out
report_lead-Reports name end s out = record {
  same_result = λ w. report_lead-result w name end s out;
  prints = report_lead-out name end s out;
}

-- ===== src/Download/Examples.antt =====
-- A server that breaks off its first response, and a model of three bytes that is downloaded from it.
use Prim.Native.String.{◌++◌ as append}
use Prim.Native.String.append
use llm_inference_optimizati.Base.{
  ℕ, zero, suc, ◌≡◌, ◌↔◌, refl, sym, ap, subst, String, Option, none, some, List, [], ◌∷◌, ◌++◌, ℤ,
  pos, if◌then◌else◌, str_eq, inr, arith,
}
use llm_inference_optimizati.Text.{lower, translated, count_char, has_char}
use llm_inference_optimizati.Value.{Value, obj, str, int, Fields}
use llm_inference_optimizati.Native.Examples.{whole as floats}
use llm_inference_optimizati.Download.World.{World, Ends, download_error, raised}
use llm_inference_optimizati.Download.Outside.{
  complete, caught, Response, Reply, refused, opened, malformed, parsed, Outside, HashLaws,
  SuffixLaw,
}
use llm_inference_optimizati.Download.Url.{
  url, link, source_url, IsRepository, IsFileName, IsRevision, source_url_iff,
}
use llm_inference_optimizati.Download.Digest.{sha256_file, sha256_file-whole}
use llm_inference_optimizati.Download.Metadata.{Options, metadata_of}
use llm_inference_optimizati.Download.Model.{download_model}
use llm_inference_optimizati.Download.Model.Steps.{IsTextOrNull}
use llm_inference_optimizati.Download.Model.Sound.{IsInstalled}
use llm_inference_optimizati.Download.Model.Again.{download_model-again}
use llm_inference_optimizati.Download.Model.Whole.{IsResult, IsKept, download_model_lem}
use llm_inference_optimizati.Download.Model.Serving.{Serves, IsServer, append_nil, append_assoc}
use llm_inference_optimizati.Download.Model.Attempts.{
  held, whole, Step, Steps, Progress, Shows, attempts, download_model-refines, attempts_lem,
}
use llm_inference_optimizati.Download.Model.Full.{IsMet}
use llm_inference_optimizati.Download.Model.Complete.{download_model-completes}
use llm_inference_optimizati.Download.Model.Stuck.{attempts-stuck}

abbrev model : List ℕ
model = 10 ∷ 20 ∷ 30 ∷ []

abbrev cut : Response
cut = record {
  status = some 200;
  content_length = some "3";
  chunks = (10 ∷ []) ∷ [];
  ending = caught;
}

abbrev pub full : Response
full = record {
  status = some 200;
  content_length = some "3";
  chunks = (10 ∷ 20 ∷ []) ∷ (30 ∷ []) ∷ [];
  ending = complete;
}

abbrev remainder : Response
remainder = record {
  status = some 206;
  content_length = some "2";
  chunks = (20 ∷ 30 ∷ []) ∷ [];
  ending = complete;
}

-- The first request without an offset gets a part, and a request for what follows the first byte gets
-- that.
abbrev answer : Option ℕ → ℕ → Reply
answer none zero = opened cut
answer none (suc n) = opened full
answer (some (suc zero)) n = opened remainder
answer (some _) n = refused

abbrev pub lab : Outside (List ℕ)
lab = record {
  open_url = λ n address offset. answer offset n;
  clock = λ n. "2026-01-01T00:00:00+00:00";
  start = [];
  update = λ h bytes. h ++ bytes;
  hexdigest = λ h. "abc";
  dumps = λ metadata. 123 ∷ 125 ∷ [];
  loads = λ content. malformed;
  parse_int = λ text. if str_eq text "3" then some (pos 3) else some (pos 2);
  quote = λ s. s;
  path_name = λ s. s;
  stem = λ s. s;
  suffix = λ s. "";
  with_suffix = λ p s. append p s;
  join = λ p s. append p (append "/" s);
}

lab-HashLaws : HashLaws lab
lab-HashLaws = record { update_nil = append_nil; update_append = append_assoc }

pub lab-SuffixLaw : SuffixLaw lab
lab-SuffixLaw p s = ap (append p) (append.nil s)

abbrev options : Options
options = record {
  logical_id = none;
  quantization = some "Q8_0";
  base_model = none;
  parameter_count = none;
  revision = "main";
  expected_sha256 = str "ABC";
  expected_byte_size = int (pos 3);
}

options-text : IsTextOrNull options.expected_sha256
options-text = inr ("ABC", refl)

abbrev address : String
address = link lab "owner/name" "model.gguf" "main"

at_address : source_url lab "owner/name" "model.gguf" "main" ≡ url address
unfolding source_url count_char has_char
at_address = refl

abbrev header : Option String → String
header none = ""
header (some t) = t

cut-Serves : Serves lab model none cut
cut-Serves = record {
  before = [];
  rest = 20 ∷ 30 ∷ [];
  pieces = refl;
  partial_status = λ e. absurd (omega arith);
  other_status = λ e. refl;
  announced = λ text e. subst (λ t. lab.parse_int t ≡ some (pos 3)) (ap header e) refl;
  unannounced = λ e. absurd (cc);
}

full-Serves : Serves lab model none full
full-Serves = record {
  before = [];
  rest = [];
  pieces = refl;
  partial_status = λ e. absurd (omega arith);
  other_status = λ e. refl;
  announced = λ text e. subst (λ t. lab.parse_int t ≡ some (pos 3)) (ap header e) refl;
  unannounced = λ e. absurd (cc);
}

remainder-Serves : Serves lab model (some 1) remainder
remainder-Serves = record {
  before = 10 ∷ [];
  rest = [];
  pieces = refl;
  partial_status = λ e. refl;
  other_status = λ e. absurd (e refl);
  announced = λ text e. subst (λ t. lab.parse_int t ≡ some (pos 2)) (ap header e) refl;
  unannounced = λ e. absurd (cc);
}

abbrev response : Reply → Response
response (opened r) = r
response _ = cut

answer-Serves :
    (offset : Option ℕ) (n : ℕ) (r : Response)
    → answer offset n ≡ opened r
    → Serves lab model offset r
answer-Serves none zero r e = subst (Serves lab model none) (ap response e) cut-Serves
answer-Serves none (suc n) r e = subst (Serves lab model none) (ap response e) full-Serves
answer-Serves (some zero) n r e = absurd (cc)
answer-Serves (some (suc zero)) n r e =
    subst (Serves lab model (some 1)) (ap response e) remainder-Serves
answer-Serves (some (suc (suc k))) n r e = absurd (cc)

lab-IsServer : IsServer lab address model
lab-IsServer n offset r e = answer-Serves offset n r e

abbrev destination : String
destination = "models/model.gguf"

abbrev partial : String
partial = "models/model.gguf.part"

abbrev pub empty_disk : World
empty_disk = record { files = λ p. none; readings = 0; requests = 0 }

-- The first byte was received.
abbrev begun_disk : World
begun_disk = record {
  files = λ p. if str_eq p partial then some (10 ∷ []) else none;
  readings = 0;
  requests = 1;
}

-- All bytes were received, and the partial file was not moved.
abbrev left_disk : World
left_disk = record {
  files = λ p. if str_eq p partial then some model else none;
  readings = 0;
  requests = 1;
}

empty-Shows : Shows lab floats options "owner/name" "model.gguf" "models" model empty_disk (held 0)
empty-Shows = (refl, (model, refl), refl)

begun-Shows : Shows lab floats options "owner/name" "model.gguf" "models" model begun_disk (held 1)
begun-Shows = (refl, (20 ∷ 30 ∷ [], refl), refl)

options-IsMet : IsMet lab options model
unfolding sha256_file lower translated
options-IsMet = (inr ("ABC", refl, refl), inr refl)

download_model_example :
    Ends
      (IsResult lab floats options "owner/name" "model.gguf" "models" begun_disk)
      (IsKept lab floats options "owner/name" "model.gguf" "models" begun_disk)
      (download_model lab floats options "owner/name" "model.gguf" "models" begun_disk)
download_model_example =
    download_model_lem lab floats options "owner/name" "model.gguf" "models" begun_disk
      lab-SuffixLaw options-text

download_model-refines_example :
    Ends
      (λ r v.
        Shows lab floats options "owner/name" "model.gguf" "models" model v whole
        × Step 3 (held 0) whole)
      (λ e v.
        (q : Progress) × Shows lab floats options "owner/name" "model.gguf" "models" model v q
        × Step 3 (held 0) q)
      (download_model lab floats options "owner/name" "model.gguf" "models" empty_disk)
download_model-refines_example =
    download_model-refines lab floats options "owner/name" "model.gguf" "models" address model
      (held 0) empty_disk lab-SuffixLaw options-text at_address lab-IsServer empty-Shows

attempts_example :
    (q : Progress) × Shows lab floats options "owner/name" "model.gguf" "models" model
      (attempts lab floats options "owner/name" "model.gguf" "models" 2 empty_disk)
      q
    × Steps 3 (held 0) q
attempts_example =
    attempts_lem lab floats options "owner/name" "model.gguf" "models" address model 2 (held 0)
      empty_disk lab-SuffixLaw options-text at_address lab-IsServer empty-Shows

download_model-completes_example :
    Ends
      (λ _ v. v.files "models/model.gguf" ≡ some model)
      (λ _ _. ⊥)
      (download_model lab floats options "owner/name" "model.gguf" "models" begun_disk)
unfolding remainder-Serves
download_model-completes_example =
    download_model-completes lab floats options "owner/name" "model.gguf" "models" address model 1
      begun_disk remainder lab-SuffixLaw options-text at_address lab-IsServer begun-Shows refl
      (remainder-Serves, refl, refl) (omega arith) options-IsMet

attempts-stuck_example :
    ((attempts lab floats options "owner/name" "model.gguf" "models" 5 left_disk).files
      ≡ left_disk.files)
    × ((n : ℕ) × (download_model lab floats options "owner/name" "model.gguf" "models"
            (attempts lab floats options "owner/name" "model.gguf" "models" 5 left_disk)
          ≡ raised (download_error "download failed") (record left_disk { requests = n })))
attempts-stuck_example =
    attempts-stuck lab floats options "owner/name" "model.gguf" "models" address model at_address
      (omega arith) (λ n. refl) 5 left_disk (refl, refl)

sha256_file-whole_example : sha256_file lab model 2 ≡ lab.hexdigest (lab.update lab.start model)
sha256_file-whole_example = sha256_file-whole lab lab-HashLaws model 2 (omega arith)

source_url_example : (source_url lab "owner/name" "model.gguf" "main" ≡ url address) ↔ (
    (address ≡ link lab "owner/name" "model.gguf" "main")
    × IsRepository "owner/name"
    × IsFileName lab "model.gguf"
    × IsRevision "main")
source_url_example = source_url_iff lab "owner/name" "model.gguf" "main" address

-- The model is installed, and json reads back its metadata.
abbrev metadata : Fields
metadata =
    metadata_of lab destination "owner/name" address "model.gguf" options model
      "2026-01-01T00:00:00+00:00"

abbrev json_lab : Outside (List ℕ)
json_lab = record lab { loads = λ content. parsed (obj metadata) }

abbrev installed_disk : World
installed_disk = record {
  files = λ p.
      if str_eq p destination
      then some model
      else if str_eq p "models/model.gguf.metadata.json"
      then some (123 ∷ 125 ∷ [])
      else none;
  readings = 1;
  requests = 2;
}

abbrev text_in : Value → String
text_in (str s) = s
text_in v = ""

abbrev size_in : Value → ℤ
size_in (int n) = n
size_in v = pos 0

is_installed :
    IsInstalled json_lab options "owner/name" address "model.gguf" destination model metadata
      installed_disk
unfolding sha256_file lower translated metadata_of
is_installed = record {
  content_at = refl;
  filled = omega arith;
  time = "2026-01-01T00:00:00+00:00";
  described = refl;
  recorded = refl;
  digest = λ s e ne. ap (λ v. lower (text_in v)) e;
  size = λ n e ne. sym (ap size_in e);
}

download_model-again_example :
    Ends
      (λ r v.
        (r.0 ≡ destination)
        × IsInstalled json_lab options "owner/name" address "model.gguf" destination model r.1 v
        × (v.requests ≡ 2))
      (λ _ _. ⊥)
      (download_model json_lab floats options "owner/name" "model.gguf" "models" installed_disk)
unfolding options-IsMet source_url
download_model-again_example =
    download_model-again json_lab floats options "owner/name" address "model.gguf" "models" model
      metadata installed_disk lab-SuffixLaw (metadata, refl, λ k. refl) options-text options-IsMet
      at_address is_installed

-- ===== src/Workload/Reader/RoundTrip.antt =====
-- A generated workload is written and read back.
use llm_inference_optimizati.Base.{
  ℕ, ◌+◌, ◌≤◌, ◌≡◌, refl, String, false, Option, List, [], ◌∷◌, map, All, contains, arith, ok,
  str_eq, str_eq_iff, Bool-cases, inl, inr,
}
use llm_inference_optimizati.Value.{Value, Fields}
use llm_inference_optimizati.Workload.Decimal.{padded-injective, append-cancel}
use llm_inference_optimizati.Workload.Generate.{request_id}
use llm_inference_optimizati.Workload.Generate.Workloads.{Made}
use llm_inference_optimizati.Workload.Reader.{read_workload, write_workload}
use llm_inference_optimizati.Workload.Reader.Laws.{
  Distinct, ReadsBack, read_workload-write_workload,
}

-- Two requests of a workload have different ids.
pub request_id-injective : (c : String) (i j : ℕ) → request_id c i ≡ request_id c j → i ≡ j
unfolding request_id
request_id-injective c i j e = padded-injective i j (append-cancel "-" _ _ (append-cancel c _ _ e))

-- No id of an index from `index` on is in `seen`.
abbrev Unseen : String → ℕ → List String → Type 0
Unseen c index seen = (j : ℕ) → index ≤ j → contains seen (request_id c j) ≡ false

Unseen-cons :
    (c : String) (index : ℕ) (seen : List String)
    → Unseen c index seen
    → Unseen c (index + 1) (request_id c index ∷ seen)
Unseen-cons c index seen h j le = elim (Bool-cases (str_eq (request_id c j) (request_id c index))) [
  | inl same ↦ absurd (omega (arith, request_id-injective c j index ((str_eq_iff _ _).0 same)))
  | inr differ ↦ rw differ (h j (omega arith))
]

Made-Distinct :
    (c : String) (index : ℕ) (seen : List String) (ts : List ℕ) (rs : List Fields)
    → Unseen c index seen
    → Made c index ts rs
    → Distinct seen rs
Made-Distinct c index seen [] [] fresh h = tt
Made-Distinct c index seen (t ∷ ts) (r ∷ rs) fresh h = (
  request_id c index,
  h.0,
  fresh index (omega arith),
  h.2,
  Made-Distinct c (index + 1) (request_id c index ∷ seen) ts rs (Unseen-cons c index seen fresh)
      h.3,
)
Made-Distinct c index seen [] (r ∷ rs) fresh h = absurd h
Made-Distinct c index seen (t ∷ ts) [] fresh h = absurd h

-- What `write_workload` writes of records as `generate_records` makes them is read back by
-- `read_workload`, up to the order of the keys in each record. It is supposed that the JSON text of each
-- record is not blank and has no character that `splitlines` breaks at, and that the json module reads
-- it back.
pub read_workload-generated :
    (loads : String → Option Value) (dumps : Fields → String) (sort_keys : Fields → Fields)
    → (c : String) (ts : List ℕ) (rs : List Fields) → All (ReadsBack loads dumps sort_keys) rs
    → Made c 0 ts rs
    → read_workload loads (write_workload dumps rs) ≡ ok (map sort_keys rs)
read_workload-generated loads dumps sort_keys c ts rs json made =
    read_workload-write_workload loads dumps sort_keys rs json
      (Made-Distinct c 0 [] ts rs (λ j h. refl) made)

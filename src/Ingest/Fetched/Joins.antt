-- ===== src/Ingest/Fetched/Joins.antt =====
-- ingest/src/provider/common.rs: the joins of the selections that EVM requests become.
use cherry_core.Base.{
  arith, Bool, false, ◌&&◌, List, [], ◌∷◌, String, Result, ok, err, ◌>>=◌, ◌≡◌, refl, ap, sym, ◌∙◌,
  inl, inr, Result-cases, ok-injective,
}
use cherry_core.Base.Dict.{Dict}
use cherry_core.Query.Hashing.{Hashing}
use cherry_core.Query.Filter.{Filter, any}
use cherry_core.Query.Engine.{Include, TableSelection}
use cherry_core.Ingest.Evm.Selections.Block.{block_selection}
use cherry_core.Ingest.Evm.Selections.Transaction.{transaction_selection}
use cherry_core.Ingest.Evm.Selections.Log.{log_selection}
use cherry_core.Ingest.Evm.Selections.Trace.{trace_selection}
use cherry_core.Ingest.Evm.{TransactionRequest, TraceRequest, LogRequest}
use cherry_core.Ingest.Common.{Error, is_empty, collect_selections}
use cherry_core.Ingest.Common.Evm.{
  evm_tx_selection_include, evm_trace_selection_include, evm_log_selection_include,
}
use cherry_core.Ingest.Fetched.{joins}

pub any-false {ℓ} : {A : Type ℓ} (xs : List A) → any (λ _. false) xs ≡ false
any-false [] = refl
any-false (x ∷ xs) = any-false xs

pub any-empty {ℓ} : {A : Type ℓ} (f : A → Bool) (xs : List A) → (is_empty xs && any f xs) ≡ false
any-empty f [] = refl
any-empty f (x ∷ xs) = refl

pub tx_joins :
    (r : TransactionRequest)
    → (joins "transactions" (evm_tx_selection_include r) ≡ false)
      × (joins "logs" (evm_tx_selection_include r) ≡ r.include_logs)
      × (joins "traces" (evm_tx_selection_include r) ≡ r.include_traces)
      × (joins "blocks" (evm_tx_selection_include r) ≡ r.include_blocks)
tx_joins r = ground arith

pub trace_joins :
    (r : TraceRequest)
    → (joins "transactions" (evm_trace_selection_include r) ≡ r.include_transactions)
      × (joins "logs" (evm_trace_selection_include r) ≡ r.include_transaction_logs)
      × (joins "traces" (evm_trace_selection_include r) ≡ r.include_transaction_traces)
      × (joins "blocks" (evm_trace_selection_include r) ≡ r.include_blocks)
trace_joins r = ground arith

pub log_joins :
    (r : LogRequest)
    → (joins "transactions" (evm_log_selection_include r) ≡ r.include_transactions)
      × (joins "logs" (evm_log_selection_include r) ≡ r.include_transaction_logs)
      × (joins "traces" (evm_log_selection_include r) ≡ r.include_transaction_traces)
      × (joins "blocks" (evm_log_selection_include r) ≡ r.include_blocks)
log_joins r = ground arith

module _ (H : Hashing) where
  -- The joins of the selections that some requests become.
  pub any-collect_selections :
      {R : Type 0} (t : String) (convert : R → Result Error (TableSelection H))
      (incs : R → List Include) (flag : R → Bool)
      → ((r : R) (s : TableSelection H) → convert r ≡ ok s → s.include ≡ incs r)
      → ((r : R) → joins t (incs r) ≡ flag r)
      → (rs : List R) (ss : List (TableSelection H)) → collect_selections H convert rs ≡ ok ss
      → (is_empty ss ≡ is_empty rs) × (any (λ s. joins t s.include) ss ≡ any flag rs)
  unfolding collect_selections
  any-collect_selections t convert incs flag h k [] ss e =
      let none_left : [] ≡ ss = ok-injective refl e in rw (sym none_left) (refl, refl)
  any-collect_selections t convert incs flag h k (r ∷ rs) ss e = elim (Result-cases (convert r)) [
    | inl (s, made) ↦ elim (Result-cases (collect_selections H convert rs)) [
      | inl (others, collected) ↦
          let it : s ∷ others ≡ ss = ok-injective (rw (made, collected) refl) e in
          let (_, rest) = any-collect_selections t convert incs flag h k rs others collected in
          let here : joins t s.include ≡ flag r = ap (joins t) (h r s made) ∙ k r in
          rw (sym it) (refl, rw (here, rest) refl)
      | inr (x, failed) ↦ absurd (err_not_ok (rw (made, failed) at e))
    ]
    | inr (x, failed) ↦ absurd (err_not_ok (rw failed at e))
  ]
    where
      err_not_ok : {A : Type 0} {x : Error} {a : A} → err x ≡ ok a → ⊥
      err_not_ok h = cc

  pub include_of :
      (filters : Result Error (Dict (Filter H))) (incs : List Include) (s : TableSelection H)
      → (do fs ← filters; ok (record { filters = fs; include = incs })) ≡ ok s
      → s.include ≡ incs
  include_of (ok fs) incs s h = ap (λ (s : TableSelection H). s.include) (ok-injective h refl)
  include_of (err e) incs s h = cc

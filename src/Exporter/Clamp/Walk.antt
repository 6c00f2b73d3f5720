-- ===== src/Exporter/Clamp/Walk.antt =====
-- exporter/awskinesisexporter/signal_traces.go, signal_logs.go and signal_metrics.go: with a limit that is
-- not negative the clamp's walk does not panic, and keeps what its parts keep.
use opentelemetry_kinesis_st.Base.{
  ℕ, ◌+◌, ◌≡◌, refl, List, [], ◌∷◌, Option, none, some, ℤ, pos, length, arith,
}
use opentelemetry_kinesis_st.Exporter.Clamp.{
  ◌>>=◌, clamp_attrs, clamp_each, clamp_scope, clamp_span, clamp_log_record, clamp_data_point,
  clamp_summary_point, clamp_resource, clamp_batch,
}
use opentelemetry_kinesis_st.Exporter.Signal.{
  Attrs, ScopeGroup, ResourceGroup, Batch, Span, LogRecord, DataPoint,
}
use opentelemetry_kinesis_st.Exporter.Text.Total.{clamp_string_attrs_total}

-- A clamp that does not panic, with what it leaves.
abbrev pub Keeps : {A : Type 0} → (A → Type 0) → Option (A × ℕ) → Type 0
Keeps P none = ⊥
Keeps P (some (a, n)) = P a

-- Nothing is said of what it leaves.
abbrev pub Any : {A : Type 0} → A → Type 0
Any a = Unit

pub Keeps-bind :
    {A B : Type 0} (P : A → Type 0) (Q : B → Type 0) (o : Option (A × ℕ))
    (f : A × ℕ → Option (B × ℕ))
    → Keeps P o
    → ((a : A) (n : ℕ) → P a → Keeps Q (f (a, n)))
    → Keeps Q (o >>= f)
Keeps-bind P Q none f h k = absurd h
Keeps-bind P Q (some (a, n)) f h k = k a n h

-- If a clamp keeps a measure of an entry, its loop keeps the sum of the measures.
pub clamp_each-Keeps :
    {A : Type 0} (f : A → Option (A × ℕ)) (measure : A → ℕ) (all : List A → ℕ)
    → ((x : A) (xs : List A) → all (x ∷ xs) ≡ measure x + all xs)
    → ((x : A) → Keeps (λ y. measure y ≡ measure x) (f x))
    → (xs : List A) → Keeps (λ ys. all ys ≡ all xs) (clamp_each f xs)
unfolding clamp_each
clamp_each-Keeps f measure all step h [] = refl
clamp_each-Keeps f measure all step h (x ∷ xs) = Keeps-bind _ _ (f x) _ (h x) (λ y n e.
    Keeps-bind _ _ (clamp_each f xs) _ (clamp_each-Keeps f measure all step h xs)
      (λ ys k es. omega (arith, step x xs, step y ys, e, es)))

pub Keeps-all :
    {A : Type 0} (P : A → Type 0) (o : Option (A × ℕ)) → ((a : A) → P a) → Keeps Any o → Keeps P o
Keeps-all P none k h = h
Keeps-all P (some (a, n)) k h = k a

-- So it keeps their number.
pub length-clamp_each :
    {A : Type 0} (f : A → Option (A × ℕ))
    → ((x : A) → Keeps Any (f x))
    → (xs : List A) → Keeps (λ ys. length ys ≡ length xs) (clamp_each f xs)
length-clamp_each f h xs =
    clamp_each-Keeps f (λ x. 1) length (λ x xs. omega arith)
      (λ x. Keeps-all _ (f x) (λ a. refl) (h x)) xs

module _ (n : ℕ) where
  pub clamp_attrs-Keeps : (m : Attrs) → Keeps Any (clamp_attrs (pos n) m)
  unfolding clamp_attrs
  clamp_attrs-Keeps m = let (r, e) = clamp_string_attrs_total m n in rw e tt

  pub clamp_each_attrs-Keeps :
      (ms : List Attrs) → Keeps (λ ys. length ys ≡ length ms) (clamp_each (clamp_attrs (pos n)) ms)
  clamp_each_attrs-Keeps ms = length-clamp_each (clamp_attrs (pos n)) clamp_attrs-Keeps ms

  pub clamp_span-Keeps : (sp : Span) → Keeps Any (clamp_span (pos n) sp)
  unfolding clamp_span
  clamp_span-Keeps sp =
      Keeps-bind Any Any (clamp_attrs (pos n) sp.attributes) _ (clamp_attrs-Keeps sp.attributes)
        (λ _ _ _.
          Keeps-bind _ Any (clamp_each (clamp_attrs (pos n)) sp.events) _
            (clamp_each_attrs-Keeps sp.events)
            (λ _ _ _.
              Keeps-bind _ Any (clamp_each (clamp_attrs (pos n)) sp.links) _
                (clamp_each_attrs-Keeps sp.links) (λ _ _ _. tt)))

  pub clamp_log_record-Keeps : (lr : LogRecord) → Keeps Any (clamp_log_record (pos n) lr)
  unfolding clamp_log_record
  clamp_log_record-Keeps lr =
      Keeps-bind Any Any (clamp_attrs (pos n) lr.attributes) _ (clamp_attrs-Keeps lr.attributes)
        (λ _ _ _. tt)

  pub clamp_data_point-Keeps : (dp : DataPoint) → Keeps Any (clamp_data_point (pos n) dp)
  unfolding clamp_data_point
  clamp_data_point-Keeps dp =
      Keeps-bind Any Any (clamp_attrs (pos n) dp.attributes) _ (clamp_attrs-Keeps dp.attributes)
        (λ _ _ _.
          Keeps-bind _ Any (clamp_each (clamp_attrs (pos n)) dp.exemplars) _
            (clamp_each_attrs-Keeps dp.exemplars) (λ _ _ _. tt))

  pub clamp_summary_point-Keeps : (dp : DataPoint) → Keeps Any (clamp_summary_point (pos n) dp)
  unfolding clamp_summary_point
  clamp_summary_point-Keeps dp =
      Keeps-bind Any Any (clamp_attrs (pos n) dp.attributes) _ (clamp_attrs-Keeps dp.attributes)
        (λ _ _ _. tt)

  -- A walk keeps the sum of what its clamp keeps of the leaves of a scope.
  module _ {L : Type 0} (clamp_leaf : ℤ → L → Option (L × ℕ)) (in_leaves : List L → ℕ)
      (in_scopes : List (ScopeGroup L) → ℕ) (in_batch : Batch L → ℕ)
      (scopes_step : (s : ScopeGroup L) (ss : List (ScopeGroup L))
        → in_scopes (s ∷ ss) ≡ in_leaves s.leaves + in_scopes ss)
      (batch_step : (r : ResourceGroup L) (rs : Batch L)
        → in_batch (r ∷ rs) ≡ in_scopes r.scopes + in_batch rs)
      (keeps : (ls : List L)
        → Keeps (λ ys. in_leaves ys ≡ in_leaves ls) (clamp_each (clamp_leaf (pos n)) ls)) where
    clamp_scope-Keeps :
        (s : ScopeGroup L)
        → Keeps (λ t. in_leaves t.leaves ≡ in_leaves s.leaves) (clamp_scope clamp_leaf (pos n) s)
    unfolding clamp_scope
    clamp_scope-Keeps s =
        Keeps-bind Any _ (clamp_attrs (pos n) s.scope.attributes) _
          (clamp_attrs-Keeps s.scope.attributes)
          (λ _ _ _.
            Keeps-bind _ _ (clamp_each (clamp_leaf (pos n)) s.leaves) _ (keeps s.leaves)
              (λ ys k e. e))

    clamp_resource-Keeps :
        (r : ResourceGroup L)
        → Keeps (λ q. in_scopes q.scopes ≡ in_scopes r.scopes) (clamp_resource clamp_leaf (pos n) r)
    unfolding clamp_resource
    clamp_resource-Keeps r =
        Keeps-bind Any _ (clamp_attrs (pos n) r.resource.attributes) _
          (clamp_attrs-Keeps r.resource.attributes)
          (λ _ _ _.
            Keeps-bind _ _ (clamp_each (clamp_scope clamp_leaf (pos n)) r.scopes) _
              (clamp_each-Keeps (clamp_scope clamp_leaf (pos n)) (λ s. in_leaves s.leaves) in_scopes
                scopes_step clamp_scope-Keeps r.scopes)
              (λ ys k e. e))

    pub clamp_batch-Keeps :
        (td : Batch L) → Keeps (λ b. in_batch b ≡ in_batch td) (clamp_batch clamp_leaf (pos n) td)
    unfolding clamp_batch
    clamp_batch-Keeps td =
        clamp_each-Keeps (clamp_resource clamp_leaf (pos n)) (λ r. in_scopes r.scopes) in_batch
          batch_step clamp_resource-Keeps td

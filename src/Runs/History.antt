-- ===== src/Runs/History.antt =====
-- What `reconcile` of nawat/runs.py leaves in the table.
use nawat.Prelude.{
  ℕ, ◌≡◌, refl, sym, ap, ◌∙◌, subst, Bool, true, false, ◌⊎◌, inl, inr, List, [], ◌∷◌, Option,
  Bool-cases, same, same_refl, In, In-keep, In-keep_of, All, arith,
}
use nawat.Prelude.Text.{Text, text_eq}
use nawat.Prelude.Sort.{In-sort_by, In-sort_by_of, In-map_of}
use nawat.Errors.{Result, ok}
use nawat.Runs.{failed, active, RunRecord, Store, put_row, update}
use nawat.Runs.Reconcile.{active_runs, survives, failure, recover, reconcile_loop, reconcile}
use nawat.Runs.Rows.{put_row-In, ids, ids-put_row, ValidIds, update-put_row, everywhere}

-- What the loop leaves: rows that it did not touch, none of them of a run that it recovered, and rows that are not active.
pub record Recovered (is_alive : ℕ → Bool) (todo : List RunRecord) (s s' : Store) : Type 0 where
  pub ids_kept : ids s'.rows ≡ ids s.rows
  pub rows_kept :
      (x : RunRecord)
      → In x s'.rows
      → (active x.state ≡ false)
        ⊎ (In x s.rows
            × ((r : RunRecord) → In r todo → survives is_alive r ≡ false → same x.id r.id ≡ false))

module _ (is_alive : ℕ → Bool) (now : ℕ) (newest : RunRecord → Result (Option Text)) where
  Recovered-nil : (s : Store) → Recovered is_alive [] s s
  Recovered-nil s = record { ids_kept = refl; rows_kept = λ x m. inr (m, λ r n. absurd n) }

  Recovered-alive :
      (r : RunRecord) (rest : List RunRecord) (s s' : Store)
      → survives is_alive r ≡ true
      → Recovered is_alive rest s s'
      → Recovered is_alive (r ∷ rest) s s'
  Recovered-alive r rest s s' a k = record {
    ids_kept = k.ids_kept;
    rows_kept = λ x m. go x (k.rows_kept x m);
  }
    where
      dead : survives is_alive r ≡ false → ⊥
      dead d = ground (arith, a, d)

      go :
          (x : RunRecord)
          → (active x.state ≡ false)
            ⊎ (In x s.rows
                × ((y : RunRecord)
                    → In y rest
                    → survives is_alive y ≡ false
                    → same x.id y.id ≡ false))
          → (active x.state ≡ false)
            ⊎ (In x s.rows
                × ((y : RunRecord)
                    → In y (r ∷ rest)
                    → survives is_alive y ≡ false
                    → same x.id y.id ≡ false))
      go x (inl p) = inl p
      go x (inr (n, f)) = inr (
        n,
        λ y w d. elim w [
          | inl p ↦ absurd (dead (subst (λ z. survives is_alive z ≡ false) p d))
          | inr w' ↦ f y w' d
        ],
      )

  Recovered-failed :
      (r u : RunRecord) (rest : List RunRecord) (s s₁ s' : Store)
      → u.id ≡ r.id
      → u.state ≡ failed
      → s₁.rows ≡ put_row u s.rows
      → Recovered is_alive rest s₁ s'
      → Recovered is_alive (r ∷ rest) s s'
  unfolding active
  Recovered-failed r u rest s s₁ s' i f e k = record {
    ids_kept = k.ids_kept ∙ ap ids e ∙ ids-put_row u s.rows;
    rows_kept = λ x m. go x (k.rows_kept x m);
  }
    where
      go :
          (x : RunRecord)
          → (active x.state ≡ false)
            ⊎ (In x s₁.rows
                × ((y : RunRecord)
                    → In y rest
                    → survives is_alive y ≡ false
                    → same x.id y.id ≡ false))
          → (active x.state ≡ false)
            ⊎ (In x s.rows
                × ((y : RunRecord)
                    → In y (r ∷ rest)
                    → survives is_alive y ≡ false
                    → same x.id y.id ≡ false))
      go x (inl p) = inl p
      go x (inr (n, g)) = elim (put_row-In u x s.rows (subst (λ rows. In x rows) e n)) [
        | inl p ↦ inl (ap (λ y. active y.state) p ∙ ap active f)
        | inr (n', d) ↦ inr (
          n',
          λ y w dead. elim w [
            | inl p ↦ subst (λ t. same x.id t ≡ false) (i ∙ ap (λ z. z.id) (sym p)) d
            | inr w' ↦ g y w' dead
          ],
        )
      ]

  reconcile_dead :
      (r u : RunRecord) (rest us : List RunRecord) (s s₁ s' : Store) (path : Option Text)
      → survives is_alive r ≡ false
      → newest r ≡ ok path
      → update r.id (failure now path r) s ≡ (s₁, ok u)
      → reconcile_loop is_alive now newest rest s₁ ≡ (s', ok us)
      → reconcile_loop is_alive now newest (r ∷ rest) s ≡ (s', ok (u ∷ us))
  unfolding reconcile_loop recover
  reconcile_dead r u rest us s s₁ s' path a n e₁ e = ground (arith, a, n, e₁, e)

  reconcile_alive :
      (r : RunRecord) (rest : List RunRecord) (s : Store)
      → survives is_alive r ≡ true
      → reconcile_loop is_alive now newest (r ∷ rest) s ≡ reconcile_loop is_alive now newest rest s
  unfolding reconcile_loop
  reconcile_alive r rest s a = rw a refl

  reconcile_loop-Recovered :
      (todo : List RunRecord) (s : Store)
      → ((r : RunRecord) → (path : Option Text) × (newest r ≡ ok path))
      → ValidIds s.rows
      → ((r : RunRecord) → In r todo → In r.id (ids s.rows))
      → (s' : Store) × (us : List RunRecord) × (reconcile_loop is_alive now newest todo s
          ≡ (s', ok us))
        × Recovered is_alive todo s s'
  unfolding reconcile_loop recover
  reconcile_loop-Recovered [] s answers valid listed = (s, [], refl, Recovered-nil s)
  reconcile_loop-Recovered (r ∷ rest) s answers valid listed =
      elim (Bool-cases (survives is_alive r)) [
        | inl a ↦
            let (s', us, e, k) =
              reconcile_loop-Recovered rest s answers valid (λ y m. listed y (inr m)) in
            (s', us, reconcile_alive r rest s a ∙ e, Recovered-alive r rest s s' a k)
        | inr a ↦
            let (path, n) = answers r in
            let (u, s₁, e₁, i, f, rows) = update-put_row r now path s valid (listed r (inl refl)) in
            let kept : ids s.rows ≡ ids s₁.rows = sym (ids-put_row u s.rows) ∙ ap ids (sym rows) in
            let (s', us, e, k) =
              reconcile_loop-Recovered rest s₁ answers
                (λ t m. valid t (subst (λ ts. In t ts) (sym kept) m))
                (λ y m. subst (λ ts. In y.id ts) kept (listed y (inr m))) in
            (
              s',
              u ∷ us,
              reconcile_dead r u rest us s s₁ s' path a n e₁ e,
              Recovered-failed r u rest s s₁ s' i f rows k,
            )
      ]

  decided :
      (s : Store) (x : RunRecord)
      → In x s.rows
      → ((r : RunRecord)
          → In r (active_runs s)
          → survives is_alive r ≡ false
          → same x.id r.id ≡ false)
      → (active x.state ≡ true) ⊎ (active x.state ≡ false)
      → (survives is_alive x ≡ true) ⊎ (survives is_alive x ≡ false)
      → (active x.state ≡ false) ⊎ (survives is_alive x ≡ true)
  unfolding active_runs
  decided s x m f (inr p) q = inl p
  decided s x m f (inl p) (inl q) = inr q
  decided s x m f (inl p) (inr q) =
      let there : In x (active_runs s) =
        In-sort_by_of (λ (y : RunRecord). y.submitted_at) x _
          (In-keep_of (λ (y : RunRecord). active y.state) x s.rows m p) in
      let differs = f x there q in absurd (ground (arith, differs, same_refl x.id))

  -- If the search for checkpoints never raises and every id of the table is one that `validate_run_id` accepts, then `reconcile` returns, and every run of the table that it leaves is not active or has a live process.
  pub reconcile-Survives :
      (s : Store)
      → ((r : RunRecord) → (path : Option Text) × (newest r ≡ ok path))
      → ValidIds s.rows
      → (s' : Store) × (us : List RunRecord) × (reconcile is_alive now newest s ≡ (s', ok us))
        × All (λ x. (active x.state ≡ false) ⊎ (survives is_alive x ≡ true)) s'.rows
  unfolding reconcile active_runs
  reconcile-Survives s answers valid =
      let (s', us, e, k) =
        reconcile_loop-Recovered (active_runs s) s answers valid (λ r m. listed r (row r m).0) in
      (s', us, e, everywhere _ s'.rows (λ x m. settled x (k.rows_kept x m)))
    where
      row : (r : RunRecord) → In r (active_runs s) → In r s.rows × (active r.state ≡ true)
      row r m =
          In-keep (λ (y : RunRecord). active y.state) r s.rows
            (In-sort_by (λ (y : RunRecord). y.submitted_at) r _ m)

      listed : (r : RunRecord) → In r s.rows → In r.id (ids s.rows)
      listed r m = In-map_of (λ (y : RunRecord). y.id) r s.rows m

      settled :
          (x : RunRecord)
          → (active x.state ≡ false)
            ⊎ (In x s.rows
                × ((r : RunRecord)
                    → In r (active_runs s)
                    → survives is_alive r ≡ false
                    → same x.id r.id ≡ false))
          → (active x.state ≡ false) ⊎ (survives is_alive x ≡ true)
      settled x (inl p) = inl p
      settled x (inr (m, f)) =
          decided s x m f (Bool-cases (active x.state)) (Bool-cases (survives is_alive x))

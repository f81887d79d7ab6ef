-- ===== src/Runs/Queue.antt =====
-- The queue of nawat/runs.py: the order in which runs start.
use nawat.Prelude.{
  ◌≡◌, refl, Bool, true, false, not, ◌&&◌, ◌||◌, List, [], ◌∷◌, Option, none, some, ltb, ◌==◌,
  if◌then◌else◌, same, keep, In, In-keep, In-keep_of, Bool-cases, ◌⊎◌, inl, inr, ◌↔◌, ap, sym,
  subst, arith, same→eq,
}
use nawat.Prelude.Text.{Text, text_eq, Text-discrete, text_le}
use nawat.Runs.{RunRecord, is_queued, Store}

-- The order of the pairs (submitted_at, id), as SQLite's `ORDER BY submitted_at, id`.
unfoldable pub starts_by : RunRecord → RunRecord → Bool
starts_by a b =
    ltb a.submitted_at b.submitted_at || (a.submitted_at == b.submitted_at && text_le a.id b.id)

-- Python's `<` of the same pairs.
unfoldable pub starts_before : RunRecord → RunRecord → Bool
unfolding Text-discrete
starts_before a b =
    ltb a.submitted_at b.submitted_at
    || (a.submitted_at == b.submitted_at && text_le a.id b.id && not (same a.id b.id))

unfoldable pub insert_run : RunRecord → List RunRecord → List RunRecord
insert_run r [] = r ∷ []
insert_run r (x ∷ rest) =
    let more = insert_run r rest in if starts_by r x then r ∷ x ∷ rest else x ∷ more

unfoldable pub in_queue_order : List RunRecord → List RunRecord
in_queue_order [] = []
in_queue_order (r ∷ rest) = insert_run r (in_queue_order rest)

unfoldable pub queued_rows : List RunRecord → List RunRecord
queued_rows rows = in_queue_order (keep (λ (r : RunRecord). is_queued r.state) rows)

unfoldable pub queued : Store → List RunRecord
queued s = queued_rows s.rows

unfoldable pub queued_before : RunRecord → Store → List RunRecord
queued_before r s = keep (λ (x : RunRecord). starts_before x r) (queued s)

abbrev pub first_of : List RunRecord → Option RunRecord
first_of [] = none
first_of (r ∷ rest) = some r

-- The same query, with `LIMIT 1`.
unfoldable pub next_queued : Store → Option RunRecord
next_queued s = first_of (queued_rows s.rows)

text_le_total : (a b : Text) → text_le a b ≡ false → text_le b a ≡ true
unfolding text_le
text_le_total [] b h = ground arith
text_le_total (c ∷ a) [] h = refl
text_le_total (c ∷ a) (d ∷ b) h = ground (arith, text_le_total a b)

text_le_trans : (a b c : Text) → text_le a b ≡ true → text_le b c ≡ true → text_le a c ≡ true
unfolding text_le
text_le_trans [] b c h k = refl
text_le_trans (x ∷ a) [] c h k = ground arith
text_le_trans (x ∷ a) (y ∷ b) [] h k = ground arith
text_le_trans (x ∷ a) (y ∷ b) (z ∷ c) h k = ground (arith, text_le_trans a b c)

text_le_antisym : (a b : Text) → text_le a b ≡ true → text_le b a ≡ true → a ≡ b
unfolding text_le
text_le_antisym [] [] h k = refl
text_le_antisym [] (d ∷ b) h k = ground arith
text_le_antisym (c ∷ a) [] h k = ground arith
text_le_antisym (c ∷ a) (d ∷ b) h k = ground (arith, text_le_antisym a b)

starts_by_total : (a b : RunRecord) → starts_by a b ≡ false → starts_by b a ≡ true
unfolding starts_by
starts_by_total a b h = ground (arith, text_le_total a.id b.id)

starts_by_trans :
    (a b c : RunRecord) → starts_by a b ≡ true → starts_by b c ≡ true → starts_by a c ≡ true
unfolding starts_by
starts_by_trans a b c h k = ground (arith, text_le_trans a.id b.id c.id)

-- A run before which another starts does not start before it.
starts_by-before : (a b : RunRecord) → starts_by a b ≡ true → starts_before b a ≡ false
unfolding starts_by starts_before Text-discrete
starts_by-before a b h = ground (arith, text_le_antisym a.id b.id)

starts_before_of :
    (a b : RunRecord) → starts_by a b ≡ true → same a.id b.id ≡ false → starts_before a b ≡ true
unfolding starts_by starts_before Text-discrete
starts_before_of a b h n = ground (arith, n)

starts_by_refl : (a : RunRecord) → starts_by a a ≡ true
starts_by_refl a = elim (Bool-cases (starts_by a a)) [ inl e ↦ e | inr e ↦ starts_by_total a a e ]

In-insert_run : (b r : RunRecord) (rs : List RunRecord) → In b (insert_run r rs) → (b ≡ r) ⊎ In b rs
unfolding insert_run
In-insert_run b r [] m = m
In-insert_run b r (x ∷ rs) m = ground (arith, In-insert_run b r rs)

In-insert_run_of :
    (b r : RunRecord) (rs : List RunRecord) → (b ≡ r) ⊎ In b rs → In b (insert_run r rs)
unfolding insert_run
In-insert_run_of b r [] m = m
In-insert_run_of b r (x ∷ rs) m = ground (arith, In-insert_run_of b r rs)

In-in_queue_order : (b : RunRecord) (rs : List RunRecord) → In b (in_queue_order rs) → In b rs
unfolding in_queue_order
In-in_queue_order b [] m = m
In-in_queue_order b (r ∷ rs) m =
    ground (arith, In-insert_run b r (in_queue_order rs) m, In-in_queue_order b rs)

In-in_queue_order_of : (b : RunRecord) (rs : List RunRecord) → In b rs → In b (in_queue_order rs)
unfolding in_queue_order
In-in_queue_order_of b [] m = m
In-in_queue_order_of b (r ∷ rs) m =
    In-insert_run_of b r (in_queue_order rs) (ground (arith, In-in_queue_order_of b rs))

-- The first of a list starts by all of it.
pub Leads : List RunRecord → Type 0
Leads [] = Unit
Leads (h ∷ rest) = (x : RunRecord) → In x (h ∷ rest) → starts_by h x ≡ true

insert_run-Leads : (r : RunRecord) (rs : List RunRecord) → Leads rs → Leads (insert_run r rs)
unfolding insert_run Leads
insert_run-Leads r [] l = only
  where
    only : (x : RunRecord) → In x (r ∷ []) → starts_by r x ≡ true
    only x (inl p) = subst (λ y. starts_by r y ≡ true) (sym p) (starts_by_refl r)
    only x (inr m) = absurd m
insert_run-Leads r (h ∷ rs) l = elim (Bool-cases (starts_by r h)) [
  | inl e ↦ rw e (first e)
  | inr e ↦ rw e (later e)
]
  where
    first : starts_by r h ≡ true → (x : RunRecord) → In x (r ∷ h ∷ rs) → starts_by r x ≡ true
    first e x (inl p) = subst (λ y. starts_by r y ≡ true) (sym p) (starts_by_refl r)
    first e x (inr m) = starts_by_trans r h x e (l x m)

    later :
        starts_by r h ≡ false → (x : RunRecord) → In x (h ∷ insert_run r rs) → starts_by h x ≡ true
    later e x (inl p) = l x (inl p)
    later e x (inr m) = elim (In-insert_run x r rs m) [
      | inl p ↦ subst (λ y. starts_by h y ≡ true) (sym p) (starts_by_total r h e)
      | inr n ↦ l x (inr n)
    ]

in_queue_order-Leads : (rs : List RunRecord) → Leads (in_queue_order rs)
unfolding in_queue_order Leads
in_queue_order-Leads [] = tt
in_queue_order-Leads (r ∷ rs) = insert_run-Leads r (in_queue_order rs) (in_queue_order-Leads rs)

-- The table's primary key: rows of one id are one row.
abbrev pub UniqueRunIds : List RunRecord → Type 0
UniqueRunIds rows = (a b : RunRecord) → In a rows → In b rows → a.id ≡ b.id → a ≡ b

nobody_before :
    (r : RunRecord) (q : List RunRecord)
    → Leads q
    → In r q
    → ((x : RunRecord) → In x q → x.id ≡ r.id → x ≡ r)
    → keep (λ (x : RunRecord). starts_before x r) q ≡ []
    → first_of q ≡ some r
unfolding Leads
nobody_before r [] l m unique e = absurd m
nobody_before r (h ∷ q) l m unique e = elim (Bool-cases (same h.id r.id)) [
  | inl p ↦ ap (λ x. some x) (unique h (inl refl) (same→eq h.id r.id p))
  | inr p ↦
      let before = starts_before_of h r (l r m) p in
      absurd (
        subst (λ xs. In h xs) e
          (In-keep_of (λ (x : RunRecord). starts_before x r) h (h ∷ q) (inl refl) before))
]

none_before :
    (r : RunRecord) (rest q : List RunRecord)
    → ((x : RunRecord) → In x q → starts_by r x ≡ true)
    → keep (λ (x : RunRecord). starts_before x r) q ≡ []
none_before r rest [] l = refl
none_before r rest (x ∷ q) l =
    ground (arith, starts_by-before r x (l x (inl refl)), none_before r rest q (λ y m. l y (inr m)))

first-none_before :
    (r : RunRecord) (q : List RunRecord)
    → Leads q
    → first_of q ≡ some r
    → keep (λ (x : RunRecord). starts_before x r) q ≡ []
unfolding Leads
first-none_before r [] l e = cc
first-none_before r (h ∷ q) l e =
    let same_run : h ≡ r = ground (arith, e) in
    none_before r q (h ∷ q) (λ x m. subst (λ y. starts_by y x ≡ true) same_run (l x m))

-- For a queued run of a table without two rows of one id: no queued run starts before it exactly if it is the one that `next_queued` returns.
pub next_queued_iff :
    (s : Store) (r : RunRecord)
    → UniqueRunIds s.rows
    → In r s.rows
    → is_queued r.state ≡ true
    → (queued_before r s ≡ []) ↔ (next_queued s ≡ some r)
unfolding queued_before next_queued queued queued_rows
next_queued_iff s r unique m w =
    let leads = in_queue_order-Leads (keep (λ (x : RunRecord). is_queued x.state) s.rows) in
    let listed =
      In-in_queue_order_of r _ (In-keep_of (λ (x : RunRecord). is_queued x.state) r s.rows m w) in
    (
      nobody_before r _ leads listed (λ x n e. unique x r (row x n) m e),
      first-none_before r _ leads,
    )
  where
    row : (x : RunRecord) → In x (queued_rows s.rows) → In x s.rows
    row x n = (In-keep (λ (y : RunRecord). is_queued y.state) x s.rows (In-in_queue_order x _ n)).0

-- ===== src/Db/Audit/Pages.antt =====
-- The pages of the audit log: their order, and that together they show what the filter passes.
use vaul_tls.Base.{
  ℕ, zero, suc, ◌+◌, ◌≤◌, ◌≡◌, refl, sym, ap, ◌∙◌, Bool, true, false, ◌&&◌, List, [], ◌∷◌, ◌++◌,
  All, All-map, select, length, take, drop, Bool-cases, inl, inr, arith,
}
use vaul_tls.Base.Tables.{All-selected}
use vaul_tls.Db.Audit.{
  AuditLogRow, AuditFilter, passes_filter, goes_before, insert_sorted, order_by, query_audit,
}

-- Newest first, and of entries of the same second the later row first.
abbrev pub IsNewestFirst : List AuditLogRow → Type 0
IsNewestFirst [] = Unit
IsNewestFirst (r ∷ rest) = All (λ s. goes_before r s ≡ true) rest × IsNewestFirst rest

goes_before_total : (r s : AuditLogRow) → goes_before r s ≡ false → goes_before s r ≡ true
unfolding goes_before
goes_before_total r s h = ground (arith, h)

goes_before_trans :
    (r s t : AuditLogRow) → goes_before r s ≡ true → goes_before s t ≡ true → goes_before r t ≡ true
unfolding goes_before
goes_before_trans r s t h k = ground (arith, h, k)

All-insert_sorted {κ} :
    (P : AuditLogRow → Type κ) (r : AuditLogRow) (xs : List AuditLogRow)
    → P r
    → All P xs
    → All P (insert_sorted r xs)
unfolding insert_sorted
All-insert_sorted P r [] p h = (p, tt)
All-insert_sorted P r (s ∷ xs) p h = elim (Bool-cases (goes_before r s)) [
  | inl before ↦ rw before (p, h)
  | inr after ↦ rw after (h.0, All-insert_sorted P r xs p h.1)
]

insert_sorted-IsNewestFirst :
    (r : AuditLogRow) (xs : List AuditLogRow)
    → IsNewestFirst xs
    → IsNewestFirst (insert_sorted r xs)
unfolding insert_sorted
insert_sorted-IsNewestFirst r [] h = (tt, tt)
insert_sorted-IsNewestFirst r (s ∷ xs) h = elim (Bool-cases (goes_before r s)) [
  | inl before ↦ rw before ((before, All-map xs (λ t k. goes_before_trans r s t before k) h.0), h)
  | inr after ↦ rw after (
    All-insert_sorted (λ t. goes_before s t ≡ true) r xs (goes_before_total r s after) h.0,
    insert_sorted-IsNewestFirst r xs h.1,
  )
]

order_by-IsNewestFirst : (xs : List AuditLogRow) → IsNewestFirst (order_by xs)
unfolding order_by
order_by-IsNewestFirst [] = tt
order_by-IsNewestFirst (r ∷ xs) =
    insert_sorted-IsNewestFirst r (order_by xs) (order_by-IsNewestFirst xs)

All-order_by {κ} :
    (P : AuditLogRow → Type κ) (xs : List AuditLogRow) → All P xs → All P (order_by xs)
unfolding order_by
All-order_by P [] h = tt
All-order_by P (r ∷ xs) h = All-insert_sorted P r (order_by xs) h.0 (All-order_by P xs h.1)

All-take {ℓ κ} : {A : Type ℓ} (P : A → Type κ) (n : ℕ) (xs : List A) → All P xs → All P (take n xs)
All-take P zero xs h = tt
All-take P (suc n) [] h = tt
All-take P (suc n) (x ∷ xs) h = (h.0, All-take P n xs h.1)

All-drop {ℓ κ} : {A : Type ℓ} (P : A → Type κ) (n : ℕ) (xs : List A) → All P xs → All P (drop n xs)
All-drop P zero xs h = h
All-drop P (suc n) [] h = tt
All-drop P (suc n) (x ∷ xs) h = All-drop P n xs h.1

take-IsNewestFirst : (n : ℕ) (xs : List AuditLogRow) → IsNewestFirst xs → IsNewestFirst (take n xs)
take-IsNewestFirst zero xs h = tt
take-IsNewestFirst (suc n) [] h = tt
take-IsNewestFirst (suc n) (x ∷ xs) h = (All-take _ n xs h.0, take-IsNewestFirst n xs h.1)

drop-IsNewestFirst : (n : ℕ) (xs : List AuditLogRow) → IsNewestFirst xs → IsNewestFirst (drop n xs)
drop-IsNewestFirst zero xs h = h
drop-IsNewestFirst (suc n) [] h = tt
drop-IsNewestFirst (suc n) (x ∷ xs) h = drop-IsNewestFirst n xs h.1

length-take {ℓ} : {A : Type ℓ} (n : ℕ) (xs : List A) → length (take n xs) ≤ n
length-take zero xs = omega arith
length-take (suc n) [] = omega arith
length-take (suc n) (x ∷ xs) = omega (arith, length-take n xs)

take-length {ℓ} : {A : Type ℓ} (xs : List A) → take (length xs) xs ≡ xs
take-length [] = refl
take-length (x ∷ xs) = ap (λ ys. x ∷ ys) (take-length xs)

drop-drop {ℓ} : {A : Type ℓ} (o n : ℕ) (xs : List A) → drop (o + n) xs ≡ drop n (drop o xs)
drop-drop zero n xs = ap (λ k. drop k xs) (omega arith)
drop-drop (suc o) zero [] = let e : suc o + zero ≡ suc o = omega arith in rw e refl
drop-drop (suc o) (suc n) [] = let e : suc o + suc n ≡ suc (o + suc n) = omega arith in rw e refl
drop-drop (suc o) n (x ∷ xs) =
    let e : suc o + n ≡ suc (o + n) = omega arith in rw e (drop-drop o n xs)

take-append_drop {ℓ} :
    {A : Type ℓ} (n m : ℕ) (xs : List A) → take n xs ++ take m (drop n xs) ≡ take (n + m) xs
take-append_drop zero m xs = ap (λ k. take k xs) (omega arith)
take-append_drop (suc n) zero [] = let e : suc n + zero ≡ suc n = omega arith in rw e refl
take-append_drop (suc n) (suc m) [] =
    let e : suc n + suc m ≡ suc (n + suc m) = omega arith in rw e refl
take-append_drop (suc n) m (x ∷ xs) =
    let e : suc n + m ≡ suc (n + m) = omega arith in
    rw e (ap (λ ys. x ∷ ys) (take-append_drop n m xs))

length-select-insert_sorted :
    (p : AuditLogRow → Bool) (r : AuditLogRow) (xs : List AuditLogRow)
    → length (select p (insert_sorted r xs)) ≡ length (select p (r ∷ xs))
unfolding insert_sorted
length-select-insert_sorted p r [] = refl
length-select-insert_sorted p r (s ∷ xs) = elim (Bool-cases (goes_before r s)) [
  | inl before ↦ rw before refl
  | inr after ↦ rw after (ground (arith, length-select-insert_sorted p r xs))
]

length-select-order_by :
    (p : AuditLogRow → Bool) (xs : List AuditLogRow)
    → length (select p (order_by xs)) ≡ length (select p xs)
unfolding order_by
length-select-order_by p [] = refl
length-select-order_by p (r ∷ xs) =
    length-select-insert_sorted p r (order_by xs) ∙ ground (arith, length-select-order_by p xs)

select-all {ℓ} : {A : Type ℓ} (xs : List A) → select (λ x. true) xs ≡ xs
select-all [] = refl
select-all (x ∷ xs) = ap (λ ys. x ∷ ys) (select-all xs)

length-order_by : (xs : List AuditLogRow) → length (order_by xs) ≡ length xs
length-order_by xs =
    ap length (sym (select-all (order_by xs)))
    ∙ length-select-order_by (λ r. true) xs
    ∙ ap length (select-all xs)

select-select {ℓ} :
    {A : Type ℓ} (p q : A → Bool) (xs : List A)
    → select q (select p xs) ≡ select (λ x. p x && q x) xs
select-select p q [] = refl
select-select p q (x ∷ xs) = elim (Bool-cases (p x)) [
  | inl e ↦ rw e (ground (arith, select-select p q xs))
  | inr e ↦ rw e (select-select p q xs)
]

module _ (filter : AuditFilter) (log : List AuditLogRow) where
  -- A page has at most as many rows as were asked for, each passes the filter, and they stand newest
  -- first. Adjacent pages are the parts of the larger page. The page of all rows, whose number `total`
  -- tells, has each row that passes the filter as often as the log: so many of them pass any further
  -- test.
  pub query_audit-pages :
      (limit next offset : ℕ) (test : AuditLogRow → Bool)
      → let page = query_audit filter limit offset log in
        let everything = query_audit filter page.total 0 log in
        (length page.rows ≤ limit)
        × All (λ r. passes_filter filter r ≡ true) page.rows
        × IsNewestFirst page.rows
        × (page.rows ++ (query_audit filter next (offset + limit) log).rows
            ≡ (query_audit filter (limit + next) offset log).rows)
        × (length (select test everything.rows)
            ≡ length (select (λ r. passes_filter filter r && test r) log))
  unfolding query_audit
  query_audit-pages limit next offset test = (
    length-take limit (drop offset sorted),
    All-take _ limit _ (
        All-drop _ offset sorted
          (All-order_by _ passing (All-selected (passes_filter filter) log))),
    take-IsNewestFirst limit _ (drop-IsNewestFirst offset sorted (order_by-IsNewestFirst passing)),
    ap (λ rest. take limit (drop offset sorted) ++ take next rest) (drop-drop offset limit sorted)
        ∙ take-append_drop limit next (drop offset sorted),
    ap (λ n. length (select test (take n sorted))) (sym (length-order_by passing))
        ∙ ap (λ rows. length (select test rows)) (take-length sorted)
        ∙ length-select-order_by test passing
        ∙ ap length (select-select (passes_filter filter) test log),
  )
    where
      passing : List AuditLogRow
      passing = select (passes_filter filter) log

      sorted : List AuditLogRow
      sorted = order_by passing

-- ===== src/Api/Pages/Walk.antt =====
-- A client that follows the cursors of GET /v1/jobs sees every job of its filter once, newest first.
use proxmox_manager.Base.{
  ℕ, zero, suc, String, ◌+◌, ◌≤◌, ◌<◌, ◌≡◌, refl, sym, ap, ◌∙◌, subst, inl, inr, Bool, true, false,
  Option, none, some, List, [], ◌∷◌, ◌++◌, length, ltb, ltb→lt, ◌==◌, Bool-cases, Result, ok, err,
  arith, All, All-selected, All-sort_by, select-true, Unique, select_where, sort_by, take, drop,
  last, Sorted, sort_by-Sorted, select-sort_by, select-after, take-drop, length-drop, take-short,
  take-take-suc, length-take-suc, length-take-short, last-take, select-and, select-implied,
  select-Sorted, All-select_where,
}
use proxmox_manager.Domain.{ProvisioningJob}
use proxmox_manager.Store.{Db}
use proxmox_manager.Jobs.Listing.{ListFilter, fits, newer, is_after, list, job_key, newer-IsOrder}
use proxmox_manager.Api.Pages.{
  Cursor, CursorText, encode_cursor, decode_cursor, page_limit, paginate, position, list_jobs,
}
use proxmox_manager.Api.Pages.Cursors.{IsCursorText, decode_cursor-encode_cursor, page_limit-bounds}

module _ (text : CursorText) (matches : String → ℕ → Bool) (filter : ListFilter)
    (limit_text : String) (db : Db) where
  -- the client: the rows of this page, and of the pages after it
  abbrev follow :
      (String → List ProvisioningJob)
      → Result (List ProvisioningJob × Option String)
      → List ProvisioningJob
  follow next (err _) = []
  follow next (ok (page, none)) = page
  follow next (ok (page, some cursor)) = page ++ next cursor

  unfoldable pub walk : ℕ → String → List ProvisioningJob
  walk zero cursor = []
  walk (suc fuel) cursor = follow (walk fuel) (list_jobs text matches filter cursor limit_text db)

  abbrev all_rows : List ProvisioningJob
  all_rows = sort_by newer (select_where (fits matches filter) db.jobs)

  -- the rows from a position on
  abbrev rest : Option (ℕ × ℕ) → List ProvisioningJob
  rest p = select_where (is_after p) all_rows

  Unique-select :
      (q : ProvisioningJob → Bool) (xs : List ProvisioningJob)
      → Unique job_key xs
      → Unique job_key (select_where q xs)
  unfolding select_where
  Unique-select q [] u = tt
  Unique-select q (x ∷ xs) u = elim (Bool-cases (q x)) [
    | inl t ↦
        rw t (All-selected (λ y. (job_key y == job_key x) ≡ false) q xs u.0, Unique-select q xs u.1)
    | inr t ↦ rw t (Unique-select q xs u.1)
  ]

  module _ (unique : Unique job_key db.jobs) where
    list-rest : (p : Option (ℕ × ℕ)) (n : ℕ) → list matches filter p n db ≡ take n (rest p)
    unfolding list
    list-rest p n =
        ap (λ xs. take n (sort_by newer xs)) (select-and (fits matches filter) (is_after p) db.jobs)
        ∙ ap (take n) (
            sym (
              select-sort_by job_key newer newer-IsOrder (is_after p)
                (select_where (fits matches filter) db.jobs)
                (Unique-select (fits matches filter) db.jobs unique)))

    rest-Sorted : (p : Option (ℕ × ℕ)) → Sorted newer (rest p)
    rest-Sorted p = select-Sorted newer (is_after p) all_rows (
        sort_by-Sorted job_key newer newer-IsOrder (select_where (fits matches filter) db.jobs)
          (Unique-select (fits matches filter) db.jobs unique))

    after-newer :
        (p : Option (ℕ × ℕ)) (c x : ProvisioningJob)
        → is_after p c ≡ true
        → newer c x ≡ true
        → is_after p x ≡ true
    after-newer none c x a b = refl
    after-newer (some (t, id)) c x a b = ground arith

    -- the rows after the last one of a page
    rest-page :
        (p : Option (ℕ × ℕ)) (n : ℕ) (c : ProvisioningJob)
        → is_after p c ≡ true
        → last (take n (rest p)) ≡ some c
        → rest (some (c.created_at, c.id)) ≡ drop n (rest p)
    rest-page p n c a e =
        sym (select-implied (is_after p) (newer c) (λ x. after-newer p c x a) all_rows)
        ∙ select-after job_key newer newer-IsOrder c n (rest p) (rest-Sorted p) e

    -- the cursor names the position p
    abbrev At : String → Option (ℕ × ℕ) → Type 0
    At cursor p = (c : Cursor) × (decode_cursor text cursor ≡ ok c) × (position text c ≡ p)

    module _ (n : ℕ) (limited : page_limit text limit_text ≡ ok n) where
      list_jobs_lem :
          (cursor : String) (p : Option (ℕ × ℕ))
          → At cursor p
          → list_jobs text matches filter cursor limit_text db
            ≡ ok (
                paginate text
                  (take (suc n) (rest p))
                  n
                  (λ j. j.created_at)
                  (λ j. text.id_text j.id))
      unfolding list_jobs
      list_jobs_lem cursor p (c, d, e) =
          let items : list matches filter (position text c) (n + 1) db ≡ take (suc n) (rest p) =
            ap (λ q. list matches filter q (n + 1) db) e
            ∙ list-rest p (n + 1)
            ∙ ap (λ k. take k (rest p)) {y = suc n} (omega arith) in
          rw d (
            rw limited (
              ap (λ xs. ok (paginate text xs n (λ j. j.created_at) (λ j. text.id_text j.id)))
                items))

      module _ (laws : IsCursorText text)
          (timed : All (λ j. (j.created_at == 0) ≡ false) db.jobs) where
        -- a row that the walk may go on from
        abbrev GoesOn : Option (ℕ × ℕ) → ProvisioningJob → Type 0
        GoesOn p j = (is_after p j ≡ true) × ((j.created_at == 0) ≡ false)

        All-both :
            (P Q : ProvisioningJob → Type 0) (xs : List ProvisioningJob)
            → All P xs
            → All Q xs
            → All (λ j. P j × Q j) xs
        All-both P Q [] a b = tt
        All-both P Q (x ∷ xs) a b = ((a.0, b.0), All-both P Q xs a.1 b.1)

        rest-GoesOn : (p : Option (ℕ × ℕ)) → All (GoesOn p) (rest p)
        rest-GoesOn p =
            All-both (λ j. is_after p j ≡ true) (λ j. (j.created_at == 0) ≡ false) (rest p)
              (All-select_where (is_after p) all_rows)
              (All-selected (λ j. (j.created_at == 0) ≡ false) (is_after p) all_rows
                (All-sort_by job_key newer newer-IsOrder (λ j. (j.created_at == 0) ≡ false)
                  (select_where (fits matches filter) db.jobs)
                  (All-selected (λ j. (j.created_at == 0) ≡ false) (fits matches filter) db.jobs
                    timed)))

        next-At :
            (c : ProvisioningJob)
            → (c.created_at == 0) ≡ false
            → At (encode_cursor text c.created_at (text.id_text c.id)) (some (c.created_at, c.id))
        next-At c t =
            let (_, d) =
              decode_cursor-encode_cursor text laws c.created_at (text.id_text c.id)
                (laws.named c.id) in
            (_, d, rw t (ap (λ k. some (c.created_at, k)) (laws.reads c.id)))

        walk-rest :
            (fuel : ℕ) (cursor : String) (p : Option (ℕ × ℕ))
            → At cursor p
            → length (rest p) < fuel
            → walk fuel cursor ≡ rest p
        unfolding walk paginate
        walk-rest zero cursor p at lt = absurd (omega arith)
        walk-rest (suc fuel) cursor p at lt =
            let (low, high) = page_limit-bounds text limit_text n limited in
            elim (Bool-cases (ltb n (length (take (suc n) (rest p))))) [
              | inr f ↦
                  let short : length (rest p) ≤ n = length-take-short n (rest p) (ground arith) in
                  rw (list_jobs_lem cursor p at) (rw f (take-short (suc n) (rest p) (omega arith)))
              | inl t ↦
                  let long : n < length (rest p) = length-take-suc n (rest p) (ltb→lt _ _ t) in
                  let (c, e, (on, time)) =
                    last-take (GoesOn p) n (rest p) low long (rest-GoesOn p) in
                  let cut_at : rest (some (c.created_at, c.id)) ≡ drop n (rest p) =
                    rest-page p n c on e in
                  let fewer : length (rest (some (c.created_at, c.id))) < fuel =
                    subst (λ k. k < fuel) (sym (ap length cut_at ∙ length-drop n (rest p)))
                      (omega arith) in
                  let later : walk fuel (encode_cursor text c.created_at (text.id_text c.id))
                      ≡ drop n (rest p) =
                    walk-rest fuel _ _ (next-At c time) fewer ∙ cut_at in
                  rw (list_jobs_lem cursor p at)
                    (rw t (rw (take-take-suc n (rest p)) (rw e (rw later (take-drop n (rest p))))))
            ]

        -- Where the packages that a cursor is written with read back what they write, job ids are
        -- unique, no job was created at the zero time, the query's limit is accepted, and the
        -- tables stay as they are: a client that begins without a cursor and follows each page's,
        -- for more rounds than there are jobs of the filter, is shown those jobs, each once, the
        -- newest first.
        pub walk_lem : (fuel : ℕ) → length all_rows < fuel → walk fuel "" ≡ all_rows
        walk_lem fuel lt =
            walk-rest fuel "" none
              (record { after = 0; after_id = "" }, unfold decode_cursor in refl, refl)
              (rw everything lt)
            ∙ everything
          where
            everything : rest none ≡ all_rows
            everything = select-true all_rows

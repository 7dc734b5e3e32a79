-- ===== src/Config/Preload.antt =====
-- The loop that fills the local cache from the database page by page.
use mathlib.Core.Logic.Or
use mathlib.Core.List.{Mem, Mem-prop, mem-append, map-append}
use go_notification.Prelude.{
  ℕ, zero, suc, ◌+◌, ◌*◌, ◌^◌, ◌≤◌, ◌<◌, ◌≡◌, refl, sym, ap, ◌∙◌, ◌⊎◌, inl, inr, List, ◌++◌, map,
  length, length-map, length-append, some, pos, ◌+ℤ◌, wrap64, wrap64_of_in, pos-add, ltb_ℤ, arith,
  append_assoc, true, false,
}
use go_notification.Errs.{ok}
use go_notification.Domain.Tx.{BusinessConfig}
use go_notification.Config.Entities.{Row, to_domain}
use go_notification.Config.Repository.{
  ConfigRepository, load_cache_batch, find_configs, load_cache_from, load_cache, page_limit,
}

-- rows of a table, in any order and any number
abbrev pub AllIn : List Row → List Row → Type 0
AllIn table rows = (row : Row) → Mem row rows → Mem row table

AllIn-append : (table xs ys : List Row) → AllIn table xs → AllIn table ys → AllIn table (xs ++ ys)
AllIn-append table xs ys hx hy row m = Or.elim Mem-prop (mem-append.0 m) (hx row) (hy row)

-- What a query with a limit and an offset gives: rows of the table, as many as the limit says or all
-- that are left after the offset. Their order is open, and may differ between two queries.
abbrev pub PageOf : List Row → ℕ → ℕ → List Row → Type 0
PageOf table offset limit page =
    AllIn table page
    × (((length page ≡ limit) × (offset + limit ≤ length table))
        ⊎ ((length page < limit) × (offset + length page ≡ length table)))

-- What the loop relies on: the rows of the table stay as they are and a query gives a page of them,
-- and the local cache takes whatever it is given, which `given` lists.
pub record Paged {ℓ} {S : Type ℓ} (b : ConfigRepository S) (table : List Row)
    (given : S → List BusinessConfig) : Type ℓ where
  pub page :
      (offset limit : ℕ) (s : S)
      → offset ≤ length table
      → (rows : List Row) × ((b.dao.find_page (pos offset) (pos limit) s).0 ≡ ok rows)
        × PageOf table offset limit rows
  pub page-given :
      (offset limit : ℕ) (s : S) → given (b.dao.find_page (pos offset) (pos limit) s).1 ≡ given s
  pub taken : (cs : List BusinessConfig) (s : S) → (b.local_cache.set_configs cs s).0 ≡ ok tt
  pub given-taken :
      (cs : List BusinessConfig) (s : S) → given (b.local_cache.set_configs cs s).1 ≡ given s ++ cs

module _ {ℓ} {S : Type ℓ} (b : ConfigRepository S) (table : List Row)
    (given : S → List BusinessConfig) (paged : Paged b table given) where
  load_cache_batch-page :
      (offset : ℕ) (s : S) (rows : List Row)
      → (b.dao.find_page (pos offset) (pos 10) s).0 ≡ ok rows
      → ((load_cache_batch b (pos offset) page_limit s).0 ≡ ok (pos (length rows)))
        × (given (load_cache_batch b (pos offset) page_limit s).1 ≡ given s ++ map to_domain rows)
  unfolding load_cache_batch find_configs
  load_cache_batch-page offset s rows found = rw found (
      let s1 = (b.dao.find_page (pos offset) (pos 10) s).1 in
      rw (paged.taken (map to_domain rows) s1) (
        ap (λ n. ok (pos n)) (length-map to_domain rows),
        paged.given-taken _ s1 ∙ ap (λ l. l ++ map to_domain rows) (paged.page-given offset 10 s),
      ))

  next_offset :
      (offset : ℕ)
      → length table < 2 ^ 62
      → offset ≤ length table
      → wrap64 (pos offset +ℤ page_limit) ≡ pos (offset + 10)
  next_offset offset small inside =
      ap wrap64 (pos-add offset 10) ∙ wrap64_of_in (pos (offset + 10)) (omega arith)

  -- what the loop gives from an offset on: rows of the table, as many as are left
  abbrev Loaded : ℕ → ℕ → S → Type ℓ
  Loaded fuel offset s =
      (s' : S) × (rows : List Row) × (load_cache_from b fuel (pos offset) s ≡ some s')
      × (given s' ≡ given s ++ map to_domain rows)
      × AllIn table rows
      × (offset + length rows ≡ length table)

  joined :
      (page later : List Row) (before between after : List BusinessConfig)
      → between ≡ before ++ map to_domain page
      → after ≡ between ++ map to_domain later
      → after ≡ before ++ map to_domain (page ++ later)
  joined page later before between after h h' =
      h'
      ∙ ap (λ l. l ++ map to_domain later) h
      ∙ append_assoc before _ _
      ∙ ap (λ l. before ++ l) (sym (map-append to_domain page later))

  load_cache_from-Loaded :
      (fuel offset : ℕ) (s : S)
      → length table < 2 ^ 62
      → offset ≤ length table
      → length table < offset + 10 * fuel
      → Loaded fuel offset s
  unfolding load_cache_from
  load_cache_from-Loaded zero offset s small inside enough = absurd (omega arith)
  load_cache_from-Loaded (suc fuel) offset s small inside enough =
      let (page, found, (listed, size)) = paged.page offset 10 s inside in
      let (counted, now_given) = load_cache_batch-page offset s page found in
      let s1 = (load_cache_batch b (pos offset) page_limit s).1 in
      elim size [
        | inr (short, last) ↦ (
          s1,
          page,
          rw (counted, load_cache_from)
              (let e : ltb_ℤ (pos (length page)) page_limit ≡ true = ground arith in rw e refl),
          now_given,
          listed,
          last,
        )
        | inl (full, within) ↦
            let (s2, rows, ends, later, in_table, left) =
              load_cache_from-Loaded fuel (offset + 10) s1 small within (omega arith) in
            (
              s2,
              page ++ rows,
              rw (counted, load_cache_from)
                  (let e : ltb_ℤ (pos (length page)) page_limit ≡ false = ground arith in
                    rw (e, next_offset offset small inside) ends),
              joined page rows _ _ _ now_given later,
              AllIn-append table page rows listed in_table,
              omega (arith, length-append page rows, full, left),
            )
      ]

  -- LoadCache ends when its fuel is more than a tenth of the number of rows, which are fewer than
  -- 2^62, as long as the rows stay as they are and neither the database nor the cache fails, and has
  -- then given the local cache as many configurations as the table has rows, each of a row of the
  -- table. The order of the rows in two queries may differ, so that a row may be given twice.
  pub load_cache-given :
      (fuel : ℕ) (s : S)
      → length table < 2 ^ 62
      → length table < 10 * fuel
      → (s' : S) × (rows : List Row) × (load_cache b fuel s ≡ some s')
        × (given s' ≡ given s ++ map to_domain rows)
        × AllIn table rows
        × (length rows ≡ length table)
  unfolding load_cache
  load_cache-given fuel s small enough =
      let (s', rows, ends, all_given, in_table, count) =
        load_cache_from-Loaded fuel 0 s small (omega arith) (omega arith) in
      (s', rows, ends, all_given, in_table, omega (arith, count))

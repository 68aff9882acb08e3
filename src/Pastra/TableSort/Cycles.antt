-- ===== src/Pastra/TableSort/Cycles.antt =====
-- The destructor of `SortTableContainer`: each cycle of the permutation is closed by exchanges, and
-- every row ends where the permutation wants it.
use native.Mathlib.Decide.{dec_lt, ℕ_discrete}
use native.Mathlib.Nat.{zero-add}
use whais.Prelude.{
  ℕ, zero, suc, ◌+◌, ◌-◌, ◌≤◌, ◌<◌, ◌≡◌, ◌≢◌, refl, sym, ap, ◌∙◌, true, false, some, List, arith,
  length, get_or, set, get_or-set, length-set, ltb, ◌==◌, if◌then◌else◌,
}
use whais.Pastra.TableSort.{TableStore, Laws, close_cycle, commit}
use whais.Pastra.TableSort.Exchange.{
  other_row, other_row-other_row, other_row-injective, other_row-inside, Reordered,
  exchange_rows_lem,
}
use whais.Pastra.TableSort.Permutation.{unsettled, unsettled-le, unsettled-set, IsPermutation}

-- Where the row of place `i` stands while the cycle of `row` is open: its place is `current` now.
abbrev place : ℕ → ℕ → List ℕ → ℕ → ℕ
place row current rows i =
    if get_or rows i 0 == row then (if i == row then row else current) else get_or rows i 0

module _ {T V : Type 0} (s : TableStore T V) (w : Laws s) (t₀ : T) (target : ℕ → ℕ) where
  open s use {allocated_rows, fields_count, get_value}

  -- While a cycle is open: the rows found by `place` are the rows wanted.
  record Open (row current : ℕ) (t : T) (rows : List ℕ) : Type 0 where
    size : length rows ≡ allocated_rows t₀
    row_inside : row < allocated_rows t₀
    current_inside : current < allocated_rows t₀
    moved : get_or rows current 0 ≢ current
    bounded : (i : ℕ) → i < allocated_rows t₀ → get_or rows i 0 < allocated_rows t₀
    injective :
        (i j : ℕ)
        → i < allocated_rows t₀
        → j < allocated_rows t₀
        → place row current rows i ≡ place row current rows j
        → i ≡ j
    absent : (i : ℕ) → current ≢ row → i < allocated_rows t₀ → get_or rows i 0 ≢ current
    same_rows : allocated_rows t ≡ allocated_rows t₀
    same_fields : fields_count t ≡ fields_count t₀
    values :
        (i f : ℕ)
        → i < allocated_rows t₀
        → f < fields_count t₀
        → get_value t (place row current rows i) f ≡ get_value t₀ (target i) f

  -- Between the cycles: the permutation names the rows wanted.
  pub record Closed (t : T) (rows : List ℕ) : Type 0 where
    pub permutation : IsPermutation (allocated_rows t₀) rows
    pub same_rows : allocated_rows t ≡ allocated_rows t₀
    pub same_fields : fields_count t ≡ fields_count t₀
    pub values :
        (i f : ℕ)
        → i < allocated_rows t₀
        → f < fields_count t₀
        → get_value t (get_or rows i 0) f ≡ get_value t₀ (target i) f

  Closed-Open :
      {row : ℕ} {t : T} {rows : List ℕ}
      → Closed t rows
      → row < allocated_rows t₀
      → get_or rows row 0 ≢ row
      → Open row row t rows
  Closed-Open {row} {t} {rows} c h n = record {
    size = c.permutation.size;
    row_inside = h;
    current_inside = h;
    moved = n;
    bounded = c.permutation.bounded;
    injective = λ i j hi hj e. c.permutation.injective i j hi hj (ground (arith, e));
    absent = λ i ne hi. absurd (ne refl);
    same_rows = c.same_rows;
    same_fields = c.same_fields;
    values = λ i f hi hf.
        let e : place row row rows i ≡ get_or rows i 0 = ground arith in rw e (c.values i f hi hf);
  }

  module _ {row current : ℕ} {t : T} {rows : List ℕ} (v : Open row current t rows) where
    -- The row wanted at `current` is the one exchanged with it.
    place-step :
        (i : ℕ)
        → i < allocated_rows t₀
        → get_or rows current 0 ≢ row
        → place row (get_or rows current 0) (set rows current current) i
          ≡ other_row current (get_or rows current 0) (place row current rows i)
    place-step i hi n = ground (
      arith,
      get_or-set rows current i current 0,
      v.size,
      v.current_inside,
      v.moved,
      v.absent i,
      v.injective i current hi v.current_inside,
    )

    -- The last row of the cycle.
    place-last :
        (i : ℕ)
        → i < allocated_rows t₀
        → get_or rows current 0 ≡ row
        → get_or (set rows current current) i 0 ≡ place row current rows i
    place-last i hi e = ground (
      arith,
      get_or-set rows current i current 0,
      v.size,
      v.current_inside,
      v.moved,
      v.injective i current hi v.current_inside,
    )

    place-inside : (i : ℕ) → i < allocated_rows t₀ → place row current rows i < allocated_rows t₀
    place-inside i hi = ground (arith, v.bounded i, v.row_inside, v.current_inside)

    -- A row in its place stays there.
    settled-kept : (i : ℕ) → get_or rows i 0 ≡ i → get_or (set rows current current) i 0 ≡ i
    settled-kept i e = ground (arith, get_or-set rows current i current 0, v.size, v.current_inside)

    module _ (n : get_or rows current 0 ≢ row) {t' : T}
        (r : Reordered s w (other_row current (get_or rows current 0)) t t') where
      Open-step : Open row (get_or rows current 0) t' (set rows current current)
      Open-step = record {
        size = length-set rows current current ∙ v.size;
        row_inside = v.row_inside;
        current_inside = v.bounded current v.current_inside;
        moved = λ e. ground (
          arith,
          get_or-set rows current (get_or rows current 0) current 0,
          v.size,
          v.current_inside,
          v.moved,
          v.bounded current v.current_inside,
          v.injective (get_or rows current 0) current,
        );
        bounded = λ i hi.
            ground
              (arith, get_or-set rows current i current 0, v.size, v.current_inside, v.bounded i);
        injective = λ i j hi hj e. v.injective i j hi hj (
            other_row-injective current (get_or rows current 0) (place row current rows i)
              (place row current rows j) (sym (place-step i hi n) ∙ e ∙ place-step j hj n));
        absent = λ i _ hi e. ground (
          arith,
          get_or-set rows current i current 0,
          v.size,
          v.current_inside,
          v.moved,
          v.injective i current,
        );
        same_rows = r.rows ∙ v.same_rows;
        same_fields = r.fields ∙ v.same_fields;
        values = λ i f hi hf.
            let p : ℕ = place row current rows i in
            let q = place-inside i hi in
            let inside = other_row-inside current (get_or rows current 0) p (allocated_rows t₀) in
            ap (λ x. get_value t' x f) (place-step i hi n)
            ∙ r.values (other_row current (get_or rows current 0) p) f
                (omega (
                  arith,
                  v.same_rows,
                  inside q v.current_inside (v.bounded current v.current_inside),
                ))
                (omega (arith, v.same_fields))
            ∙ ap (λ x. get_value t x f) (other_row-other_row current (get_or rows current 0) p)
            ∙ v.values i f hi hf;
      }

    Open-last : get_or rows current 0 ≡ row → Closed t (set rows current current)
    Open-last e = record {
      permutation = record {
        size = length-set rows current current ∙ v.size;
        bounded = λ i hi. rw (place-last i hi e) (place-inside i hi);
        injective =
            λ i j hi hj h. v.injective i j hi hj (sym (place-last i hi e) ∙ h ∙ place-last j hj e);
      };
      same_rows = v.same_rows;
      same_fields = v.same_fields;
      values = λ i f hi hf. rw (place-last i hi e) (v.values i f hi hf);
    }

  -- The inner loop, with as many rounds as rows are out of their place: the cycle is closed.
  close_cycle_lem :
      (fuel row current : ℕ) (t : T) (rows : List ℕ)
      → unsettled 0 rows ≤ fuel
      → Open row current t rows
      → (t' : T) × (rows' : List ℕ) × (close_cycle s fuel row current t rows ≡ some (t', rows'))
        × Closed t' rows'
        × (unsettled 0 rows' < unsettled 0 rows)
        × ((i : ℕ) → get_or rows i 0 ≡ i → get_or rows' i 0 ≡ i)
  unfolding close_cycle
  close_cycle_lem zero row current t rows h v = absurd (
      omega (
        arith,
        unsettled-set 0 current rows (omega (arith, v.size, v.current_inside))
            (λ e. v.moved (e ∙ zero-add current)),
      ))
  close_cycle_lem (suc fuel) row current t rows h v =
      let fewer : unsettled 0 (set rows current current) + 1 ≡ unsettled 0 rows =
        rw (zero-add current) at (
          unsettled-set 0 current rows (omega (arith, v.size, v.current_inside))
            (λ e. v.moved (e ∙ zero-add current))) in
      elim (ℕ_discrete (get_or rows current 0) row) [
        | yes e ↦ (
          t,
          set rows current current,
          ground (arith, e),
          Open-last v e,
          omega arith,
          settled-kept v,
        )
        | no n ↦
            let (t', e, r) =
              exchange_rows_lem s w current (get_or rows current 0) t
                (omega (arith, v.same_rows, v.current_inside))
                (omega (arith, v.same_rows, v.bounded current v.current_inside)) in
            let (t₂, rows₂, e₂, c, less, kept) =
              close_cycle_lem fuel row (get_or rows current 0) t' (set rows current current)
                (omega arith) (Open-step v n r) in
            (
              t₂,
              rows₂,
              let f : (get_or rows current 0 == row) ≡ false = ground arith in rw (f, e) e₂,
              c,
              omega arith,
              λ i same. kept i (settled-kept v i same),
            )
      ]

  -- The whole destructor, from row `row` on, where the permutation names the rows wanted and has the
  -- rows below `row` in their place: within twice as many rounds as the table has rows it ends, and
  -- every row of the table is, in every field, the row wanted there.
  pub commit_lem :
      (fuel row : ℕ) (t : T) (rows : List ℕ)
      → allocated_rows t₀ - row + unsettled 0 rows < fuel
      → Closed t rows
      → ((i : ℕ) → i < row → get_or rows i 0 ≡ i)
      → (t' : T) × (commit s fuel row t rows ≡ some t') × Reordered s w target t₀ t'
  unfolding commit
  commit_lem zero row t rows h c settled = absurd (omega arith)
  commit_lem (suc fuel) row t rows h c settled = elim (dec_lt row (length rows)) [
    | no done ↦ (
      t,
      ground arith,
      record {
        rows = c.same_rows;
        fields = c.same_fields;
        values = λ i f hi hf.
            let e = settled i (omega (arith, c.permutation.size)) in
            ap (λ x. get_value t x f) (sym e) ∙ c.values i f hi hf;
      },
    )
    | yes more ↦ elim (ℕ_discrete (get_or rows row 0) row) [
      | yes e ↦
          let (t', e', r) =
            commit_lem fuel (row + 1) t rows (omega (arith, c.permutation.size)) c
              (λ i hi. ground (arith, settled i)) in
          (t', ground (arith, e, e'), r)
      | no n ↦
          let (t₂, rows₂, e₂, c₂, fewer, kept) =
            close_cycle_lem (length rows) row row t rows (unsettled-le 0 rows)
              (Closed-Open c (omega (arith, c.permutation.size)) n) in
          let (t', e', r) =
            commit_lem fuel row t₂ rows₂ (omega arith) c₂ (λ i hi. kept i (settled i hi)) in
          (
            t',
            let b : ltb row (length rows) ≡ true = ground arith in
                let f : (get_or rows row 0 == row) ≡ false = ground arith in rw (b, f, e₂) e',
            r,
          )
    ]
  ]

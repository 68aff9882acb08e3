-- ===== src/Pastra/TableSort/Exchange.antt =====
-- `ExchangeRows` field by field: two rows change places and the rest of the table stays.
use native.Mathlib.Decide.{ℕ_discrete}
use whais.Prelude.{
  ℕ, zero, suc, ◌+◌, ◌≤◌, ◌<◌, ◌≡◌, refl, ◌∙◌, ◌&&◌, some, arith, ltb, leb, ◌==◌, if◌then◌else◌,
}
use whais.Pastra.TableSort.{TableStore, Laws, table_exchange_rows, exchange_fields, exchange_rows}

-- Where the row of a place is found after two rows have changed places.
abbrev pub other_row : ℕ → ℕ → ℕ → ℕ
other_row row₁ row₂ row = if row == row₁ then row₂ else if row == row₂ then row₁ else row

pub other_row-other_row : (row₁ row₂ row : ℕ) → other_row row₁ row₂ (other_row row₁ row₂ row) ≡ row
other_row-other_row row₁ row₂ row = ground arith

pub other_row-injective :
    (row₁ row₂ i j : ℕ) → other_row row₁ row₂ i ≡ other_row row₁ row₂ j → i ≡ j
other_row-injective row₁ row₂ i j e = ground arith

pub other_row-inside :
    (row₁ row₂ row n : ℕ) → row < n → row₁ < n → row₂ < n → other_row row₁ row₂ row < n
other_row-inside row₁ row₂ row n h h₁ h₂ = ground arith

module _ {T V : Type 0} (s : TableStore T V) (w : Laws s) where
  open s use {allocated_rows, fields_count, get_value, set_value}

  -- The same rows and fields, and every value of a row taken from the row that `origin` names.
  pub record Reordered (origin : ℕ → ℕ) (t t' : T) : Type 0 where
    pub rows : allocated_rows t' ≡ allocated_rows t
    pub fields : fields_count t' ≡ fields_count t
    pub values :
        (row field : ℕ)
        → row < allocated_rows t
        → field < fields_count t
        → get_value t' row field ≡ get_value t (origin row) field

  module _ (row₁ row₂ : ℕ) where
    table_exchange_rows_rows :
        (field : ℕ) (t : T)
        → allocated_rows (table_exchange_rows s field row₁ row₂ t) ≡ allocated_rows t
    unfolding table_exchange_rows
    table_exchange_rows_rows field t = w.rows_kept _ _ _ _ ∙ w.rows_kept _ _ _ _

    table_exchange_rows_fields :
        (field : ℕ) (t : T)
        → fields_count (table_exchange_rows s field row₁ row₂ t) ≡ fields_count t
    unfolding table_exchange_rows
    table_exchange_rows_fields field t = w.fields_kept _ _ _ _ ∙ w.fields_kept _ _ _ _

    -- One field: the two rows change places there.
    table_exchange_rows_value :
        (field : ℕ) (t : T) (row f : ℕ)
        → row₁ < allocated_rows t
        → row₂ < allocated_rows t
        → field < fields_count t
        → get_value (table_exchange_rows s field row₁ row₂ t) row f
          ≡ (if f == field then get_value t (other_row row₁ row₂ row) f else get_value t row f)
    unfolding table_exchange_rows
    table_exchange_rows_value field t row f h₁ h₂ hf =
        let v₁ = get_value t row₁ field in
        let v₂ = get_value t row₂ field in
        let t' = set_value t row₁ field v₂ in
        ground (
          arith,
          w.get_set t row₁ field v₂ row f,
          w.get_set t' row₂ field v₁ row f,
          w.rows_kept t row₁ field v₂,
          w.fields_kept t row₁ field v₂,
        )

    -- After the fields from `field` on.
    exchange_fields_lem :
        (left field : ℕ) (t : T)
        → row₁ < allocated_rows t
        → row₂ < allocated_rows t
        → field + left ≤ fields_count t
        → (allocated_rows (exchange_fields s left field row₁ row₂ t) ≡ allocated_rows t)
          × (fields_count (exchange_fields s left field row₁ row₂ t) ≡ fields_count t)
          × ((row f : ℕ)
              → get_value (exchange_fields s left field row₁ row₂ t) row f ≡ (
                  if leb field f && ltb f (field + left)
                  then get_value t (other_row row₁ row₂ row) f
                  else get_value t row f))
    unfolding exchange_fields
    exchange_fields_lem zero field t h₁ h₂ hf = (refl, refl, λ row f. ground arith)
    exchange_fields_lem (suc left) field t h₁ h₂ hf =
        let t' = table_exchange_rows s field row₁ row₂ t in
        let rows = table_exchange_rows_rows field t in
        let fields = table_exchange_rows_fields field t in
        let (a, b, c) =
          exchange_fields_lem left (field + 1) t' (omega (arith, rows)) (omega (arith, rows))
            (omega (arith, fields)) in
        (
          a ∙ rows,
          b ∙ fields,
          λ row f. ground (
            arith,
            c row f,
            table_exchange_rows_value field t row f,
            table_exchange_rows_value field t (other_row row₁ row₂ row) f,
          ),
        )

    -- `ExchangeRows` of two rows of the table: they change places in every field.
    pub exchange_rows_lem :
        (t : T)
        → row₁ < allocated_rows t
        → row₂ < allocated_rows t
        → (t' : T) × (exchange_rows s row₁ row₂ t ≡ some t') × Reordered (other_row row₁ row₂) t t'
    unfolding exchange_rows
    exchange_rows_lem t h₁ h₂ = elim (ℕ_discrete row₁ row₂) [
      | yes same ↦ (
        t,
        ground arith,
        record {
          rows = refl;
          fields = refl;
          values = λ row f hr hf. let e : other_row row₁ row₂ row ≡ row = ground arith in rw e refl;
        },
      )
      | no apart ↦
          let (a, b, c) = exchange_fields_lem (fields_count t) 0 t h₁ h₂ (omega arith) in
          (
            exchange_fields s (fields_count t) 0 row₁ row₂ t,
            ground arith,
            record { rows = a; fields = b; values = λ row f hr hf. ground (arith, c row f) },
          )
    ]

-- ===== src/Pastra/BTree/Arrays.antt =====
-- The arrays of a node: an entry is moved in, or moved out.
use whais.Prelude.{
  ℕ, zero, suc, ◌+◌, ◌-◌, ◌*◌, ◌%◌, ◌^◌, ◌≤◌, ◌<◌, ◌≡◌, refl, ap, ◌∙◌, inl, inr, ◌&&◌, some, List,
  arith, length, length-set, get_or, get_or-set, set, ltb, leb, Bool-cases, if◌then◌else◌,
}
use whais.Pastra.BTree.{shift_up, make_array_room, shift_down, remove_array_elemes}

module _ {A : Type 0} (d : A) where
  -- From the last cell down to `from_pos`, which is not the first, every cell moves up.
  shift_up_lem :
      (fuel last_pos from_pos size : ℕ) (array : List A)
      → 0 < from_pos
      → 0 < size
      → from_pos ≤ last_pos + 1
      → last_pos + 2 - from_pos ≤ fuel
      → last_pos < 2 ^ 32
      → last_pos + size < length array
      → (array' : List A) × (shift_up d fuel last_pos from_pos size array ≡ some array')
        × (length array' ≡ length array)
        × ((j : ℕ)
            → get_or array' j d ≡ (
                if leb (from_pos + size) j && leb j (last_pos + size)
                then get_or array (j - size) d
                else get_or array j d))
  unfolding shift_up
  shift_up_lem zero last from size array hf hs h e w fits = absurd (omega arith)
  shift_up_lem (suc fuel) last from size array hf hs h e w fits =
      elim (Bool-cases (leb from last)) [
        | inr done ↦ (array, rw done refl, refl, λ j. ground arith)
        | inl more ↦
            let next = set array (last + size) (get_or array last d) in
            let down : (last + (2 ^ 32 - 1)) % 2 ^ 32 ≡ last - 1 = ground arith in
            let (array', e', l, g) =
              shift_up_lem fuel (last - 1) from size next hf hs (ground arith) (ground arith)
                (omega arith)
                (ground (arith, length-set array (last + size) (get_or array last d))) in
            (
              array',
              rw more (ap (λ p. shift_up d fuel p from size next) down ∙ e'),
              l ∙ length-set array (last + size) (get_or array last d),
              λ j. ground (
                arith,
                g j,
                get_or-set array (last + size) j (get_or array last d) d,
                get_or-set array (last + size) (j - size) (get_or array last d) d,
              ),
            )
      ]

  shift_down_lem :
      (left from_pos size : ℕ) (array : List A)
      → 0 < size
      → from_pos + left + size ≤ length array
      → (length (shift_down d left from_pos size array) ≡ length array)
        × ((j : ℕ)
            → get_or (shift_down d left from_pos size array) j d ≡ (
                if leb from_pos j && ltb j (from_pos + left)
                then get_or array (j + size) d
                else get_or array j d))
  unfolding shift_down
  shift_down_lem zero from size array hs h = (refl, λ j. ground arith)
  shift_down_lem (suc left) from size array hs h =
      let next = set array from (get_or array (from + size) d) in
      let (l, g) =
        shift_down_lem left (from + 1) size next hs
          (omega (arith, length-set array from (get_or array (from + size) d))) in
      (
        l ∙ length-set array from (get_or array (from + size) d),
        λ j. ground (
          arith,
          g j,
          get_or-set array from j (get_or array (from + size) d) d,
          get_or-set array from (j + size) (get_or array (from + size) d) d,
        ),
      )

  make_array_room_one :
      (fuel last from : ℕ) (array : List A)
      → make_array_room d fuel last from 1 array ≡ shift_up d fuel last from 1 array
  unfolding make_array_room
  make_array_room_one fuel last from array =
      let e : last * 1 + 1 - 1 ≡ last = omega arith in
      let e' : from * 1 ≡ from = omega arith in rw (e, e') refl

  remove_array_elemes_one :
      (last from : ℕ) (array : List A)
      → remove_array_elemes d last from 1 array ≡ shift_down d (last - from) from 1 array
  unfolding remove_array_elemes
  remove_array_elemes_one last from array =
      let e : last * 1 + 1 - 1 + 1 - (from * 1 + 1) ≡ last - from = omega arith in
      let e' : from * 1 ≡ from = omega arith in rw (e, e') refl

  -- An entry of one cell: the cells from `from` to `last` move up by one.
  pub make_array_room_lem :
      (fuel last from : ℕ) (array : List A)
      → 0 < from
      → from ≤ last + 1
      → last + 1 < length array
      → last < 2 ^ 32
      → last + 1 ≤ fuel
      → (array' : List A) × (make_array_room d fuel last from 1 array ≡ some array')
        × (length array' ≡ length array)
        × ((j : ℕ)
            → get_or array' j d ≡ (
                if ltb from j && leb j (last + 1)
                then get_or array (j - 1) d
                else get_or array j d))
  make_array_room_lem fuel last from array hf h fits w enough =
      let (array', r, l, g) =
        shift_up_lem fuel last from 1 array hf (omega arith) h (omega arith) w fits in
      (array', make_array_room_one fuel last from array ∙ r, l, λ j. ground (arith, g j))

  pub remove_array_elemes_lem :
      (last from : ℕ) (array : List A)
      → from ≤ last
      → last < length array
      → (length (remove_array_elemes d last from 1 array) ≡ length array)
        × ((j : ℕ)
            → get_or (remove_array_elemes d last from 1 array) j d
              ≡ (if leb from j && ltb j last then get_or array (j + 1) d else get_or array j d))
  remove_array_elemes_lem last from array h fits =
      let (l, g) = shift_down_lem (last - from) from 1 array (omega arith) (omega arith) in
      rw (remove_array_elemes_one last from array) (l, λ j. ground (arith, g j))

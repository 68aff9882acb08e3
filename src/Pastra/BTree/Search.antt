-- ===== src/Pastra/BTree/Search.antt =====
-- `IBTreeNode::FindBiggerOrEqual`: the last key that is not below the one looked for.
use native.Mathlib.Decide.{dec_lt}
use whais.Prelude.{
  ℕ, zero, suc, ◌+◌, ◌-◌, ◌/◌, ◌≤◌, ◌<◌, ◌≡◌, refl, ◌⊎◌, inl, inr, true, false, Option, none, some,
  arith, ltb, ◌==◌, Bool-cases,
}
use whais.Pastra.BTree.{
  Sign, minus, level, plus, Values, Key, BTreeNode, Found, missing, at, endless, bisect, chosen,
  find_bigger_or_equal, compare_with, get_key, compare_key, find_in_node,
}
use whais.Pastra.BTree.Keys.{
  key_less, key_less_asymm, not_key_less_trans, compare_with-minus, compare_with-plus,
  compare_with-level,
}

pub Sign-cases : (s : Sign) → (s ≡ minus) ⊎ ((s ≡ level) ⊎ (s ≡ plus))
Sign-cases minus = inl refl
Sign-cases level = inr (inl refl)
Sign-cases plus = inr (inr refl)

module _ {V : Type 0} (v : Values V) (n : BTreeNode V) where
  -- The keys of a node descend.
  abbrev pub IsDescending : Type 0
  IsDescending =
      (i j : ℕ) → i < j → j < n.keys_count → key_less v (get_key v n j) (get_key v n i) ≡ true

  -- What the search promises.
  abbrev pub IsLookup : Key V → Found → Type 0
  IsLookup key missing = (i : ℕ) → i < n.keys_count → key_less v (get_key v n i) key ≡ true
  IsLookup key (at r) =
      (r < n.keys_count)
      × (key_less v (get_key v n r) key ≡ false)
      × ((i : ℕ) → r < i → i < n.keys_count → key_less v (get_key v n i) key ≡ true)
  IsLookup key endless = ⊥

  module _ (key : Key V) (desc : IsDescending) where
    -- At `top` the key is not below the one looked for, past `bottom` it is.
    record Between (top bottom : ℕ) : Type 0 where
      ordered : top ≤ bottom
      inside : bottom < n.keys_count
      not_below : key_less v (get_key v n top) key ≡ false
      below : (i : ℕ) → bottom < i → i < n.keys_count → key_less v (get_key v n i) key ≡ true

    abbrev Narrowed : Option (ℕ × ℕ) → Type 0
    Narrowed none = ⊥
    Narrowed (some (top, bottom)) = Between top bottom × (bottom ≤ top + 1)

    -- A key not above the one looked for: all keys after it are below.
    below-after :
        (m : ℕ)
        → key_less v key (get_key v n m) ≡ false
        → (i : ℕ) → m < i
        → i < n.keys_count
        → key_less v (get_key v n i) key ≡ true
    below-after m h i hm hi =
        ground (arith, desc m i hm hi, not_key_less_trans v (get_key v n i) key (get_key v n m))

    -- With as many rounds as places between the two the ends meet.
    bisect_lem :
        (fuel top bottom : ℕ)
        → bottom < top + fuel
        → Between top bottom
        → Narrowed (bisect fuel (compare_key v n key) top bottom)
    unfolding bisect compare_key
    bisect_lem zero top bottom h b = absurd (omega (arith, b.ordered))
    bisect_lem (suc fuel) top bottom h b = elim (Bool-cases (ltb (top + 1) bottom)) [
      | inr done ↦ rw done (b, ground arith)
      | inl more ↦
          let median : ℕ = (bottom + top) / 2 in
          let over : top < median = ground arith in
          let under : median < bottom = ground arith in
          elim (Sign-cases (compare_with v key (get_key v n median))) [
            | inl e ↦
                rw (more, e)
                  (bisect_lem fuel median bottom (omega arith) record {
                    ordered = omega arith;
                    inside = b.inside;
                    not_below =
                        key_less_asymm v key (get_key v n median)
                          (compare_with-minus v key (get_key v n median) e);
                    below = b.below;
                  })
            | inr (inl e) ↦
                rw (more, e)
                  (bisect_lem fuel top median (omega arith) record {
                    ordered = omega arith;
                    inside = omega (arith, b.inside);
                    not_below = b.not_below;
                    below = below-after median (compare_with-level v key (get_key v n median) e).0;
                  })
            | inr (inr e) ↦
                rw (more, e)
                  (bisect_lem fuel top median (omega arith) record {
                    ordered = omega arith;
                    inside = omega (arith, b.inside);
                    not_below = b.not_below;
                    below = below-after median (
                        key_less_asymm v (get_key v n median) key
                          (compare_with-plus v key (get_key v n median) e));
                  })
          ]
    ]

    module _ (top bottom : ℕ) where
      abbrev ending : Found
      ending = chosen (compare_key v n key) (some (top, bottom))

      chosen-minus : compare_with v key (get_key v n bottom) ≡ minus → ending ≡ at bottom
      unfolding chosen compare_key
      chosen-minus e = rw (e, chosen) refl

      chosen-level : compare_with v key (get_key v n bottom) ≡ level → ending ≡ at bottom
      unfolding chosen compare_key
      chosen-level e = rw (e, chosen) refl

      chosen-plus : compare_with v key (get_key v n bottom) ≡ plus → ending ≡ at top
      unfolding chosen compare_key
      chosen-plus e = rw (e, chosen) refl

    chosen_lem : (r : Option (ℕ × ℕ)) → Narrowed r → IsLookup key (chosen (compare_key v n key) r)
    unfolding chosen
    chosen_lem none h = h
    chosen_lem (some (top, bottom)) (b, close) =
        elim (Sign-cases (compare_with v key (get_key v n bottom))) [
          | inl e ↦ rw (chosen-minus top bottom e) (
            b.inside,
            key_less_asymm v key (get_key v n bottom)
                (compare_with-minus v key (get_key v n bottom) e),
            b.below,
          )
          | inr (inl e) ↦
              rw (chosen-level top bottom e)
                (b.inside, (compare_with-level v key (get_key v n bottom) e).1, b.below)
          | inr (inr e) ↦ rw (chosen-plus top bottom e) (
            omega (arith, b.inside, b.ordered),
            b.not_below,
            λ i hi hn. elim (dec_lt bottom i) [
              | yes later ↦ b.below i later hn
              | no here ↦
                  let same : i ≡ bottom = omega arith in
                  rw same (compare_with-plus v key (get_key v n bottom) e)
            ],
          )
        ]

    first-Between :
        0 < n.keys_count
        → key_less v (get_key v n 0) key ≡ false
        → Narrowed (bisect n.keys_count (compare_key v n key) 0 (n.keys_count - 1))
    first-Between h e = bisect_lem n.keys_count 0 (n.keys_count - 1) (omega arith) record {
      ordered = omega arith;
      inside = omega arith;
      not_below = e;
      below = λ i hi hn. absurd (omega arith);
    }

    -- `FindBiggerOrEqual` in a node whose keys descend ends: it tells the last key that is not below
    -- the one looked for, or that every key of the node is below it.
    pub find_in_node_lem : IsLookup key (find_in_node v n key)
    unfolding find_in_node find_bigger_or_equal compare_key
    find_in_node_lem = elim (Bool-cases (n.keys_count == 0)) [
      | inl none_there ↦ rw none_there (λ i hi. absurd (ground arith))
      | inr some_there ↦
          let first = get_key v n 0 in
          elim (Sign-cases (compare_with v key first)) [
            | inl e ↦
                rw (some_there, e)
                  (chosen_lem _ (
                    first-Between (ground arith)
                      (key_less_asymm v key first (compare_with-minus v key first e))))
            | inr (inl e) ↦
                rw (some_there, e)
                  (chosen_lem _ (first-Between (ground arith) (compare_with-level v key first e).1))
            | inr (inr e) ↦
                rw (some_there, e)
                  (λ i hi. elim (dec_lt 0 i) [
                    | yes later ↦
                        below-after 0 (key_less_asymm v first key (compare_with-plus v key first e))
                          i later hi
                    | no here ↦
                        let same : i ≡ 0 = omega arith in rw same (compare_with-plus v key first e)
                  ])
          ]
    ]

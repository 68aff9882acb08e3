-- ===== src/Pastra/BTree/Keys.antt =====
-- The order of the keys: by value, and by row where the values are equal.
use whais.Prelude.{◌≡◌, refl, Bool, true, false, arith}
use whais.Utils.Sort.{Less}
use whais.Pastra.BTree.{Sign, minus, level, plus, Values, Key, compare_with}

abbrev is_minus : Sign → Bool
is_minus minus = true
is_minus level = false
is_minus plus = false

module _ {V : Type 0} (v : Values V) where
  open v use {order, equal, equal_iff, null, is_null, is_null_only, null_below}

  unfoldable pub key_less : Key V → Key V → Bool
  key_less a b = is_minus (compare_with v a b)

  pub key_less_asymm : (a b : Key V) → key_less a b ≡ true → key_less b a ≡ false
  unfolding key_less compare_with
  key_less_asymm a b h = ground (
    arith,
    equal_iff a.value b.value,
    equal_iff b.value a.value,
    order.asymm a.value b.value,
    order.asymm b.value a.value,
  )

  pub not_key_less_trans :
      (a b c : Key V) → key_less a b ≡ false → key_less b c ≡ false → key_less a c ≡ false
  unfolding key_less compare_with
  not_key_less_trans a b c h k = ground (
    arith,
    equal_iff a.value b.value,
    equal_iff b.value c.value,
    equal_iff a.value c.value,
    order.not_less_trans a.value b.value c.value,
    order.not_less_trans b.value c.value a.value,
    order.not_less_trans c.value a.value b.value,
    order.not_less_trans a.value c.value b.value,
    order.not_less_trans c.value b.value a.value,
    order.not_less_trans b.value a.value c.value,
    order.asymm a.value b.value,
    order.asymm b.value c.value,
    order.asymm a.value c.value,
  )

  -- `CompareWith` is a strict weak order of the keys.
  abbrev pub key_order : Less (Key V)
  key_order = record {
    less = key_less;
    asymm = key_less_asymm;
    not_less_trans = not_key_less_trans;
  }

  -- The three outcomes of `CompareWith`, by the order.
  pub compare_with-minus : (a b : Key V) → compare_with v a b ≡ minus → key_less a b ≡ true
  unfolding key_less
  compare_with-minus a b h = rw h refl

  pub compare_with-plus : (a b : Key V) → compare_with v a b ≡ plus → key_less b a ≡ true
  unfolding key_less compare_with
  compare_with-plus a b h =
      ground
        (arith, equal_iff a.value b.value, equal_iff b.value a.value, order.asymm a.value b.value)

  pub compare_with-level :
      (a b : Key V) → compare_with v a b ≡ level → (key_less a b ≡ false) × (key_less b a ≡ false)
  unfolding key_less compare_with
  compare_with-level a b h =
      ground
        (arith, equal_iff a.value b.value, equal_iff b.value a.value, order.asymm a.value b.value)

  -- A null key is below any other.
  pub key_less-null :
      (a b : Key V) → is_null a.value ≡ true → is_null b.value ≡ false → key_less a b ≡ true
  unfolding key_less compare_with
  key_less-null a b e f = rw (is_null_only a.value e) (rw (null_below b.value f) refl)

-- ===== src/Prelude/Arrays.antt =====
-- Lists as arrays with a value for what is out of range: exchanging two places, and rearranging a
-- range of places.
use mathlib.Core.List.{Perm}
use mathlib.Core.List.Perm
use Prim.Native.Nat.{ℕ, zero, suc, ◌≤◌, ◌<◌}
use mathlib.Core.Path.{◌≡◌, refl, sym, ◌∙◌}
use mathlib.Core.List.{List, [], ◌∷◌}
use native.Mathlib.Decide.{dec_lt}
use native.Mathlib.Omega.{arith}
use whais.Prelude.Tests.{◌==◌, if◌then◌else◌}
use whais.Prelude.Lists.{length, get_or, set, length-set, get_or-set}

module _ {A : Type 0} (d : A) where
  -- The values at two places change places.
  unfoldable pub exchange : List A → ℕ → ℕ → List A
  exchange c i j = set (set c i (get_or c j d)) j (get_or c i d)

  pub length-exchange : (c : List A) (i j : ℕ) → length (exchange c i j) ≡ length c
  unfolding exchange
  length-exchange c i j = simp length-set

  pub get_or-exchange :
      (c : List A) (i j k : ℕ)
      → i < length c
      → j < length c
      → get_or (exchange c i j) k d
        ≡ (if k == j then get_or c i d else if k == i then get_or c j d else get_or c k d)
  unfolding exchange
  get_or-exchange c i j k hi hj =
      rw (get_or-set (set c i (get_or c j d)) j k (get_or c i d) d (rw length-set hj))
        (rw (get_or-set c i k (get_or c j d) d hi))

  -- A write takes one value out and puts another in.
  set-Perm : (c : List A) (i : ℕ) (v : A) → i < length c → Perm (v ∷ c) (get_or c i d ∷ set c i v)
  set-Perm [] i v h = absurd (omega arith)
  set-Perm (x ∷ c) zero v h = Perm.swap x v c
  set-Perm (x ∷ c) (suc i) v h =
      Perm.trans (Perm.swap x v c)
        (Perm.trans (Perm.cons x (set-Perm c i v (omega arith))) (Perm.swap (get_or c i d) x _))

  pub exchange-Perm : (c : List A) (i j : ℕ) → i < length c → j < length c → Perm c (exchange c i j)
  unfolding exchange
  exchange-Perm c i j hi hj =
      let first = set-Perm c i (get_or c j d) hi in
      let second =
        set-Perm (set c i (get_or c j d)) j (get_or c i d)
          (omega (arith, length-set c i (get_or c j d))) in
      let same : get_or (set c i (get_or c j d)) j d ≡ get_or c j d =
        ground (arith, get_or-set c i j (get_or c j d) d) in
      Perm.cons_inv (Perm.trans first (Perm.trans second (Perm.cons' same Perm.rfl)))

  -- From `c` to `c'` the places `from` to `to` keep their values among themselves, and no other place
  -- changes.
  pub record Rearranged (from to : ℕ) (c c' : List A) : Type 0 where
    pub size : length c' ≡ length c
    pub perm : Perm c c'
    pub before : (i : ℕ) → i < from → get_or c' i d ≡ get_or c i d
    pub after : (i : ℕ) → to < i → get_or c' i d ≡ get_or c i d
    pub origin :
        (i : ℕ)
        → from ≤ i
        → i ≤ to
        → (k : ℕ) × (from ≤ k) × (k ≤ to) × (get_or c' i d ≡ get_or c k d)
    pub target :
        (i : ℕ)
        → from ≤ i
        → i ≤ to
        → (k : ℕ) × (from ≤ k) × (k ≤ to) × (get_or c i d ≡ get_or c' k d)

  pub Rearranged-refl : (from to : ℕ) (c : List A) → Rearranged from to c c
  Rearranged-refl from to c = record {
    size = refl;
    perm = Perm.rfl;
    before = λ i h. refl;
    after = λ i h. refl;
    origin = λ i h k. (i, h, k, refl);
    target = λ i h k. (i, h, k, refl);
  }

  pub Rearranged-trans :
      {from to : ℕ} {c c' c'' : List A}
      → Rearranged from to c c'
      → Rearranged from to c' c''
      → Rearranged from to c c''
  Rearranged-trans p q = record {
    size = q.size ∙ p.size;
    perm = Perm.trans p.perm q.perm;
    before = λ i h. q.before i h ∙ p.before i h;
    after = λ i h. q.after i h ∙ p.after i h;
    origin = λ i h k.
        let (m, m1, m2, e) = q.origin i h k in
        let (n, n1, n2, e') = p.origin m m1 m2 in (n, n1, n2, e ∙ e');
    target = λ i h k.
        let (m, m1, m2, e) = p.target i h k in
        let (n, n1, n2, e') = q.target m m1 m2 in (n, n1, n2, e ∙ e');
  }

  pub Rearranged-exchange :
      (from to i j : ℕ) (c : List A)
      → from ≤ i
      → i ≤ to
      → from ≤ j
      → j ≤ to
      → to < length c
      → Rearranged from to c (exchange c i j)
  Rearranged-exchange from to i j c hi ki hj kj h = record {
    size = length-exchange c i j;
    perm = exchange-Perm c i j (omega arith) (omega arith);
    before = λ k l. ground (arith, get_or-exchange c i j k);
    after = λ k l. ground (arith, get_or-exchange c i j k);
    origin =
        λ k l m. (other k, ground arith, ground arith, ground (arith, get_or-exchange c i j k));
    target = λ k l m.
        (other k, ground arith, ground arith, ground (arith, get_or-exchange c i j (other k)));
  }
    where
      other : ℕ → ℕ
      other k = if k == j then i else if k == i then j else k

  pub Rearranged-widen :
      {from to from' to' : ℕ} {c c' : List A}
      → from' ≤ from
      → to ≤ to'
      → Rearranged from to c c'
      → Rearranged from' to' c c'
  Rearranged-widen {from} {to} {from'} {to'} {c} {c'} hf ht r = record {
    size = r.size;
    perm = r.perm;
    before = λ i h. r.before i (omega arith);
    after = λ i h. r.after i (omega arith);
    origin = λ i h k. search_in c' c r.before r.after r.origin i h k;
    target = λ i h k.
        search_in c c' (λ j l. sym (r.before j l)) (λ j l. sym (r.after j l)) r.target i h k;
  }
    where
      search_in :
          (x y : List A)
          → ((i : ℕ) → i < from → get_or x i d ≡ get_or y i d)
          → ((i : ℕ) → to < i → get_or x i d ≡ get_or y i d)
          → ((i : ℕ)
              → from ≤ i
              → i ≤ to
              → (k : ℕ) × (from ≤ k) × (k ≤ to) × (get_or x i d ≡ get_or y k d))
          → (i : ℕ) → from' ≤ i
          → i ≤ to'
          → (k : ℕ) × (from' ≤ k) × (k ≤ to') × (get_or x i d ≡ get_or y k d)
      search_in x y below above inside i h k = elim (dec_lt i from) [
        | yes low ↦ (i, h, k, below i low)
        | no not_low ↦ elim (dec_lt to i) [
          | yes high ↦ (i, h, k, above i high)
          | no not_high ↦
              let (m, m1, m2, e) = inside i (omega arith) (omega arith) in
              (m, omega arith, omega arith, e)
        ]
      ]

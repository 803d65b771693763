-- ===== src/Base/Dict.antt =====
-- Python's `dict`: an association list in insertion order, its keys compared by `==`.
-- An assignment to a key that is there replaces its value in place; any other goes to the end.
use mathlib.Core.Path.{◌≡◌, refl}
use mathlib.Core.Bool.{Bool}
use mathlib.Core.Option.{Option, none, some}
use mathlib.Core.List.{List, [], ◌∷◌, map}
use native.Mathlib.Omega.{arith}
use mathlib.Core.Logic.{◌⊎◌, inl, inr, ◌≢◌}
use carcharoth.Base.Tests.{if◌then◌else◌, is_some, Bool-cases}
use carcharoth.Base.Eq.{Eq, ◌==◌, beq_self, eq_of_beq, beq_of_eq}

abbrev pub Dict {ℓ κ} : Type ℓ → Type κ → Type (ℓ ⊔ κ)
Dict K V = List (K × V)

module _ {ℓ κ} {K : Type ℓ} {V : Type κ} where
  -- `list(d)`, the keys in order
  abbrev pub keys : Dict K V → List K
  keys = map λ kv. kv.0

  -- `d.values()`
  abbrev pub values : Dict K V → List V
  values = map λ kv. kv.1

module _ {ℓ κ} {K : Type ℓ} {V : Type κ} ⦃e : Eq K⦄ where
  -- `d.get(k)`
  unfoldable pub get : Dict K V → K → Option V
  get [] k = none
  get ((j, v) ∷ d) k = if j == k then some v else get d k

  -- `k in d`
  abbrev pub contains : Dict K V → K → Bool
  contains d k = is_some (get d k)

  -- `d[k] = v`
  unfoldable pub put : Dict K V → K → V → Dict K V
  put [] k v = (k, v) ∷ []
  put ((j, w) ∷ d) k v = if j == k then (j, v) ∷ d else (j, w) ∷ put d k v

  -- `del d[k]` and `d.pop(k, None)`
  unfoldable pub remove : Dict K V → K → Dict K V
  remove [] k = []
  remove ((j, w) ∷ d) k = let rest = remove d k in if j == k then rest else (j, w) ∷ rest

  pub get-put :
      (d : Dict K V) (k j : K) (v : V) → get (put d k v) j ≡ (if k == j then some v else get d j)
  unfolding get put
  get-put [] k j v = refl
  get-put ((i, w) ∷ d) k j v = ground (
    arith,
    get-put d k j v,
    eq_of_beq i k,
    eq_of_beq i j,
    eq_of_beq k j,
    beq_of_eq i k,
    beq_of_eq i j,
    beq_of_eq k j,
  )

  pub get-remove :
      (d : Dict K V) (k j : K) → get (remove d k) j ≡ (if k == j then none else get d j)
  unfolding get remove
  get-remove [] k j = ground arith
  get-remove ((i, w) ∷ d) k j = ground (
    arith,
    get-remove d k j,
    eq_of_beq i k,
    eq_of_beq i j,
    eq_of_beq k j,
    beq_of_eq i k,
    beq_of_eq i j,
    beq_of_eq k j,
  )

  pub get-put_self : (d : Dict K V) (k : K) (v : V) → get (put d k v) k ≡ some v
  get-put_self d k v = rw (get-put, beq_self k)

  pub get-remove_self : (d : Dict K V) (k : K) → get (remove d k) k ≡ none
  get-remove_self d k = rw (get-remove, beq_self k)

  -- no key stands twice, as in every Python dict
  abbrev pub IsDict : Dict K V → Type κ
  IsDict [] = Unit
  IsDict ((k, v) ∷ d) = (get d k ≡ none) × IsDict d

  pub put-IsDict : (d : Dict K V) (k : K) (v : V) → IsDict d → IsDict (put d k v)
  unfolding put
  put-IsDict [] k v h = (unfold get in refl, tt)
  put-IsDict ((j, w) ∷ d) k v h = ground (
    arith,
    put-IsDict d k v h.1,
    get-put d k j v,
    beq_of_eq k j,
    eq_of_beq k j,
    eq_of_beq j k,
    beq_of_eq j k,
  )

  pub remove-IsDict : (d : Dict K V) (k : K) → IsDict d → IsDict (remove d k)
  unfolding remove
  remove-IsDict [] k h = tt
  remove-IsDict ((j, w) ∷ d) k h = ground (arith, remove-IsDict d k h.1, get-remove d k j)

  -- where a value that is found after an assignment comes from
  pub get-put_cases :
      (d : Dict K V) (k j : K) (v : V) {w : V}
      → get (put d k v) j ≡ some w
      → ((k ≡ j) × (v ≡ w)) ⊎ ((k ≢ j) × (get d j ≡ some w))
  get-put_cases d k j v h = elim (Bool-cases (k == j)) [
    | inl same ↦ inl (eq_of_beq k j same, ground (arith, get-put d k j v, same))
    | inr other ↦ inr ((λ e. cc (other, beq_of_eq k j e)), ground (arith, get-put d k j v, other))
  ]

  pub get-remove_cases :
      (d : Dict K V) (k j : K) {w : V} → get (remove d k) j ≡ some w → (k ≢ j) × (get d j ≡ some w)
  get-remove_cases d k j h = elim (Bool-cases (k == j)) [
    | inl same ↦ absurd (ground (arith, get-remove d k j, same))
    | inr other ↦ ((λ e. cc (other, beq_of_eq k j e)), ground (arith, get-remove d k j, other))
  ]

  pub get-put_ne : (d : Dict K V) (k j : K) (v : V) → k ≢ j → get (put d k v) j ≡ get d j
  get-put_ne d k j v h = ground (arith, get-put d k j v, eq_of_beq k j)

  pub get-remove_ne : (d : Dict K V) (k j : K) → k ≢ j → get (remove d k) j ≡ get d j
  get-remove_ne d k j h = ground (arith, get-remove d k j, eq_of_beq k j)

  -- the first entry of a dict, and the others
  pub get-cons_cases :
      (id j : K) (r s : V) (rest : Dict K V)
      → get ((id, r) ∷ rest) j ≡ some s
      → ((id ≡ j) × (r ≡ s)) ⊎ ((id ≢ j) × (get rest j ≡ some s))
  unfolding get
  get-cons_cases id j r s rest h = elim (Bool-cases (id == j)) [
    | inl same ↦ inl (eq_of_beq id j same, ground (arith, same))
    | inr other ↦ inr ((λ e. cc (other, beq_of_eq id j e)), ground (arith, other))
  ]

  pub get-cons_none :
      (id j : K) (r : V) (rest : Dict K V)
      → get ((id, r) ∷ rest) j ≡ none
      → (id ≢ j) × (get rest j ≡ none)
  unfolding get
  get-cons_none id j r rest h = ((λ e. ground (arith, beq_of_eq id j e)), ground (arith))

  pub get-cons_ne :
      (id j : K) (r : V) (rest : Dict K V) → id ≢ j → get ((id, r) ∷ rest) j ≡ get rest j
  unfolding get
  get-cons_ne id j r rest ne = ground (arith, eq_of_beq id j)

  pub get-cons_self : (id : K) (r : V) (rest : Dict K V) → get ((id, r) ∷ rest) id ≡ some r
  unfolding get
  get-cons_self id r rest = ground (arith, beq_of_eq id id refl)

  pub not-get-empty : (k : K) {v : V} → get [] k ≡ some v → ⊥
  unfolding get
  not-get-empty k h = cc

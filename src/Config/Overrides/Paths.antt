-- ===== src/Config/Overrides/Paths.antt =====
-- config/overrides.py: what an override changes.
use carcharoth.Base.{
  String, List, [], ◌∷◌, Bool, true, false, Option, none, some, arith, ◌≡◌, refl, sym, ◌∙◌, ap,
  subst, inl, inr, Bool-cases, Option-cases, if◌then◌else◌,
}
use carcharoth.Base.Eq.{◌==◌, string_eq, eq_of_beq, beq_of_eq, beq_self}
use carcharoth.Base.Result.{Result, ok, err, ◌>>=◌, >>=-eq-ok, ok-inj, is_ok}
use carcharoth.Config.Overrides.{Value, Entries, find, set_key, child_of, walk_to_parent, set_path}

-- neither path leads to the other
abbrev pub are_apart : List String → List String → Bool
are_apart [] q = false
are_apart (x ∷ p) [] = false
are_apart (x ∷ p) (y ∷ q) = let rest = are_apart p q in if x == y then rest else true

module _ {S : Type 0} where
  pub find-set_key :
      (entries : Entries S) (key other : String) (value : Value S)
      → find (set_key entries key value) other
        ≡ (if key == other then some value else find entries other)
  unfolding find set_key
  find-set_key Entries.nothing key other value = refl
  find-set_key (Entries.entry k old entries) key other value = ground (
    arith,
    find-set_key entries key other value,
    eq_of_beq k key,
    eq_of_beq k other,
    eq_of_beq key other,
    beq_of_eq k key,
    beq_of_eq k other,
    beq_of_eq key other,
  )

  abbrev then_in : Option (Value S) → (Value S → Option (Value S)) → Option (Value S)
  then_in none next = none
  then_in (some value) next = next value

  -- the value at a path
  unfoldable pub look_up : Value S → List String → Option (Value S)
  look_up value [] = some value
  look_up (Value.scalar s) (segment ∷ rest) = none
  look_up (Value.mapping entries) (segment ∷ rest) =
      then_in (find entries segment) (λ child. look_up child rest)

  pub child_of-eq-ok : (o : Option (Value S)) {v : Value S} → child_of o ≡ ok v → o ≡ some v
  child_of-eq-ok none h = cc
  child_of-eq-ok (some child) h = ap some (ok-inj h)

  -- a change below a segment
  look_up-set_key :
      (entries : Entries S) (segment other : String) (value : Value S) (rest : List String)
      → look_up (Value.mapping (set_key entries segment value)) (other ∷ rest) ≡ (
          if segment == other
          then look_up value rest
          else look_up (Value.mapping entries) (other ∷ rest))
  unfolding look_up
  look_up-set_key entries segment other value rest = elim (Bool-cases (segment == other)) [
    | inl same ↦ rw (find-set_key entries segment other value, same) refl
    | inr differs ↦ rw (find-set_key entries segment other value, differs) refl
  ]

  look_up-child :
      (entries : Entries S) (segment : String) (rest : List String) {child : Value S}
      → find entries segment ≡ some child
      → look_up (Value.mapping entries) (segment ∷ rest) ≡ look_up child rest
  unfolding look_up
  look_up-child entries segment rest found = rw found refl

  set_path-look_up :
      (raw : Value S) (path : List String) (value : Value S) {changed : Value S}
      → set_path raw path value ≡ ok changed
      → look_up changed path ≡ some value
  unfolding set_path look_up
  set_path-look_up (Value.scalar s) path value h = cc
  set_path-look_up (Value.mapping entries) [] value h = cc
  set_path-look_up (Value.mapping entries) (leaf ∷ []) value h =
      subst (λ c. look_up c (leaf ∷ []) ≡ some value) (ok-inj h)
        (look_up-set_key entries leaf leaf value []
          ∙ ap (λ b. if b then some value else look_up (Value.mapping entries) (leaf ∷ []))
              (beq_self leaf))
  set_path-look_up (Value.mapping entries) (segment ∷ next ∷ rest) value h =
      let (child, found, inner) = >>=-eq-ok (child_of (find entries segment)) _ h in
      let (below, changes, last) = >>=-eq-ok (set_path child (next ∷ rest) value) _ inner in
      subst (λ c. look_up c (segment ∷ next ∷ rest) ≡ some value) (ok-inj last)
        (look_up-set_key entries segment segment below (next ∷ rest)
          ∙ (ap
                (λ b.
                  if b
                  then look_up below (next ∷ rest)
                  else look_up (Value.mapping entries) (segment ∷ next ∷ rest))
                (beq_self segment)
              ∙ set_path-look_up child (next ∷ rest) value changes))

  set_path-apart_lem :
      (raw : Value S) (path : List String) (value : Value S) (other : List String)
      {changed : Value S}
      → set_path raw path value ≡ ok changed
      → are_apart path other ≡ true
      → look_up changed other ≡ look_up raw other
  unfolding set_path
  set_path-apart_lem (Value.scalar s) path value other h apart = cc
  set_path-apart_lem (Value.mapping entries) [] value other h apart = cc
  set_path-apart_lem (Value.mapping entries) (leaf ∷ path) value [] h apart = cc
  set_path-apart_lem (Value.mapping entries) (leaf ∷ []) value (y ∷ other) h apart =
      elim (Bool-cases (leaf == y)) [
        | inl same ↦ absurd (ground (arith, apart, same))
        | inr differs ↦
            subst (λ c. look_up c (y ∷ other) ≡ look_up (Value.mapping entries) (y ∷ other))
              (ok-inj h)
              (look_up-set_key entries leaf y value other
                ∙ ap
                    (λ b.
                      if b
                      then look_up value other
                      else look_up (Value.mapping entries) (y ∷ other))
                    differs)
      ]
  set_path-apart_lem (Value.mapping entries) (segment ∷ next ∷ rest) value (y ∷ other) h apart =
      let (child, found, inner) = >>=-eq-ok (child_of (find entries segment)) _ h in
      let (below, changes, last) = >>=-eq-ok (set_path child (next ∷ rest) value) _ inner in
      let after = look_up-set_key entries segment y below other in
      let choice = λ (b : Bool).
        if b then look_up below other else look_up (Value.mapping entries) (y ∷ other) in
      subst (λ c. look_up c (y ∷ other) ≡ look_up (Value.mapping entries) (y ∷ other)) (ok-inj last)
        (elim (Bool-cases (segment == y)) [
          | inr differs ↦ after ∙ ap choice differs
          | inl same ↦
              let there : find entries y ≡ some child =
                ap (find entries) (sym (eq_of_beq segment y same))
                ∙ child_of-eq-ok (find entries segment) found in
              after
              ∙ (ap choice same
                  ∙ (set_path-apart_lem child (next ∷ rest) value other changes
                        (ground (arith, apart, same))
                      ∙ sym (look_up-child entries y other there)))
        ])

  -- An override sets just what its path names: where it succeeds, the value at its path is the new
  -- one, and the value at any other path, none of the two leading to the other, is what it was.
  pub set_path-look_up_apart :
      (raw : Value S) (path other : List String) (value : Value S) {changed : Value S}
      → set_path raw path value ≡ ok changed
      → are_apart path other ≡ true
      → (look_up changed path ≡ some value) × (look_up changed other ≡ look_up raw other)
  set_path-look_up_apart raw path other value h apart =
      (set_path-look_up raw path value h, set_path-apart_lem raw path value other h apart)

  is_ok-then :
      (r : Result (Value S)) (f : Value S → Value S) → is_ok r ≡ is_ok (r >>= λ c. ok (f c))
  is_ok-then (err e) f = refl
  is_ok-then (ok c) f = refl

  -- The check before the trials and the application of an override agree: for any path that is not
  -- empty the one succeeds exactly when the other does, whatever the value is.
  pub walk_to_parent-set_path :
      (raw : Value S) (segment : String) (rest : List String) (value : Value S)
      → is_ok (walk_to_parent raw (segment ∷ rest)) ≡ is_ok (set_path raw (segment ∷ rest) value)
  unfolding walk_to_parent set_path
  walk_to_parent-set_path (Value.scalar s) segment rest value = refl
  walk_to_parent-set_path (Value.mapping entries) segment [] value = refl
  walk_to_parent-set_path (Value.mapping entries) segment (next ∷ rest) value =
      elim (Option-cases (find entries segment)) [
        | inl absent ↦ rw absent refl
        | inr (child, found) ↦ rw found (
            walk_to_parent-set_path child next rest value
            ∙ is_ok-then (set_path child (next ∷ rest) value)
                (λ c. Value.mapping (set_key entries segment c)))
      ]

-- ===== src/Config/Overrides/Checked.antt =====
-- config/overrides.py: the check of the paths before the trials and the overrides of a trial.
use carcharoth.Base.{
  String, List, [], ◌∷◌, Bool, true, false, ◌&&◌, some, arith, ◌≡◌, refl, sym, ◌∙◌, ap, subst, inl,
  inr, Bool-cases, if◌then◌else◌,
}
use carcharoth.Base.Eq.{◌==◌, string_eq, eq_of_beq}
use carcharoth.Base.Result.{Result, ok, err, ◌>>=◌, >>=-eq-ok, ok-inj, is_ok, value_of}
use carcharoth.Config.Overrides.{
  Value, Entries, find, set_key, child_of, walk_to_parent, set_path, apply_overrides,
  validate_override_paths,
}
use carcharoth.Config.Overrides.Paths.{
  are_apart, find-set_key, child_of-eq-ok, walk_to_parent-set_path,
}

-- a path has a segment
abbrev pub is_path : List String → Bool
is_path [] = false
is_path (x ∷ p) = true

is_ok-first :
    {A B : Type 0} (r : Result A) (next : Result B)
    → is_ok (r >>= λ _. next) ≡ (is_ok r && is_ok next)
is_ok-first (err e) next = refl
is_ok-first (ok a) next = refl

and_parts : (a b : Bool) → a && b ≡ true → (a ≡ true) × (b ≡ true)
and_parts true b h = (refl, h)
and_parts false b h = cc

module _ {S : Type 0} where
  abbrev pub is_apart_from : List String → List (List String × Value S) → Bool
  is_apart_from path [] = true
  is_apart_from path ((other, value) ∷ rest) = are_apart path other && is_apart_from path rest

  -- paths with a segment each, of which none leads to another
  abbrev pub are_separate : List (List String × Value S) → Bool
  are_separate [] = true
  are_separate ((path, value) ∷ rest) =
      is_path path && (is_apart_from path rest && are_separate rest)

  abbrev pub paths_of : List (List String × Value S) → List (List String)
  paths_of [] = []
  paths_of ((path, value) ∷ rest) = path ∷ paths_of rest

  walk-set_key :
      (entries : Entries S) (segment other next : String) (value : Value S) (rest : List String)
      → is_ok (walk_to_parent (Value.mapping (set_key entries segment value)) (other ∷ next ∷ rest))
        ≡ (if segment == other
            then is_ok (walk_to_parent value (next ∷ rest))
            else is_ok (walk_to_parent (Value.mapping entries) (other ∷ next ∷ rest)))
  unfolding walk_to_parent
  walk-set_key entries segment other next value rest = elim (Bool-cases (segment == other)) [
    | inl same ↦ rw (find-set_key entries segment other value, same) refl
    | inr differs ↦ rw (find-set_key entries segment other value, differs) refl
  ]

  walk-child :
      (entries : Entries S) (segment next : String) (rest : List String) {child : Value S}
      → find entries segment ≡ some child
      → is_ok (walk_to_parent (Value.mapping entries) (segment ∷ next ∷ rest))
        ≡ is_ok (walk_to_parent child (next ∷ rest))
  unfolding walk_to_parent
  walk-child entries segment next rest found = rw found refl

  walk_single :
      (entries : Entries S) (leaf : String)
      → is_ok (walk_to_parent (Value.mapping entries) (leaf ∷ [])) ≡ true
  unfolding walk_to_parent
  walk_single entries leaf = refl

  -- an override leaves the parents of the paths that are apart from its own
  walk-set_path_apart :
      (raw : Value S) (path : List String) (value : Value S) (other : List String)
      {changed : Value S}
      → set_path raw path value ≡ ok changed
      → are_apart path other ≡ true
      → is_ok (walk_to_parent changed other) ≡ is_ok (walk_to_parent raw other)
  unfolding set_path
  walk-set_path_apart (Value.scalar s) path value other h apart = cc
  walk-set_path_apart (Value.mapping entries) [] value other h apart = cc
  walk-set_path_apart (Value.mapping entries) (leaf ∷ path) value [] h apart = cc
  walk-set_path_apart (Value.mapping entries) (leaf ∷ []) value (y ∷ []) h apart =
      subst
        (λ c.
          is_ok (walk_to_parent c (y ∷ []))
          ≡ is_ok (walk_to_parent (Value.mapping entries) (y ∷ [])))
        (ok-inj h) (walk_single (set_key entries leaf value) y ∙ sym (walk_single entries y))
  walk-set_path_apart (Value.mapping entries) (leaf ∷ []) value (y ∷ z ∷ other) h apart =
      elim (Bool-cases (leaf == y)) [
        | inl same ↦ absurd (ground (arith, apart, same))
        | inr differs ↦
            subst
              (λ c.
                is_ok (walk_to_parent c (y ∷ z ∷ other))
                ≡ is_ok (walk_to_parent (Value.mapping entries) (y ∷ z ∷ other)))
              (ok-inj h)
              (walk-set_key entries leaf y z value other
                ∙ ap
                    (λ b.
                      if b
                      then is_ok (walk_to_parent value (z ∷ other))
                      else is_ok (walk_to_parent (Value.mapping entries) (y ∷ z ∷ other)))
                    differs)
      ]
  walk-set_path_apart (Value.mapping entries) (segment ∷ next ∷ rest) value (y ∷ []) h apart =
      let (child, found, inner) = >>=-eq-ok (child_of (find entries segment)) _ h in
      let (below, changes, last) = >>=-eq-ok (set_path child (next ∷ rest) value) _ inner in
      subst
        (λ c.
          is_ok (walk_to_parent c (y ∷ []))
          ≡ is_ok (walk_to_parent (Value.mapping entries) (y ∷ [])))
        (ok-inj last) (walk_single (set_key entries segment below) y ∙ sym (walk_single entries y))
  walk-set_path_apart (Value.mapping entries) (segment ∷ next ∷ rest) value (y ∷ z ∷ other) h
        apart =
      let (child, found, inner) = >>=-eq-ok (child_of (find entries segment)) _ h in
      let (below, changes, last) = >>=-eq-ok (set_path child (next ∷ rest) value) _ inner in
      let after = walk-set_key entries segment y z below other in
      let choice = λ (b : Bool).
        if b
        then is_ok (walk_to_parent below (z ∷ other))
        else is_ok (walk_to_parent (Value.mapping entries) (y ∷ z ∷ other)) in
      subst
        (λ c.
          is_ok (walk_to_parent c (y ∷ z ∷ other))
          ≡ is_ok (walk_to_parent (Value.mapping entries) (y ∷ z ∷ other)))
        (ok-inj last)
        (elim (Bool-cases (segment == y)) [
          | inr differs ↦ after ∙ ap choice differs
          | inl same ↦
              let there : find entries y ≡ some child =
                ap (find entries) (sym (eq_of_beq segment y same))
                ∙ child_of-eq-ok (find entries segment) found in
              after
              ∙ (ap choice same
                  ∙ (walk-set_path_apart child (next ∷ rest) value (z ∷ other) changes
                        (ground (arith, apart, same))
                      ∙ sym (walk-child entries y z other there)))
        ])

  validate-cons :
      (raw : Value S) (path : List String) (paths : List (List String))
      → is_ok (validate_override_paths raw (path ∷ paths))
        ≡ is_ok (walk_to_parent raw path) && is_ok (validate_override_paths raw paths)
  unfolding validate_override_paths
  validate-cons raw path paths =
      is_ok-first (walk_to_parent raw path) (validate_override_paths raw paths)

  validate-kept :
      (raw changed : Value S) (path : List String) (value : Value S)
      (rest : List (List String × Value S))
      → set_path raw path value ≡ ok changed
      → is_apart_from path rest ≡ true
      → is_ok (validate_override_paths changed (paths_of rest))
        ≡ is_ok (validate_override_paths raw (paths_of rest))
  unfolding validate_override_paths
  validate-kept raw changed path value [] h apart = refl
  validate-kept raw changed path value ((other, x) ∷ rest) h apart =
      let (here, later) = and_parts (are_apart path other) (is_apart_from path rest) apart in
      validate-cons changed other (paths_of rest)
      ∙ (ap (λ b. b && is_ok (validate_override_paths changed (paths_of rest)))
            (walk-set_path_apart raw path value other h here)
          ∙ (ap (λ b. is_ok (walk_to_parent raw other) && b)
                (validate-kept raw changed path value rest h later)
              ∙ sym (validate-cons raw other (paths_of rest))))

  set_path_accepted :
      (raw : Value S) (path : List String) (value : Value S)
      → is_path path ≡ true
      → is_ok (walk_to_parent raw path) ≡ true
      → is_ok (set_path raw path value) ≡ true
  set_path_accepted raw [] value nonempty walks = cc
  set_path_accepted raw (segment ∷ rest) value nonempty walks =
      sym (walk_to_parent-set_path raw segment rest value) ∙ walks

  -- The check before the trials is enough: if it accepts the paths of some overrides, which have a
  -- segment each and of which none leads to another, then those overrides are applied without an
  -- error, whatever their values are.
  pub validate_override_paths-apply_overrides :
      (raw : Value S) (overrides : List (List String × Value S))
      → are_separate overrides ≡ true
      → is_ok (validate_override_paths raw (paths_of overrides)) ≡ true
      → is_ok (apply_overrides raw overrides) ≡ true
  unfolding apply_overrides
  validate_override_paths-apply_overrides raw [] separate valid = refl
  validate_override_paths-apply_overrides raw ((path, value) ∷ rest) separate valid =
      let (nonempty, others) = and_parts (is_path path) _ separate in
      let (apart, later) = and_parts (is_apart_from path rest) (are_separate rest) others in
      let (walks, remaining) =
        and_parts (is_ok (walk_to_parent raw path)) _
          (sym (validate-cons raw path (paths_of rest)) ∙ valid) in
      let (changed, sets) =
        value_of (set_path raw path value) (set_path_accepted raw path value nonempty walks) in
      rw sets (
        validate_override_paths-apply_overrides changed rest later
          (validate-kept raw changed path value rest sets apart ∙ remaining))

-- ===== src/Signal/Entries.antt =====
-- modeling/signal_generator.py: when the generator asks for a new exposure.
use carcharoth.Base.{
  String, List, [], true, false, Option, none, some, or_else, last?, arith, ◌≡◌, ◌≢◌, inl, inr,
  refl, sym, subst, ap, ◌∙◌, Bool-cases, false≢true, if◌then◌else◌,
}
use carcharoth.Base.Eq.{string_eq}
use carcharoth.Base.Float.{Float}
use carcharoth.Base.Format.{Format}
use carcharoth.Base.Dict.{get, put}
use carcharoth.Base.Result.{Result, ok, err, >>=-eq-ok, ok-inj}
use carcharoth.Domain.{
  Time, Bar, MarketSnapshot, Position, FeatureVector, ExposureIntent, current_exposure,
}
use carcharoth.Session.{MarketZone, minutes_since_open, minutes_until_close}
use carcharoth.Decision.{entries_allowed, is_directional, decide_at_timestamp}
use carcharoth.Decision.Safety.{decide_opens_nothing}
use carcharoth.Signal.{
  Model, Generator, unchanged, flatten, predicted, attempted, latest_features, predict_and_decide,
  intent_or_unchanged, from_features, evaluate, generate_at, must_flatten, safety_time, generate,
}

module _ {F W : Type 0} ⦃num : Float F⦄ ⦃fmt : Format F⦄ ⦃zone : MarketZone⦄
    (model : Model F W) where
  -- the policy lets new positions be opened at `t`
  abbrev pub Opens : Time → Type 0
  Opens t = entries_allowed model.decision (minutes_since_open t) (minutes_until_close t) ≡ true

  -- the intent asks for an exposure that is not held
  pub record IsEntry (position : Option (Position F)) (intent : ExposureIntent F) : Type 0 where
    pub directional : is_directional intent.target ≡ true
    pub new : intent.target ≢ current_exposure position

  unchanged-not-entry :
      (symbol : String) (t : Time) (reason : String) (position : Option (Position F))
      → IsEntry position (unchanged model symbol t reason)
      → Opens t
  unfolding unchanged
  unchanged-not-entry symbol t reason position entry = absurd (false≢true entry.directional)

  predict_and_decide-Opens :
      (symbol : String) (vector : FeatureVector F) (position : Option (Position F)) (t : Time)
      (intent : ExposureIntent F)
      → predict_and_decide model symbol vector position t ≡ ok intent
      → IsEntry position intent
      → Opens t
  unfolding predict_and_decide decide_at_timestamp predicted
  predict_and_decide-Opens symbol vector position t intent e entry =
      let (prediction, ep, rest) = >>=-eq-ok (model.predict vector) _ e in
      let ((target, reason), ed, last) =
        >>=-eq-ok (decide_at_timestamp model.decision prediction position t) _ rest in
      let same : target ≡ intent.target = ground (arith, last) in
      elim (Bool-cases
        (entries_allowed model.decision (minutes_since_open t) (minutes_until_close t))) [
          | inl allowed ↦ allowed
          | inr blocked ↦ absurd (
              entry.new (
                sym same
                ∙ decide_opens_nothing model.decision prediction position (minutes_since_open t)
                    (minutes_until_close t) target reason blocked ed
                    (ap is_directional same ∙ entry.directional)))
        ]

  from_features-Opens :
      (symbol : String) (position : Option (Position F)) (t : Time)
      (features : Option (FeatureVector F))
      → IsEntry position (from_features model symbol position t features)
      → Opens t
  unfolding from_features intent_or_unchanged
  from_features-Opens symbol position t none entry = unchanged-not-entry symbol t _ position entry
  from_features-Opens symbol position t (some vector) entry =
      go (predict_and_decide model symbol vector position t) refl entry
    where
      go :
          (r : Result (ExposureIntent F))
          → predict_and_decide model symbol vector position t ≡ r
          → IsEntry position (intent_or_unchanged model symbol t r)
          → Opens t
      go (ok intent) e entry' = predict_and_decide-Opens symbol vector position t intent e entry'
      go (err x) e entry' = unchanged-not-entry symbol t _ position entry'

  evaluate-Opens :
      (symbol : String) (snapshot : MarketSnapshot F) (position : Option (Position F))
      (bars : List (Bar F)) (t : Time) (g : Generator F W) (intent : ExposureIntent F)
      → (evaluate model symbol snapshot position bars t g).0 ≡ ok intent
      → IsEntry position intent
      → Opens t
  unfolding evaluate
  evaluate-Opens symbol snapshot position bars t g intent e entry =
      let marked : Generator F W = record g { last_attempt = put g.last_attempt symbol t } in
      let (features, ef, last) =
        >>=-eq-ok (latest_features model symbol snapshot bars t marked).0 _ e in
      from_features-Opens symbol position t features
        (subst (IsEntry position) (sym (ok-inj last)) entry)

  -- the answer of the guards, which is no entry
  guard-Opens :
      (t : Time) (position : Option (Position F)) (answer intent : ExposureIntent F)
      → is_directional answer.target ≡ false
      → ok answer ≡ ok intent
      → IsEntry position intent
      → Opens t
  guard-Opens t position answer intent quiet e entry =
      absurd
        (false≢true (sym quiet ∙ ap (λ i. is_directional i.target) (ok-inj e) ∙ entry.directional))

  generate_at-Opens :
      (symbol : String) (snapshot : MarketSnapshot F) (position : Option (Position F))
      (bars : List (Bar F)) (latest : Option (Bar F)) (g : Generator F W)
      (intent : ExposureIntent F)
      → (generate_at model symbol snapshot position bars latest g).0 ≡ ok intent
      → IsEntry position intent
      → Opens (safety_time model snapshot latest)
  unfolding generate_at safety_time unchanged
  generate_at-Opens symbol snapshot position bars none g intent e entry =
      guard-Opens snapshot.as_of position _ intent refl e entry
  generate_at-Opens symbol snapshot position bars (some bar) g intent e entry =
      elim (Bool-cases (attempted g symbol bar.timestamp)) [
        | inl old ↦
            guard-Opens bar.timestamp position
              (unchanged model symbol bar.timestamp "bar already evaluated") intent refl
              (subst
                (λ b.
                  (if b
                    then (ok (unchanged model symbol bar.timestamp "bar already evaluated"), g)
                    else evaluate model symbol snapshot position bars bar.timestamp g).0
                  ≡ ok intent)
                old e)
              entry
        | inr new ↦
            evaluate-Opens symbol snapshot position bars bar.timestamp g intent
              (subst
                (λ b.
                  (if b
                    then (ok (unchanged model symbol bar.timestamp "bar already evaluated"), g)
                    else evaluate model symbol snapshot position bars bar.timestamp g).0
                  ≡ ok intent)
                new e)
              entry
      ]

  -- The generator asks for a long or a short exposure that is not held only at a time (that of the
  -- latest bar, or of the snapshot where there is none) at which the policy lets positions be opened:
  -- long enough after the open and before the close.
  pub generate-Opens :
      (symbol : String) (snapshot : MarketSnapshot F) (position : Option (Position F))
      (g : Generator F W) (intent : ExposureIntent F)
      → (generate model symbol snapshot position g).0 ≡ ok intent
      → IsEntry position intent
      → Opens (safety_time model snapshot (last? (or_else (get snapshot.bars symbol) [])))
  unfolding generate flatten
  generate-Opens symbol snapshot position g intent e entry =
      let bars = or_else (get snapshot.bars symbol) [] in
      let time = safety_time model snapshot (last? bars) in
      elim (Bool-cases (must_flatten model position time)) [
        | inl late ↦
            guard-Opens time position (flatten model symbol time) intent refl
              (subst
                (λ b.
                  (if b
                    then (ok (flatten model symbol time), g)
                    else generate_at model symbol snapshot position bars (last? bars) g).0
                  ≡ ok intent)
                late e)
              entry
        | inr early ↦
            generate_at-Opens symbol snapshot position bars (last? bars) g intent
              (subst
                (λ b.
                  (if b
                    then (ok (flatten model symbol time), g)
                    else generate_at model symbol snapshot position bars (last? bars) g).0
                  ≡ ok intent)
                early e)
              entry
      ]

-- ===== src/Engine/Submits.antt =====
-- engine/engine.py: when the engine submits an order, and which one.
use carcharoth.Base.{
  String, List, [], ◌∷◌, Bool, true, false, Option, none, some, arith, ◌≡◌, ◌⊎◌, inl, inr, ◌∙◌,
  refl, if◌then◌else◌,
}
use carcharoth.Base.Eq.{string_eq}
use carcharoth.Base.Result.{Result, ok, err}
use carcharoth.Domain.{OrderRequest, OrderResult, OpenOrder, Side, RiskDecision}
use carcharoth.Engine.Effects.{Call, World, Exec, call, pure, continue, ◌>>=◌, handle, try}
use carcharoth.Engine.Services.{Services}
use carcharoth.Engine.Tick.{
  is_conflict, submit_or_skip, save_outcome, send_order, place_order, cancel_opposite,
  after_listing, clear_conflicting_orders, execute_side, execute_approved, execute_decision,
}
use carcharoth.Engine.Quiet.{submits, Quiet, Quiet-call, Quiet-bind, Quiet-cancel_opposite}

module _ {F W : Type 0} where
  -- at most one order beyond those of `before`, and that one has `J`
  abbrev pub AtMostOne : (OrderRequest F → Type 0) → World F W → World F W → Type 0
  AtMostOne J before after =
      (submits after.calls ≡ submits before.calls)
      ⊎ ((q : OrderRequest F) × (submits after.calls ≡ q ∷ submits before.calls) × J q)

  pub Quiet-first :
      {A : Type 0} (J : OrderRequest F → Type 0) (m : Exec F W A) (f : A → Exec F W (Unit {0}))
      (w : World F W)
      → Quiet m
      → ((a : A) → (m w).0 ≡ ok a → AtMostOne J (m w).1 (f a (m w).1).1)
      → AtMostOne J w ((m >>= f) w).1
  Quiet-first {A} J m f w quiet rest = go (m w).0 rest
    where
      go :
          (r : Result A)
          → ((a : A) → r ≡ ok a → AtMostOne J (m w).1 (f a (m w).1).1)
          → AtMostOne J w (continue r f (m w).1).1
      go (ok a) h = elim (h a refl) [
        | inl same ↦ inl (same ∙ quiet w)
        | inr (q, more, j) ↦ inr (q, cc (more, quiet w), j)
      ]
      go (err e) h = inl (quiet w)

  loud_first :
      {A : Type 0} (m : Exec F W A) (f : A → Exec F W (Unit {0})) (q : OrderRequest F)
      (w : World F W)
      → submits (m w).1.calls ≡ q ∷ submits w.calls
      → ((a : A) → Quiet (f a))
      → submits ((m >>= f) w).1.calls ≡ q ∷ submits w.calls
  loud_first {A} m f q w loud rest = go (m w).0
    where
      go : (r : Result A) → submits (continue r f (m w).1).1.calls ≡ q ∷ submits w.calls
      go (ok a) = rest a (m w).1 ∙ loud
      go (err e) = loud

module _ {F W : Type 0} (s : Services F W) where
  handled_submits :
      (q : OrderRequest F) (r : Result (OrderResult F)) (w : World F W)
      → let m : Result (Option (OrderResult F)) × World F W =
          continue r (λ result. pure (some result)) w in
        submits (handle is_conflict none m.0 m.1).1.calls ≡ submits w.calls
  handled_submits q (ok result) w = refl
  handled_submits q (err e) w = ground arith

  submits-submit_or_skip :
      (q : OrderRequest F) (w : World F W)
      → submits (submit_or_skip s q w).1.calls ≡ q ∷ submits w.calls
  unfolding submit_or_skip try call
  submits-submit_or_skip q w =
      handled_submits q (s.submit q w.outside).0
        (record { outside = (s.submit q w.outside).1; calls = Call.submitted q ∷ w.calls })

  abbrev Asks : String → Side → F → OrderRequest F → Type 0
  Asks symbol side qty q = (q.symbol ≡ symbol) × (q.side ≡ side) × (q.qty ≡ qty)

  Quiet-save_outcome :
      (q : OrderRequest F) (o : Option (OrderResult F)) → Quiet (save_outcome s q o)
  unfolding save_outcome
  Quiet-save_outcome q none = λ w. refl
  Quiet-save_outcome q (some result) = Quiet-call _ _ refl

  send_order_submits :
      (symbol : String) (side : Side) (qty : F) (id : String) (w : World F W)
      → AtMostOne (Asks symbol side qty) w (send_order s symbol side qty id w).1
  unfolding send_order
  send_order_submits symbol side qty id w =
      let q : OrderRequest F = record {
        symbol = symbol;
        side = side;
        qty = qty;
        client_order_id = some id;
      } in
      inr (
        q,
        loud_first (submit_or_skip s q) (save_outcome s q) q w (submits-submit_or_skip q w)
            (Quiet-save_outcome q),
        (refl, refl, refl),
      )

  place_order_submits :
      (symbol : String) (side : Side) (qty : F) (w : World F W)
      → AtMostOne (Asks symbol side qty) w (place_order s symbol side qty w).1
  unfolding place_order
  place_order_submits symbol side qty w = go (s.fresh_id w.outside).0
    where
      after : World F W
      after = record w { outside = (s.fresh_id w.outside).1 }

      go :
          (r : Result String)
          → AtMostOne (Asks symbol side qty) w (continue r (send_order s symbol side qty) after).1
      go (ok id) = send_order_submits symbol side qty id after
      go (err e) = inl refl

  -- in the world `x`, the part of the justification that `clear_conflicting_orders` gives
  abbrev pub HasNoOrder : String → W → Type 0
  HasNoOrder symbol x = (s.find_open_orders symbol x).0 ≡ ok []

  Quiet-after_listing :
      (side : Side) (orders : List OpenOrder) → Quiet (after_listing s side orders)
  unfolding after_listing
  Quiet-after_listing side [] = λ w. refl
  Quiet-after_listing side (order ∷ rest) =
      Quiet-bind (cancel_opposite s side (order ∷ rest)) (λ _. pure false)
        (Quiet-cancel_opposite s side (order ∷ rest)) (λ _ w. refl)

  after_listing_clear :
      (side : Side) (orders : List OpenOrder) (w : World F W)
      → (after_listing s side orders w).0 ≡ ok true
      → orders ≡ []
  unfolding after_listing
  after_listing_clear side [] w h = refl
  after_listing_clear side (order ∷ rest) w h = absurd (
      stopped (cancel_opposite s side (order ∷ rest) w).0
        (cancel_opposite s side (order ∷ rest) w).1 h)
    where
      stopped :
          (r : Result (Unit {0})) (v : World F W)
          → (let out : Result Bool × World F W = continue r (λ _. pure false) v in out.0) ≡ ok true
          → ⊥
      stopped (ok _) v e = cc
      stopped (err x) v e = cc

  Quiet-clear : (symbol : String) (side : Side) → Quiet (clear_conflicting_orders s symbol side)
  unfolding clear_conflicting_orders
  Quiet-clear symbol side =
      Quiet-bind (call (Call.listed_open_orders symbol) (s.find_open_orders symbol))
        (after_listing s side) (Quiet-call _ _ refl) (Quiet-after_listing side)

  free-of-clear :
      (symbol : String) (side : Side) (w : World F W)
      → (clear_conflicting_orders s symbol side w).0 ≡ ok true
      → HasNoOrder symbol w.outside
  unfolding clear_conflicting_orders call
  free-of-clear symbol side w = go (s.find_open_orders symbol w.outside).0 refl
    where
      after : World F W
      after = record {
        outside = (s.find_open_orders symbol w.outside).1;
        calls = Call.listed_open_orders symbol ∷ w.calls;
      }

      go :
          (r : Result (List OpenOrder))
          → (s.find_open_orders symbol w.outside).0 ≡ r
          → (continue r (after_listing s side) after).0 ≡ ok true
          → HasNoOrder symbol w.outside
      go (ok orders) e h = cc (e, after_listing_clear side orders after h)
      go (err x) e h = cc

  -- what `execute_decision` needs for an order
  abbrev pub Executes : String → RiskDecision F → W → OrderRequest F → Type 0
  Executes symbol d x q =
      (q.symbol ≡ symbol)
      × (d.approved ≡ true)
      × (d.side ≡ some q.side)
      × (d.qty ≡ q.qty)
      × HasNoOrder symbol x

  submits-if_clear :
      (symbol : String) (side : Side) (qty : F) (clear : Bool) (x : W) (w : World F W)
      → (clear ≡ true → HasNoOrder symbol x)
      → AtMostOne
          (λ q. Asks symbol side qty q × HasNoOrder symbol x)
          w
          ((if clear then place_order s symbol side qty else pure tt) w).1
  submits-if_clear symbol side qty true x w ok_ = elim (place_order_submits symbol side qty w) [
    | inl same ↦ inl same
    | inr (q, more, asks) ↦ inr (q, more, (asks, ok_ refl))
  ]
  submits-if_clear symbol side qty false x w ok_ = inl refl

  execute_side_submits :
      (symbol : String) (side : Side) (qty : F) (w : World F W)
      → AtMostOne
          (λ q. Asks symbol side qty q × HasNoOrder symbol w.outside)
          w
          (execute_side s symbol side qty w).1
  unfolding execute_side
  execute_side_submits symbol side qty w =
      Quiet-first _ (clear_conflicting_orders s symbol side)
        (λ clear. if clear then place_order s symbol side qty else pure tt) w
        (Quiet-clear symbol side)
        (λ clear e.
          submits-if_clear symbol side qty clear w.outside _
            (λ t. free-of-clear symbol side w (cc (e, t))))

  pub execute_decision_submits :
      (symbol : String) (d : RiskDecision F) (w : World F W)
      → AtMostOne (Executes symbol d w.outside) w (execute_decision s symbol d w).1
  unfolding execute_decision execute_approved
  execute_decision_submits symbol d w = go d.side d.approved refl refl
    where
      go :
          (o : Option Side) (a : Bool)
          → d.side ≡ o
          → d.approved ≡ a
          → AtMostOne (Executes symbol d w.outside) w (execute_approved s symbol d.qty a o w).1
      go none a es ea = inl refl
      go (some side) true es ea = elim (execute_side_submits symbol side d.qty w) [
        | inl same ↦ inl same
        | inr (q, more, (asks, cl)) ↦ inr (q, more, (asks.0, ea, cc (es, asks.1), cc (asks.2), cl))
      ]
      go (some side) false es ea = inl refl

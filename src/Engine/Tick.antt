-- ===== src/Engine/Tick.antt =====
-- `TradingEngine.tick` and what it calls.
use carcharoth.Base.{
  String, Bool, true, false, List, [], ◌∷◌, ◌++◌, Option, none, some, if◌then◌else◌,
}
use carcharoth.Base.Eq.{string_eq}
use carcharoth.Base.Dict.{get}
use carcharoth.Base.Sort.{sort_by, string_le, dedupe}
use carcharoth.Base.Result.{Error, is_broker_error}
use carcharoth.Domain.{
  ExposureIntent, RiskDecision, OrderRequest, OrderResult, OpenOrder, AccountState, MarketSnapshot,
  Quote, MarketDataRequirements, TargetExposure, Side, same_exposure, same_side, is_filled,
}
use carcharoth.Engine.Effects.{Call, Exec, call, pure, continue, ◌>>=◌, ◌>>◌, try}
use carcharoth.Engine.Services.{Services}

-- `except OrderConflictError`
abbrev pub is_conflict : Error → Bool
is_conflict Error.order_conflict = true
is_conflict _ = false

-- `except MarketDataError`
abbrev pub is_market_data_error : Error → Bool
is_market_data_error Error.market_data_error = true
is_market_data_error _ = false

-- `except Exception`
abbrev pub any_error : Error → Bool
any_error _ = true

module _ {F W : Type 0} (s : Services F W) where
  -- one open order of `_clear_conflicting_orders`
  unfoldable pub cancel_if_opposite : Side → OpenOrder → Exec F W (Unit {0})
  cancel_if_opposite side order =
      if same_side order.side side
      then pure tt
      else try (call (Call.cancelled order.broker_order_id) (s.cancel_order order.broker_order_id))
          is_broker_error tt

  -- the loop of `_clear_conflicting_orders`
  unfoldable pub cancel_opposite : Side → List OpenOrder → Exec F W (Unit {0})
  cancel_opposite side [] = pure tt
  cancel_opposite side (order ∷ rest) = cancel_if_opposite side order >> cancel_opposite side rest

  -- the rest of `_clear_conflicting_orders`, given the open orders
  unfoldable pub after_listing : Side → List OpenOrder → Exec F W Bool
  after_listing side [] = pure true
  after_listing side (order ∷ rest) = cancel_opposite side (order ∷ rest) >> pure false

  -- `_clear_conflicting_orders`
  unfoldable pub clear_conflicting_orders : String → Side → Exec F W Bool
  clear_conflicting_orders symbol side =
      call (Call.listed_open_orders symbol) (s.find_open_orders symbol) >>= after_listing side

  -- the `try` around `submit`: `none` is the return after a conflict
  unfoldable pub submit_or_skip : OrderRequest F → Exec F W (Option (OrderResult F))
  submit_or_skip request =
      try (call (Call.submitted request) (s.submit request) >>= λ result. pure (some result))
        is_conflict none

  -- what follows a submission that did not raise
  unfoldable pub save_outcome : OrderRequest F → Option (OrderResult F) → Exec F W (Unit {0})
  save_outcome request none = pure tt
  save_outcome request (some result) =
      call (Call.saved_submitted request result) (s.save_submitted request result)

  -- from `request = OrderRequest(...)` on, once the client's id is there
  unfoldable pub send_order : String → Side → F → String → Exec F W (Unit {0})
  send_order symbol side qty client_order_id = do
    let request : OrderRequest F = record {
      symbol = symbol;
      side = side;
      qty = qty;
      client_order_id = some client_order_id;
    }
    outcome ← submit_or_skip request
    save_outcome request outcome

  unfoldable pub place_order : String → Side → F → Exec F W (Unit {0})
  place_order symbol side qty w =
      let (id, outside) = s.fresh_id w.outside in
      continue id (send_order symbol side qty) (record w { outside = outside })

  -- an approved decision with a side
  unfoldable pub execute_side : String → Side → F → Exec F W (Unit {0})
  execute_side symbol side qty = do
    clear ← clear_conflicting_orders symbol side
    (if clear then place_order symbol side qty else pure tt)

  -- `if not decision.approved or decision.side is None: return`
  unfoldable pub execute_approved : String → F → Bool → Option Side → Exec F W (Unit {0})
  execute_approved symbol qty approved none = pure tt
  execute_approved symbol qty true (some side) = execute_side symbol side qty
  execute_approved symbol qty false (some side) = pure tt

  -- what follows once the decision is saved
  unfoldable pub execute_decision : String → RiskDecision F → Exec F W (Unit {0})
  execute_decision symbol decision =
      execute_approved symbol decision.qty decision.approved decision.side

  -- from `self._risk.assess` on
  unfoldable pub assess_and_execute :
      String → ExposureIntent F → MarketSnapshot F → AccountState F → Quote F → Exec F W (Unit {0})
  assess_and_execute symbol intent snapshot state quote = do
    decision ← call (Call.assessed symbol) (s.assess intent state quote)
    call (Call.saved_decision intent (some decision))
        (s.save_decision intent (some decision) snapshot.as_of)
    execute_decision symbol decision

  -- `intent.target is UNCHANGED or quote is None`, and what follows
  unfoldable pub act_on_intent :
      String
      → ExposureIntent F
      → MarketSnapshot F
      → AccountState F
      → Option (Quote F)
      → Exec F W (Unit {0})
  act_on_intent symbol intent snapshot state none =
      call (Call.saved_decision intent none) (s.save_decision intent none snapshot.as_of)
  act_on_intent symbol intent snapshot state (some quote) =
      if same_exposure intent.target TargetExposure.unchanged
      then call (Call.saved_decision intent none) (s.save_decision intent none snapshot.as_of)
      else assess_and_execute symbol intent snapshot state quote

  -- `_process_symbol`
  unfoldable pub process_symbol : String → MarketSnapshot F → AccountState F → Exec F W (Unit {0})
  process_symbol symbol snapshot state = do
    intent ← call (Call.generated symbol) (s.generate symbol snapshot (get state.positions symbol))
    act_on_intent symbol intent snapshot state (get snapshot.quotes symbol)

  -- the loop of `tick` over the symbols
  unfoldable pub process_symbols :
      List String → MarketSnapshot F → AccountState F → Exec F W (Unit {0})
  process_symbols [] snapshot state = pure tt
  process_symbols (symbol ∷ rest) snapshot state = do
    try (process_symbol symbol snapshot state) any_error tt
    process_symbols rest snapshot state

  -- the trade of an order that is filled, once
  unfoldable pub save_unless_known : OrderResult F → Bool → Exec F W (Unit {0})
  save_unless_known result known =
      if known then pure tt else call (Call.saved_fill result) (s.save_fill result)

  unfoldable pub save_fill_once : String → OrderResult F → Exec F W (Unit {0})
  save_fill_once broker_order_id result =
      if is_filled result.status
      then call (Call.looked_up_trade broker_order_id) (s.exists_for_order broker_order_id)
        >>= save_unless_known result
      else pure tt

  -- one fetched order of `_reconcile_fills`
  unfoldable pub record_result : String → OrderResult F → Exec F W (Unit {0})
  record_result broker_order_id result = do
    call (Call.updated_order result) (s.update_from_broker result)
    save_fill_once broker_order_id result

  -- the `try` of `_reconcile_fills`: `none` is its `continue`
  unfoldable pub fetch_or_skip : String → Exec F W (Option (OrderResult F))
  fetch_or_skip broker_order_id =
      try
        (call (Call.fetched_order broker_order_id) (s.get_order broker_order_id) >>= λ result.
          pure (some result))
        any_error none

  unfoldable pub record_or_skip : String → Option (OrderResult F) → Exec F W (Unit {0})
  record_or_skip broker_order_id none = pure tt
  record_or_skip broker_order_id (some result) = record_result broker_order_id result

  unfoldable pub reconcile_all : List String → Exec F W (Unit {0})
  reconcile_all [] = pure tt
  reconcile_all (broker_order_id ∷ rest) = do
    fetched ← fetch_or_skip broker_order_id
    record_or_skip broker_order_id fetched
    reconcile_all rest

  -- `_reconcile_fills`
  unfoldable pub reconcile_fills : Exec F W (Unit {0})
  reconcile_fills = do
    ids ← call Call.listed_open_ids s.find_open_broker_order_ids
    reconcile_all ids

  -- `tick` once the snapshot is there
  unfoldable pub trade : List String → MarketSnapshot F → Exec F W (Unit {0})
  trade symbols snapshot = do
    state ← call Call.asked_account s.get_account_state
    call (Call.saved_snapshot snapshot.as_of state) (s.save_snapshot snapshot.as_of state)
    process_symbols symbols snapshot state

  -- the `try` around `get_snapshot`: `none` is the return after a `MarketDataError`
  unfoldable pub snapshot_or_abort :
      List String → MarketDataRequirements → Exec F W (Option (MarketSnapshot F))
  snapshot_or_abort symbols requirements =
      let requested = dedupe (symbols ++ sort_by string_le requirements.context_symbols) in
      try
        (call Call.asked_snapshot (s.get_snapshot requested requirements.bars) >>= λ snapshot.
          pure (some snapshot))
        is_market_data_error none

  unfoldable pub trade_or_abort : List String → Option (MarketSnapshot F) → Exec F W (Unit {0})
  trade_or_abort symbols none = pure tt
  trade_or_abort symbols (some snapshot) = trade symbols snapshot

  -- `tick`, over the symbols that the engine was built with
  unfoldable pub tick : List String → Exec F W (Unit {0})
  tick symbols = do
    reconcile_fills
    requirements ← call Call.asked_requirements s.market_requirements
    fetched ← snapshot_or_abort symbols requirements
    trade_or_abort symbols fetched

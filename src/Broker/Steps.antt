-- ===== src/Broker/Steps.antt =====
-- services/backtest/broker.py: every call of a method as a step, and what holds after any of them.
use carcharoth.Base.{String, none, some, true, arith, ◌≡◌, ◌≢◌, ◌∙◌, subst, inl, inr, Option-cases}
use carcharoth.Base.Eq.{string_eq}
use carcharoth.Base.Float.{Float, IsFloat}
use carcharoth.Base.Dict.{Dict, get, get-put_ne}
use carcharoth.Base.Result.{ok}
use carcharoth.Domain.{OrderRequest, OrderResult, is_terminal, Time, Bar}
use carcharoth.Session.{MarketZone}
use carcharoth.Broker.Account.{Broker}
use carcharoth.Broker.Orders.{accepted_order, submit, cancel_order}
use carcharoth.Broker.Fills.{mark_to_market}
use carcharoth.Broker.Invariant.{IsValid}
use carcharoth.Broker.Replay.{mark_to_market-Replays}
use carcharoth.Broker.Calls.{
  submit_inversion, submit-IsValid, cancel_order-IsValid, cancel_order-keeps,
}

module _ {F : Type 0} ⦃num : Float F⦄ ⦃zone : MarketZone⦄ where
  -- One successful call. The id of a submitted order is new, as `uuid4` promises.
  pub data Step (b b' : Broker F) : Type 0 where
    submits :
        (id : String) (r : OrderRequest F) (o : OrderResult F)
        → get b.orders id ≡ none
        → submit id r b ≡ ok (o, b')
        → Step b b'
    cancels : (id : String) → cancel_order id b ≡ ok b' → Step b b'
    marks :
        (as_of : Time) (bars : Dict String (Bar F))
        → mark_to_market as_of bars b ≡ ok b'
        → Step b b'

  pub data Reach (b : Broker F) : Broker F → Type 0 where
    here : Reach b b
    next : {c d : Broker F} → Reach b c → Step c d → Reach b d

terminal-not-pending :
    {F : Type 0} ⦃num : Float F⦄ (b : Broker F) (id : String) (o : OrderResult F)
    → IsValid b
    → get b.orders id ≡ some o
    → is_terminal o.status ≡ true
    → get b.pending id ≡ none
terminal-not-pending b id o v found final = elim (Option-cases (get b.pending id)) [
  | inl gone ↦ gone
  | inr (r, pending) ↦
      let (p, there, a) = v.book.accepted id r pending in
      absurd (ground (arith, found, there, a.status, final))
]

module _ {F : Type 0} ⦃num : Float F⦄ ⦃zone : MarketZone⦄ (laws : IsFloat F) where
  Step-IsValid : {b c : Broker F} → Step b c → IsValid b → IsValid c
  Step-IsValid (submits id r o fresh e) v = submit-IsValid id r _ _ o v e
  Step-IsValid (cancels id e) v = cancel_order-IsValid id _ _ v e
  Step-IsValid {b} {c} (marks as_of bars e) v =
      let (b', e', replay) = mark_to_market-Replays laws as_of bars b v in
      subst IsValid (ground (arith, e, e')) replay.valid

  -- After any sequence of submitted orders (each under a fresh id), cancellations and bars that
  -- starts from a valid broker, the broker is valid: pending requests and accepted orders correspond
  -- one to one and agree, every order has the fill fields of its status, and no holding has a
  -- quantity of zero.
  pub Reach-IsValid : {b c : Broker F} → IsValid b → Reach b c → IsValid c
  Reach-IsValid v here = v
  Reach-IsValid v (next r st) = Step-IsValid st (Reach-IsValid v r)

  Step_keeps_terminal :
      {b c : Broker F} (id : String) (o : OrderResult F)
      → Step b c
      → IsValid b
      → get b.orders id ≡ some o
      → is_terminal o.status ≡ true
      → get c.orders id ≡ some o
  Step_keeps_terminal {b} {c} id o (submits new r p fresh e) v found final =
      let (as_of, _, _, _, _, eb) = submit_inversion new r b c p e in
      let ne : new ≢ id = λ same. cc (fresh, found, same) in
      rw eb (get-put_ne b.orders new id (accepted_order new r as_of) ne ∙ found)
  Step_keeps_terminal {b} {c} id o (cancels i e) v found final =
      cancel_order-keeps i b c e id o found final
  Step_keeps_terminal {b} {c} id o (marks as_of bars e) v found final =
      let (b', e', replay) = mark_to_market-Replays laws as_of bars b v in
      let same : b' ≡ c = ground (arith, e, e') in
      rw (← same) (replay.orders_kept id (terminal-not-pending b id o v found final) ∙ found)

  -- An order of a valid broker that is terminal stays exactly as it is, whatever orders are
  -- submitted, cancelled or filled later.
  pub terminal_forever :
      {b c : Broker F} (id : String) (o : OrderResult F)
      → IsValid b
      → get b.orders id ≡ some o
      → is_terminal o.status ≡ true
      → Reach b c
      → get c.orders id ≡ some o
  terminal_forever id o v found final here = found
  terminal_forever id o v found final (next r st) =
      Step_keeps_terminal id o st (Reach-IsValid v r) (terminal_forever id o v found final r) final

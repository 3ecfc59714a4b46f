-- ===== src/Module.antt =====
-- bfe_module: the callback points of a request's life and the filters that modules add to them
-- (bfe_callback.go, bfe_handler_list.go, bfe_filter.go). A filter may change what it is given; a
-- session, a request and a response are any types.
pub mod Filters
pub mod Adds
pub mod Examples
use bfe.Common.{
  ℕ, ◌≡◌, Bool, true, false, Option, none, some, List, [], ◌∷◌, ◌++◌, if◌then◌else◌, map, get_elem?,
  set,
}

pub data HandlerType : Type 0 where
  handlers_accept handlers_request handlers_forward handlers_response handlers_finish : HandlerType

-- The values that a handler returns; `undefined` is any other number.
pub data Verdict : Type 0 where
  handler_finish go_on handler_redirect handler_response handler_close : Verdict
  undefined : ℕ → Verdict

abbrev pub is_go_on : Verdict → Bool
is_go_on go_on = true
is_go_on _ = false

-- The types of the lists of the callback points, by the points' numbers: HandleAccept,
-- HandleHandshake, HandleBeforeLocation, HandleFoundProduct, HandleAfterLocation, HandleForward,
-- HandleReadResponse, HandleRequestFinish, HandleFinish, HandleAfterAITargetModel.
abbrev pub point_types : List HandlerType
point_types =
    handlers_accept ∷ handlers_accept ∷ handlers_request ∷ handlers_request ∷ handlers_request
    ∷ handlers_forward ∷ handlers_response ∷ handlers_response ∷ handlers_finish ∷ handlers_request
    ∷ []

module _ (Session Request Response : Type 0) where
  -- What a module hands to AddFilter, by its Go type.
  pub data Callback : Type 0 where
    session_func : (Session → Session × Verdict) → Callback
    request_func : (Request → Request × Verdict × Option Response) → Callback
    forward_func : (Request → Request × Verdict) → Callback
    response_func : (Request × Response → (Request × Response) × Verdict) → Callback
    other_func : Callback

  -- The filters that the New...Filter functions make, by the interface that they are of.
  pub data Filter : Type 0 where
    accept_filter : (Session → Session × Verdict) → Filter
    request_filter : (Request → Request × Verdict × Option Response) → Filter
    forward_filter : (Request → Request × Verdict) → Filter
    response_filter : (Request × Response → (Request × Response) × Verdict) → Filter
    finish_filter : (Session → Session × Verdict) → Filter

  pub record HandlerList : Type 0 where
    pub handler_type : HandlerType
    pub handlers : List Filter

  -- The Go map has the points 0 to 9 as its keys.
  abbrev pub BfeCallbacks : Type 0
  BfeCallbacks = List HandlerList

  abbrev pub FilterList : Type 0
  FilterList = List Filter

-- A round: what follows the verdict of one filter.
abbrev pub after : {S : Type 0} → S × Verdict → S × Verdict → S × Verdict
after (s, v) rest = if is_go_on v then rest else (s, v)

-- The same with the response of the last filter that has run.
abbrev pub after_request :
    {Q R : Type 0} → Q × Verdict × Option R → Q × Verdict × Option R → Q × Verdict × Option R
after_request (req, v, res) rest = if is_go_on v then rest else (req, v, res)

module _ {Session Request Response : Type 0} where
  -- `default` ends the loop with the verdict so far, which is to go on.
  unfoldable pub filter_accept : FilterList Session Request Response → Session → Session × Verdict
  filter_accept [] s = (s, go_on)
  filter_accept (accept_filter f ∷ fs) s = after (f s) (filter_accept fs (f s).0)
  filter_accept (_ ∷ fs) s = (s, go_on)

  unfoldable pub filter_request :
      FilterList Session Request Response
      → Request
      → Option Response
      → Request × Verdict × Option Response
  filter_request [] req res = (req, go_on, res)
  filter_request (request_filter f ∷ fs) req res =
      after_request (f req) (filter_request fs (f req).0 (f req).2)
  filter_request (_ ∷ fs) req res = (req, go_on, res)

  unfoldable pub filter_forward : FilterList Session Request Response → Request → Request × Verdict
  filter_forward [] req = (req, go_on)
  filter_forward (forward_filter f ∷ fs) req = after (f req) (filter_forward fs (f req).0)
  filter_forward (_ ∷ fs) req = (req, go_on)

  unfoldable pub filter_response :
      FilterList Session Request Response → Request × Response → (Request × Response) × Verdict
  filter_response [] r = (r, go_on)
  filter_response (response_filter f ∷ fs) r = after (f r) (filter_response fs (f r).0)
  filter_response (_ ∷ fs) r = (r, go_on)

  unfoldable pub filter_finish : FilterList Session Request Response → Session → Session × Verdict
  filter_finish [] s = (s, go_on)
  filter_finish (finish_filter f ∷ fs) s = after (f s) (filter_finish fs (f s).0)
  filter_finish (_ ∷ fs) s = (s, go_on)

  -- The assertions of AddAcceptFilter to AddFinishFilter, and the filter that each makes. The first
  -- and the last take functions of one type.
  unfoldable pub filter_of :
      HandlerType → Callback Session Request Response → Option (Filter Session Request Response)
  filter_of handlers_accept (session_func f) = some (accept_filter f)
  filter_of handlers_request (request_func f) = some (request_filter f)
  filter_of handlers_forward (forward_func f) = some (forward_filter f)
  filter_of handlers_response (response_func f) = some (response_filter f)
  filter_of handlers_finish (session_func f) = some (finish_filter f)
  filter_of _ _ = none

  -- PushBack, or an error.
  unfoldable pub add_to_list :
      Callback Session Request Response
      → HandlerList Session Request Response
      → HandlerList Session Request Response × Bool
  unfolding filter_of
  add_to_list f hl = elim (filter_of hl.handler_type f) [
    | none ↦ (hl, false)
    | some filter ↦ (record hl { handlers = hl.handlers ++ filter ∷ [] }, true)
  ]

  abbrev pub new_handler_list : HandlerType → HandlerList Session Request Response
  new_handler_list t = record { handler_type = t; handlers = [] }

  unfoldable pub new_bfe_callbacks : BfeCallbacks Session Request Response
  new_bfe_callbacks = map new_handler_list point_types

  -- The callbacks after the call, and whether it has succeeded.
  unfoldable pub add_filter :
      ℕ
      → Callback Session Request Response
      → BfeCallbacks Session Request Response
      → BfeCallbacks Session Request Response × Bool
  unfolding add_to_list
  add_filter point f bcb = elim (get_elem? bcb point) [
    | none ↦ (bcb, false)
    | some hl ↦ let (hl', ok) = add_to_list f hl in (set bcb point hl', ok)
  ]

  unfoldable pub get_handler_list :
      ℕ → BfeCallbacks Session Request Response → Option (HandlerList Session Request Response)
  get_handler_list point bcb = get_elem? bcb point

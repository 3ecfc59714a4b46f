-- ===== src/Module/Filters.antt =====
-- What the callback points promise to the modules.
use mathlib.Core.Path.{subst}
use mathlib.Core.List.{}
use bfe.Common.{
  ℕ, zero, suc, ◌≡◌, refl, sym, ap, ◌∙◌, ◌⊎◌, inl, inr, Bool, true, false, arith, Option, some,
  List, [], ◌∷◌, ◌++◌, get_elem?, set, Bool-cases, Option-cases,
}
use bfe.Module.{
  HandlerType, Verdict, go_on, is_go_on, Filter, accept_filter, request_filter, forward_filter,
  response_filter, finish_filter, handlers_request, HandlerList, BfeCallbacks, Callback,
  handlers_accept, handlers_forward, handlers_response, handlers_finish, FilterList, point_types,
  filter_request, filter_of, add_to_list, add_filter, new_bfe_callbacks,
}

module _ {Session Request Response : Type 0} where
  -- A list of the type runs the filter: it is of the interface that the loop over the list asks for.
  unfoldable pub takes : HandlerType → Filter Session Request Response → Bool
  takes handlers_accept (accept_filter f) = true
  takes handlers_request (request_filter f) = true
  takes handlers_forward (forward_filter f) = true
  takes handlers_response (response_filter f) = true
  takes handlers_finish (finish_filter f) = true
  takes _ _ = false

  filter_of-takes :
      (t : HandlerType) (f : Callback Session Request Response)
      (x : Filter Session Request Response)
      → filter_of t f ≡ some x
      → takes t x ≡ true
  unfolding filter_of takes
  filter_of-takes t f x h = ground (arith, h)

  -- Every filter of a list is of the list's type.
  abbrev pub AllTaken : HandlerType → FilterList Session Request Response → Type 0
  AllTaken t [] = Unit
  AllTaken t (f ∷ fs) = (takes t f ≡ true) × AllTaken t fs

  -- The lists have the types of their points, and their filters have the types of the lists.
  abbrev pub AllTyped : List HandlerType → BfeCallbacks Session Request Response → Type 0
  AllTyped [] [] = Unit
  AllTyped [] (hl ∷ hls) = ⊥
  AllTyped (t ∷ ts) [] = ⊥
  AllTyped (t ∷ ts) (hl ∷ hls) = (hl.handler_type ≡ t) × AllTaken t hl.handlers × AllTyped ts hls

  AllTaken-append :
      (t : HandlerType) (fs : FilterList Session Request Response)
      (f : Filter Session Request Response)
      → AllTaken t fs
      → takes t f ≡ true
      → AllTaken t (fs ++ f ∷ [])
  AllTaken-append t [] f a h = (h, tt)
  AllTaken-append t (g ∷ fs) f a h = (a.0, AllTaken-append t fs f a.1 h)

  -- Calls of `AddFilter`, those that fail included.
  unfoldable pub add_all :
      List (ℕ × Callback Session Request Response)
      → BfeCallbacks Session Request Response
      → BfeCallbacks Session Request Response
  add_all [] bcb = bcb
  add_all ((point, f) ∷ adds) bcb = add_all adds (add_filter point f bcb).0

  add_to_list-AllTaken :
      (f : Callback Session Request Response) (hl : HandlerList Session Request Response)
      → AllTaken hl.handler_type hl.handlers
      → ((add_to_list f hl).0.handler_type ≡ hl.handler_type)
        × AllTaken hl.handler_type (add_to_list f hl).0.handlers
  unfolding add_to_list
  add_to_list-AllTaken f hl a = elim (Option-cases (filter_of hl.handler_type f)) [
    | inl e ↦ rw (add_to_list, e) (refl, a)
    | inr (x, e) ↦
        rw (add_to_list, e)
          (
            refl,
            AllTaken-append hl.handler_type hl.handlers x a (filter_of-takes hl.handler_type f x e),
          )
  ]

  set-AllTyped :
      (ts : List HandlerType) (bcb : BfeCallbacks Session Request Response) (point : ℕ)
      (hl hl' : HandlerList Session Request Response)
      → AllTyped ts bcb
      → get_elem? bcb point ≡ some hl
      → (AllTaken hl.handler_type hl.handlers
          → (hl'.handler_type ≡ hl.handler_type) × AllTaken hl.handler_type hl'.handlers)
      → AllTyped ts (set bcb point hl')
  set-AllTyped [] [] point hl hl' a g h = tt
  set-AllTyped [] (x ∷ bcb) point hl hl' a g h = absurd a
  set-AllTyped (t ∷ ts) [] point hl hl' a g h = absurd a
  set-AllTyped (t ∷ ts) (x ∷ bcb) zero hl hl' a g h =
      let same : x ≡ hl = cc in
      let typed : hl.handler_type ≡ t =
        ap (λ (y : HandlerList Session Request Response). y.handler_type) (sym same) ∙ a.0 in
      let taken : AllTaken hl.handler_type hl.handlers =
        rw typed
          (subst (λ (y : HandlerList Session Request Response). AllTaken t y.handlers) same a.1) in
      let (keeps, ok) = h taken in
      (keeps ∙ typed, subst (λ u. AllTaken u hl'.handlers) typed ok, a.2)
  set-AllTyped (t ∷ ts) (x ∷ bcb) (suc point) hl hl' a g h =
      (a.0, a.1, set-AllTyped ts bcb point hl hl' a.2 g h)

  add_filter-AllTyped :
      (ts : List HandlerType) (point : ℕ) (f : Callback Session Request Response)
      (bcb : BfeCallbacks Session Request Response)
      → AllTyped ts bcb
      → AllTyped ts (add_filter point f bcb).0
  unfolding add_filter
  add_filter-AllTyped ts point f bcb a = elim (Option-cases (get_elem? bcb point)) [
    | inl e ↦ rw (add_filter, e) a
    | inr (hl, e) ↦
        rw (add_filter, e)
          (set-AllTyped ts bcb point hl (add_to_list f hl).0 a e (add_to_list-AllTaken f hl))
  ]

  add_all-AllTyped :
      (adds : List (ℕ × Callback Session Request Response))
      (bcb : BfeCallbacks Session Request Response)
      → AllTyped point_types bcb
      → AllTyped point_types (add_all adds bcb)
  unfolding add_all
  add_all-AllTyped [] bcb a = a
  add_all-AllTyped ((point, f) ∷ adds) bcb a =
      add_all-AllTyped adds (add_filter point f bcb).0
        (add_filter-AllTyped point_types point f bcb a)

  pub add_all-new-AllTyped :
      (adds : List (ℕ × Callback Session Request Response))
      → AllTyped point_types (add_all adds new_bfe_callbacks)
  unfolding new_bfe_callbacks
  add_all-new-AllTyped adds = add_all-AllTyped adds _ (
    refl,
    tt,
    (
      refl,
      tt,
      (
        refl,
        tt,
        (refl, tt, (refl, tt, (refl, tt, (refl, tt, (refl, tt, (refl, tt, (refl, tt, tt))))))),
      ),
    ),
  )

  -- All filters say to go on, and take the request and the response from one state to another.
  abbrev pub Passes :
      FilterList Session Request Response
      → Request
      → Option Response
      → Request
      → Option Response
      → Type 0
  Passes [] req res req' res' = (req ≡ req') × (res ≡ res')
  Passes (request_filter f ∷ fs) req res req' res' =
      (is_go_on (f req).1 ≡ true) × Passes fs (f req).0 (f req).2 req' res'
  Passes (_ ∷ fs) req res req' res' = ⊥

  abbrev pub Runs : FilterList Session Request Response → Request → Option Response → Type 0
  Runs fs req res =
      ((req' : Request) × (res' : Option Response) × Passes fs req res req' res'
        × (filter_request fs req res ≡ (req', go_on, res')))
      ⊎ ((before rest : FilterList Session Request Response) × (f : Request
            → Request × Verdict × Option Response)
          × (req' : Request) × (res' : Option Response) × (fs ≡ before ++ request_filter f ∷ rest)
          × Passes before req res req' res'
          × (is_go_on (f req').1 ≡ false)
          × (filter_request fs req res ≡ f req'))

  -- A list of request filters runs them in the order in which they were added, each on the request
  -- that the one before has left. Either all say to go on; or the first that says otherwise decides,
  -- with its verdict and its response, and none after it runs.
  pub filter_request-Runs :
      (fs : FilterList Session Request Response) (req : Request) (res : Option Response)
      → AllTaken handlers_request fs
      → Runs fs req res
  unfolding filter_request takes
  filter_request-Runs [] req res a = inl (req, res, (refl, refl), refl)
  filter_request-Runs (request_filter f ∷ fs) req res a = elim (Bool-cases (is_go_on (f req).1)) [
    | inr stop ↦ inr ([], fs, f, req, res, refl, (refl, refl), stop, rw stop refl)
    | inl on ↦ elim (filter_request-Runs fs (f req).0 (f req).2 a.1) [
      | inl (r, s, p, e) ↦ inl (r, s, (on, p), rw on e)
      | inr (before, rest, g, r, s, split, p, stop, e) ↦ inr (
        request_filter f ∷ before,
        rest,
        g,
        r,
        s,
        ap (λ l. request_filter f ∷ l) split,
        (on, p),
        stop,
        rw on e,
      )
    ]
  ]
  filter_request-Runs (accept_filter f ∷ fs) req res a = cc
  filter_request-Runs (forward_filter f ∷ fs) req res a = cc
  filter_request-Runs (response_filter f ∷ fs) req res a = cc
  filter_request-Runs (finish_filter f ∷ fs) req res a = cc

-- ===== src/Module/Adds.antt =====
-- What every list of callbacks holds after any calls of `AddFilter`.
use mathlib.Core.Path.{}
use mathlib.Core.List.{append-nil, append_assoc}
use bfe.Common.{
  ℕ, zero, suc, ◌≡◌, refl, sym, ap, ◌∙◌, inl, inr, arith, none, ◌==◌, if◌then◌else◌, Option, some,
  List, [], ◌∷◌, ◌++◌, get_elem?, set, get_elem?-set_self, get_elem?-set_ne, length, map, ◌≢◌, ◌<◌,
  some_injective, Bool-cases, Option-cases,
}
use bfe.Module.{
  HandlerType, Filter, HandlerList, BfeCallbacks, Callback, FilterList, point_types, filter_of,
  get_handler_list, new_handler_list, add_to_list, add_filter, new_bfe_callbacks,
}
use bfe.Module.Filters.{AllTyped, add_all, add_all-new-AllTyped}

get-map :
    {A B : Type 0} (f : A → B) (xs : List A) (i : ℕ) (x : A)
    → get_elem? xs i ≡ some x
    → get_elem? (map f xs) i ≡ some (f x)
get-map f [] i x g = cc
get-map f (y ∷ xs) zero x g = ap (λ z. some (f z)) (some_injective y x g)
get-map f (y ∷ xs) (suc i) x g = get-map f xs i x g

module _ {Session Request Response : Type 0} where
  list_of : Option (Filter Session Request Response) → FilterList Session Request Response
  list_of none = []
  list_of (some x) = x ∷ []

  -- What one call adds to the list of a point.
  abbrev added :
      HandlerType → ℕ → ℕ → Callback Session Request Response → FilterList Session Request Response
  added t point q f = if q == point then list_of (filter_of t f) else []

  -- The filters of a point: those of the functions of its type that are added there, in their order.
  unfoldable pub wanted :
      HandlerType
      → ℕ
      → List (ℕ × Callback Session Request Response)
      → FilterList Session Request Response
  unfolding list_of filter_of
  wanted t point [] = []
  wanted t point ((q, f) ∷ adds) = added t point q f ++ wanted t point adds

  -- A list with more filters.
  abbrev pub with_more :
      HandlerList Session Request Response
      → FilterList Session Request Response
      → HandlerList Session Request Response
  with_more hl more = record hl { handlers = hl.handlers ++ more }

  add_to_list-with_more :
      (f : Callback Session Request Response) (hl : HandlerList Session Request Response)
      → (add_to_list f hl).0 ≡ with_more hl (list_of (filter_of hl.handler_type f))
  unfolding add_to_list list_of
  add_to_list-with_more f hl = elim (Option-cases (filter_of hl.handler_type f)) [
    | inl e ↦
        rw (add_to_list, e)
          (ap (λ l. record { handler_type = hl.handler_type; handlers = l })
            (sym (append-nil hl.handlers)))
    | inr (x, e) ↦ rw (add_to_list, e) refl
  ]

  get-length :
      (bcb : BfeCallbacks Session Request Response) (i : ℕ)
      (hl : HandlerList Session Request Response)
      → get_elem? bcb i ≡ some hl
      → i < length bcb
  get-length [] i hl g = cc
  get-length (x ∷ bcb) zero hl g = omega arith
  get-length (x ∷ bcb) (suc i) hl g = omega (arith, get-length bcb i hl g)

  get-add_filter :
      (q : ℕ) (f : Callback Session Request Response) (point : ℕ)
      (bcb : BfeCallbacks Session Request Response) (hl : HandlerList Session Request Response)
      → get_elem? bcb point ≡ some hl
      → get_elem? (add_filter q f bcb).0 point
        ≡ some (with_more hl (added hl.handler_type point q f))
  unfolding add_filter
  get-add_filter q f point bcb hl g = elim (Bool-cases (q == point)) [
    | inl e ↦
        let same : q ≡ point = ground (arith, e) in
        let g' : get_elem? bcb q ≡ some hl = ap (get_elem? bcb) same ∙ g in
        rw (add_filter, g', e)
          (ap (λ k. get_elem? (set bcb q (add_to_list f hl).0) k) (sym same)
            ∙ get_elem?-set_self bcb q _ (get-length bcb q hl g')
            ∙ ap some (add_to_list-with_more f hl))
    | inr e ↦
        let ne : q ≢ point = λ s. ground (arith, e, s) in
        let end : some hl ≡ some (with_more hl []) =
          ap (λ l. some (record { handler_type = hl.handler_type; handlers = l }))
            (sym (append-nil hl.handlers)) in
        elim (Option-cases (get_elem? bcb q)) [
          | inl f' ↦ rw (add_filter, f', e) (g ∙ end)
          | inr (x, f') ↦
              rw (add_filter, f', e) (get_elem?-set_ne bcb (add_to_list f x).0 ne ∙ g ∙ end)
        ]
  ]

  get-add_all :
      (adds : List (ℕ × Callback Session Request Response)) (point : ℕ)
      (bcb : BfeCallbacks Session Request Response) (hl : HandlerList Session Request Response)
      → get_elem? bcb point ≡ some hl
      → get_elem? (add_all adds bcb) point ≡ some (with_more hl (wanted hl.handler_type point adds))
  unfolding add_all wanted
  get-add_all [] point bcb hl g =
      g
      ∙ ap (λ l. some (record { handler_type = hl.handler_type; handlers = l }))
          (sym (append-nil hl.handlers))
  get-add_all ((q, f) ∷ adds) point bcb hl g =
      get-add_all adds point (add_filter q f bcb).0 (with_more hl (added hl.handler_type point q f))
        (get-add_filter q f point bcb hl g)
      ∙ ap (λ l. some (record { handler_type = hl.handler_type; handlers = l }))
          (append_assoc hl.handlers (added hl.handler_type point q f)
            (wanted hl.handler_type point adds))

  -- Whatever functions the modules add, and at whatever points, the list of every point keeps the
  -- type of the point, and holds filters of that type only: those of the functions of the right type
  -- that are added at the point, each once, in the order of the calls. All other calls change nothing.
  pub get-add_all-new :
      (adds : List (ℕ × Callback Session Request Response))
      → AllTyped point_types (add_all adds new_bfe_callbacks)
        × ((point : ℕ) (t : HandlerType)
            → get_elem? point_types point ≡ some t
            → get_handler_list point (add_all adds new_bfe_callbacks)
              ≡ some (record { handler_type = t; handlers = wanted t point adds }))
  unfolding new_bfe_callbacks get_handler_list
  get-add_all-new adds = (
    add_all-new-AllTyped adds,
    λ point t g.
        get-add_all adds point new_bfe_callbacks (new_handler_list t)
          (get-map new_handler_list point_types point t g),
  )

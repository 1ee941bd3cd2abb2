-- ===== src/Context/Refinement.antt =====
-- src/context.rs: sequences of calls of the type-erased store, against a function from types to
-- optional values.
use mathlib.Core.Option
use pingora_guide.Base.{
  ◌≡◌, refl, ap, ◌∙◌, Bool, Option, none, some, List, [], ◌∷◌, Outcome, ok, err, panic, Act, arith,
  is_some, ◌==◌, if◌then◌else◌, Option-cases, inl, inr,
}
use pingora_guide.Base.Dict
use pingora_guide.Base.Dict.{lookup-insert, lookup-remove, lookup-nil}
use pingora_guide.Pingora.{Pingora}
use pingora_guide.Context.Boxes.{TypeId, type_id_eq, type_id_beq_iff, Boxed, Any}
use pingora_guide.Context.Store.{GatewayContext, new, insert, get, get_mut, remove, exists, update}
use pingora_guide.Context.Laws.{IsTyped, insert_replaces, remove_takes, update-IsTyped}

module _ (P : Pingora) where
  -- A call of a method, at any type that the store may hold; `modify` is `get_mut` and a write.
  pub data Op : Type 1 where
    put : (T : Type 0) → Any P T → T → Op
    look take has : (T : Type 0) → Any P T → Op
    modify : (T : Type 0) → Any P T → (T → T) → Op

  pub data Answer : Type 0 where
    value : Option (Boxed P) → Answer
    flag : Bool → Answer
    done : Answer

  -- What a call of `insert` or `remove` gave, boxed again.
  abbrev boxed : {E T : Type 0} → Any P T → Outcome E (Option T) → Outcome E Answer
  boxed a (ok o) = ok (value (Option.map a.box o))
  boxed a (err e) = err e
  boxed a (panic message) = panic message

  unfoldable pub call : {E : Type 0} → Op → Act (GatewayContext P) E Answer
  call (put T a v) c = let (r, c') = insert ⦃a = a⦄ v c in (boxed a r, c')
  call (look T a) c = (ok (value (Option.map a.box (get T ⦃a = a⦄ c))), c)
  call (take T a) c = let (r, c') = remove T ⦃a = a⦄ c in (boxed a r, c')
  call (has T a) c = (ok (flag (exists T ⦃a = a⦄ c)), c)
  call (modify T a f) c = (ok done, update T ⦃a = a⦄ f c)

  unfoldable pub calls : {E : Type 0} → List Op → Act (GatewayContext P) E (List Answer)
  calls [] c = (ok [], c)
  calls (op ∷ ops) c =
      let (r, c') = call op c in
      elim r [
        | ok answer ↦
            let (rs, c'') = calls ops c' in
            (
              elim rs [ ok answers ↦ ok (answer ∷ answers) | err e ↦ err e | panic m ↦ panic m ],
              c'',
            )
        | err e ↦ (err e, c')
        | panic m ↦ (panic m, c')
      ]

  -- The specification: for each type at most one value.
  abbrev pub View : Type 0
  View = TypeId → Option (Boxed P)

  abbrev written : {T : Type 0} → Any P T → (T → T) → Boxed P → Boxed P
  written a f b = elim (a.downcast b) [ none ↦ b | some v ↦ a.box (f v) ]

  unfoldable pub spec : Op → View → Answer × View
  spec (put T a v) view =
      (value (view a.type_id), λ t. if a.type_id == t then some (a.box v) else view t)
  spec (look T a) view = (value (view a.type_id), view)
  spec (take T a) view = (value (view a.type_id), λ t. if a.type_id == t then none else view t)
  spec (has T a) view = (flag (is_some (view a.type_id)), view)
  spec (modify T a f) view =
      (done, λ t. if a.type_id == t then Option.map (written a f) (view t) else view t)

  unfoldable pub specs : List Op → View → List Answer × View
  specs [] view = ([], view)
  specs (op ∷ ops) view =
      let (answer, view') = spec op view in
      let (answers, view'') = specs ops view' in (answer ∷ answers, view'')

  Shows : GatewayContext P → View → Type 0
  Shows c view = (t : TypeId) → Dict.lookup t c ≡ view t

  get_boxed :
      (T : Type 0) ⦃a : Any P T⦄ (c : GatewayContext P)
      → IsTyped c
      → Option.map a.box (get T c) ≡ Dict.lookup a.type_id c
  unfolding get
  get_boxed T ⦃a⦄ c h = elim (Option-cases (Dict.lookup a.type_id c)) [
    | inl e ↦ rw (e, get)
    | inr (b, e) ↦
        let (v, same) = a.downcast_total b (h a.type_id b e) in rw (e, get, same, a.downcast-box v)
  ]

  lookup-update :
      (T : Type 0) ⦃a : Any P T⦄ (f : T → T) (t : TypeId) (c : GatewayContext P)
      → Dict.lookup t (update T f c)
        ≡ (if a.type_id == t then Option.map (written a f) (Dict.lookup t c) else Dict.lookup t c)
  unfolding update get_mut
  lookup-update T ⦃a⦄ f t c = elim (Option-cases (Dict.lookup a.type_id c)) [
    | inl e ↦ ground (arith, e, type_id_beq_iff a.type_id t)
    | inr (b, e) ↦ elim (Option-cases (a.downcast b)) [
      | inl d ↦ ground (arith, e, d, type_id_beq_iff a.type_id t)
      | inr (v, d) ↦
          ground
            (arith, e, d, type_id_beq_iff a.type_id t, lookup-insert t a.type_id (a.box (f v)) c)
    ]
  ]

  -- Type safety: in a context where every value is stored under its own type, no call panics or fails,
  -- and every value is stored under its own type afterwards.
  pub call-IsTyped :
      (E : Type 0) (op : Op) (c : GatewayContext P)
      → IsTyped c
      → ((answer : Answer) × ((call {E = E} op c).0 ≡ ok answer)) × IsTyped (call {E = E} op c).1
  unfolding call
  call-IsTyped E (put T a v) c h =
      let (gives, _, typed) = insert_replaces E ⦃a = a⦄ v c h in ((_, ap (boxed a) gives), typed)
  call-IsTyped E (look T a) c h = ((_, refl), h)
  call-IsTyped E (take T a) c h =
      let (gives, _, _, typed) = remove_takes E ⦃a = a⦄ c h in ((_, ap (boxed a) gives), typed)
  call-IsTyped E (has T a) c h = ((_, refl), h)
  call-IsTyped E (modify T a f) c h = ((_, refl), update-IsTyped T ⦃a = a⦄ f c h)

  call-Shows :
      (E : Type 0) (op : Op) (c : GatewayContext P) (view : View)
      → IsTyped c
      → Shows c view
      → ((call {E = E} op c).0 ≡ ok (spec op view).0) × Shows (call {E = E} op c).1 (spec op view).1
  unfolding call spec Shows insert remove exists Dict.contains_key
  call-Shows E (put T a v) c view h shows =
      let (gives, _, _) = insert_replaces E ⦃a = a⦄ v c h in
      (
        ap (boxed a) gives ∙ ap (λ o. ok (value o)) (get_boxed T ⦃a = a⦄ c h ∙ shows a.type_id),
        λ t.
            lookup-insert t a.type_id (a.box v) c
            ∙ ap (λ o. if a.type_id == t then some (a.box v) else o) (shows t),
      )
  call-Shows E (look T a) c view h shows =
      (ap (λ o. ok (value o)) (get_boxed T ⦃a = a⦄ c h ∙ shows a.type_id), shows)
  call-Shows E (take T a) c view h shows =
      let (gives, _, _, _) = remove_takes E ⦃a = a⦄ c h in
      (
        ap (boxed a) gives ∙ ap (λ o. ok (value o)) (get_boxed T ⦃a = a⦄ c h ∙ shows a.type_id),
        λ t. lookup-remove t a.type_id c ∙ ap (λ o. if a.type_id == t then none else o) (shows t),
      )
  call-Shows E (has T a) c view h shows = (ap (λ o. ok (flag (is_some o))) (shows a.type_id), shows)
  call-Shows E (modify T a f) c view h shows = (
    refl,
    λ t.
        lookup-update T ⦃a = a⦄ f t c
        ∙ ap (λ o. if a.type_id == t then Option.map (written a f) o else o) (shows t),
  )

  calls-Shows :
      (E : Type 0) (ops : List Op) (c : GatewayContext P) (view : View)
      → IsTyped c
      → Shows c view
      → ((calls {E = E} ops c).0 ≡ ok (specs ops view).0)
        × Shows (calls {E = E} ops c).1 (specs ops view).1
  unfolding calls specs
  calls-Shows E [] c view h shows = (refl, shows)
  calls-Shows E (op ∷ ops) c view h shows =
      let (answers, shows') = call-Shows E op c view h shows in
      let (_, typed) = call-IsTyped E op c h in
      let (later, shows'') =
        calls-Shows E ops (call {E = E} op c).1 (spec op view).1 typed shows' in
      (ground (arith, answers, later), rw (answers, calls) shows'')

  -- Every sequence of calls on a new context answers, without a panic, what the specification answers,
  -- which keeps at most one value for each type, and leaves the context with the values that the
  -- specification has.
  pub calls-specs :
      (E : Type 0) (ops : List Op)
      → ((calls {E = E} ops (new P)).0 ≡ ok (specs ops (λ t. none)).0)
        × ((t : TypeId) → Dict.lookup t (calls {E = E} ops (new P)).1 ≡ (specs ops (λ t. none)).1 t)
  unfolding Shows
  calls-specs E ops =
      calls-Shows E ops (new P) (λ t. none)
        (λ t b e. absurd (ground (arith, lookup-nil {V = Boxed P} t))) (λ t. lookup-nil t)

-- ===== src/Context/Store.antt =====
-- src/context.rs: `GatewayContext` and its methods.
use pingora_guide.Base.{Bool, Option, none, some, [], Act, Outcome, ok, panic}
use pingora_guide.Base.Dict
use pingora_guide.Base.Dict.{Dict}
use pingora_guide.Pingora.{Pingora}
use pingora_guide.Context.Boxes.{TypeId, type_id_eq, Boxed, Any}

abbrev pub GatewayContext : Pingora → Type 0
GatewayContext P = Dict TypeId (Boxed P)

-- `GatewayContext::new`
abbrev pub new : (P : Pingora) → GatewayContext P
new P = []

module _ {P : Pingora} where
  -- `downcast::<T>().expect(…)` on what the map gave back
  unfoldable pub unbox :
      {E : Type 0} (T : Type 0) ⦃a : Any P T⦄ → Option (Boxed P) → Outcome E (Option T)
  unbox T ⦃a⦄ none = ok none
  unbox T ⦃a⦄ (some boxed) = elim (a.downcast boxed) [
    | some v ↦ ok (some v)
    | none ↦ panic "GatewayContext: TypeId mismatch"
  ]

  unfoldable pub insert : {E T : Type 0} ⦃a : Any P T⦄ → T → Act (GatewayContext P) E (Option T)
  unfolding unbox
  insert {T} ⦃a⦄ val c =
      let old_boxed = Dict.lookup a.type_id c in
      (unbox T old_boxed, Dict.insert a.type_id (a.box val) c)

  unfoldable pub get : (T : Type 0) ⦃a : Any P T⦄ → GatewayContext P → Option T
  get T ⦃a⦄ c = elim (Dict.lookup a.type_id c) [ none ↦ none | some boxed ↦ a.downcast boxed ]

  -- A `&mut T` is the value with the write that goes through the reference.
  unfoldable pub get_mut :
      (T : Type 0) ⦃a : Any P T⦄ → GatewayContext P → Option (T × (T → GatewayContext P))
  get_mut T ⦃a⦄ c = elim (Dict.lookup a.type_id c) [
    | none ↦ none
    | some boxed ↦ elim (a.downcast boxed) [
      | none ↦ none
      | some v ↦ some (v, λ w. Dict.insert a.type_id (a.box w) c)
    ]
  ]

  unfoldable pub remove :
      {E : Type 0} (T : Type 0) ⦃a : Any P T⦄ → Act (GatewayContext P) E (Option T)
  unfolding unbox
  remove T ⦃a⦄ c =
      let removed = Dict.lookup a.type_id c in (unbox T removed, Dict.remove a.type_id c)

  unfoldable pub exists : (T : Type 0) ⦃a : Any P T⦄ → GatewayContext P → Bool
  exists T ⦃a⦄ c = Dict.contains_key a.type_id c

  -- What the body `f` does to the value behind `get_mut`, where there is one.
  unfoldable pub update : (T : Type 0) ⦃a : Any P T⦄ → (T → T) → GatewayContext P → GatewayContext P
  unfolding get_mut
  update T f c = elim (get_mut T c) [ none ↦ c | some (v, write) ↦ write (f v) ]

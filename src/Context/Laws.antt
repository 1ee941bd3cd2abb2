-- ===== src/Context/Laws.antt =====
-- src/context.rs: the laws of the type-erased store, for every two types that it can hold.
use pingora_guide.Base.{◌≡◌, ◌≢◌, false, none, some, arith, ok, Option-cases, inl, inr}
use mathlib.Core.Option
use pingora_guide.Base.Dict
use pingora_guide.Base.Dict.{lookup-insert, lookup-remove}
use pingora_guide.Pingora.{Pingora}
use pingora_guide.Context.Boxes.{TypeId, type_id_eq, type_id_beq_iff, Boxed, Any, type_id_of}
use pingora_guide.Context.Store.{
  GatewayContext, unbox, insert, get, get_mut, remove, exists, update,
}

-- Every box is stored under its own type.
abbrev pub IsTyped : {P : Pingora} → GatewayContext P → Type 0
IsTyped {P} c = (t : TypeId) (b : Boxed P) → Dict.lookup t c ≡ some b → type_id_of P b ≡ t

module _ {P : Pingora} (E : Type 0) {T : Type 0} ⦃a : Any P T⦄ where
  unbox_typed :
      (c : GatewayContext P) → IsTyped c → unbox {E = E} T (Dict.lookup a.type_id c) ≡ ok (get T c)
  unfolding unbox get
  unbox_typed c h = elim (Option-cases (Dict.lookup a.type_id c)) [
    | inl e ↦ rw (e, unbox, get)
    | inr (b, e) ↦
        let (v, same) = a.downcast_total b (h a.type_id b e) in
        rw (e, unbox, get, same, a.downcast-box v)
  ]

  pub insert-IsTyped : (v : T) (c : GatewayContext P) → IsTyped c → IsTyped (insert {E = E} v c).1
  unfolding insert
  insert-IsTyped v c h t b e = ground (
    arith,
    lookup-insert t a.type_id (a.box v) c,
    type_id_beq_iff a.type_id t,
    a.type_id-box v,
    h t b,
  )

  pub get-insert_self : (v : T) (c : GatewayContext P) → get T (insert {E = E} v c).1 ≡ some v
  unfolding insert get
  get-insert_self v c = ground (
    arith,
    lookup-insert a.type_id a.type_id (a.box v) c,
    type_id_beq_iff a.type_id a.type_id,
    a.downcast-box v,
  )

  -- In a typed context `insert` does not panic: it returns the value that was there before, the
  -- new value is the one that `get` finds, and the context stays typed.
  pub insert_replaces :
      (v : T) (c : GatewayContext P)
      → IsTyped c
      → ((insert {E = E} v c).0 ≡ ok (get T c))
        × (get T (insert {E = E} v c).1 ≡ some v)
        × IsTyped (insert {E = E} v c).1
  unfolding insert
  insert_replaces v c h = (unbox_typed c h, get-insert_self v c, insert-IsTyped v c h)

  -- In a typed context `remove` does not panic: it returns the value that was there, afterwards
  -- there is none, `exists` says so, and the context stays typed.
  pub remove_takes :
      (c : GatewayContext P)
      → IsTyped c
      → ((remove {E = E} T c).0 ≡ ok (get T c))
        × (get T (remove {E = E} T c).1 ≡ none)
        × (exists T (remove {E = E} T c).1 ≡ false)
        × IsTyped (remove {E = E} T c).1
  unfolding remove get exists Dict.contains_key
  remove_takes c h = (
    unbox_typed c h,
    ground (arith, lookup-remove a.type_id a.type_id c, type_id_beq_iff a.type_id a.type_id),
    ground (arith, lookup-remove a.type_id a.type_id c, type_id_beq_iff a.type_id a.type_id),
    λ t b e. ground (arith, lookup-remove t a.type_id c, type_id_beq_iff a.type_id t, h t b),
  )

  -- Inserting or removing a value of one type leaves what `get` finds of every other type.
  pub get_of_other :
      {U : Type 0} ⦃b : Any P U⦄ (v : T) (c : GatewayContext P)
      → a.type_id ≢ b.type_id
      → (get U (insert {E = E} v c).1 ≡ get U c) × (get U (remove {E = E} T c).1 ≡ get U c)
  unfolding insert remove get
  get_of_other ⦃b⦄ v c differ = (
    ground
        (arith, lookup-insert b.type_id a.type_id (a.box v) c, type_id_beq_iff a.type_id b.type_id),
    ground (arith, lookup-remove b.type_id a.type_id c, type_id_beq_iff a.type_id b.type_id),
  )

-- `get_mut` gives what `get` finds, and its write is that of `insert`.
pub get_mut-of_get :
    {P : Pingora} (E T : Type 0) ⦃a : Any P T⦄ (c : GatewayContext P) {v : T}
    → get T c ≡ some v
    → get_mut T c ≡ some (v, λ x. (insert {E = E} x c).1)
unfolding get get_mut insert
get_mut-of_get E T ⦃a⦄ c found = elim (Option-cases (Dict.lookup a.type_id c)) [
  | inl e ↦ ground arith
  | inr (b, e) ↦ elim (Option-cases (a.downcast b)) [
    | inl d ↦ ground arith
    | inr (v, d) ↦ ground arith
  ]
]

pub get_mut-of_none :
    {P : Pingora} (T : Type 0) ⦃a : Any P T⦄ (c : GatewayContext P)
    → get T c ≡ none
    → get_mut T c ≡ none
unfolding get get_mut
get_mut-of_none T ⦃a⦄ c missing = ground arith

-- A write through the reference that `get_mut` gives is what `get` finds afterwards; where there is
-- no value nothing is written; and what `get` finds of every other type stays.
pub get-update :
    {P : Pingora} (T U : Type 0) ⦃a : Any P T⦄ ⦃b : Any P U⦄ (f : T → T) (c : GatewayContext P)
    → a.type_id ≢ b.type_id
    → (get T (update T f c) ≡ Option.map f (get T c)) × (get U (update T f c) ≡ get U c)
unfolding update get
get-update T U ⦃a⦄ ⦃b⦄ f c differ = elim (Option-cases (Dict.lookup a.type_id c)) [
  | inl e ↦ (ground arith, ground arith)
  | inr (x, e) ↦ elim (Option-cases (a.downcast x)) [
    | inl d ↦ (ground arith, ground arith)
    | inr (v, d) ↦ (
      ground (
        arith,
        lookup-insert a.type_id a.type_id (a.box (f v)) c,
        type_id_beq_iff a.type_id a.type_id,
        a.downcast-box (f v),
      ),
      ground (
        arith,
        lookup-insert b.type_id a.type_id (a.box (f v)) c,
        type_id_beq_iff a.type_id b.type_id,
      ),
    )
  ]
]

pub update-IsTyped :
    {P : Pingora} (T : Type 0) ⦃a : Any P T⦄ (f : T → T) (c : GatewayContext P)
    → IsTyped c
    → IsTyped (update T f c)
unfolding update
update-IsTyped T ⦃a⦄ f c h t b e = elim (Option-cases (Dict.lookup a.type_id c)) [
  | inl p ↦ ground (arith, h t b)
  | inr (x, p) ↦ elim (Option-cases (a.downcast x)) [
    | inl d ↦ ground (arith, h t b)
    | inr (v, d) ↦ ground (
      arith,
      lookup-insert t a.type_id (a.box (f v)) c,
      type_id_beq_iff a.type_id t,
      a.type_id-box (f v),
      h t b,
    )
  ]
]
